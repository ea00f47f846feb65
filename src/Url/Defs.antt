-- ===== src/Url/Defs.antt =====
-- `hex2int` and the loop over a value in `urldecode` (src/server/urldecode.c). A char is its code, below
-- 128, and the result of a char has 8 bits. The list is the text from `src` to `end`; the loop stops at
-- the `&` behind the value. The source writes the result over the text, never ahead of where it reads.
use dnbd.Base.{
  ℕ, zero, suc, ◌+◌, ◌-◌, ◌*◌, ◌%◌, ◌||◌, Option, none, some, List, [], ◌∷◌, ltb, leb, ◌==◌,
  if◌then◌else◌,
}

-- `hex2int`, with `none` for `goto normie`.
unfoldable pub hex2int : ℕ → Option ℕ
hex2int a =
    if leb 97 a
    then some ((a + 256 - 22) % 256)
    else if ltb 70 a
    then none
    else if leb 65 a
    then some (a - 55)
    else if ltb a 48 || ltb 57 a
    then none
    else some (a - 48)

-- The two digits behind a percent sign.
unfoldable pub hex_pair : ℕ → ℕ → Option ℕ
unfolding hex2int
hex_pair a b = if ltb 102 a || ltb 102 b then none else elim (hex2int a) [
  | none ↦ none
  | some x ↦ elim (hex2int b) [ none ↦ none | some y ↦ some ((16 * x + y) % 256) ]
]

abbrev pub percent : ℕ
percent = 37

-- The step behind a char that is no escape: `+` is a blank.
abbrev pub plain_char : ℕ → ℕ
plain_char c = if c == 43 then 32 else c

-- The loop, for the rounds left; each reads at least one char.
unfoldable pub decode_value : ℕ → List ℕ → List ℕ
unfolding hex_pair
decode_value zero text = []
decode_value (suc n) [] = []
decode_value (suc n) (c ∷ []) = if c == 38 then [] else plain_char c ∷ []
decode_value (suc n) (c ∷ a ∷ []) =
    let rest = decode_value n (a ∷ []) in if c == 38 then [] else plain_char c ∷ rest
decode_value (suc n) (c ∷ a ∷ b ∷ text) =
    let rest = decode_value n (a ∷ b ∷ text) in
    let behind = decode_value n text in
    if c == 38
    then []
    else if c == percent
    then elim (hex_pair a b) [ none ↦ c ∷ rest | some x ↦ x ∷ behind ]
    else plain_char c ∷ rest
