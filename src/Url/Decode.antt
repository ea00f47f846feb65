-- ===== src/Url/Decode.antt =====
-- A text that is escaped with upper-case digits is decoded to what it was.
use dnbd.Base.{
  ℕ, zero, suc, ◌+◌, ◌/◌, ◌%◌, ◌≤◌, ◌<◌, ◌≡◌, refl, ap, true, false, ◌||◌, some, List, [], ◌∷◌, ltb,
  leb, if◌then◌else◌, length, All, arith, Bool-cases, inl, inr,
}
use dnbd.Url.Defs.{hex2int, hex_pair, percent, decode_value}

-- An upper-case hexadecimal digit, and the escape of a byte.
abbrev pub digit : ℕ → ℕ
digit d = if ltb d 10 then 48 + d else 55 + d

abbrev pub escape : List ℕ → List ℕ
escape [] = []
escape (x ∷ xs) = percent ∷ digit (x / 16) ∷ digit (x % 16) ∷ escape xs

hex2int-digit : (d : ℕ) → d < 16 → hex2int (digit d) ≡ some d
unfolding hex2int
hex2int-digit d h = elim (Bool-cases (ltb d 10)) [
  | inl t ↦
      let a : leb 97 (48 + d) ≡ false = ground arith in
      let b : ltb 70 (48 + d) ≡ false = ground arith in
      let c : leb 65 (48 + d) ≡ false = ground arith in
      let e : (ltb (48 + d) 48 || ltb 57 (48 + d)) ≡ false = ground arith in
      rw (t, a, b, c, e) (ap some (omega arith))
  | inr f ↦
      let a : leb 97 (55 + d) ≡ false = ground arith in
      let b : ltb 70 (55 + d) ≡ false = ground arith in
      let c : leb 65 (55 + d) ≡ true = ground arith in rw (f, a, b, c) (ap some (omega arith))
]

digit_small : (d : ℕ) → d < 16 → ltb 102 (digit d) ≡ false
digit_small d h = ground arith

hex_pair-digit : (x : ℕ) → x < 256 → hex_pair (digit (x / 16)) (digit (x % 16)) ≡ some x
unfolding hex_pair
hex_pair-digit x h =
    let hi : x / 16 < 16 = omega arith in
    let lo : x % 16 < 16 = omega arith in
    let small : (ltb 102 (digit (x / 16)) || ltb 102 (digit (x % 16))) ≡ false =
      rw (digit_small (x / 16) hi, digit_small (x % 16) lo) refl in
    rw (small, hex2int-digit (x / 16) hi, hex2int-digit (x % 16) lo) (ap some (omega arith))

-- urldecode, on a value all of whose bytes are escaped with upper-case digits: the loop, with a round for
-- each char, decodes it to the bytes.
pub decode_value-escape :
    (xs : List ℕ) (n : ℕ)
    → All (λ x. x < 256) xs
    → length (escape xs) ≤ n
    → decode_value n (escape xs) ≡ xs
unfolding decode_value
decode_value-escape [] zero h l = refl
decode_value-escape [] (suc n) h l = refl
decode_value-escape (x ∷ xs) zero h l = absurd (omega arith)
decode_value-escape (x ∷ xs) (suc n) h l =
    rw (hex_pair-digit x h.0) (ap (λ l. x ∷ l) (decode_value-escape xs n h.1 (omega arith)))
