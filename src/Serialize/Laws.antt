-- ===== src/Serialize/Laws.antt =====
-- What is written is read back, one item at a time.
use mathlib.Core.List.{append_assoc}
use dnbd.Base.{
  ℕ, zero, suc, ◌+◌, ◌-◌, ◌/◌, ◌^◌, ◌<◌, ◌≤◌, ◌≡◌, ◌≢◌, refl, sym, ap, ◌∙◌, some, List, [], ◌∷◌,
  ◌++◌, All, arith, ltb, leb, Bool-cases, inl, inr, length, length-append, take, drop, get_or,
}
use native.Mathlib.Nat.{pow-suc}
use dnbd.Serialize.Defs.{Buffer, decode, encode, get_uint, scan_string, get_string, copy, put_bytes}

-- What was written so far, and what is still to be read.
abbrev pub written : Buffer → List ℕ
written b = take b.pos b.bytes

abbrev pub remaining : Buffer → List ℕ
remaining b = drop b.pos b.bytes

module _ {ℓ} {A : Type ℓ} where
  pub take-append : (xs ys : List A) → take (length xs) (xs ++ ys) ≡ xs
  take-append [] ys = refl
  take-append (x ∷ xs) ys = ap (◌∷◌ x) (take-append xs ys)

  pub drop-append : (xs ys : List A) → drop (length xs) (xs ++ ys) ≡ ys
  drop-append [] ys = refl
  drop-append (x ∷ xs) ys = drop-append xs ys

  drop-nil : (n : ℕ) → drop {A = A} n [] ≡ []
  drop-nil zero = refl
  drop-nil (suc n) = refl

  drop-drop : (m n : ℕ) (xs : List A) → drop (m + n) xs ≡ drop n (drop m xs)
  drop-drop zero n xs = ap (λ k. drop k xs) (omega arith)
  drop-drop (suc m) n [] = drop-nil (suc m + n) ∙ sym (drop-nil n)
  drop-drop (suc m) n (x ∷ xs) =
      let e : suc m + n ≡ suc (m + n) = omega arith in
      ap (λ k. drop k (x ∷ xs)) e ∙ drop-drop m n xs

  length-take_le : (n : ℕ) (xs : List A) → n ≤ length xs → length (take n xs) ≡ n
  length-take_le zero xs h = refl
  length-take_le (suc n) [] h = absurd (omega arith)
  length-take_le (suc n) (x ∷ xs) h = ap suc (length-take_le n xs (omega arith))

  get_or-drop : (xs : List A) (n i : ℕ) (d : A) → get_or (drop n xs) i d ≡ get_or xs (n + i) d
  get_or-drop xs zero i d = ap (λ k. get_or xs k d) (omega arith)
  get_or-drop [] (suc n) i d = refl
  get_or-drop (x ∷ xs) (suc n) i d =
      let e : suc n + i ≡ suc (n + i) = omega arith in
      get_or-drop xs n i d ∙ sym (ap (λ k. get_or (x ∷ xs) k d) e)

  length-drop_le : (n : ℕ) (xs : List A) → n ≤ length xs → length (drop n xs) + n ≡ length xs
  length-drop_le zero xs h = omega arith
  length-drop_le (suc n) [] h = absurd (omega arith)
  length-drop_le (suc n) (x ∷ xs) h = omega (arith, length-drop_le n xs (omega arith))

  get_or-append : (xs ys : List A) (d : A) → get_or (xs ++ ys) (length xs) d ≡ get_or ys 0 d
  get_or-append [] ys d = refl
  get_or-append (x ∷ xs) ys d = get_or-append xs ys d

pub length-encode : (n v : ℕ) → length (encode n v) ≡ n
length-encode zero v = refl
length-encode (suc n) v = ap suc (length-encode n (v / 256))

pub decode-encode : (n v : ℕ) → v < 256 ^ n → decode (encode n v) ≡ v
decode-encode zero v h = omega arith
decode-encode (suc n) v h = omega (arith, decode-encode n (v / 256) (omega (arith, pow-suc 256 n)))

-- After a successful `serializer_put`: the text has grown by `xs`.
pub record Wrote (b : Buffer) (xs : List ℕ) (b' : Buffer) : Type 0 where
  pub text : written b' ≡ written b ++ xs
  pub pos : b'.pos ≡ b.pos + length xs
  pub end : b'.end ≡ b.end
  pub size : length b'.bytes ≡ length b.bytes

pub put_bytes-Wrote :
    (xs : List ℕ) (b : Buffer)
    → b.pos + length xs ≤ b.end
    → b.end ≤ length b.bytes
    → Wrote b xs (put_bytes xs b)
put_bytes-Wrote xs b fits room = elim (Bool-cases (ltb b.end (b.pos + length xs))) [
  | inl t ↦ absurd (ground arith)
  | inr t ↦ rw t (record {
    text =
        let front : length (take b.pos b.bytes ++ xs) ≡ b.pos + length xs = omega (
          arith,
          length-append (take b.pos b.bytes) xs,
          length-take_le b.pos b.bytes (omega arith),
        ) in
        let shape = sym (append_assoc (take b.pos b.bytes) xs (drop (b.pos + length xs) b.bytes)) in
        ap (λ k. take k (copy b xs).bytes) (sym front)
        ∙ (ap (take (length (take b.pos b.bytes ++ xs))) shape
            ∙ take-append (take b.pos b.bytes ++ xs) _);
    pos = refl;
    end = refl;
    size = omega (
      arith,
      length-append (take b.pos b.bytes) (xs ++ drop (b.pos + length xs) b.bytes),
      length-append xs (drop (b.pos + length xs) b.bytes),
      length-take_le b.pos b.bytes (omega arith),
      length-drop_le (b.pos + length xs) b.bytes (omega arith),
    );
  })
]

-- A number that is next in the data is read, if it lies before the end.
pub get_uint-encode :
    (n v : ℕ) (more : List ℕ) (b : Buffer)
    → v < 256 ^ n
    → b.pos + n ≤ b.end
    → remaining b ≡ encode n v ++ more
    → (get_uint n b ≡ (v, record b { pos = b.pos + n })) × (drop (b.pos + n) b.bytes ≡ more)
unfolding get_uint
get_uint-encode n v more b hv fits next =
    let cut : take n (encode n v ++ more) ≡ encode n v =
      ap (λ k. take k (encode n v ++ more)) (sym (length-encode n v))
      ∙ take-append (encode n v) more in
    let past : drop n (encode n v ++ more) ≡ more =
      ap (λ k. drop k (encode n v ++ more)) (sym (length-encode n v))
      ∙ drop-append (encode n v) more in
    (
      ground (arith, ap decode (ap (take n) next ∙ cut), decode-encode n v hv),
      drop-drop b.pos n b.bytes ∙ (ap (drop n) next ∙ past),
    )

-- A string of bytes that are not 0.
abbrev pub IsText : List ℕ → Type 0
IsText s = All (λ x. x ≢ 0) s

scan_string-text :
    (s more : List ℕ) (left : ℕ)
    → IsText s
    → length s < left
    → scan_string (s ++ (0 ∷ more)) left ≡ s
unfolding scan_string
scan_string-text [] more zero t h = absurd (omega arith)
scan_string-text [] more (suc left) t h = refl
scan_string-text (x ∷ s) more zero t h = absurd (omega arith)
scan_string-text (x ∷ s) more (suc left) t h =
    ground (arith, t.0, scan_string-text s more left t.1 (omega arith))

-- A string that is next in the data, with its 0 byte before the end, is read.
pub get_string-text :
    (beyond : ℕ) (s more : List ℕ) (b : Buffer)
    → IsText s
    → b.pos + length s < b.end
    → remaining b ≡ s ++ (0 ∷ more)
    → (get_string beyond b ≡ (some s, record b { pos = b.pos + length s + 1 }))
      × (drop (b.pos + length s + 1) b.bytes ≡ more)
unfolding get_string
get_string-text beyond s more b t fits next =
    let scanned : scan_string (drop b.pos b.bytes) (b.end - b.pos) ≡ s =
      ap (λ r. scan_string r (b.end - b.pos)) next
      ∙ scan_string-text s more (b.end - b.pos) t (omega arith) in
    let stop : get_or b.bytes (b.pos + length s) beyond ≡ 0 =
      sym (get_or-drop b.bytes b.pos (length s) beyond)
      ∙ (ap (λ r. get_or r (length s) beyond) next ∙ get_or-append s (0 ∷ more) beyond) in
    (
      elim (Bool-cases (leb b.end b.pos)) [
        | inl full ↦ absurd (ground arith)
        | inr room ↦ rw (room, scanned, stop)
      ],
      drop-drop (b.pos + length s) 1 b.bytes
          ∙ (ap (drop 1) (
              drop-drop b.pos (length s) b.bytes
              ∙ (ap (drop (length s)) next ∙ drop-append s (0 ∷ more)))),
    )
