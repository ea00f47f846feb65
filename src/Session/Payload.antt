-- ===== src/Session/Payload.antt =====
-- The payload of a reply: the bytes of the image, which is the file with zeros after its end.
use dnbd.Base.{
  ℕ, zero, suc, ◌+◌, ◌-◌, ◌≤◌, ◌<◌, ◌≡◌, refl, sym, ap, ◌∙◌, true, false, List, [], ◌∷◌, ◌++◌, ltb,
  ◌==◌, if◌then◌else◌, replicate, arith, Bool-cases, inl, inr, max,
}
use dnbd.Uplink.Reply.{read_file}
use dnbd.Session.Defs.{World, send_payload, send_padding}

-- The `n` bytes of an image from `pos` on, when its file has `real` bytes.
unfoldable pub image_bytes : (ℕ → ℕ) → ℕ → ℕ → ℕ → List ℕ
image_bytes file real pos zero = []
image_bytes file real pos (suc n) =
    (if ltb pos real then file pos else 0) ∷ image_bytes file real (pos + 1) n

-- The calls send no more than they are asked to, and none of what is not there.
pub record IsBounded (w : World) (real : ℕ) : Type 0 where
  pub file_size : (pos n : ℕ) → (w.send_file pos n ≤ n) × (pos + w.send_file pos n ≤ max pos real)
  pub zeros_size : (n : ℕ) → w.send_zeros n ≤ n

-- The calls also make progress, and `sock_sendAll` sends all.
pub record IsServing (w : World) (real : ℕ) : Type 0 where
  pub bounded : IsBounded w real
  pub file_goes : (pos n : ℕ) → 0 < n → pos + n ≤ real → 0 < w.send_file pos n
  pub zeros_go : (n : ℕ) → w.send_zeros n ≡ n
  pub header_goes : w.takes_header ≡ true

-- Two pieces make one; and what is past the end of the file is zeros.
module _ (file : ℕ → ℕ) where
  read_file-append :
      (n k pos pos' m : ℕ)
      → pos' ≡ pos + n
      → m ≡ n + k
      → read_file file pos n ++ read_file file pos' k ≡ read_file file pos m
  unfolding read_file
  read_file-append zero k pos pos' m e f =
      let same : pos' ≡ pos = omega arith in let size : m ≡ k = omega arith in rw (same, size) refl
  read_file-append (suc n) k pos pos' m e f =
      let size : m ≡ suc (n + k) = omega arith in
      rw size
        (ap (λ l. file pos ∷ l) (read_file-append n k (pos + 1) pos' (n + k) (omega arith) refl))

  module _ (real : ℕ) where
    pub image_bytes-read_file :
        (n pos : ℕ) → pos + n ≤ real → read_file file pos n ≡ image_bytes file real pos n
    unfolding read_file image_bytes
    image_bytes-read_file zero pos h = refl
    image_bytes-read_file (suc n) pos h =
        let inside : ltb pos real ≡ true = ground arith in
        rw inside (ap (λ l. file pos ∷ l) (image_bytes-read_file n (pos + 1) (omega arith)))

    image_bytes_past : (n pos : ℕ) → real ≤ pos → image_bytes file real pos n ≡ replicate n 0
    unfolding image_bytes
    image_bytes_past zero pos h = refl
    image_bytes_past (suc n) pos h =
        let outside : ltb pos real ≡ false = ground arith in
        rw outside (ap (λ l. 0 ∷ l) (image_bytes_past n (pos + 1) (omega arith)))

    image_bytes-append :
        (n k pos pos' m : ℕ)
        → pos' ≡ pos + n
        → m ≡ n + k
        → image_bytes file real pos n ++ image_bytes file real pos' k ≡ image_bytes file real pos m
    unfolding image_bytes
    image_bytes-append zero k pos pos' m e f =
        let same : pos' ≡ pos = omega arith in
        let size : m ≡ k = omega arith in rw (same, size) refl
    image_bytes-append (suc n) k pos pos' m e f =
        let size : m ≡ suc (n + k) = omega arith in
        rw size (
          ap (λ l. (if ltb pos real then file pos else 0) ∷ l)
            (image_bytes-append n k (pos + 1) pos' (n + k) (omega arith) refl))

    -- The rest of the file and then zeros are the bytes of the image.
    pub image_bytes_padded :
        (n k pos m : ℕ)
        → pos + n ≡ real
        → m ≡ n + k
        → read_file file pos n ++ replicate k 0 ≡ image_bytes file real pos m
    image_bytes_padded n k pos m e f =
        ap (λ l. l ++ replicate k 0) (image_bytes-read_file n pos (omega arith))
        ∙ ap (λ l. image_bytes file real pos n ++ l) (sym (image_bytes_past k real (omega arith)))
        ∙ image_bytes-append n k pos real m (omega arith) f

replicate-append : (n k m a : ℕ) → m ≡ n + k → replicate n a ++ replicate k a ≡ replicate m a
replicate-append zero k m a f = let size : m ≡ k = omega arith in rw size refl
replicate-append (suc n) k m a f =
    let size : m ≡ suc (n + k) = omega arith in
    rw size (ap (λ l. a ∷ l) (replicate-append n k (n + k) a refl))

module _ (w : World) (real : ℕ) (b : IsBounded w real) where
  -- If the loop says that it sent all, it sent the right bytes, and they were there.
  pub send_payload_right :
      (fuel pos left : ℕ)
      → (send_payload w fuel pos left).1 ≡ true
      → ((send_payload w fuel pos left).0 ≡ read_file w.file pos left) × (pos + left ≤ max pos real)
  unfolding send_payload read_file
  send_payload_right zero pos left h =
      let none : left ≡ 0 = ground arith in rw none (refl, omega arith)
  send_payload_right (suc fuel) pos left h = elim (Bool-cases (left == 0)) [
    | inl t ↦ let none : left ≡ 0 = ground arith in rw none (refl, omega arith)
    | inr f ↦ elim (Bool-cases (w.send_file pos left == 0)) [
      | inl stop ↦ absurd (ground arith)
      | inr some ↦
          let sent = w.send_file pos left in
          let ih = send_payload_right fuel (pos + sent) (left - sent) (ground arith) in
          let few = b.file_size pos left in
          rw (f, some)
            (
              ap (λ l. read_file w.file pos sent ++ l) ih.0
                  ∙ read_file-append w.file sent (left - sent) pos (pos + sent) left refl
                      (omega (arith, few.0)),
              omega (arith, few, ih.1),
            )
    ]
  ]

  pub send_padding_right :
      (fuel bytes : ℕ)
      → (send_padding w fuel bytes).1 ≡ true
      → (send_padding w fuel bytes).0 ≡ replicate bytes 0
  unfolding send_padding
  send_padding_right zero bytes h = let none : bytes ≡ 0 = ground arith in rw none refl
  send_padding_right (suc fuel) bytes h = elim (Bool-cases (ltb bytes 500)) [
    | inl t ↦ let all : w.send_zeros bytes ≡ bytes = ground arith in rw (t, all) refl
    | inr f ↦ elim (Bool-cases (w.send_zeros 500 == 0)) [
      | inl stop ↦ absurd (ground arith)
      | inr some ↦
          let sent = w.send_zeros 500 in
          rw (f, some)
            (ap (λ l. replicate sent 0 ++ l) (send_padding_right fuel (bytes - sent) (ground arith))
              ∙ replicate-append sent (bytes - sent) bytes 0 (ground (arith, b.zeros_size 500)))
    ]
  ]

module _ (w : World) (real : ℕ) (b : IsServing w real) where
  -- With one round for each byte, both loops send all.
  pub send_payload-ends :
      (fuel pos left : ℕ)
      → left ≤ fuel
      → pos + left ≤ real
      → (send_payload w fuel pos left).1 ≡ true
  unfolding send_payload
  send_payload-ends zero pos left h inside = ground arith
  send_payload-ends (suc fuel) pos left h inside = elim (Bool-cases (left == 0)) [
    | inl t ↦ rw t refl
    | inr f ↦
        let sent = w.send_file pos left in
        let some = b.file_goes pos left (ground arith) inside in
        let few = b.bounded.file_size pos left in
        let going : (sent == 0) ≡ false = ground arith in
        rw (f, going)
          (send_payload-ends fuel (pos + sent) (left - sent) (omega arith) (omega (arith, few.0)))
  ]

  pub send_padding-ends : (fuel bytes : ℕ) → bytes < fuel → (send_padding w fuel bytes).1 ≡ true
  unfolding send_padding
  send_padding-ends zero bytes h = absurd (omega arith)
  send_padding-ends (suc fuel) bytes h = elim (Bool-cases (ltb bytes 500)) [
    | inl t ↦ rw t (ground (arith, b.zeros_go bytes))
    | inr f ↦
        let all = b.zeros_go 500 in
        let going : (w.send_zeros 500 == 0) ≡ false = ground arith in
        rw (f, going) (send_padding-ends fuel (bytes - w.send_zeros 500) (ground arith))
  ]
