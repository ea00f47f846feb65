-- ===== src/AltServers/Closeness.antt =====
-- The closeness of two addresses is the length of the prefix that they share, in groups of 4 bits.
use dnbd.Base.{
  ℕ, zero, suc, ◌*◌, ◌/◌, ◌%◌, ◌≤◌, ◌≡◌, ◌≢◌, ◌↔◌, refl, ap, true, none, some, List, [], ◌∷◌, ◌==◌,
  length, take, arith,
}
use dnbd.AltServers.Defs.{Host, closeness, net_closeness, addr_size}

-- The groups of 4 bits of an address, from the left.
abbrev pub nibbles : List ℕ → List ℕ
nibbles [] = []
nibbles (x ∷ xs) = x / 16 ∷ (x % 16) ∷ nibbles xs

closeness_iff :
    (n : ℕ) (xs ys : List ℕ) (k : ℕ)
    → n ≤ length xs
    → n ≤ length ys
    → k ≤ 2 * n
    → (k ≤ closeness n xs ys) ↔ (take k (nibbles xs) ≡ take k (nibbles ys))
unfolding closeness
closeness_iff n xs ys zero hx hy hk = (λ h. refl, λ h. omega arith)
closeness_iff zero xs ys (suc k) hx hy hk = absurd (omega arith)
closeness_iff (suc n) [] ys (suc k) hx hy hk = absurd (omega arith)
closeness_iff (suc n) (x ∷ xs) [] (suc k) hx hy hk = absurd (omega arith)
closeness_iff (suc n) (x ∷ xs) (y ∷ ys) (suc zero) hx hy hk = (λ h. ground arith, λ h. ground arith)
closeness_iff (suc n) (x ∷ xs) (y ∷ ys) (suc (suc k)) hx hy hk =
    let ih = closeness_iff n xs ys k (omega arith) (omega arith) (omega arith) in
    (λ h. ground (arith, ih.0), λ h. ground (arith, ih.1))

closeness_comm : (n : ℕ) (xs ys : List ℕ) → closeness n xs ys ≡ closeness n ys xs
unfolding closeness
closeness_comm zero xs ys = refl
closeness_comm (suc n) [] [] = refl
closeness_comm (suc n) [] (y ∷ ys) = refl
closeness_comm (suc n) (x ∷ xs) [] = refl
closeness_comm (suc n) (x ∷ xs) (y ∷ ys) = ground (arith, closeness_comm n xs ys)

-- The closeness of two hosts, either way round.
pub record Close (a b : Host) : Type 0 where
  pub value : ℕ
  pub forth : net_closeness a b ≡ some value
  pub back : net_closeness b a ≡ some value
  pub exact :
      (k : ℕ)
      → k ≤ 2 * addr_size a
      → (k ≤ value) ↔ (take k (nibbles a.addr) ≡ take k (nibbles b.addr))

-- For two hosts of one address family, with addresses of 16 bytes, the closeness is at least `k`, for any
-- `k` up to the number of groups of 4 bits of the family's addresses, exactly when the first `k` such
-- groups agree, and it does not depend on the order of the hosts; for hosts of two families it is -1.
pub net_closeness_iff :
    (a b : Host)
    → length a.addr ≡ 16
    → length b.addr ≡ 16
    → (a.kind ≡ b.kind → Close a b) × (a.kind ≢ b.kind → net_closeness a b ≡ none)
unfolding net_closeness
net_closeness_iff a b ha hb = (
  λ e.
      let forth : (a.kind == b.kind) ≡ true = ground arith in
      let back : (b.kind == a.kind) ≡ true = ground arith in
      let size : addr_size b ≡ addr_size a = ground arith in
      let few : addr_size a ≤ 16 = ground arith in
      record {
        value = closeness (addr_size a) a.addr b.addr;
        forth = rw forth refl;
        back = rw (back, size) (ap some (closeness_comm (addr_size a) b.addr a.addr));
        exact = λ k hk. closeness_iff (addr_size a) a.addr b.addr k (omega arith) (omega arith) hk;
      },
  λ n. ground arith,
)
