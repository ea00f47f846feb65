-- ===== src/Reference/Exchange.antt =====
-- The exchange of the word in `ref_setref` keeps the balance.
use dnbd.Base.{
  ℕ, ◌+◌, ◌*◌, ◌<◌, ◌≡◌, ◌≢◌, inl, inr, refl, subst, false, ◌==◌, if◌then◌else◌, length, get_or,
  arith, Bool-cases,
}
use dnbd.Reference.Defs.{idle, State, install, clear, settle}
use dnbd.Reference.Totals.{flying, load, leaving, stray}
use dnbd.Reference.Balance.{slot, offset, IsProper, IsValid}
use dnbd.Reference.Steps.{step-IsValid}

-- After the exchange the call carries what the word stood for.
settle_weights :
    (o old : ℕ)
    → o ≢ 0
    → (flying o (settle old) ≡ 0)
      × (load o (settle old) + offset o old ≡ 33 * slot o old)
      × (leaving o (settle old) ≡ slot o old)
      × (stray o (settle old) ≡ 0)
unfolding flying load leaving stray slot offset
settle_weights o old ne = elim (Bool-cases (old == 0)) [
  | inl t ↦ rw t (refl, ground arith, ground arith, refl)
  | inr f ↦ rw f (refl, ground arith, ground arith, refl)
]

settle-IsProper : (old : ℕ) → IsProper (settle old)
unfolding IsProper
settle-IsProper old = elim (Bool-cases (old == 0)) [ inl t ↦ rw t tt | inr f ↦ rw f (omega arith) ]

light_weights :
    (o : ℕ) → (flying o idle ≡ 0) × (load o idle ≡ 0) × (leaving o idle ≡ 0) × (stray o idle ≡ 0)
unfolding flying load leaving stray
light_weights o = (refl, refl, refl, refl)

slot_null : (o : ℕ) → o ≢ 0 → (slot o 0 ≡ 0) × (offset o 0 ≡ 0)
unfolding slot offset
slot_null o ne = (ground arith, ground arith)

slot_new : (o x : ℕ) → (slot o (32 * x) ≡ (if x == o then 1 else 0)) × (offset o (32 * x) ≡ 0)
unfolding slot offset
slot_new o x = (ground arith, ground arith)

module _ (s : State) (i : ℕ) (v : IsValid s) (h : i < length s.calls) where
  pub clear-IsValid : get_or s.calls i idle ≡ idle → IsValid (clear i s)
  unfolding clear
  clear-IsValid e =
      step-IsValid s i v h _ idle (settle s.weak) e refl (λ z. refl) (settle-IsProper s.weak)
        (λ o fl ld lv st fl' ld' lv' st' ne m p b.
          let w = settle_weights o s.weak ne in
          let l = light_weights o in
          let z = slot_null o ne in
          record {
            once = omega (arith, b.once, m.2, w.2, l.2, z.0);
            flies = λ q. absurd (omega (arith, z.0));
            balance = omega (arith, b.balance, m.1, w.1, l.1, z.0, z.1);
            unused = λ q.
                let u = b.unused q in
                (
                  z.0,
                  u.1,
                  omega (arith, u.0, u.2, m.1, w.1, l.1),
                  u.3,
                  omega (arith, u.4, m.3, w.3, l.3),
                  omega (arith, u.5, m.0, w.0, l.0),
                  omega (arith, u.0, u.6, m.2, w.2, l.2),
                );
            freed = b.freed;
          })

  pub install-IsValid :
      (x : ℕ) → get_or s.calls i idle ≡ idle → x ≢ 0 → s.past x ≡ false → IsValid (install i x s)
  unfolding install
  install-IsValid x e nz new =
      step-IsValid s i v h _ idle (settle s.weak) e refl (λ z. omega arith) (settle-IsProper s.weak)
        (λ o fl ld lv st fl' ld' lv' st' ne m p b.
          let w = settle_weights o s.weak ne in
          let l = light_weights o in
          let z = slot_new o x in
          let fresh : x ≡ o → s.past o ≡ false = λ q. subst (λ o. s.past o ≡ false) q new in
          record {
            once = ground (arith, b.once, b.unused, fresh, m, w, l, z);
            flies = λ q. ground (arith, b.unused, fresh, m, w, l, z);
            balance = ground (arith, b.balance, m, w, l, z);
            unused = λ q. ground (arith, b.unused, fresh, m, w, l, z);
            freed = λ q. ground (arith, b.freed, b.unused, b.balance, fresh, m, w, l, z);
          })
