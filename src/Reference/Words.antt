-- ===== src/Reference/Words.antt =====
-- Each exchange of the word in `ref_get` keeps the balance.
use dnbd.Base.{
  ℕ, ◌+◌, ◌-◌, ◌/◌, ◌%◌, ◌≤◌, ◌<◌, ◌≡◌, ◌≢◌, inl, inr, refl, sym, subst, Bool, true, ◌&&◌, not,
  ◌==◌, length, get_or, arith, Bool-cases,
}
use dnbd.Reference.Defs.{
  Call, idle, tests, swaps, got, compares, gives_back, State, goto, return_ref, test_word,
  swap_word, give_back_word,
}
use dnbd.Reference.Totals.{total, total_part, flying, load, leaving, stray}
use dnbd.Reference.Balance.{slot, offset, IsProper, IsValid, word_room}
use dnbd.Reference.Steps.{step-IsValid, own-IsProper}

module _ (s : State) (i : ℕ) (v : IsValid s) (h : i < length s.calls) where
  -- Before the first exchange a call has no weight.
  IsLight : Call → Type 0
  IsLight c = (o : ℕ) → (flying o c ≡ 0) × (load o c ≡ 0) × (leaving o c ≡ 0) × (stray o c ≡ 0)

  light-IsValid :
      (c c' : Call)
      → get_or s.calls i idle ≡ c
      → IsLight c
      → IsLight c'
      → IsProper c'
      → IsValid (goto i c' s)
  unfolding IsLight
  light-IsValid c c' e l l' proper =
      step-IsValid s i v h _ c c' e refl v.null proper (λ o fl ld lv st fl' ld' lv' st' ne m p b.
        record {
          once = omega (arith, b.once, m.2, l o, l' o);
          flies = λ z. (
            omega (arith, (b.flies z).0, m.0, l o, l' o),
            omega (arith, (b.flies z).1, m.3, l o, l' o),
          );
          balance = omega (arith, b.balance, m.1, l o, l' o);
          unused = λ z.
              let u = b.unused z in
              (
                u.0,
                u.1,
                omega (arith, u.2, m.1, l o, l' o),
                u.3,
                omega (arith, u.4, m.3, l o, l' o),
                omega (arith, u.5, m.0, l o, l' o),
                omega (arith, u.6, m.2, l o, l' o),
              );
          freed = b.freed;
        })

  idle-IsLight : IsLight idle
  unfolding flying load leaving stray IsLight
  idle-IsLight o = (refl, refl, refl, refl)

  tests-IsLight : (w : ℕ) → IsLight (tests w)
  unfolding flying load leaving stray IsLight
  tests-IsLight w o = (refl, refl, refl, refl)

  swaps-IsLight : (w : ℕ) → IsLight (swaps w)
  unfolding flying load leaving stray IsLight
  swaps-IsLight w o = (refl, refl, refl, refl)

  light_room : (c : Call) → get_or s.calls i idle ≡ c → IsLight c → s.weak % 32 ≤ 30
  unfolding IsLight
  light_room c e l = word_room s i v h (λ o. subst (λ c. flying o c ≡ 0) (sym e) (l o).0)

  pub begin_get-IsValid : get_or s.calls i idle ≡ idle → IsValid (goto i (tests s.weak) s)
  unfolding IsProper
  begin_get-IsValid e =
      light-IsValid idle (tests s.weak) e idle-IsLight (tests-IsLight s.weak)
        (light_room idle e idle-IsLight)

  -- The word is not full, so it is tested again before each exchange.
  pub test_word-IsValid : (w : ℕ) → get_or s.calls i idle ≡ tests w → IsValid (test_word i w s)
  unfolding IsProper test_word
  test_word-IsValid w e =
      let few : w % 32 ≤ 30 = own-IsProper s i v h (tests w) e in
      elim (Bool-cases (w == 0)) [
        | inl t ↦ rw t (light-IsValid (tests w) idle e (tests-IsLight w) idle-IsLight tt)
        | inr f ↦
            let same : (w / 32 == (w + 1) / 32) ≡ true = ground arith in
            rw (f, same)
              (light-IsValid (tests w) (swaps w) e (tests-IsLight w) (swaps-IsLight w)
                (ground arith, few))
      ]

  pub swap_word-IsValid :
      (spurious : Bool) (w : ℕ)
      → get_or s.calls i idle ≡ swaps w
      → IsValid (swap_word spurious i w s)
  unfolding IsProper swap_word flying load leaving stray slot offset
  swap_word-IsValid spurious w e =
      let own : (w ≢ 0) × (w % 32 ≤ 30) = own-IsProper s i v h (swaps w) e in
      elim (Bool-cases ((s.weak == w) && not spurious)) [
        | inr f ↦ rw f (
            light-IsValid (swaps w) (tests s.weak) e (swaps-IsLight w) (tests-IsLight s.weak)
              (light_room (swaps w) e (swaps-IsLight w)))
        | inl t ↦
            let here : s.weak ≡ w = ground arith in
            rw t (
              step-IsValid s i v h _ (swaps w) (got (w / 32)) e refl (λ z. ground (arith, v.null))
                tt
                (λ o fl ld lv st fl' ld' lv' st' ne m p b. record {
                  once = ground (arith, b.once, m);
                  flies = λ z. ground (arith, b.flies, m);
                  balance = ground (arith, b.balance, m);
                  unused = λ z. ground (arith, b.unused z, m, p);
                  freed = λ z. b.freed z;
                }))
      ]

  -- The offset counts the call itself.
  counted_itself :
      (x w : ℕ) → get_or s.calls i idle ≡ gives_back x w → s.weak / 32 ≡ x → x ≢ 0 → 1 ≤ s.weak % 32
  unfolding flying slot offset
  counted_itself x w e here ne =
      let own : flying x (gives_back x w) ≤ total (flying x) s.calls =
        subst (λ c. flying x c ≤ total (flying x) s.calls) e (total_part (flying x) s.calls i h) in
      ground (arith, (v.balanced x ne).flies, own)

  word_before :
      (x w : ℕ)
      → get_or s.calls i idle ≡ gives_back x w
      → s.weak ≡ w
      → w / 32 ≡ x
      → ((w - 1) / 32 ≡ w / 32) × (x ≢ 0 → (w - 1) % 32 + 1 ≡ w % 32)
  word_before x w e here own = elim (Bool-cases (x == 0)) [
    | inl t ↦
        let none : w ≡ 0 = ground (arith, v.null) in
        (rw none refl, λ ne. absurd (ne (ground arith)))
    | inr f ↦
        let some = counted_itself x w e (ground arith) (ground arith) in
        (omega arith, λ ne. omega arith)
  ]

  pub give_back_word-IsValid :
      (spurious : Bool) (x w : ℕ)
      → get_or s.calls i idle ≡ gives_back x w
      → IsValid (give_back_word spurious i x w s)
  unfolding IsProper give_back_word return_ref flying load leaving stray slot offset
  give_back_word-IsValid spurious x w e =
      let own : w / 32 ≡ x = own-IsProper s i v h (gives_back x w) e in
      elim (Bool-cases ((s.weak == w) && not spurious)) [
        | inl t ↦
            let here : s.weak ≡ w = ground arith in
            let before = word_before x w e here own in
            rw t (
              step-IsValid s i v h _ (gives_back x w) idle e refl
                (λ z. ground (arith, v.null, counted_itself x w e)) tt
                (λ o fl ld lv st fl' ld' lv' st' ne m p b. record {
                  once = ground (arith, b.once, m, before);
                  flies = λ z. ground (arith, b.flies, b.once, m, p, before);
                  balance = ground (arith, b.balance, b.flies, b.once, m, p, before);
                  unused = λ z. ground (arith, b.unused z, m, p, before);
                  freed = λ z. b.freed z;
                }))
        | inr f ↦ rw f (
            step-IsValid s i v h _ (gives_back x w) (compares x s.weak) e refl v.null tt
              (λ o fl ld lv st fl' ld' lv' st' ne m p b. record {
                once = ground (arith, b.once, m);
                flies = λ z. ground (arith, b.flies, m);
                balance = ground (arith, b.balance, m);
                unused = λ z. ground (arith, b.unused z, m, p);
                freed = λ z. b.freed z;
              }))
      ]
