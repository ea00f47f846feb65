-- ===== src/Reference/Steps.antt =====
-- Each change of a counter keeps the balance.
use dnbd.Base.{
  ℕ, ◌+◌, ◌-◌, ◌/◌, ◌≤◌, ◌<◌, ◌≡◌, ◌≢◌, inl, inr, refl, sym, ap, subst, ◌==◌, length, get_or, set,
  All, All-set, All-get_or, length-set, arith, Bool-cases,
}
use dnbd.Reference.Defs.{
  Call, idle, got, counted, compares, gives_back, replaced, puts, State, at, goto, return_ref,
  compare_word, put_ref, block,
}
use dnbd.Reference.Totals.{total, total-set, total_part, flying, load, leaving, stray}
use dnbd.Reference.Balance.{slot, offset_le, Balanced, IsProper, IsValid}

module _ (s : State) (i : ℕ) (v : IsValid s) (h : i < length s.calls) where
  -- A call goes from `c` to `c'`. It is enough to look at one object, with its totals before and after.
  pub step-IsValid :
      (s' : State) (c c' : Call)
      → get_or s.calls i idle ≡ c
      → s'.calls ≡ set s.calls i c'
      → (s'.weak / 32 ≡ 0 → s'.weak ≡ 0)
      → IsProper c'
      → ((o : ℕ) (fl ld lv st fl' ld' lv' st' : ℕ)
          → o ≢ 0
          → (fl' + flying o c ≡ fl + flying o c')
            × (ld' + load o c ≡ ld + load o c')
            × (lv' + leaving o c ≡ lv + leaving o c')
            × (st' + stray o c ≡ st + stray o c')
          → (flying o c ≤ fl) × (load o c ≤ ld) × (leaving o c ≤ lv) × (stray o c ≤ st)
          → Balanced (s.past o) s.weak o (s.counts o) (s.frees o) (s.held o) fl ld lv st
          → Balanced (s'.past o) s'.weak o (s'.counts o) (s'.frees o) (s'.held o) fl' ld' lv' st')
      → IsValid s'
  step-IsValid s' c c' e eq null proper one = record {
    room = omega (arith, ap length eq, length-set s.calls i c', v.room);
    null = null;
    proper = subst (All IsProper) (sym eq) (All-set IsProper s.calls i c' proper v.proper);
    balanced = λ o ne.
        subst
          (λ cs.
            Balanced (s'.past o) s'.weak o (s'.counts o) (s'.frees o) (s'.held o)
              (total (flying o) cs) (total (load o) cs) (total (leaving o) cs) (total (stray o) cs))
          (sym eq)
          (one o _ _ _ _ _ _ _ _ ne
            (moved (flying o), moved (load o), moved (leaving o), moved (stray o))
            (part (flying o), part (load o), part (leaving o), part (stray o)) (v.balanced o ne));
  }
    where
      moved : (f : Call → ℕ) → total f (set s.calls i c') + f c ≡ total f s.calls + f c'
      moved f =
          subst (λ c. total f (set s.calls i c') + f c ≡ total f s.calls + f c') e
            (total-set f s.calls i c' h)

      part : (f : Call → ℕ) → f c ≤ total f s.calls
      part f = subst (λ c. f c ≤ total f s.calls) e (total_part f s.calls i h)

  pub own-IsProper : (c : Call) → get_or s.calls i idle ≡ c → IsProper c
  unfolding IsProper
  own-IsProper c e = subst IsProper e (All-get_or IsProper s.calls i idle tt v.proper)

  pub got-IsValid :
      (x : ℕ)
      → get_or s.calls i idle ≡ got x
      → IsValid
          (record s { counts = at x (λ n. n + 1) s.counts; calls = set s.calls i (counted x) })
  unfolding flying load leaving stray IsProper
  got-IsValid x e =
      step-IsValid _ (got x) (counted x) e refl v.null tt (λ o fl ld lv st fl' ld' lv' st' ne m p b.
        record {
          once = ground (arith, b.once, m.2);
          flies = λ z. ground (arith, b.flies z, m.0);
          balance = ground (arith, b.balance, m.1);
          unused = λ z. ground (arith, b.unused z, m, p);
          freed = λ z. ground (arith, b.freed z, b.balance, m, p, offset_le o s.weak);
        })

  pub counted-IsValid :
      (x : ℕ) → get_or s.calls i idle ≡ counted x → IsValid (goto i (compares x s.weak) s)
  unfolding flying load leaving stray IsProper slot
  counted-IsValid x e =
      step-IsValid _ (counted x) (compares x s.weak) e refl v.null tt
        (λ o fl ld lv st fl' ld' lv' st' ne m p b. record {
          once = ground (arith, b.once, m.2);
          flies = λ z. ground (arith, b.flies z, m.0);
          balance = ground (arith, b.balance, m.1);
          unused = λ z. ground (arith, b.unused z, m, p);
          freed = λ z. b.freed z;
        })

  pub compare_word-IsValid :
      (x w : ℕ) → get_or s.calls i idle ≡ compares x w → IsValid (compare_word i x w s)
  unfolding flying load leaving stray IsProper compare_word return_ref
  compare_word-IsValid x w e = elim (Bool-cases (w / 32 == x)) [
    | inl t ↦ rw t (
        step-IsValid _ (compares x w) (gives_back x w) e refl v.null (ground arith)
          (λ o fl ld lv st fl' ld' lv' st' ne m p b. record {
            once = ground (arith, b.once, m.2);
            flies = λ z. ground (arith, b.flies z, m.0);
            balance = ground (arith, b.balance, m.1);
            unused = λ z. ground (arith, b.unused z, m, p);
            freed = λ z. b.freed z;
          }))
    | inr f ↦ rw f (
        step-IsValid _ (compares x w) idle e refl v.null tt
          (λ o fl ld lv st fl' ld' lv' st' ne m p b. record {
            once = ground (arith, b.once, m.2);
            flies = λ z. ground (arith, b.flies z, m, p);
            balance = ground (arith, b.balance, b.flies, b.once, m, p, offset_le o s.weak);
            unused = λ z. ground (arith, b.unused z, m, p);
            freed = λ z. ground (arith, b.freed z, b.balance, m, p, offset_le o s.weak);
          }))
  ]

  pub replaced-IsValid :
      (x k : ℕ)
      → get_or s.calls i idle ≡ replaced x k
      → IsValid
          (record s { counts = at x (λ n. n + k - block) s.counts; calls = set s.calls i (puts x) })
  unfolding IsProper flying load leaving stray
  replaced-IsValid x k e =
      let own : k ≤ 31 = own-IsProper (replaced x k) e in
      step-IsValid _ (replaced x k) (puts x) e refl v.null tt
        (λ o fl ld lv st fl' ld' lv' st' ne m p b. record {
          once = ground (arith, b.once, m);
          flies = λ z. ground (arith, b.flies z, m);
          balance = ground (arith, b.balance, b.once, m, p, offset_le o s.weak);
          unused = λ z. ground (arith, b.unused z, m, p);
          freed = λ z. ground (arith, b.freed z, b.balance, b.once, m, p, offset_le o s.weak);
        })

  pub put_ref-IsValid : (x : ℕ) → get_or s.calls i idle ≡ puts x → IsValid (put_ref i x s)
  unfolding IsProper put_ref flying load leaving stray
  put_ref-IsValid x e =
      step-IsValid _ (puts x) idle e refl v.null tt (λ o fl ld lv st fl' ld' lv' st' ne m p b.
        let same : x ≡ o → s.counts x ≡ s.counts o = λ q. ap s.counts q in
        record {
          once = ground (arith, b.once, m);
          flies = λ z. ground (arith, b.flies z, m);
          balance = ground (arith, b.balance, b.once, m, p, offset_le o s.weak);
          unused = λ z. ground (arith, b.unused z, m, p, same);
          freed = λ z. ground (arith, b.freed z, b.balance, b.once, m, p, same, offset_le o s.weak);
        })

  pub begin_put-IsValid :
      (x : ℕ)
      → get_or s.calls i idle ≡ idle
      → 0 < s.held x
      → IsValid (record s { held = at x (λ n. n - 1) s.held; calls = set s.calls i (puts x) })
  unfolding IsProper flying load leaving stray
  begin_put-IsValid x e some =
      step-IsValid _ idle (puts x) e refl v.null tt (λ o fl ld lv st fl' ld' lv' st' ne m p b.
        let same : x ≡ o → s.held x ≡ s.held o = λ q. ap s.held q in
        record {
          once = ground (arith, b.once, m);
          flies = λ z. ground (arith, b.flies z, m);
          balance = ground (arith, b.balance, m, same);
          unused = λ z. ground (arith, b.unused z, m, same);
          freed = λ z. b.freed z;
        })

pub inc-IsValid :
    (s : State) (v : IsValid s) (x : ℕ)
    → 0 < s.held x
    → IsValid (record s { counts = at x (λ n. n + 1) s.counts; held = at x (λ n. n + 1) s.held })
inc-IsValid s v x some = record {
  room = v.room;
  null = v.null;
  proper = v.proper;
  balanced = λ o ne.
      let b = v.balanced o ne in
      let same : x ≡ o → s.held x ≡ s.held o = λ q. ap s.held q in
      record {
        once = b.once;
        flies = b.flies;
        balance = ground (arith, b.balance);
        unused = λ z. ground (arith, b.unused z, same);
        freed = λ z. ground (arith, b.freed z, b.balance, same, offset_le o s.weak);
      };
}
