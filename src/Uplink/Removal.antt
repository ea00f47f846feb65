-- ===== src/Uplink/Removal.antt =====
-- A client that goes away, or the end of the uplink: who is called back without data, and who stays.
use dnbd.Base.{
  ℕ, suc, ◌≤◌, ◌≡◌, refl, sym, ap, ◌∙◌, subst, List, [], ◌∷◌, ◌++◌, All, arith, if◌then◌else◌,
  Bool-cases, inl, inr, length,
}
use dnbd.Uplink.Defs.{Client, Entry, Uplink}
use dnbd.Uplink.Entries.{pending}
use dnbd.Uplink.Valid.{Covers, EntryIsValid, Distinct, IsValid}
use dnbd.Uplink.Reply.{
  failed_answer, is_of, strip, strip_all, remove_entry, fail_clients, fail_entries, cancel_all,
}

-- The clients of an owner with a callback, and the others.
unfoldable pub leaving : ℕ → ℕ → List Client → List Client
leaving owner callback [] = []
leaving owner callback (c ∷ cs) =
    let rest = leaving owner callback cs in if is_of owner callback c then c ∷ rest else rest

unfoldable pub staying : ℕ → ℕ → List Client → List Client
staying owner callback [] = []
staying owner callback (c ∷ cs) =
    let rest = staying owner callback cs in if is_of owner callback c then rest else c ∷ rest

fail_clients-append :
    (xs ys : List Client) → fail_clients (xs ++ ys) ≡ fail_clients xs ++ fail_clients ys
fail_clients-append [] ys = refl
fail_clients-append (x ∷ xs) ys = ap (◌∷◌ (failed_answer x)) (fail_clients-append xs ys)

module _ (owner callback : ℕ) where
  leaving-append :
      (xs ys : List Client)
      → leaving owner callback (xs ++ ys) ≡ leaving owner callback xs ++ leaving owner callback ys
  unfolding leaving
  leaving-append [] ys = refl
  leaving-append (x ∷ xs) ys = elim (Bool-cases (is_of owner callback x)) [
    | inl t ↦ rw t (ap (◌∷◌ x) (leaving-append xs ys))
    | inr f ↦ rw f (leaving-append xs ys)
  ]

  staying-append :
      (xs ys : List Client)
      → staying owner callback (xs ++ ys) ≡ staying owner callback xs ++ staying owner callback ys
  unfolding staying
  staying-append [] ys = refl
  staying-append (x ∷ xs) ys = elim (Bool-cases (is_of owner callback x)) [
    | inl t ↦ rw t (staying-append xs ys)
    | inr f ↦ rw f (ap (◌∷◌ x) (staying-append xs ys))
  ]

  strip_lem :
      (cs : List Client)
      → strip owner callback cs
        ≡ (staying owner callback cs, fail_clients (leaving owner callback cs))
  unfolding strip staying leaving
  strip_lem [] = refl
  strip_lem (c ∷ cs) = elim (Bool-cases (is_of owner callback c)) [
    | inl t ↦ rw (t, strip_lem cs) refl
    | inr f ↦ rw (f, strip_lem cs) refl
  ]

  staying-All {κ} :
      (P : Client → Type κ) (cs : List Client) → All P cs → All P (staying owner callback cs)
  unfolding staying
  staying-All P [] h = tt
  staying-All P (c ∷ cs) h = elim (Bool-cases (is_of owner callback c)) [
    | inl t ↦ rw t (staying-All P cs h.1)
    | inr f ↦ rw f (h.0, staying-All P cs h.1)
  ]

  length-staying : (cs : List Client) → length (staying owner callback cs) ≤ length cs
  unfolding staying
  length-staying [] = omega arith
  length-staying (c ∷ cs) = ground (arith, length-staying cs)

  -- The queue behind a removal, and its answers.
  strip_all_lem :
      (q : List Entry)
      → (pending ((strip_all owner callback q).0) ≡ staying owner callback (pending q))
        × ((strip_all owner callback q).1 ≡ fail_clients (leaving owner callback (pending q)))
  unfolding strip_all staying leaving
  strip_all_lem [] = (refl, refl)
  strip_all_lem (e ∷ q) =
      let rest = strip_all_lem q in
      let cs = e.clients in
      (
        rw (strip_lem cs)
            (ap (λ k. staying owner callback cs ++ k) rest.0 ∙ sym (staying-append cs (pending q))),
        rw (strip_lem cs) (
            ap (λ k. fail_clients (leaving owner callback cs) ++ k) rest.1
            ∙ (sym (
                  fail_clients-append (leaving owner callback cs)
                    (leaving owner callback (pending q)))
                ∙ ap fail_clients (sym (leaving-append cs (pending q))))),
      )

  strip_all-All {κ} :
      (P : Entry → Type κ) (q : List Entry)
      → ((e : Entry) → P e → P (record e { clients = (strip owner callback e.clients).0 }))
      → All P q
      → All P ((strip_all owner callback q).0)
  unfolding strip_all
  strip_all-All P [] keep h = tt
  strip_all-All P (e ∷ q) keep h = (keep e h.0, strip_all-All P q keep h.1)

  strip_all-Distinct : (q : List Entry) → Distinct q → Distinct ((strip_all owner callback q).0)
  unfolding strip_all
  strip_all-Distinct [] d = tt
  strip_all-Distinct (e ∷ q) d = (strip_all-All _ q (λ x p. p) d.0, strip_all-Distinct q d.1)

  length-strip_all : (q : List Entry) → length ((strip_all owner callback q).0) ≡ length q
  unfolding strip_all
  length-strip_all [] = refl
  length-strip_all (e ∷ q) = ap suc (length-strip_all q)

strip-EntryIsValid :
    (owner callback : ℕ) (e : Entry)
    → EntryIsValid e
    → EntryIsValid (record e { clients = (strip owner callback e.clients).0 })
strip-EntryIsValid owner callback e ok =
    let same = ap (λ r. r.0) (strip_lem owner callback e.clients) in
    record {
      covered =
          subst (All (Covers e)) (sym same)
            (staying-All owner callback (Covers e) e.clients ok.covered);
      few = omega (arith, ap length same, length-staying owner callback e.clients, ok.few);
      from_aligned = ok.from_aligned;
      to_aligned = ok.to_aligned;
      ordered = ok.ordered;
    }

-- Removing a client keeps a well-formed queue well formed, calls back each waiting request of this
-- client once, without data and in the order of the queue, and leaves all other waiting requests.
pub remove_entry_lem :
    (owner callback : ℕ) (u : Uplink)
    → IsValid u
    → IsValid ((remove_entry owner callback u).0)
      × ((pending ((remove_entry owner callback u).0).queue
            ≡ staying owner callback (pending u.queue))
          × ((remove_entry owner callback u).1
              ≡ fail_clients (leaving owner callback (pending u.queue))))
unfolding remove_entry
remove_entry_lem owner callback u v = (
  record {
    counted = v.counted ∙ sym (length-strip_all owner callback u.queue);
    entries =
        strip_all-All owner callback EntryIsValid u.queue (strip-EntryIsValid owner callback)
          v.entries;
    distinct = strip_all-Distinct owner callback u.queue v.distinct;
    given = strip_all-All owner callback (λ e. e.handle ≤ u.queue_id) u.queue (λ e p. p) v.given;
  },
  strip_all_lem owner callback u.queue,
)

-- Cancelling all requests leaves an empty, well-formed queue and calls back every waiting request once,
-- without data and in the order of the queue.
pub cancel_all_lem :
    (u : Uplink)
    → IsValid ((cancel_all u).0)
      × ((((cancel_all u).0).queue ≡ []) × ((cancel_all u).1 ≡ fail_clients (pending u.queue)))
unfolding cancel_all
cancel_all_lem u =
    (record { counted = refl; entries = tt; distinct = tt; given = tt }, (refl, go u.queue))
  where
    go : (q : List Entry) → fail_entries q ≡ fail_clients (pending q)
    go [] = refl
    go (e ∷ q) =
        ap (λ k. fail_clients e.clients ++ k) (go q)
        ∙ sym (fail_clients-append e.clients (pending q))
