-- ===== src/Integrity/Covered.antt =====
-- Which hash blocks the queue will check, and what a request adds to them.
use dnbd.Base.{
  ℕ, suc, ◌+◌, ◌≤◌, ◌<◌, ◌≡◌, refl, sym, ap, ◌∙◌, subst, Bool, true, false, ◌&&◌, ◌||◌, Option,
  none, some, List, [], ◌∷◌, ◌++◌, ltb, leb, ◌==◌, if◌then◌else◌, Bool-cases, ◌⊎◌, inl, inr, length,
  length-append, length-set, set, arith,
}
use dnbd.Integrity.Queue.{
  Entry, Request, all, block, is_image, is_free, Verdict, passes, covered, grows, verdict, in_front,
  Scan, taken, missed, scan, fresh, put_check, check, CheckQueue, check_all, check_queue_size,
}

-- Will a slot have the check thread look at block `k` of image `j`?
unfoldable pub covers : Entry → ℕ → ℕ → Bool
covers e j k =
    (is_image e.image j && leb e.block k) && ((e.count == check_all) || ltb k (e.block + e.count))

unfoldable pub is_covered : List Entry → ℕ → ℕ → Bool
is_covered [] j k = false
is_covered (e ∷ es) j k = covers e j k || is_covered es j k

-- Does a request ask for block `k` of image `j`?
unfoldable pub asks : ℕ → Request → ℕ → ℕ → Bool
asks i all j k = i == j
asks i (block b) j k = (i == j) && (b == k)

-- A block number that leaves room for the count of its slot below `check_all`.
abbrev pub IsSmall : Request → Type 0
IsSmall all = Unit
IsSmall (block b) = b + 1 < check_all

abbrev Adds : ℕ → Request → List Entry → List Entry → Type 0
Adds i r es es' = (j k : ℕ) → is_covered es' j k ≡ is_covered es j k || asks i r j k

fresh-covers : (i : ℕ) (r : Request) (j k : ℕ) → covers (fresh i r) j k ≡ asks i r j k
unfolding covers asks
fresh-covers i all j k = ground arith
fresh-covers i (block b) j k = ground arith

covered-asks :
    (e : Entry) (i : ℕ) (r : Request)
    → verdict e i r ≡ covered
    → (j k : ℕ) → covers e j k ≡ covers e j k || asks i r j k
unfolding covers asks verdict
covered-asks e i all v j k = ground arith
covered-asks e i (block b) v j k = ground arith

grows-asks :
    (e : Entry) (i : ℕ) (r : Request)
    → IsSmall r
    → verdict e i r ≡ grows
    → (j k : ℕ) → covers (record e { count = e.count + 1 }) j k ≡ covers e j k || asks i r j k
unfolding covers asks verdict
grows-asks e i all small v j k = ground arith
grows-asks e i (block b) small v j k = ground arith

-- A slot that covers nothing, by its number from `n` on.
record FreeAt (es : List Entry) (n f : ℕ) : Type 0 where
  pub index : ℕ
  pub number : f ≡ n + index
  pub inside : index < length es
  pub gives :
      (x : Entry) (j k : ℕ) → is_covered (set es index x) j k ≡ is_covered es j k || covers x j k

abbrev SlotIsFree : List Entry → ℕ → Option ℕ → Option ℕ → Type 0
SlotIsFree es n (some f) slot = slot ≡ some f
SlotIsFree es n none none = Unit
SlotIsFree es n none (some f) = FreeAt es n f

abbrev ScanIsRight : ℕ → Request → List Entry → ℕ → Option ℕ → Scan → Type 0
ScanIsRight i r es n free_slot (taken es') = Adds i r es es' × (length es' ≡ length es)
ScanIsRight i r es n free_slot (missed slot) = SlotIsFree es n free_slot slot

free-covers : (e : Entry) → is_free e ≡ true → (j k : ℕ) → covers e j k ≡ false
unfolding covers
free-covers e h j k = ground arith

cons-FreeAt : (e : Entry) (es : List Entry) (n f : ℕ) → FreeAt es (n + 1) f → FreeAt (e ∷ es) n f
unfolding is_covered
cons-FreeAt e es n f a = record {
  index = suc a.index;
  number = omega (arith, a.number);
  inside = omega (arith, a.inside);
  gives = λ x j k. ground (arith, a.gives x j k);
}

here-FreeAt : (e : Entry) (es : List Entry) (n : ℕ) → is_free e ≡ true → FreeAt (e ∷ es) n n
unfolding is_covered
here-FreeAt e es n h = record {
  index = 0;
  number = omega arith;
  inside = omega arith;
  gives = λ x j k. ground (arith, free-covers e h j k);
}

front-some :
    (i : ℕ) (r : Request) (e : Entry) (es : List Entry) (n f : ℕ) (s : Scan)
    → ScanIsRight i r es (n + 1) (some f) s
    → ScanIsRight i r (e ∷ es) n (some f) (in_front e s)
unfolding is_covered
front-some i r e es n f (taken es') h = (λ j k. ground (arith, h.0 j k), ap suc h.1)
front-some i r e es n f (missed slot) h = h

front-none :
    (i : ℕ) (r : Request) (e : Entry) (es : List Entry) (n : ℕ) (s : Scan)
    → ScanIsRight i r es (n + 1) none s
    → ScanIsRight i r (e ∷ es) n none (in_front e s)
unfolding is_covered
front-none i r e es n (taken es') h = (λ j k. ground (arith, h.0 j k), ap suc h.1)
front-none i r e es n (missed none) h = tt
front-none i r e es n (missed (some f)) h = cons-FreeAt e es n f h

front-free :
    (i : ℕ) (r : Request) (e : Entry) (es : List Entry) (n : ℕ) (s : Scan)
    → is_free e ≡ true
    → ScanIsRight i r es (n + 1) (some n) s
    → ScanIsRight i r (e ∷ es) n none (in_front e s)
unfolding is_covered
front-free i r e es n (taken es') free h = (λ j k. ground (arith, h.0 j k), ap suc h.1)
front-free i r e es n (missed slot) free h =
    subst (SlotIsFree (e ∷ es) n none) (sym h) (here-FreeAt e es n free)

-- What the verdict on a slot makes of the scan behind it.
judged :
    (i : ℕ) (r : Request) (e : Entry) (es : List Entry) (n : ℕ) (free_slot : Option ℕ) (rest : Scan)
    (v : Verdict)
    → IsSmall r
    → verdict e i r ≡ v
    → ScanIsRight i r (e ∷ es) n free_slot rest
    → ScanIsRight i r (e ∷ es) n free_slot (elim v [
      | passes ↦ rest
      | covered ↦ taken (e ∷ es)
      | grows ↦ taken (record e { count = e.count + 1 } ∷ es)
    ])
unfolding is_covered
judged i r e es n free_slot rest passes small v h = h
judged i r e es n free_slot rest covered small v h =
    (λ j k. ground (arith, covered-asks e i r v j k), refl)
judged i r e es n free_slot rest grows small v h =
    (λ j k. ground (arith, grows-asks e i r small v j k), refl)

-- One step of the scan while no free slot was found.
searched :
    (i : ℕ) (r : Request) (e : Entry) (es : List Entry) (n : ℕ) (free : Bool)
    → IsSmall r
    → is_free e ≡ free
    → ((slot : Option ℕ) → ScanIsRight i r es (n + 1) slot (scan es (n + 1) slot i r))
    → let rest = in_front e (scan es (n + 1) (if free then some n else none) i r) in
      ScanIsRight i r (e ∷ es) n none (
        if free then rest else elim (verdict e i r) [
          | passes ↦ rest
          | covered ↦ taken (e ∷ es)
          | grows ↦ taken (record e { count = e.count + 1 } ∷ es)
        ])
searched i r e es n true small q h =
    front-free i r e es n (scan es (n + 1) (some n) i r) q (h (some n))
searched i r e es n false small q h =
    judged i r e es n none (in_front e (scan es (n + 1) none i r)) (verdict e i r) small refl
      (front-none i r e es n (scan es (n + 1) none i r) (h none))

scan-ScanIsRight :
    (es : List Entry) (n : ℕ) (free_slot : Option ℕ) (i : ℕ) (r : Request)
    → IsSmall r
    → ScanIsRight i r es n free_slot (scan es n free_slot i r)
unfolding scan
scan-ScanIsRight [] n none i r small = tt
scan-ScanIsRight [] n (some f) i r small = refl
scan-ScanIsRight (e ∷ es) n none i r small =
    searched i r e es n (is_free e) small refl (λ slot. scan-ScanIsRight es (n + 1) slot i r small)
scan-ScanIsRight (e ∷ es) n (some f) i r small =
    judged i r e es n (some f) (in_front e (scan es (n + 1) (some f) i r)) (verdict e i r) small
      refl
      (front-some i r e es n f (scan es (n + 1) (some f) i r)
        (scan-ScanIsRight es (n + 1) (some f) i r small))

is_covered-append :
    (es : List Entry) (e : Entry) (j k : ℕ)
    → is_covered (es ++ (e ∷ [])) j k ≡ is_covered es j k || covers e j k
unfolding is_covered
is_covered-append [] e j k = ground arith
is_covered-append (x ∷ es) e j k = ground (arith, is_covered-append es e j k)

-- The same behind the test that the thread runs.
abbrev PutIsRight : ℕ → Request → List Entry → List Entry × Bool → Type 0
PutIsRight i r es (es', true) = Adds i r es es' × (length es' ≤ check_queue_size)
PutIsRight i r es (es', false) = (es' ≡ es) × (length es ≡ check_queue_size)

entered :
    (es : List Entry) (i : ℕ) (r : Request) (s : Scan)
    → length es ≤ check_queue_size
    → ScanIsRight i r es 0 none s
    → PutIsRight i r es (elim s [
      | taken es' ↦ (es', true)
      | missed (some f) ↦ (set es f (fresh i r), true)
      | missed none ↦
          if leb check_queue_size (length es) then (es, false) else (es ++ (fresh i r ∷ []), true)
    ])
entered es i r (taken es') short h = (h.0, omega (arith, h.1))
entered es i r (missed (some f)) short h =
    let same : f ≡ h.index = omega (arith, h.number) in
    (
      λ j k.
          ap (λ m. is_covered (set es m (fresh i r)) j k) same
          ∙ (h.gives (fresh i r) j k ∙ ap (λ b. is_covered es j k || b) (fresh-covers i r j k)),
      omega (arith, length-set es f (fresh i r)),
    )
entered es i r (missed none) short h = elim (Bool-cases (leb check_queue_size (length es))) [
  | inl t ↦ rw t (refl, ground arith)
  | inr f ↦ rw f (
    λ j k.
        is_covered-append es (fresh i r) j k
        ∙ ap (λ b. is_covered es j k || b) (fresh-covers i r j k),
    ground (arith, length-append es (fresh i r ∷ [])),
  )
]

put_check-PutIsRight :
    (es : List Entry) (i : ℕ) (r : Request)
    → IsSmall r
    → length es ≤ check_queue_size
    → PutIsRight i r es (put_check es i r)
unfolding put_check
put_check-PutIsRight es i r small short =
    entered es i r (scan es 0 none i r) short (scan-ScanIsRight es 0 none i r small)

-- The result of a check request: taken, or dropped because the thread does not run or the queue is
-- full.
abbrev pub CheckIsRight : ℕ → Request → CheckQueue → CheckQueue × Bool → Type 0
CheckIsRight i r q (q', true) =
    (q.running ≡ true)
    × (q'.running ≡ true)
    × Adds i r q.entries q'.entries
    × (length q'.entries ≤ check_queue_size)
CheckIsRight i r q (q', false) =
    (q' ≡ q) × ((q.running ≡ false) ⊎ (length q.entries ≡ check_queue_size))

answered :
    (i : ℕ) (r : Request) (q : CheckQueue) (p : List Entry × Bool)
    → q.running ≡ true
    → PutIsRight i r q.entries p
    → CheckIsRight i r q (record q { entries = p.0 }, p.1)
answered i r q (es, true) e h = (e, e, h.0, h.1)
answered i r q (es, false) e h = (ap (λ l. record q { entries = l }) h.0, inr h.1)

check_on :
    (q : CheckQueue) (i : ℕ) (r : Request)
    → q.running ≡ true
    → let p = put_check q.entries i r in check q i r ≡ (record q { entries = p.0 }, p.1)
unfolding check
check_on q i r e = ground arith

check_off : (q : CheckQueue) (i : ℕ) (r : Request) → q.running ≡ false → check q i r ≡ (q, false)
unfolding check
check_off q i r e = ground arith

-- A request to check a block (its number small enough for a slot to count up to it) or all blocks of an
-- image, put to a queue of at most check_queue_size slots, is dropped only when the check thread does
-- not run or the queue has check_queue_size slots, and then changes nothing; otherwise the thread runs,
-- and the queue then covers exactly what it covered before and what is asked for, and still has at most
-- check_queue_size slots.
pub check_lem :
    (q : CheckQueue) (i : ℕ) (r : Request)
    → IsSmall r
    → length q.entries ≤ check_queue_size
    → CheckIsRight i r q (check q i r)
check_lem q i r small short = elim (Bool-cases q.running) [
  | inl on ↦
      subst (CheckIsRight i r q) (sym (check_on q i r on)) (
        answered i r q (put_check q.entries i r) on
          (put_check-PutIsRight q.entries i r small short))
  | inr off ↦ subst (CheckIsRight i r q) (sym (check_off q i r off)) (refl, inl off)
]
