-- ===== src/Integrity/Queue.antt =====
-- `integrity_check` of src/server/integrity.c.
use dnbd.Base.{
  ℕ, ◌+◌, Bool, true, false, Option, none, some, List, [], ◌∷◌, ◌++◌, ltb, leb, ◌==◌, if◌then◌else◌,
  length, set, ◌&&◌,
}

abbrev pub check_queue_size : ℕ
check_queue_size = 200

abbrev pub check_all : ℕ
check_all = 0x7fffffff

-- `queue_entry`
pub record Entry : Type 0 where
  pub image : Option ℕ
  pub block : ℕ
  pub count : ℕ

-- The state of integrity.c: `bRunning`, and the used part of `checkQueue`.
pub record CheckQueue : Type 0 where
  pub running : Bool
  pub entries : List Entry

-- The `block` argument, where -1 asks for all blocks.
pub data Request : Type 0 where
  all : Request
  block : ℕ → Request

abbrev pub is_image : Option ℕ → ℕ → Bool
is_image none i = false
is_image (some j) i = j == i

abbrev pub is_free : Entry → Bool
is_free e = elim e.image [ none ↦ true | some j ↦ false ]

-- What the scan of the queue finds in one slot that holds the image: nothing (`continue`), a request
-- that covers the block already, or one that grows by it.
pub data Verdict : Type 0 where
  passes covered grows : Verdict

-- `block <= -1` is false: a slot's block is never negative.
unfoldable pub verdict : Entry → ℕ → Request → Verdict
verdict e i all = passes
verdict e i (block b) =
    if is_image e.image i && leb e.block b
    then if e.count == check_all
      then covered
      else if e.block + e.count == b
      then grows
      else if ltb b (e.block + e.count)
      then covered
      else passes
    else passes

-- The slots, and the first that is free, or the queue when some slot takes the request.
pub data Scan : Type 0 where
  taken : List Entry → Scan
  missed : Option ℕ → Scan

abbrev pub in_front : Entry → Scan → Scan
in_front e (taken es) = taken (e ∷ es)
in_front e (missed slot) = missed slot

-- `free_slot` is the slot found so far; `n` is the number of the slot that is looked at.
unfoldable pub scan : List Entry → ℕ → Option ℕ → ℕ → Request → Scan
scan [] n free_slot i r = missed free_slot
scan (e ∷ es) n none i r =
    let rest = in_front e (scan es (n + 1) (if is_free e then some n else none) i r) in
    if is_free e then rest else elim (verdict e i r) [
      | passes ↦ rest
      | covered ↦ taken (e ∷ es)
      | grows ↦ taken (record e { count = e.count + 1 } ∷ es)
    ]
scan (e ∷ es) n (some f) i r =
    let rest = in_front e (scan es (n + 1) (some f) i r) in
    elim (verdict e i r) [
      | passes ↦ rest
      | covered ↦ taken (e ∷ es)
      | grows ↦ taken (record e { count = e.count + 1 } ∷ es)
    ]

abbrev pub fresh : ℕ → Request → Entry
fresh i all = record { image = some i; block = 0; count = check_all }
fresh i (block b) = record { image = some i; block = b; count = 1 }

-- The call from `start_over` on: the new queue, and whether the request was taken.
unfoldable pub put_check : List Entry → ℕ → Request → List Entry × Bool
unfolding scan verdict
put_check es i r = elim (scan es 0 none i r) [
  | taken es' ↦ (es', true)
  | missed (some f) ↦ (set es f (fresh i r), true)
  | missed none ↦
      if leb check_queue_size (length es) then (es, false) else (es ++ (fresh i r ∷ []), true)
]

-- `integrity_check(image, block, false)`. (With `blocking` set, a full queue makes the call wait and
-- start over.)
unfoldable pub check : CheckQueue → ℕ → Request → CheckQueue × Bool
unfolding put_check
check q i r =
    let (es, was_taken) = put_check q.entries i r in
    if q.running then (record q { entries = es }, was_taken) else (q, false)
