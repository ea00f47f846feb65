-- ===== src/Uplink/Entries.antt =====
-- The walks over the linked list of queue entries.
use dnbd.Base.{ℕ, false, ◌&&◌, Option, none, some, List, [], ◌∷◌, ◌++◌, leb, ◌==◌, if◌then◌else◌}
use dnbd.Uplink.Defs.{Client, Entry}

-- The first entry whose range holds the bytes from `start` to `end`: what stands before it, the entry,
-- and what stands behind it.
unfoldable pub find_range : List Entry → ℕ → ℕ → Option (List Entry × Entry × List Entry)
find_range [] start end = none
find_range (e ∷ es) start end =
    let further : Option (List Entry × Entry × List Entry) = elim (find_range es start end) [
      | none ↦ none
      | some (before, found, behind) ↦ some (e ∷ before, found, behind)
    ] in
    if leb e.from start && leb end e.to then some ([], e, es) else further

-- `markRequestUnsent`
unfoldable pub mark_unsent : List Entry → ℕ → List Entry
mark_unsent [] handle = []
mark_unsent (e ∷ es) handle =
    if e.handle == handle then record e { sent = false } ∷ es else e ∷ mark_unsent es handle

-- The clients that wait, in the order of the queue.
abbrev pub pending : List Entry → List Client
pending [] = []
pending (e ∷ es) = e.clients ++ pending es
