-- ===== src/Session/Roster.antt =====
-- The list of clients: `addToList` and `removeFromList` of src/server/net.c. The list is the array
-- `_clients` up to `_num_clients`; a client is its pointer, and `none` is NULL.
use dnbd.Base.{
  ℕ, zero, suc, ◌+◌, Bool, true, false, ◌&&◌, not, Option, none, some, List, [], ◌∷◌, ◌++◌, ltb,
  leb, ◌==◌, if◌then◌else◌, length, get_or, set, take,
}

abbrev pub Roster : Type 0
Roster = List (Option ℕ)

abbrev pub is_null : Option ℕ → Bool
is_null none = true
is_null (some c) = false

-- The first slot that is NULL; `i` is the index of the first one.
unfoldable pub free_index : Roster → ℕ → Option ℕ
free_index [] i = none
free_index (c ∷ cs) i = let rest = free_index cs (i + 1) in if is_null c then some i else rest

unfoldable pub enlist : ℕ → ℕ → Roster → Option ℕ → Option Roster
enlist most client cs (some i) = some (set cs i (some client))
enlist most client cs none = if leb most (length cs) then none else some (cs ++ (some client ∷ []))

-- `addToList`; `most` is `_maxClients`, and `none` says that the list is full.
unfoldable pub add_to_roster : ℕ → ℕ → Roster → Option Roster
unfolding free_index enlist
add_to_roster most client cs = enlist most client cs (free_index cs 0)

abbrev pub is_client : ℕ → Option ℕ → Bool
is_client client none = false
is_client client (some c) = c == client

-- The search from the end, below `n`.
unfoldable pub last_index : ℕ → ℕ → Roster → Option ℕ
last_index client zero cs = none
last_index client (suc n) cs =
    let rest = last_index client n cs in
    if is_client client (get_or cs n none) then some n else rest

-- The do-while loop, from `i` on.
unfoldable pub trim : ℕ → Roster → ℕ
trim zero cs = 0
trim (suc i) cs = let rest = trim i cs in if is_null (get_or cs i none) && ltb 0 i then rest else i

unfoldable pub vacate_slot : Roster → Option ℕ → Roster
unfolding trim
vacate_slot cs none = cs
vacate_slot cs (some i) =
    let cs' = set cs i none in
    if not (i == 0) && (i + 1 == length cs) then take (trim i cs' + 1) cs' else cs'

-- `removeFromList`
unfoldable pub remove_from_roster : ℕ → Roster → Roster
unfolding last_index vacate_slot
remove_from_roster client cs = vacate_slot cs (last_index client (length cs) cs)
