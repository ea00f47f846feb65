-- ===== src/AltServers/Uplinks.antt =====
-- The servers that an uplink tries: `altservers_getListForUplink` of src/server/altservers.c.
use dnbd.Base.{
  ℕ, zero, suc, ◌+◌, ◌*◌, ◌%◌, Bool, true, false, ◌&&◌, ◌||◌, not, Option, none, some, List, [],
  ◌∷◌, ◌++◌, leb, ◌==◌, if◌then◌else◌, length, get_or, set, replicate,
}
use dnbd.Timing.Defs.{Ticks}
use dnbd.AltServers.Defs.{server_max_alts, is_image_allowed}
use dnbd.AltServers.Lists.{Pool, server_of, draw, is_usable}

-- What a call is about: `_proxyPrivateOnly`, the image, the wanted number, the time, and the server of
-- the current connection, `none` for -1.
pub record Query : Type 0 where
  pub private_only : Bool
  pub image : List ℕ
  pub size : ℕ
  pub now : Ticks
  pub current : Option ℕ

unfoldable pub is_current : Option ℕ → ℕ → Bool
is_current none i = false
is_current (some c) i = i == c

unfoldable pub is_panic : Option ℕ → Bool
is_panic none = true
is_panic (some c) = false

-- `servers[0 .. count]`, the array `state`, and the pool.
pub record Choice : Type 0 where
  pub chosen : List ℕ
  pub marks : List ℕ
  pub pool : Pool

unfoldable pub choose : ℕ → Choice → Choice
choose i c = record c { chosen = c.chosen ++ (i ∷ []); marks = set c.marks i 2 }

unfoldable pub mark : ℕ → ℕ → Choice → Choice
mark i m c = record c { marks = set c.marks i m }

-- The shortcut for few servers: `n` entries from `i` on are left.
unfoldable pub every : ℕ → ℕ → Query → Choice → Choice
unfolding is_current is_panic
every zero i q c = c
every (suc n) i q c =
    let tested : Bool × Pool =
      if is_panic q.current || is_current q.current i
      then (true, c.pool)
      else is_usable q.private_only q.now i c.pool in
    every n (i + 1) q (
      if tested.0 && is_image_allowed (server_of tested.1 i) q.image
      then record c { chosen = c.chosen ++ (i ∷ []); pool = tested.1 }
      else record c { pool = tested.1 })

-- One round of the random choice, after `rand` picked an entry.
unfoldable pub consider : Query → ℕ → Choice → Choice
unfolding choose mark
consider q i c =
    if not (get_or c.marks i 0 == 0)
    then c
    else if not (is_image_allowed (server_of c.pool i) q.image)
    then mark i 2 c
    else (let r = is_usable q.private_only q.now i c.pool in
        let c' = record c { pool = r.1 } in if r.0 then choose i c' else mark i 1 c')

-- One round when there is no connection.
unfoldable pub consider_any : ℕ → Choice → Choice
unfolding choose
consider_any i c = if get_or c.marks i 0 == 2 then c else choose i c

unfoldable pub pick_entry : Choice → ℕ × Choice
unfolding draw
pick_entry c = let r = draw c.pool in (r.0 % length c.pool.servers, record c { pool = r.1 })

-- The two loops, for the tries left.
unfoldable pub tries : ℕ → Query → Choice → Choice
unfolding consider pick_entry
tries zero q c = c
tries (suc t) q c =
    let r = pick_entry c in
    let rest = tries t q (consider q r.0 r.1) in if leb q.size (length c.chosen) then c else rest

unfoldable pub panic_tries : ℕ → Query → Choice → Choice
unfolding consider_any pick_entry
panic_tries zero q c = c
panic_tries (suc t) q c =
    let r = pick_entry c in
    let rest = panic_tries t q (consider_any r.0 r.1) in
    if leb q.size (length c.chosen) then c else rest

unfoldable pub with_current : Option ℕ → Choice → Choice
unfolding choose
with_current none c = c
with_current (some i) c = choose i c

unfoldable pub randomize : Query → Choice → Choice
unfolding tries panic_tries with_current is_panic
randomize q c =
    let c' = tries (q.size * 10) q (with_current q.current c) in
    if is_panic q.current then panic_tries (q.size * 10) q c' else c'

-- `altservers_getListForUplink`: the indices, and the pool with its counters and `rand`.
unfoldable pub list_for_uplink : Query → Pool → List ℕ × Pool
unfolding every randomize
list_for_uplink q p =
    let start : Choice = record { chosen = []; marks = replicate server_max_alts 0; pool = p } in
    if q.size == 0
    then ([], p)
    else (let c : Choice =
          if leb (length p.servers) q.size
          then every (length p.servers) 0 q start
          else randomize q start in
        (c.chosen, c.pool))
