-- ===== src/AltServers/Lists.antt =====
-- Which servers are offered: `altservers_getListForClient`, `isUsableForUplink` and
-- `altservers_getListForUplink` of src/server/altservers.c.
use dnbd.Base.{
  ℕ, zero, suc, ◌+◌, ◌-◌, ◌%◌, Bool, true, false, ◌&&◌, ◌||◌, not, Option, none, some, List, [],
  ◌∷◌, map, ltb, ◌==◌, if◌then◌else◌, length, get_or, set,
}
use dnbd.Timing.Defs.{Ticks, diff}
use dnbd.AltServers.Defs.{
  Host, AltServer, AltLocal, no_server, no_local, is_image_allowed, net_closeness,
  server_global_dup_time, server_bad_uplink_min,
}

-- `scores[i]`: 0 for a server that is not offered. The closeness may be -1.
unfoldable pub score : Host → List ℕ → AltServer → ℕ
score host image s =
    if (s.host.kind == 0) || s.is_private
    then 0
    else if not (is_image_allowed s image)
    then 0
    else elim (net_closeness host s.host) [ none ↦ 9 | some c ↦ 10 + c ]

-- The inner loop: the first of the highest scores that are not 0. `i` and `best` are the loop's `j` and
-- `i`; `value` is `scores[i]`.
unfoldable pub highest : List ℕ → ℕ → Option (ℕ × ℕ) → Option (ℕ × ℕ)
highest [] i best = best
highest (x ∷ xs) i none = highest xs (i + 1) (if x == 0 then none else some (i, x))
highest (x ∷ xs) i (some (b, value)) =
    highest xs (i + 1) (if ltb value x then some (i, x) else some (b, value))

-- The outer loop, for the rounds left.
unfoldable pub by_score : ℕ → List ℕ → List ℕ
unfolding highest
by_score zero scores = []
by_score (suc n) scores = elim (highest scores 0 none) [
  | none ↦ []
  | some (i, value) ↦ i ∷ by_score n (set scores i 0)
]

-- `altservers_getListForClient`, as indices of the entries whose hosts are copied.
unfoldable pub list_for_client : Host → List ℕ → ℕ → List AltServer → List ℕ
unfolding score by_score
list_for_client host image size servers =
    if (host.kind == 0) || (length servers == 0)
    then []
    else by_score (if ltb (length servers) size then length servers else size)
        (map (score host image) servers)

-- The entries, the uplink's own data on them (`none` without an uplink), and what `rand` will return.
pub record Pool : Type 0 where
  pub servers : List AltServer
  pub locals : Option (List AltLocal)
  pub rand : ℕ → ℕ
  pub drawn : ℕ

unfoldable pub draw : Pool → ℕ × Pool
draw p = (p.rand p.drawn, record p { drawn = p.drawn + 1 })

-- A server that is blocked for the image only: the counter falls, and at 0 the block ends.
unfoldable pub pass_local : AltLocal → Bool × AltLocal
pass_local l =
    if l.blocked
    then if ltb 0 (l.fails - 1)
      then (false, record l { fails = l.fails - 1 })
      else (true, record l { fails = l.fails - 1; blocked = false })
    else (true, l)

-- A server that is blocked: the counter falls at most once in `SERVER_GLOBAL_DUP_TIME` seconds.
unfoldable pub pass_global : Ticks → AltServer → Bool × AltServer
pass_global now s =
    if s.blocked
    then if ltb (diff s.last_fail now) server_global_dup_time
      then (false, s)
      else if ltb 0 (s.fails - 1)
      then (false, record s { last_fail = now; fails = s.fails - 1 })
      else (true, record s { last_fail = now; fails = s.fails - 1; blocked = false })
    else (true, s)

abbrev pub server_of : Pool → ℕ → AltServer
server_of p i = get_or p.servers i no_server

unfoldable pub set_server : Pool → ℕ → AltServer → Pool
set_server p i s = record p { servers = set p.servers i s }

unfoldable pub check_local : ℕ → Pool → Option (List AltLocal) → Bool × Pool
unfolding pass_local
check_local i p none = (true, p)
check_local i p (some ls) =
    let r = pass_local (get_or ls i no_local) in (r.0, record p { locals = some (set ls i r.1) })

unfoldable pub local_fails : ℕ → Option (List AltLocal) → ℕ
local_fails i none = 0
local_fails i (some ls) = (get_or ls i no_local).fails

-- A server that often fails is used now and then.
unfoldable pub chance : ℕ → Pool → Bool × Pool
unfolding draw
chance fails p =
    if ltb fails server_bad_uplink_min
    then (true, p)
    else (let r = draw p in (ltb (r.0 % fails) server_bad_uplink_min, r.1))

unfoldable pub check_global : Ticks → ℕ → Pool → Bool × Pool
unfolding pass_global set_server chance local_fails
check_global now i p =
    let r = pass_global now (server_of p i) in
    let p' = set_server p i r.1 in
    if r.0 then chance (local_fails i p'.locals + r.1.fails) p' else (false, p')

-- The flags that keep a server from being an uplink; `private_only` is `_proxyPrivateOnly`.
unfoldable pub is_excluded : Bool → AltServer → Bool
is_excluded private_only s = s.is_client_only || (not s.is_private && private_only)

-- `isUsableForUplink`
unfoldable pub is_usable : Bool → Ticks → ℕ → Pool → Bool × Pool
unfolding is_excluded check_local check_global
is_usable private_only now i p =
    if is_excluded private_only (server_of p i)
    then (false, p)
    else (let r = check_local i p p.locals in if r.0 then check_global now i r.1 else (false, r.1))
