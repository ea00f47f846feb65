-- ===== src/Uplink/Replicate.antt =====
-- Background replication in src/server/uplink.c: how many requests may be made
-- (`numWantedReplicationRequests`), and the next hash block to complete (`findNextIncompleteHashBlock`).
use dnbd.Base.{
  ℕ, zero, suc, ◌+◌, ◌-◌, ◌*◌, ◌/◌, ◌%◌, ◌<◌, ◌≡◌, refl, Bool, true, false, ◌&&◌, ◌||◌, not, Option,
  none, some, List, [], ◌∷◌, length, length-append, get_or, ◌==◌, if◌then◌else◌, Bool-cases, inl,
  inr, min, arith,
}
use dnbd.Uplink.Defs.{Entry, Uplink, Config, Client}
use dnbd.Uplink.Entries.{pending}

abbrev is_empty : List Client → Bool
is_empty [] = true
is_empty (c ∷ cs) = false

-- The loop over the queue. The source counts below 0, and its caller treats this as 0.
unfoldable pub wanted_behind : List Entry → ℕ → ℕ
wanted_behind [] n = n
wanted_behind (e ∷ es) n =
    let rest = wanted_behind es (n - 1) in if is_empty e.clients then rest else 0

-- `numWantedReplicationRequests`
unfoldable pub wanted_requests : Config → ℕ → Uplink → ℕ
unfolding wanted_behind
wanted_requests cfg idle_time u =
    let most = min cfg.bgr_window_size (idle_time + 1) in
    if u.queue_len == 0 then most else wanted_behind u.queue most

-- `i & MAP_INDEX_HASH_START_MASK`: a hash block has 512 bytes of the map.
abbrev pub hash_start : ℕ → ℕ
hash_start i = i / 512 * 512

-- What a search reads: the map, the number of its bytes, and `replicatedLastBlock`.
pub record Search : Type 0 where
  pub map : List ℕ
  pub size : ℕ
  pub replicated_last : Bool

abbrev pub byte_at : Search → ℕ → ℕ
byte_at s i = get_or s.map i 0

unfoldable pub is_full_byte : Search → ℕ → Bool
is_full_byte s i = (byte_at s i == 255) || ((i + 1 == s.size) && s.replicated_last)

abbrev pub first_of : Option ℕ → ℕ → ℕ
first_of none i = i
first_of (some r) i = r

abbrev pub is_found : Option ℕ → Bool
is_found none = false
is_found (some r) = true

-- The loop, for the rounds left, at `start + j`; `found` is `retval`.
unfoldable pub search_from : ℕ → Search → ℕ → Option ℕ → Option ℕ
unfolding is_full_byte
search_from zero s pos found = none
search_from (suc k) s pos found =
    let i = pos % s.size in
    let empty = byte_at s i == 0 in
    let full = is_full_byte s i in
    let is_start = hash_start i == i in
    let rest =
      search_from k s (pos + 1) (if is_start then (if empty then some i else none) else found) in
    if not empty && not full
    then some (first_of found i)
    else if is_start
    then rest
    else if full
    then (if is_found found then found else rest)
    else if is_found found
    then rest
    else some i

-- `findNextIncompleteHashBlock`, of an image with a cache map; `none` stands for -1.
unfoldable pub find_next_incomplete : Search → ℕ → Option ℕ
unfolding search_from
find_next_incomplete s start = search_from s.size s (hash_start start) none

is_empty_length :
    (cs : List Client)
    → (is_empty cs ≡ true → length cs ≡ 0) × (is_empty cs ≡ false → 0 < length cs)
is_empty_length [] = (λ e. refl, λ e. absurd (ground arith))
is_empty_length (c ∷ cs) = (λ e. absurd (ground arith), λ e. omega arith)

wanted_behind_lem :
    (es : List Entry) (n : ℕ)
    → (length (pending es) ≡ 0 → wanted_behind es n ≡ n - length es)
      × (0 < length (pending es) → wanted_behind es n ≡ 0)
unfolding wanted_behind
wanted_behind_lem [] n = (λ e. omega arith, λ h. absurd (omega arith))
wanted_behind_lem (e ∷ es) n =
    let rest = wanted_behind_lem es (n - 1) in
    let size = length-append e.clients (pending es) in
    elim (Bool-cases (is_empty e.clients)) [
      | inl t ↦
          let none = (is_empty_length e.clients).0 t in
          rw t (
            λ z. omega (arith, rest.0 (omega (arith, size, none, z))),
            λ h. rest.1 (omega (arith, size, none, h)),
          )
      | inr f ↦
          rw f (λ z. absurd (omega (arith, size, z, (is_empty_length e.clients).1 f)), λ h. refl)
    ]

-- numWantedReplicationRequests, on a queue that is counted right: no request while a client waits;
-- otherwise as many as the window and the idle time allow, less those that are on the way.
pub wanted_requests_lem :
    (cfg : Config) (idle_time : ℕ) (u : Uplink)
    → u.queue_len ≡ length u.queue
    → (length (pending u.queue) ≡ 0
        → wanted_requests cfg idle_time u
          ≡ min cfg.bgr_window_size (idle_time + 1) - length u.queue)
      × (0 < length (pending u.queue) → wanted_requests cfg idle_time u ≡ 0)
unfolding wanted_requests
wanted_requests_lem cfg idle_time u counted =
    let most = min cfg.bgr_window_size (idle_time + 1) in
    let l = wanted_behind_lem u.queue most in
    elim (Bool-cases (u.queue_len == 0)) [
      | inl t ↦ rw t (λ z. ground arith, λ h. absurd (no_clients u.queue (ground arith) h))
      | inr f ↦ rw f (λ z. l.0 z, λ h. l.1 h)
    ]
  where
    no_clients : (es : List Entry) → length es ≡ 0 → 0 < length (pending es) → ⊥
    no_clients [] e h = omega (arith, h)
    no_clients (x ∷ es) e h = omega (arith, e)
