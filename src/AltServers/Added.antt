-- ===== src/AltServers/Added.antt =====
-- `altservers_add` and the search for a host.
use dnbd.Base.{
  ℕ, zero, suc, ◌+◌, ◌≤◌, ◌<◌, ◌≡◌, ◌≢◌, refl, ap, ◌∙◌, Bool, true, false, Option, none, some, List,
  [], ◌∷◌, ◌++◌, leb, ◌==◌, if◌then◌else◌, Bool-cases, inl, inr, length, length-append, length-set,
  get_elem?, get_or, set, arith,
}
use dnbd.AltServers.Defs.{
  Host, AltServer, Added, no_server, server_max_alts, same_bytes, is_same_address_port,
  host_to_index, free_slot, fill, put_host, enter, add,
}

same_bytes_self : (n : ℕ) (xs : List ℕ) → same_bytes n xs xs ≡ true
unfolding same_bytes
same_bytes_self zero xs = refl
same_bytes_self (suc n) [] = refl
same_bytes_self (suc n) (x ∷ xs) = ground (arith, same_bytes_self n xs)

is_same_self : (h : Host) → is_same_address_port h h ≡ true
unfolding is_same_address_port
is_same_self h = ground (arith, same_bytes_self (if h.kind == 2 then 4 else 16) h.addr)

-- A host that is not in the list is found where it is put.
host_to_index-set :
    (h : Host) (servers : List AltServer) (i k : ℕ) (s : AltServer)
    → host_to_index h servers i ≡ none
    → k < length servers
    → is_same_address_port s.host h ≡ true
    → host_to_index h (set servers k s) i ≡ some (i + k)
unfolding host_to_index
host_to_index-set h [] i k s e l q = absurd (omega arith)
host_to_index-set h (x ∷ servers) i zero s e l q = ground arith
host_to_index-set h (x ∷ servers) i (suc k) s e l q =
    elim (Bool-cases (is_same_address_port x.host h)) [
      | inl t ↦ absurd (ground arith)
      | inr f ↦ rw f (
          host_to_index-set h servers (i + 1) k s (ground arith) (omega arith) q
          ∙ ap some (omega arith))
    ]

host_to_index-append :
    (h : Host) (servers : List AltServer) (i : ℕ) (s : AltServer)
    → host_to_index h servers i ≡ none
    → is_same_address_port s.host h ≡ true
    → host_to_index h (servers ++ (s ∷ [])) i ≡ some (i + length servers)
unfolding host_to_index
host_to_index-append h [] i s e q = ground arith
host_to_index-append h (x ∷ servers) i s e q = elim (Bool-cases (is_same_address_port x.host h)) [
  | inl t ↦ absurd (ground arith)
  | inr f ↦ rw f (host_to_index-append h servers (i + 1) s (ground arith) q ∙ ap some (omega arith))
]

free_slot-lt :
    (servers : List AltServer) (i k : ℕ)
    → free_slot servers i ≡ some k
    → (i ≤ k) × (k < i + length servers)
unfolding free_slot
free_slot-lt [] i k e = absurd (ground arith)
free_slot-lt (s ∷ servers) i k e = ground (arith, free_slot-lt servers (i + 1) k)

module _ {ℓ} {A : Type ℓ} where
  get_elem?-set_ne :
      (xs : List A) (i j : ℕ) (v : A) → j ≢ i → get_elem? (set xs i v) j ≡ get_elem? xs j
  get_elem?-set_ne [] i j v h = refl
  get_elem?-set_ne (x ∷ xs) zero zero v h = absurd (h refl)
  get_elem?-set_ne (x ∷ xs) zero (suc j) v h = refl
  get_elem?-set_ne (x ∷ xs) (suc i) zero v h = refl
  get_elem?-set_ne (x ∷ xs) (suc i) (suc j) v h = get_elem?-set_ne xs i j v (λ e. h (ap suc e))

  get_elem?-append_ne :
      (xs : List A) (j : ℕ) (v : A) → j ≢ length xs → get_elem? (xs ++ (v ∷ [])) j ≡ get_elem? xs j
  get_elem?-append_ne [] zero v h = absurd (h refl)
  get_elem?-append_ne [] (suc j) v h = refl
  get_elem?-append_ne (x ∷ xs) zero v h = refl
  get_elem?-append_ne (x ∷ xs) (suc j) v h = get_elem?-append_ne xs j v (λ e. h (ap suc e))

-- What a call to `altservers_add` did.
abbrev pub AddIsRight : Host → List AltServer → Option ℕ → Added → Type 0
AddIsRight host servers none r =
    (r.servers ≡ servers)
    × (r.is_new ≡ false)
    × (host_to_index host servers 0 ≡ none)
    × (length servers ≡ server_max_alts)
AddIsRight host servers (some i) r =
    (host_to_index host r.servers 0 ≡ some i)
    × ((j : ℕ) → j ≢ i → get_elem? r.servers j ≡ get_elem? servers j)
    × (if r.is_new then host_to_index host servers 0 ≡ none else r.servers ≡ servers)
    × (length r.servers ≤ server_max_alts)

put_host-AddIsRight :
    (host : Host) (private client_only : Bool) (servers : List AltServer) (slot : Option ℕ)
    → host_to_index host servers 0 ≡ none
    → length servers ≤ server_max_alts
    → ((k : ℕ) → slot ≡ some k → k < length servers)
    → let r = put_host host private client_only servers slot in AddIsRight host servers r.index r
unfolding put_host fill
put_host-AddIsRight host private client_only servers (some k) absent short inside = (
  host_to_index-set host servers 0 k _ absent (inside k refl) (is_same_self host)
      ∙ ap some (omega arith),
  λ j h. get_elem?-set_ne servers k j _ h,
  absent,
  omega (arith, length-set servers k (fill host private client_only (get_or servers k no_server))),
)
put_host-AddIsRight host private client_only servers none absent short inside =
    elim (Bool-cases (leb server_max_alts (length servers))) [
      | inl t ↦ rw t (refl, refl, absent, ground arith)
      | inr f ↦
          let s = fill host private client_only no_server in
          rw f (
            host_to_index-append host servers 0 s absent (is_same_self host)
                ∙ ap some (omega arith),
            λ j h. get_elem?-append_ne servers j s h,
            absent,
            ground (arith, length-append servers (s ∷ [])),
          )
    ]

-- altservers_add, on a list of at most SERVER_MAX_ALTS servers: the host is then found at the index that
-- the call returns, all other entries are as before, the list is not longer than SERVER_MAX_ALTS, and
-- the call reports a new host only if the host was not listed, and otherwise changes nothing; it
-- returns no index only for a host that is not listed while the list is full.
pub add_lem :
    (host : Host) (private client_only : Bool) (servers : List AltServer)
    → length servers ≤ server_max_alts
    → let r = add host private client_only servers in AddIsRight host servers r.index r
unfolding add enter
add_lem host private client_only servers short = go (host_to_index host servers 0) refl
  where
    go :
        (found : Option ℕ)
        → host_to_index host servers 0 ≡ found
        → let r = enter host private client_only servers found in AddIsRight host servers r.index r
    go none e =
        put_host-AddIsRight host private client_only servers (free_slot servers 0) e short
          (λ k q. omega (arith, free_slot-lt servers 0 k q))
    go (some i) e = (e, λ j h. refl, refl, short)
