-- ===== src/AltServers/Defs.antt =====
-- The servers that a proxy can fetch images from: `altServers` of src/server/altservers.c, its entries
-- (src/server/globals.h) and the comparison of addresses (src/server/helper.h). The comment of an entry
-- is not modelled. `servers` are the first `numAltServers` entries; all access is under one lock.
use dnbd.Base.{
  ℕ, zero, suc, ◌+◌, ◌/◌, ◌%◌, Bool, true, false, ◌&&◌, ◌||◌, Option, none, some, List, [], ◌∷◌,
  ◌++◌, leb, ◌==◌, if◌then◌else◌, length, get_or, set, replicate,
}
use dnbd.Timing.Defs.{Ticks}

abbrev pub server_max_alts : ℕ
server_max_alts = 50

abbrev pub server_global_dup_time : ℕ
server_global_dup_time = 6

abbrev pub server_bad_uplink_min : ℕ
server_bad_uplink_min = 10

abbrev pub server_bad_uplink_max : ℕ
server_bad_uplink_max = 20

abbrev pub server_rtt_probes : ℕ
server_rtt_probes = 5

-- `HOST_IP4`; `HOST_IP6` is 10, and 0 marks an empty entry.
abbrev pub host_ip4 : ℕ
host_ip4 = 2

-- `dnbd3_host_t`: 16 bytes of address, of which IPv4 uses 4.
pub record Host : Type 0 where
  pub addr : List ℕ
  pub port : ℕ
  pub kind : ℕ

-- `dnbd3_alt_server_t`; a text is the list of its bytes.
pub record AltServer : Type 0 where
  pub fails : ℕ
  pub rtt_index : ℕ
  pub rtt : List ℕ
  pub is_private : Bool
  pub is_client_only : Bool
  pub blocked : Bool
  pub last_fail : Ticks
  pub host : Host
  pub name_spaces : List (List ℕ)

-- `dnbd3_alt_local_t`
pub record AltLocal : Type 0 where
  pub fails : ℕ
  pub rtt_index : ℕ
  pub rtt : List ℕ
  pub blocked : Bool
  pub init_done : Bool

abbrev pub no_host : Host
no_host = record { addr = replicate 16 0; port = 0; kind = 0 }

-- Static memory is zero.
abbrev pub no_server : AltServer
no_server = record {
  fails = 0;
  rtt_index = 0;
  rtt = replicate server_rtt_probes 0;
  is_private = false;
  is_client_only = false;
  blocked = false;
  last_fail = record { sec = 0; nsec = 0 };
  host = no_host;
  name_spaces = [];
}

abbrev pub no_local : AltLocal
no_local = record {
  fails = 0;
  rtt_index = 0;
  rtt = replicate server_rtt_probes 0;
  blocked = false;
  init_done = false;
}

-- `memcmp` of the first `n` bytes.
unfoldable pub same_bytes : ℕ → List ℕ → List ℕ → Bool
same_bytes zero xs ys = true
same_bytes (suc n) [] ys = true
same_bytes (suc n) (x ∷ xs) [] = true
same_bytes (suc n) (x ∷ xs) (y ∷ ys) = (x == y) && same_bytes n xs ys

abbrev pub addr_size : Host → ℕ
addr_size a = if a.kind == host_ip4 then 4 else 16

-- `isSameAddressPort`
unfoldable pub is_same_address_port : Host → Host → Bool
unfolding same_bytes
is_same_address_port a b =
    ((a.kind == b.kind) && (a.port == b.port)) && same_bytes (addr_size a) a.addr b.addr

-- `altservers_hostToIndex`, also the search in `altservers_add`; `i` is the index of the first entry.
unfoldable pub host_to_index : Host → List AltServer → ℕ → Option ℕ
host_to_index host [] i = none
host_to_index host (s ∷ servers) i =
    if is_same_address_port s.host host then some i else host_to_index host servers (i + 1)

unfoldable pub free_slot : List AltServer → ℕ → Option ℕ
free_slot [] i = none
free_slot (s ∷ servers) i = if s.host.kind == 0 then some i else free_slot servers (i + 1)

unfoldable pub fill : Host → Bool → Bool → AltServer → AltServer
fill host is_private is_client_only s = record s {
  host = host;
  is_private = is_private;
  is_client_only = is_client_only;
  name_spaces = [];
}

-- What `altservers_add` leaves: the entries, `*index` (`none` for -1), and whether the host is new.
pub record Added : Type 0 where
  pub servers : List AltServer
  pub index : Option ℕ
  pub is_new : Bool

unfoldable pub put_host : Host → Bool → Bool → List AltServer → Option ℕ → Added
unfolding fill
put_host host is_private is_client_only servers (some i) = record {
  servers = set servers i (fill host is_private is_client_only (get_or servers i no_server));
  index = some i;
  is_new = true;
}
put_host host is_private is_client_only servers none =
    if leb server_max_alts (length servers)
    then record { servers = servers; index = none; is_new = false }
    else record {
      servers = servers ++ (fill host is_private is_client_only no_server ∷ []);
      index = some (length servers);
      is_new = true;
    }

unfoldable pub enter : Host → Bool → Bool → List AltServer → Option ℕ → Added
unfolding put_host free_slot
enter host is_private is_client_only servers (some i) = record {
  servers = servers;
  index = some i;
  is_new = false;
}
enter host is_private is_client_only servers none =
    put_host host is_private is_client_only servers (free_slot servers 0)

-- `altservers_add`
unfoldable pub add : Host → Bool → Bool → List AltServer → Added
unfolding host_to_index enter
add host is_private is_client_only servers =
    enter host is_private is_client_only servers (host_to_index host servers 0)

-- `strncmp` of the whole name space with the start of the image's name.
unfoldable pub is_prefix : List ℕ → List ℕ → Bool
is_prefix [] image = true
is_prefix (x ∷ xs) [] = false
is_prefix (x ∷ xs) (y ∷ ys) = (x == y) && is_prefix xs ys

unfoldable pub some_prefix : List (List ℕ) → List ℕ → Bool
some_prefix [] image = false
some_prefix (n ∷ names) image = is_prefix n image || some_prefix names image

-- `isImageAllowed`
unfoldable pub is_image_allowed : AltServer → List ℕ → Bool
unfolding some_prefix
is_image_allowed s image = (length s.name_spaces == 0) || some_prefix s.name_spaces image

-- The loop of `altservers_netCloseness`, over the bytes that are left.
unfoldable pub closeness : ℕ → List ℕ → List ℕ → ℕ
closeness zero xs ys = 0
closeness (suc n) [] ys = 0
closeness (suc n) (x ∷ xs) [] = 0
closeness (suc n) (x ∷ xs) (y ∷ ys) =
    if x / 16 == y / 16 then if x % 16 == y % 16 then closeness n xs ys + 2 else 1 else 0

-- `altservers_netCloseness`, of hosts that are there; `none` stands for -1.
unfoldable pub net_closeness : Host → Host → Option ℕ
unfolding closeness
net_closeness a b = if a.kind == b.kind then some (closeness (addr_size a) a.addr b.addr) else none
