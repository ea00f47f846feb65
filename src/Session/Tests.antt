-- ===== src/Session/Tests.antt =====
-- A client of an image of two blocks, whose file ends in the second one.
use dnbd.Base.{
  ℕ, ◌-◌, ◌≤◌, ◌<◌, ◌≡◌, refl, true, false, none, some, [], ◌∷◌, ◌==◌, if◌then◌else◌, length, min,
  arith,
}
use dnbd.Image.{Image}
use dnbd.CacheMap.View as View
use dnbd.Uplink.Defs.{Config, Replication, Uplink}
use dnbd.Uplink.Valid as Queue
use dnbd.Uplink.Entries.{pending}
use dnbd.Uplink.Removal.{staying}
use dnbd.Session.Defs.{
  Request, Session, World, callback, get_block, relay_block, free_client, goes_on_with, grab,
  throttle,
}
use dnbd.Session.Payload.{IsServing}
use dnbd.Session.Blocks.{Honest, whole_reply, get_block_lem, get_block-serves}
use dnbd.Session.Backlog.{Relayed, IsReady, waiting, relay_block-Relayed, free_client_lem}
use dnbd.Session.Roster.{Roster, add_to_roster, remove_from_roster}
use dnbd.Session.Listing.{Enlisted, times, add_to_roster-Enlisted, remove_from_roster_lem}

abbrev config : Config
config = record {
  background_replication = Replication.full;
  min_request_size = 0;
  max_payload = 9000000;
  max_prefetch = 0;
  pretend_client = false;
  bgr_window_size = 1;
  bgr_min_clients = 0;
}

abbrev idle_uplink : Uplink
idle_uplink = record {
  queue = [];
  queue_len = 0;
  queue_id = 3;
  shutdown = false;
  connected = true;
  version = 3;
  virtual_filesize = 8192;
  problem_uplink = false;
  problem_queue = false;
}

-- The first block is present, the second one is not.
abbrev half : Image
half = record {
  id = 1;
  name = 97 ∷ [];
  rid = 1;
  users = 1;
  virtual_filesize = 8192;
  real_filesize = 5000;
  cache_map = some (record { dirty = false; map = 1 ∷ [] });
  crc32 = none;
  read_fd = some 5;
  problem = record { read = false; write = false; changed = false; uplink = false; queue = false };
}

abbrev whole : Image
whole = record half { cache_map = none }

abbrev client_of : Image → Session
client_of image = record {
  owner = 9;
  is_server = false;
  bytes_sent = 0;
  relayed_count = 0;
  image = image;
  cache = none;
  uplink = idle_uplink;
}

-- Sockets that take all, and a file of 5000 bytes.
abbrev calm : World
calm = record {
  config = config;
  file = λ pos. 7;
  takes_header = true;
  send_some = λ n. n;
  send_file = λ pos n. min n (5000 - pos);
  send_zeros = λ n. n;
  is_file_error = false;
  waited = λ u n. (u, n);
  has_uplink = true;
  is_same_host = false;
  wire = λ q. true;
}

abbrev ask : ℕ → ℕ → Request
ask offset size = record { cmd = 1; size = size; offset = offset; hops = 1; handle = 77 }

half-IsValid : View.IsValid half
half-IsValid = record { sized = (refl, (omega arith, tt)); aligned = refl; small = omega arith }

whole-IsValid : View.IsValid whole
whole-IsValid = record { sized = tt; aligned = refl; small = omega arith }

calm-IsServing : IsServing calm 5000
calm-IsServing = record {
  bounded = record {
    file_size = λ pos n. (omega arith, omega arith);
    zeros_size = λ n. omega arith;
  };
  file_goes = λ pos n some_bytes inside. omega arith;
  zeros_go = λ n. refl;
  header_goes = refl;
}

get_block_lem_example :
    Honest calm (client_of half) (ask 0 4096) (get_block calm (ask 0 4096) (client_of half))
get_block_lem_example =
    get_block_lem calm (ask 0 4096) (client_of half) half-IsValid tt (omega arith) (omega arith)
      calm-IsServing.bounded

-- The last byte of the file and two zeros.
get_block-serves_example :
    get_block calm (ask 4999 3) (client_of whole)
    ≡ goes_on_with
        (record (grab (client_of whole)) { bytes_sent = 3 })
        (whole_reply calm (client_of whole) (ask 4999 3) ∷ [])
get_block-serves_example =
    get_block-serves calm (ask 4999 3) (client_of whole) whole-IsValid tt (omega arith)
      (omega arith) calm-IsServing refl (omega arith) (omega arith) (λ b t. refl)

-- A request that begins behind the end of the file ends the connection, though the image has the bytes.
behind_the_file : (get_block calm (ask 5001 3) (client_of whole)).goes_on ≡ false
unfolding get_block
behind_the_file = refl

half-IsReady : IsReady calm (ask 4096 4096) (client_of half)
half-IsReady = record {
  valid = omega arith;
  sane = omega arith;
  within = omega arith;
  counted = refl;
  fits = omega arith;
}

relay_block-Relayed_example :
    Relayed (throttle calm (client_of half)) (relay_block calm (ask 4096 4096) (client_of half))
relay_block-Relayed_example =
    relay_block-Relayed calm (ask 4096 4096) (client_of half) half-IsReady (λ many. half-IsReady)

-- The client after a relayed request.
abbrev waits : Session
waits = (relay_block calm (ask 4096 4096) (client_of half)).session

waits-Relayed :
    Relayed (throttle calm (client_of half)) (relay_block calm (ask 4096 4096) (client_of half))
waits-Relayed =
    relay_block-Relayed calm (ask 4096 4096) (client_of half) half-IsReady (λ many. half-IsReady)

free_client_lem_example :
    let r = free_client (λ n. 0) waits in
    (r.0.relayed_count ≡ 0)
    × (length r.1 ≡ waits.relayed_count)
    × (waiting waits.owner (pending r.0.uplink.queue) ≡ 0)
    × (0 < waits.relayed_count
        → pending r.0.uplink.queue ≡ staying waits.owner callback (pending waits.uplink.queue))
    × Queue.IsValid r.0.uplink
free_client_lem_example =
    free_client_lem (λ n. 0) waits waits-Relayed.valid waits-Relayed.counted
      (omega (arith, waits-Relayed.fits))

two_clients : Roster
two_clients = some 4 ∷ none ∷ some 6 ∷ []

add_to_roster-Enlisted_example : Enlisted 4 5 two_clients (add_to_roster 4 5 two_clients)
add_to_roster-Enlisted_example = add_to_roster-Enlisted 4 5 two_clients

remove_from_roster_lem_example :
    let cs' = remove_from_roster 6 two_clients in
    ((x : ℕ) → times x cs' ≡ times x two_clients - (if 6 == x then 1 else 0))
    × (length cs' ≤ length two_clients)
remove_from_roster_lem_example = remove_from_roster_lem 6 two_clients
