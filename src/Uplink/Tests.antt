-- ===== src/Uplink/Tests.antt =====
-- The theorems on the request queue at a queue of two entries, and runs of the functions on it.
use dnbd.Base.{
  ◌-◌, ◌<◌, min, replicate, ◌++◌, List, Bool, ◌≡◌, All, refl, true, false, some, [], ◌∷◌, arith,
  length,
}
use dnbd.Uplink.Defs.{BlockRequest, Replication, Config, Client, Entry, Uplink}
use dnbd.Uplink.Entries.{mark_unsent}
use dnbd.Uplink.Request.{request_internal, Wire}
use dnbd.Uplink.Valid.{IsValid}
use dnbd.Uplink.Pick.{IsSane}
use dnbd.Uplink.Laws.{request_internal-IsValid}
use dnbd.Uplink.Entries.{pending}
use dnbd.Uplink.Reply.{data_answer, remove_entry, fail_clients, deliver}
use dnbd.Uplink.Resend.{
  send_queued_requests, send_queued_requests_lem, due, all_sent, flat, Fits, TakesAll,
}
use dnbd.Uplink.Replicate.{Search, wanted_requests, wanted_requests_lem, find_next_incomplete}
use dnbd.Uplink.Removal.{leaving, staying, remove_entry_lem}
use dnbd.Uplink.Clients.{Keeps, request_internal-Keeps}

abbrev plain : Config
plain = record {
  background_replication = Replication.full;
  min_request_size = 0;
  max_payload = 9000000;
  max_prefetch = 262144;
  pretend_client = false;
  bgr_window_size = 1;
  bgr_min_clients = 0;
}

abbrev waiting : Client
waiting = record { owner = 7; callback = 1; handle = 70; from = 4096; to = 6000 }

abbrev first_entry : Entry
first_entry = record {
  handle = 3;
  from = 4096;
  to = 8192;
  clients = waiting ∷ [];
  hop_count = 1;
  sent = true;
}

abbrev busy : Uplink
busy = record {
  queue = first_entry ∷ [];
  queue_len = 1;
  queue_id = 3;
  shutdown = false;
  connected = true;
  version = 3;
  virtual_filesize = 1048576;
  problem_uplink = false;
  problem_queue = false;
}

abbrev wire : Wire
wire r = true

busy-IsValid : IsValid busy
busy-IsValid = omega arith

busy-IsSane : IsSane plain busy
busy-IsSane = omega arith

-- A client asks for the bytes 8192 to 12288: a new entry, and a prefetch of three times the length.
new_request : (request_internal plain wire busy (some (9, 1, 90)) 8192 4096 0).uplink.queue_len ≡ 3
unfolding request_internal mark_unsent
new_request = refl

-- It asks for bytes that entry 3 brings: it waits there, and nothing is sent.
attached_request : length (request_internal plain wire busy (some (9, 1, 90)) 5000 100 0).tried ≡ 0
unfolding request_internal mark_unsent
attached_request = refl

request_internal-IsValid_example :
    IsValid (request_internal plain wire busy (some (9, 1, 90)) 8192 4096 0).uplink
request_internal-IsValid_example =
    request_internal-IsValid plain wire busy (some (9, 1, 90)) 8192 4096 0 busy-IsValid busy-IsSane
      (omega arith)

request_internal-Keeps_example :
    Keeps busy
      (some (9, 1, 90))
      5000
      5100
      (request_internal plain wire busy (some (9, 1, 90)) 5000 100 0)
request_internal-Keeps_example =
    request_internal-Keeps plain wire busy (some (9, 1, 90)) 5000 100 0 busy-IsValid busy-IsSane
      (omega arith)

-- The client is given its part of the data, which begins at the first byte.
delivered : deliver 4096 8192 (waiting ∷ []) ≡ some (data_answer 4096 waiting ∷ [])
unfolding deliver
delivered = refl

remove_entry_lem_example :
    IsValid ((remove_entry 7 1 busy).0)
    × ((pending ((remove_entry 7 1 busy).0).queue ≡ staying 7 1 (pending busy.queue))
        × ((remove_entry 7 1 busy).1 ≡ fail_clients (leaving 7 1 (pending busy.queue))))
remove_entry_lem_example = remove_entry_lem 7 1 busy busy-IsValid

abbrev wire_all : List BlockRequest → Bool
wire_all b = true

-- All of the queue is sent again, as after a change of servers.
send_queued_requests_lem_example :
    let r = send_queued_requests wire_all false busy in
    All Fits r.1
    × (TakesAll wire_all
        → busy.connected ≡ true
        → (flat r.1 ≡ due false busy busy.queue) × (r.0.queue ≡ all_sent busy.queue))
send_queued_requests_lem_example = send_queued_requests_lem wire_all false busy

one_header : length (flat (send_queued_requests wire_all false busy).1) ≡ 1
unfolding send_queued_requests
one_header = refl

wanted_requests_lem_example :
    (length (pending busy.queue) ≡ 0 → wanted_requests plain 5 busy ≡ min 1 6 - 1)
    × (0 < length (pending busy.queue) → wanted_requests plain 5 busy ≡ 0)
wanted_requests_lem_example = wanted_requests_lem plain 5 busy refl

abbrev few_missing : Search
few_missing = record { map = 255 ∷ 0 ∷ 255 ∷ 255 ∷ []; size = 4; replicated_last = false }

-- The first hash block is empty, and the first byte of the second one is mixed.
abbrev empty_block : Search
empty_block = record { map = replicate 512 0 ++ (1 ∷ []); size = 513; replicated_last = false }

chooses_empty_block : find_next_incomplete empty_block 0 ≡ some 0
unfolding find_next_incomplete
chooses_empty_block = refl
