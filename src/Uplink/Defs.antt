-- ===== src/Uplink/Defs.antt =====
-- The structs of src/server/globals.h that the request queue is made of, and the configuration.
use dnbd.Base.{ℕ, ◌^◌, Bool, List}

pub data Replication : Type 0 where
  disabled full hashblock : Replication

-- The globals of src/server/globals.c that uplink.c reads.
pub record Config : Type 0 where
  pub background_replication : Replication
  pub min_request_size : ℕ
  pub max_payload : ℕ
  pub max_prefetch : ℕ
  pub pretend_client : Bool
  pub bgr_window_size : ℕ
  pub bgr_min_clients : ℕ

-- `dnbd3_queue_client_t`; `owner` is the `data` pointer, a pointer and a function are numbers.
pub record Client : Type 0 where
  pub owner : ℕ
  pub callback : ℕ
  pub handle : ℕ
  pub from : ℕ
  pub to : ℕ

-- `dnbd3_queue_entry_t`
pub record Entry : Type 0 where
  pub handle : ℕ
  pub from : ℕ
  pub to : ℕ
  pub clients : List Client
  pub hop_count : ℕ
  pub sent : Bool

-- The part of `_dnbd3_uplink` that the request queue uses, with the size and the problem flags of its
-- image. `connected` is `current.fd != -1`.
pub record Uplink : Type 0 where
  pub queue : List Entry
  pub queue_len : ℕ
  pub queue_id : ℕ
  pub shutdown : Bool
  pub connected : Bool
  pub version : ℕ
  pub virtual_filesize : ℕ
  pub problem_uplink : Bool
  pub problem_queue : Bool

-- What `dnbd3_get_block` puts on the wire.
pub record BlockRequest : Type 0 where
  pub offset : ℕ
  pub size : ℕ
  pub handle : ℕ
  pub hops : ℕ

abbrev pub u32 : ℕ
u32 = 2 ^ 32

abbrev pub hop_flag_bgr : ℕ
hop_flag_bgr = 0x80

abbrev pub hop_flag_prefetch : ℕ
hop_flag_prefetch = 0x40

abbrev pub uplink_max_queue : ℕ
uplink_max_queue = 500

abbrev pub uplink_max_clients_per_request : ℕ
uplink_max_clients_per_request = 32

abbrev pub server_uplink_queuelen_thres : ℕ
server_uplink_queuelen_thres = 900
