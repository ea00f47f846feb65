-- ===== src/Uplink/Request.antt =====
-- `extendRequest`, `requestBlock` and `uplink_requestInternal` of src/server/uplink.c.
use dnbd.Base.{
  ℕ, ◌+◌, ◌-◌, ◌*◌, ◌/◌, ◌%◌, Bool, true, false, ◌&&◌, ◌||◌, not, Option, none, some, List, [], ◌∷◌,
  ◌++◌, ltb, leb, ◌==◌, ◌!=◌, if◌then◌else◌, length, bit_and, bit_or, min,
}
use dnbd.Image.{align_down, align_up, hash_block_size, u64}
use dnbd.Uplink.Defs.{
  Replication, Config, Client, Entry, Uplink, BlockRequest, u32, hop_flag_bgr, hop_flag_prefetch,
  uplink_max_queue, uplink_max_clients_per_request, server_uplink_queuelen_thres,
}
use dnbd.Uplink.Entries.{find_range, mark_unsent}

abbrev pub is_hashblock : Replication → Bool
is_hashblock Replication.hashblock = true
is_hashblock _ = false

abbrev pub is_full : Replication → Bool
is_full Replication.full = true
is_full _ = false

-- `extendRequest`: the new `*end`.
unfoldable pub extend_request : Config → ℕ → ℕ → ℕ → ℕ → ℕ
extend_request cfg start end virtual_filesize wanted =
    let size = (end + u64 - start) % u64 % u32 in
    let extended = (start + wanted) % u64 in
    let wide =
      if is_hashblock cfg.background_replication
        && (end / hash_block_size != extended / hash_block_size)
      then extended / hash_block_size * hash_block_size
      else extended in
    let clamped = if ltb virtual_filesize wide then virtual_filesize else wide in
    if leb wanted size then end else align_up clamped

-- The hop count and its flags on the way up: `hops++`, and a flag on our own requests.
unfoldable pub next_hops : Config → ℕ → Bool → ℕ
next_hops cfg hops own =
    let up = (hops + 1) % 256 in
    if own then bit_or up (if cfg.pretend_client then hop_flag_prefetch else hop_flag_bgr) else up

-- `requestBlock`, with what `dnbd3_get_block` sends, if there is a connection.
unfoldable pub block_request : Uplink → Entry → ℕ → BlockRequest
block_request u e hops = record {
  offset = e.from;
  size = (e.to + u64 - e.from) % u64 % u32;
  handle = e.handle;
  hops = if leb 3 u.version then hops else 0;
}

-- A client of a request: its owner and its callback, and the handle that it waits for. `none` is a
-- request of our own for background replication (`callback == NULL`).
abbrev pub Asker : Type 0
Asker = Option (ℕ × ℕ × ℕ)

-- The critical section picks an entry: one that covers the range, with its neighbours, or a new one at
-- the end. `none` is `fail_lock`.
pub record Pick : Type 0 where
  pub before : List Entry
  pub entry : Entry
  pub behind : List Entry
  pub is_new : Bool

unfoldable pub new_entry : Uplink → ℕ → ℕ → ℕ → Entry
new_entry u from to hops = record {
  handle = (u.queue_id + 1) % u64;
  from = from;
  to = to;
  clients = [];
  hop_count = hops;
  sent = true;
}

-- `req.end`: the end of a new request, which for a client may reach further than it asked for.
unfoldable pub request_end : Config → Uplink → Asker → ℕ → ℕ → ℕ
unfolding extend_request
request_end cfg u none from end = align_up end
request_end cfg u (some asker) from end = align_up (
    if cfg.min_request_size != 0
    then extend_request cfg from end u.virtual_filesize cfg.min_request_size
    else end)

-- Attach to an entry that covers the range, unless that looks like a cycle or too many wait already.
unfoldable pub may_attach : Asker → Entry → ℕ → ℕ → ℕ → Bool
may_attach none entry start end hops = true
may_attach (some asker) entry start end hops =
    if (ltb entry.hop_count hops && (entry.from == start)) && (entry.to == end)
    then false
    else ltb (length entry.clients) uplink_max_clients_per_request

unfoldable pub pick : Config → Uplink → Asker → ℕ → ℕ → ℕ → Option Pick
unfolding new_entry find_range request_end may_attach
pick cfg u asker start end hops = elim (find_range u.queue start end) [
  | none ↦
      if leb uplink_max_queue u.queue_len
      then none
      else some (record {
        before = u.queue;
        entry =
            new_entry u (align_down start) (request_end cfg u asker (align_down start) end) hops;
        behind = [];
        is_new = true;
      })
  | some (before, entry, behind) ↦
      if may_attach asker entry start end hops
      then some (record { before = before; entry = entry; behind = behind; is_new = false })
      else none
]

abbrev first_owner_is : List Client → ℕ → Bool
first_owner_is [] owner = true
first_owner_is (c ∷ cs) owner = c.owner == owner

-- Is there a prefetch behind the request of a client, up to `pre_end`?
unfoldable pub may_prefetch : Config → Pick → ℕ → ℕ → ℕ → ℕ → ℕ → Bool
may_prefetch cfg p owner end size hops pre_end =
    (p.is_new || first_owner_is p.entry.clients owner)
    && ((bit_and hops (bit_or hop_flag_bgr hop_flag_prefetch) == 0)
        && ((end == p.entry.to) && (leb size cfg.max_prefetch && ltb end pre_end)))

-- The entry of the prefetch, if there is one. `queue_id` is the handle that was given last.
unfoldable pub prefetch_entry : Config → Uplink → Pick → Asker → ℕ → ℕ → ℕ → ℕ → Option Entry
unfolding extend_request may_prefetch
prefetch_entry cfg u p none queue_id end size hops = none
prefetch_entry cfg u p (some (owner, callback, handle)) queue_id end size hops =
    let wanted = min ((size * 3) % u32) cfg.max_prefetch in
    let pre_end = extend_request cfg end end u.virtual_filesize wanted in
    if may_prefetch cfg p owner end size hops pre_end
    then some (record {
      handle = (queue_id + 1) % u64;
      from = end;
      to = pre_end;
      clients = [];
      hop_count = bit_or hops hop_flag_prefetch;
      sent = true;
    })
    else none

unfoldable pub attach : Asker → ℕ → ℕ → Entry → Entry
attach none start end e = e
attach (some (owner, callback, handle)) start end e = record e {
  clients =
      e.clients
      ++ (record { owner = owner; callback = callback; handle = handle; from = start; to = end }
          ∷ []);
}

abbrev pub entry_of : Option Entry → List Entry
entry_of none = []
entry_of (some e) = e ∷ []

-- The critical section once an entry is picked.
unfoldable pub enqueue : Uplink → Pick → Option Entry → Asker → ℕ → ℕ → Uplink
unfolding attach
enqueue u p pre asker start end =
    let len = if p.is_new then u.queue_len + 1 else u.queue_len in
    let id = if p.is_new then (u.queue_id + 1) % u64 else u.queue_id in
    record u {
      queue = p.before ++ (attach asker start end p.entry ∷ (entry_of pre ++ p.behind));
      queue_len = len + length (entry_of pre);
      queue_id = elim pre [ none ↦ id | some e ↦ e.handle ];
      problem_queue =
          if p.is_new && ltb server_uplink_queuelen_thres len then true else u.problem_queue;
    }

-- The socket: does it take the request?
abbrev pub Wire : Type 0
Wire = BlockRequest → Bool

-- `requestBlock`, and `markRequestUnsent` with the problem flag where it fails.
unfoldable pub send_entry : Wire → ℕ → Entry → Uplink → Uplink
unfolding block_request mark_unsent
send_entry wire hops e u =
    if u.connected && wire (block_request u e hops)
    then u
    else record u { problem_uplink = true; queue = mark_unsent u.queue e.handle }

-- What the call says, the new state, and the entries that it tried to send.
pub record Outcome : Type 0 where
  pub accepted : Bool
  pub uplink : Uplink
  pub tried : List Entry

unfoldable pub send_pre : Wire → ℕ → Option Entry → Uplink → Uplink
unfolding send_entry
send_pre wire hops none u = u
send_pre wire hops (some e) u = send_entry wire (bit_or hops hop_flag_prefetch) e u

unfoldable pub send_new : Wire → ℕ → Pick → Uplink → Uplink
unfolding send_entry
send_new wire hops p u = if p.is_new then send_entry wire hops p.entry u else u

unfoldable pub refused : Uplink → Outcome
refused u = record { accepted = false; uplink = u; tried = [] }

-- The guards of `uplink_requestInternal` that come before the queue.
unfoldable pub may_request : Config → Uplink → ℕ → ℕ → Bool
may_request cfg u size hops =
    (not ((bit_and hops hop_flag_bgr != 0) && not (is_full cfg.background_replication))
      && not u.shutdown)
    && leb size cfg.max_payload

-- `uplink_requestInternal`, for a request that passed the guards. The two requests go out in the
-- order of the text; `markRequestUnsent` comes after both there, and touches no request of the other.
unfoldable pub submit : Config → Wire → Uplink → Asker → Pick → ℕ → ℕ → ℕ → ℕ → Outcome
unfolding prefetch_entry enqueue send_new send_pre
submit cfg wire u asker p start end size hops =
    let id = if p.is_new then (u.queue_id + 1) % u64 else u.queue_id in
    let pre = prefetch_entry cfg u p asker id end size hops in
    let queued = enqueue u p pre asker start end in
    record {
      accepted = true;
      uplink = send_pre wire hops pre (send_new wire hops p queued);
      tried = (if p.is_new then p.entry ∷ [] else []) ++ entry_of pre;
    }

-- `goto fail_lock`, or the rest of the call.
unfoldable pub finish : Config → Wire → Uplink → Asker → ℕ → ℕ → ℕ → ℕ → Option Pick → Outcome
unfolding submit refused
finish cfg wire u asker start end size hops none = refused u
finish cfg wire u asker start end size hops (some p) = submit cfg wire u asker p start end size hops

abbrev pub is_own : Asker → Bool
is_own none = true
is_own (some a) = false

unfoldable pub request_internal : Config → Wire → Uplink → Asker → ℕ → ℕ → ℕ → Outcome
unfolding may_request next_hops pick finish refused
request_internal cfg wire u asker start size hops' =
    let hops = next_hops cfg hops' (is_own asker) in
    let end = (start + size) % u64 in
    if may_request cfg u size hops'
    then finish cfg wire u asker start end size hops (pick cfg u asker start end hops)
    else refused u
