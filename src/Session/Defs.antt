-- ===== src/Session/Defs.antt =====
-- A block request of a client: the CMD_GET_BLOCK branch of `net_handleNewConnection` (src/server/net.c),
-- with `uplink_requestClient` (src/server/uplink.c) and `uplinkCallback`. What the socket, sendfile and
-- the other threads do is a parameter.
use dnbd.Base.{
  ℕ, zero, suc, ◌+◌, ◌-◌, ◌%◌, Bool, true, false, ◌&&◌, ◌||◌, not, Option, none, some, List, [],
  ◌∷◌, ◌++◌, ltb, leb, ◌==◌, if◌then◌else◌, replicate,
}
use dnbd.Image.{Image, CacheMap, u64, align_down, align_up}
use dnbd.CacheMap.{is_range_cached_unsafe}
use dnbd.AltServers.Defs.{Host}
use dnbd.Uplink.Defs.{Config, Uplink}
use dnbd.Uplink.Reply.{Answer, read_file, data_of, remove_entry}
use dnbd.Uplink.Request.{Wire, Outcome, request_internal}

-- `dnbd3_request_t` without its magic number, in the byte order of the machine.
pub record Request : Type 0 where
  pub cmd : ℕ
  pub size : ℕ
  pub offset : ℕ
  pub hops : ℕ
  pub handle : ℕ

abbrev pub cmd_get_block : ℕ
cmd_get_block = 1

abbrev pub cmd_error : ℕ
cmd_error = 4

-- What follows the header of a reply; `cut_off` is a number of bytes that are not all of the payload.
pub data Payload : Type 0 where
  nothing : Payload
  block words : List ℕ → Payload
  cut_off : ℕ → Payload
  servers : List Host → Payload

-- `dnbd3_reply_t` with its payload.
pub record Reply : Type 0 where
  pub cmd : ℕ
  pub size : ℕ
  pub handle : ℕ
  pub payload : Payload

-- The variables of a connection that a request reads or changes, with its image and the image's uplink.
-- `owner` is the pointer to the client, and `cache` the cache map that the connection holds a reference
-- to, which need not be the image's any more.
pub record Session : Type 0 where
  pub owner : ℕ
  pub is_server : Bool
  pub bytes_sent : ℕ
  pub relayed_count : ℕ
  pub image : Image
  pub cache : Option CacheMap
  pub uplink : Uplink

-- What the surroundings do during one request: the configuration; the file's bytes; whether the header of
-- a reply, with the list of servers that `send_reply` sends behind it, goes out whole; how much of `n`
-- bytes a plain `send` takes; how much of `n` bytes at a position `sendfile` sends, 0 if it fails; how
-- much of `n` zero bytes `sock_sendAll` sends, 0 if it fails; whether a failure is the file's fault; the
-- uplink and the counter after waiting for the backlog to fall, while other threads call the client back;
-- whether there is an uplink; whether it is on the client's host; and the socket of the uplink.
pub record World : Type 0 where
  pub config : Config
  pub file : ℕ → ℕ
  pub takes_header : Bool
  pub send_some : ℕ → ℕ
  pub send_file : ℕ → ℕ → ℕ
  pub send_zeros : ℕ → ℕ
  pub is_file_error : Bool
  pub waited : Uplink → ℕ → Uplink × ℕ
  pub has_uplink : Bool
  pub is_same_host : Bool
  pub wire : Wire

-- A request leaves a session, whether the loop goes on, and the replies that were sent.
pub record Handled : Type 0 where
  pub session : Session
  pub goes_on : Bool
  pub replies : List Reply

abbrev pub goes_on_with : Session → List Reply → Handled
goes_on_with s replies = record { session = s; goes_on = true; replies = replies }

abbrev pub drops : Session → Handled
drops s = record { session = s; goes_on = false; replies = [] }

-- The loop over `sendfile`, for the bytes that are left: what was sent, and whether it was all. A round
-- that sends nothing ends it, so `fuel` for one round per byte is enough.
unfoldable pub send_payload : World → ℕ → ℕ → ℕ → List ℕ × Bool
unfolding read_file
send_payload w zero pos left = ([], left == 0)
send_payload w (suc fuel) pos left =
    let sent = w.send_file pos left in
    let rest = send_payload w fuel (pos + sent) (left - sent) in
    if left == 0
    then ([], true)
    else if sent == 0
    then ([], false)
    else (read_file w.file pos sent ++ rest.0, rest.1)

-- `sendPadding`: pieces of 500 bytes, and the rest.
unfoldable pub send_padding : World → ℕ → ℕ → List ℕ × Bool
send_padding w zero bytes = ([], bytes == 0)
send_padding w (suc fuel) bytes =
    let sent = w.send_zeros 500 in
    let rest = send_padding w fuel (bytes - sent) in
    if ltb bytes 500
    then (replicate (w.send_zeros bytes) 0, w.send_zeros bytes == bytes)
    else if sent == 0
    then ([], false)
    else (replicate sent 0 ++ rest.0, rest.1)

-- `realBytes`: the file may end before the image does. The difference is taken as a size_t.
unfoldable pub real_bytes : Image → Request → ℕ
real_bytes image r =
    if leb (r.offset + r.size) image.real_filesize
    then r.size
    else (image.real_filesize + u64 - r.offset) % u64

unfoldable pub file_failed : World → Session → Session
file_failed w s =
    if w.is_file_error
    then record s { image = record s.image { problem = record s.image.problem { read = true } } }
    else s

-- A reply from the file, after the header went out.
unfoldable pub reply_payload : World → Request → Session → Handled
unfolding send_payload send_padding real_bytes file_failed
reply_payload w r s =
    let from_file = send_payload w r.size r.offset (real_bytes s.image r) in
    let missing = r.size - real_bytes s.image r in
    let zeros = if missing == 0 then ([], true) else send_padding w (missing + 1) missing in
    let sent = from_file.0 ++ zeros.0 in
    if not from_file.1
    then drops (file_failed w s)
    else if not zeros.1
    then drops s
    else goes_on_with (record s { bytes_sent = s.bytes_sent + r.size })
        (record { cmd = cmd_get_block; size = r.size; handle = r.handle; payload = block sent }
          ∷ [])

unfoldable pub reply_block : World → Request → Session → Handled
unfolding reply_payload
reply_block w r s = if w.takes_header then reply_payload w r s else drops s

-- A wait for the backlog of the client to fall.
abbrev pub after_wait : World → Session → Session
after_wait w s =
    let r = w.waited s.uplink s.relayed_count in record s { uplink = r.0; relayed_count = r.1 }

unfoldable pub throttle : World → Session → Session
throttle w s = if ltb 250 s.relayed_count then after_wait w s else s

-- `uplink_requestClient`. `callback` stands for `uplinkCallback`.
abbrev pub callback : ℕ
callback = 1

unfoldable pub request_client : World → Request → Session → Outcome
unfolding request_internal
request_client w r s =
    let refused : Outcome = record { accepted = false; uplink = s.uplink; tried = [] } in
    if ltb 60 (r.hops % 64)
    then refused
    else if not w.has_uplink
    then refused
    else if ltb 1 r.hops && w.is_same_host
    then refused
    else request_internal w.config w.wire s.uplink (some (s.owner, callback, r.handle)) r.offset
        r.size r.hops

-- The range is not cached. The count has 8 bits.
unfoldable pub relay_block : World → Request → Session → Handled
unfolding request_client throttle
relay_block w r s₀ =
    let s = throttle w s₀ in
    let o = request_client w r s in
    if ltb 250 s.relayed_count
    then drops s
    else if o.accepted
    then goes_on_with (record s { relayed_count = (s.relayed_count + 1) % 256; uplink = o.uplink })
        []
    else drops (record s { uplink = o.uplink })

-- Is the whole range in the file? An image with no cache map is complete.
unfoldable pub is_cached : Request → Option CacheMap → Bool
is_cached r none = true
is_cached r (some c) =
    (r.size == 0)
    || is_range_cached_unsafe c.map (align_down r.offset) (align_up (r.offset + r.size))

abbrev pub error_reply : Request → Reply
error_reply r = record { cmd = cmd_error; size = 0; handle = r.handle; payload = nothing }

-- A reply of `send_reply` whose result is ignored: the loop goes on. One that is not sent whole is not
-- listed.
abbrev pub answers : World → Session → Reply → Handled
answers w s x = goes_on_with s (if w.takes_header then x ∷ [] else [])

-- The map that the request is tested against: the one that is held, or else the image's.
abbrev pub held_map : Session → Option CacheMap
held_map s = elim s.cache [ none ↦ s.image.cache_map | some c ↦ some c ]

abbrev pub grab : Session → Session
grab s = record s { cache = held_map s }

-- CMD_GET_BLOCK
unfoldable pub get_block : World → Request → Session → Handled
unfolding reply_block relay_block is_cached
get_block w r s =
    if leb s.image.virtual_filesize r.offset
    then answers w s (error_reply r)
    else if ltb s.image.virtual_filesize ((r.offset + r.size) % u64)
    then answers w s (error_reply r)
    else if is_cached r (held_map s)
    then reply_block w r (grab s)
    else relay_block w r (grab s)

-- `uplinkCallback`: the answer to a relayed request, `none` if it failed. The header and the payload
-- go out before the count falls.
unfoldable pub uplink_callback : ℕ → ℕ → Option (List ℕ) → Session → Session × Reply
uplink_callback handle len none s = (
  record s { relayed_count = (s.relayed_count + 255) % 256 },
  record { cmd = cmd_error; size = len; handle = handle; payload = nothing },
)
uplink_callback handle len (some bytes) s = (
  record s { relayed_count = (s.relayed_count + 255) % 256 },
  record { cmd = cmd_get_block; size = len; handle = handle; payload = block bytes },
)

-- The callbacks of one client, one after the other; `buffer` is `recvBuffer`.
unfoldable pub call_back : (ℕ → ℕ) → List Answer → Session → Session × List Reply
unfolding uplink_callback data_of
call_back buffer [] s = (s, [])
call_back buffer (a ∷ rest) s =
    let r = uplink_callback a.handle a.length (data_of buffer a) s in
    let more = call_back buffer rest r.0 in (more.0, r.1 ∷ more.1)

-- `freeClientStruct`, up to the release of the image: a client with requests on the way is taken out of
-- the uplink's queue, which calls it back for each.
unfoldable pub free_client : (ℕ → ℕ) → Session → Session × List Reply
unfolding call_back remove_entry
free_client buffer s =
    if s.relayed_count == 0
    then (s, [])
    else (let r = remove_entry s.owner callback s.uplink in
        call_back buffer r.1 (record s { uplink = r.0 }))
