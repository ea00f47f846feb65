-- ===== src/Session/Commands.antt =====
-- The other commands of `net_handleNewConnection` (src/server/net.c), and its loop.
use dnbd.Base.{
  ℕ, ◌+◌, ◌*◌, Bool, false, ◌&&◌, not, Option, none, some, List, [], ◌∷◌, ◌++◌, map, ltb, ◌==◌,
  if◌then◌else◌, length, get_or,
}
use dnbd.Image.{hash_blocks}
use dnbd.Serialize.Defs.{max_payload}
use dnbd.AltServers.Defs.{Host, AltServer, no_server}
use dnbd.AltServers.Lists.{list_for_client}
use dnbd.Session.Defs.{
  Request, Payload, nothing, words, cut_off, servers, Reply, Session, World, Handled, answers,
  goes_on_with, cmd_get_block, get_block,
}

abbrev pub cmd_get_servers : ℕ
cmd_get_servers = 3

abbrev pub cmd_keepalive : ℕ
cmd_keepalive = 5

abbrev pub cmd_set_client_mode : ℕ
cmd_set_client_mode = 7

abbrev pub cmd_get_crc32 : ℕ
cmd_get_crc32 = 8

-- `NUMBER_SERVERS`
abbrev pub number_servers : ℕ
number_servers = 8

-- What the commands read besides the session: the alternative servers, the client's address, and
-- `masterCrc32` of the image.
pub record Context : Type 0 where
  pub alt_servers : List AltServer
  pub host : Host
  pub master_crc32 : ℕ

-- CMD_GET_SERVERS; an entry has 20 bytes.
unfoldable pub get_servers : World → Context → ℕ → Session → Handled
get_servers w c handle s =
    let found = list_for_client c.host s.image.name number_servers c.alt_servers in
    let hosts = map (λ i. (get_or c.alt_servers i no_server).host) found in
    answers w s (record {
      cmd = cmd_get_servers;
      size = length found * 20;
      handle = handle;
      payload = servers hosts;
    })

unfoldable pub keepalive : World → ℕ → Session → Handled
keepalive w handle s =
    answers w s (record { cmd = cmd_keepalive; size = 0; handle = handle; payload = nothing })

-- What is sent of the checksums by the two calls of `send`, whose results are ignored.
unfoldable pub send_crcs : World → Context → ℕ → List ℕ → Payload
send_crcs w c blocks list =
    let first = w.send_some 4 in
    let rest = w.send_some (blocks * 4) in
    if (first == 4) && (rest == blocks * 4)
    then words (c.master_crc32 ∷ list)
    else cut_off (first + rest)

-- CMD_GET_CRC32. What is sent behind a header that was not sent whole is left out.
unfoldable pub crc_reply : World → Context → ℕ → ℕ → Option (List ℕ) → Reply
unfolding send_crcs
crc_reply w c handle real none = record {
  cmd = cmd_get_crc32;
  size = 0;
  handle = handle;
  payload = nothing;
}
crc_reply w c handle real (some list) = record {
  cmd = cmd_get_crc32;
  size = (hash_blocks real + 1) * 4;
  handle = handle;
  payload = send_crcs w c (hash_blocks real) list;
}

-- Before any other command the connection lets go of the cache map.
abbrev pub release_map : Session → Session
release_map s = record s { cache = none }

-- The branches of the loop. `handle` is the handle in the variable `reply`: that of the last block
-- request, since the other commands do not set it.
unfoldable pub handle_request : World → Context → Request → ℕ → Session → Handled
unfolding get_block get_servers keepalive crc_reply
handle_request w c r handle s =
    if r.cmd == cmd_get_block
    then get_block w r s
    else if r.cmd == cmd_get_servers
    then get_servers w c handle (release_map s)
    else if r.cmd == cmd_keepalive
    then keepalive w handle (release_map s)
    else if r.cmd == cmd_set_client_mode
    then goes_on_with (record (release_map s) { is_server = false }) []
    else if r.cmd == cmd_get_crc32
    then answers w (release_map s) (crc_reply w c handle s.image.real_filesize s.image.crc32)
    else goes_on_with (release_map s) []

-- The check of `recv_request_header`, behind that of the magic number.
unfoldable pub is_refused : Request → Bool
is_refused r = not (r.cmd == cmd_get_block) && ltb max_payload r.size

-- The loop: the requests that the client sends, each with what the surroundings do meanwhile.
unfoldable pub serve : Context → List (World × Request) → ℕ → Session → Session × List Reply
unfolding handle_request is_refused
serve c [] handle s = (s, [])
serve c ((w, r) ∷ rest) handle s =
    let h = handle_request w c r handle s in
    let more = serve c rest (if r.cmd == cmd_get_block then r.handle else handle) h.session in
    if is_refused r
    then (s, [])
    else if h.goes_on
    then (more.0, h.replies ++ more.1)
    else (h.session, h.replies)
