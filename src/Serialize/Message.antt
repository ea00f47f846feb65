-- ===== src/Serialize/Message.antt =====
-- The select-image request and its reply: `dnbd3_select_image` and `dnbd3_select_image_reply` of
-- inc/dnbd3/shared/protocol.h, and the server's half of both in src/server/net.c
-- (`recv_request_payload`, `net_handleNewConnection`). The transport hands over what was written.
use dnbd.Base.{
  ℕ, ◌||◌, Option, none, some, List, ◌++◌, ltb, ◌==◌, if◌then◌else◌, length, take, drop,
}
use dnbd.Serialize.Defs.{
  Buffer, max_payload, reset_read, reset_write, get_uint, get_string, put_uint, put_string,
  get_written_length,
}

abbrev pub protocol_version : ℕ
protocol_version = 3

-- The payload of `dnbd3_select_image`.
unfoldable pub select_image : List ℕ → ℕ → ℕ → Buffer → Buffer
unfolding put_uint put_string reset_write
select_image name rid flags8 b =
    put_uint 1 flags8
      (put_uint 2 rid (put_string name (put_uint 2 protocol_version (reset_write b))))

-- What goes over the wire: `serializer_get_written_length` bytes of the buffer.
unfoldable pub payload : Buffer → List ℕ
unfolding get_written_length
payload b = take (get_written_length b) b.bytes

-- `recv_request_payload`, of a payload that arrives whole.
unfoldable pub recv_payload : List ℕ → Buffer → Option Buffer
unfolding reset_read
recv_payload sent b =
    let size = length sent in
    if size == 0
    then none
    else if ltb max_payload size
    then none
    else some (reset_read (record b { bytes = sent ++ drop size b.bytes }) size)

pub record Selection : Type 0 where
  pub version : ℕ
  pub name : Option (List ℕ)
  pub rid : ℕ
  pub flags : ℕ

-- The server reads the request.
unfoldable pub read_selection : ℕ → Buffer → Selection
unfolding get_uint get_string
read_selection beyond b =
    let (version, b₁) = get_uint 2 b in
    let (name, b₂) = get_string beyond b₁ in
    let (rid, b₃) = get_uint 2 b₂ in
    let (flags, b₄) = get_uint 1 b₃ in
    record { version = version; name = name; rid = rid; flags = flags }

-- The payload of the server's reply.
unfoldable pub select_reply : ℕ → List ℕ → ℕ → ℕ → Buffer → Buffer
unfolding put_uint put_string reset_write
select_reply client_version name rid virtual_filesize b = put_uint 8 virtual_filesize (
    put_uint 2 rid (
      put_string name (
        put_uint 2 (if ltb client_version 3 then client_version else protocol_version)
          (reset_write b))))

pub record Selected : Type 0 where
  pub version : ℕ
  pub name : Option (List ℕ)
  pub rid : ℕ
  pub image_size : ℕ

-- `dnbd3_select_image_reply`, once the reply header says `CMD_SELECT_IMAGE` and the payload arrived.
unfoldable pub read_reply : ℕ → List ℕ → Buffer → Option Selected
unfolding get_uint get_string reset_read
read_reply beyond sent b =
    let size = length sent in
    if ltb size 3 || ltb max_payload size
    then none
    else (let (version, b₁) =
          get_uint 2 (reset_read (record b { bytes = sent ++ drop size b.bytes }) size) in
        let (name, b₂) = get_string beyond b₁ in
        let (rid, b₃) = get_uint 2 b₂ in
        let (image_size, b₄) = get_uint 8 b₃ in
        some (record { version = version; name = name; rid = rid; image_size = image_size }))
