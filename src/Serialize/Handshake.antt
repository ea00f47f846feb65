-- ===== src/Serialize/Handshake.antt =====
-- The two ends of the handshake read what the other end wrote.
use mathlib.Core.Option.{map}
use mathlib.Core.List.{append_assoc}
use dnbd.Base.{
  ℕ, ◌+◌, ◌^◌, ◌<◌, ◌≤◌, ◌≡◌, refl, ap, ◌∙◌, false, some, List, [], ◌∷◌, ◌++◌, arith, ltb,
  if◌then◌else◌, length, length-append, drop, min,
}
use dnbd.Serialize.Defs.{
  Buffer, max_payload, encode, reset_read, reset_write, get_uint, get_string, put_bytes, put_uint,
  put_string, get_written_length,
}
use dnbd.Serialize.Laws.{
  written, remaining, put_bytes-Wrote, get_uint-encode, get_string-text, IsText, length-encode,
}
use dnbd.Serialize.Message.{
  protocol_version, select_image, payload, recv_payload, read_selection, select_reply, read_reply,
}

-- Four items behind one another, the second a string.
abbrev text : ℕ → List ℕ → ℕ → ℕ → ℕ → List ℕ
text version name rid n last = encode 2 version ++ (name ++ (0 ∷ (encode 2 rid ++ encode n last)))

abbrev put_all : ℕ → List ℕ → ℕ → ℕ → ℕ → Buffer → Buffer
put_all version name rid n last b =
    put_uint n last (put_uint 2 rid (put_string name (put_uint 2 version (reset_write b))))

-- The buffer holds what was written to it so far, and nothing else.
record Holds (b : Buffer) (xs : List ℕ) : Type 0 where
  pub text : written b ≡ xs
  pub pos : b.pos ≡ length xs
  pub end : b.end ≡ max_payload
  pub size : length b.bytes ≡ max_payload

reset_write-Holds : (b : Buffer) → length b.bytes ≡ max_payload → Holds (reset_write b) []
unfolding reset_write
reset_write-Holds b size = record { text = refl; pos = refl; end = refl; size = size }

put_bytes-Holds :
    (ys : List ℕ) (b : Buffer) (xs : List ℕ)
    → Holds b xs
    → length xs + length ys ≤ max_payload
    → Holds (put_bytes ys b) (xs ++ ys)
put_bytes-Holds ys b xs h fits =
    let w = put_bytes-Wrote ys b (omega (arith, h.pos, h.end)) (omega (arith, h.end, h.size)) in
    record {
      text = w.text ∙ ap (λ k. k ++ ys) h.text;
      pos = omega (arith, w.pos, h.pos, length-append xs ys);
      end = w.end ∙ h.end;
      size = w.size ∙ h.size;
    }

put_uint-Holds :
    (n v : ℕ) (b : Buffer) (xs : List ℕ)
    → Holds b xs
    → length xs + n ≤ max_payload
    → Holds (put_uint n v b) (xs ++ encode n v)
unfolding put_uint
put_uint-Holds n v b xs h fits =
    put_bytes-Holds (encode n v) b xs h (omega (arith, length-encode n v))

put_string-Holds :
    (s : List ℕ) (b : Buffer) (xs : List ℕ)
    → Holds b xs
    → length xs + (length s + 1) ≤ max_payload
    → Holds (put_string s b) (xs ++ (s ++ (0 ∷ [])))
unfolding put_string
put_string-Holds s b xs h fits =
    put_bytes-Holds (s ++ (0 ∷ [])) b xs h (omega (arith, length-append s (0 ∷ [])))

payload-Holds : (b : Buffer) (xs : List ℕ) → Holds b xs → payload b ≡ xs
unfolding payload get_written_length
payload-Holds b xs h = h.text

-- All four are written, if they fit.
put_all-text :
    (version : ℕ) (name : List ℕ) (rid n last : ℕ) (b : Buffer)
    → length b.bytes ≡ max_payload
    → length name + n + 5 ≤ max_payload
    → payload (put_all version name rid n last b) ≡ text version name rid n last
put_all-text version name rid n last b size fits =
    let v = encode 2 version in
    let r = encode 2 rid in
    let s = name ++ (0 ∷ []) in
    let h₁ = put_uint-Holds 2 version (reset_write b) [] (reset_write-Holds b size) (omega arith) in
    let h₂ = put_string-Holds name _ v h₁ (omega (arith, length-encode 2 version)) in
    let l₂ : length (v ++ s) ≡ 2 + (length name + 1) =
      omega (arith, length-append v s, length-append name (0 ∷ []), length-encode 2 version) in
    let h₃ = put_uint-Holds 2 rid _ (v ++ s) h₂ (omega (arith, l₂)) in
    let h₄ =
      put_uint-Holds n last _ ((v ++ s) ++ r) h₃
        (omega (arith, length-append (v ++ s) r, l₂, length-encode 2 rid)) in
    let e = encode n last in
    payload-Holds _ _ h₄
    ∙ (append_assoc (v ++ s) r e
        ∙ (append_assoc v s (r ++ e) ∙ ap (λ k. v ++ k) (append_assoc name (0 ∷ []) (r ++ e))))

length-text :
    (version : ℕ) (name : List ℕ) (rid n last : ℕ)
    → length (text version name rid n last) ≡ length name + n + 5
length-text version name rid n last = omega (
  arith,
  length-append (encode 2 version) (name ++ (0 ∷ (encode 2 rid ++ encode n last))),
  length-append name (0 ∷ (encode 2 rid ++ encode n last)),
  length-append (encode 2 rid) (encode n last),
  length-encode 2 version,
  length-encode 2 rid,
  length-encode n last,
)

-- A buffer about to be read, and the reads of the four items.
abbrev incoming : List ℕ → List ℕ → Buffer
incoming sent rest = record { bytes = sent ++ rest; end = length sent; pos = 0 }

record Reads (beyond version : ℕ) (name : List ℕ) (rid n last : ℕ) (b : Buffer) : Type 0 where
  pub first : get_uint 2 b ≡ (version, record b { pos = 2 })
  pub second :
      get_string beyond (record b { pos = 2 }) ≡ (some name, record b { pos = 2 + length name + 1 })
  pub third :
      get_uint 2 (record b { pos = 2 + length name + 1 })
      ≡ (rid, record b { pos = 2 + length name + 1 + 2 })
  pub fourth :
      get_uint n (record b { pos = 2 + length name + 1 + 2 })
      ≡ (last, record b { pos = 2 + length name + 1 + 2 + n })

reads :
    (beyond version : ℕ) (name : List ℕ) (rid n last : ℕ) (rest : List ℕ)
    → version < 256 ^ 2
    → IsText name
    → rid < 256 ^ 2
    → last < 256 ^ n
    → Reads beyond version name rid n last (incoming (text version name rid n last) rest)
reads beyond version name rid n last rest hv ht hr hl =
    let b = incoming (text version name rid n last) rest in
    let l = length-text version name rid n last in
    let tail₃ = encode n last ++ rest in
    let e₀ : remaining b ≡ encode 2 version ++ (name ++ (0 ∷ (encode 2 rid ++ tail₃))) =
      ap (λ k. encode 2 version ++ k)
        (append_assoc name (0 ∷ (encode 2 rid ++ encode n last)) rest) in
    let r₁ = get_uint-encode 2 version _ b hv (omega (arith, l)) e₀ in
    let r₂ = get_string-text beyond name _ (record b { pos = 2 }) ht (omega (arith, l)) (r₁.1) in
    let r₃ =
      get_uint-encode 2 rid tail₃ (record b { pos = 2 + length name + 1 }) hr (omega (arith, l))
        (r₂.1) in
    let r₄ =
      get_uint-encode n last rest (record b { pos = 2 + length name + 1 + 2 }) hl (omega (arith, l))
        (r₃.1) in
    record { first = r₁.0; second = r₂.0; third = r₃.0; fourth = r₄.0 }

-- The buffer that `recv_request_payload` leaves.
recv_payload-text :
    (version : ℕ) (name : List ℕ) (rid n last : ℕ) (b : Buffer)
    → length name + n + 5 ≤ max_payload
    → let sent = text version name rid n last in
      recv_payload sent b ≡ some (incoming sent (drop (length sent) b.bytes))
unfolding recv_payload reset_read
recv_payload-text version name rid n last b fits =
    ground (arith, length-text version name rid n last)

-- A select-image request that a client writes into a buffer of max_payload bytes, for a name without a
-- 0 byte that leaves room for the other fields, a 16-bit revision and 8 bits of flags, is received by
-- the server, whatever its buffer holds and whatever stands behind it, and the server reads from it
-- the protocol's version, the name, the revision and the flags that the client wrote.
pub select_image-read_selection :
    (name : List ℕ) (rid flags8 beyond : ℕ) (client server : Buffer)
    → IsText name
    → length name + 6 ≤ max_payload
    → rid < 2 ^ 16
    → flags8 < 2 ^ 8
    → length client.bytes ≡ max_payload
    → map
        (read_selection beyond)
        (recv_payload (payload (select_image name rid flags8 client)) server)
      ≡ some (record { version = protocol_version; name = some name; rid = rid; flags = flags8 })
unfolding select_image read_selection
select_image-read_selection name rid flags8 beyond client server ht fits hr hf size =
    let sent = text protocol_version name rid 1 flags8 in
    let rest = drop (length sent) server.bytes in
    let r = reads beyond protocol_version name rid 1 flags8 rest (omega arith) ht hr hf in
    rw (
      put_all-text protocol_version name rid 1 flags8 client size (omega arith),
      recv_payload-text protocol_version name rid 1 flags8 server (omega arith),
      r.first,
      r.second,
      r.third,
      r.fourth,
    )

read_reply-text :
    (version : ℕ) (name : List ℕ) (rid virtual_filesize beyond : ℕ) (client : Buffer)
    → version < 256 ^ 2
    → IsText name
    → length name + 13 ≤ max_payload
    → rid < 256 ^ 2
    → virtual_filesize < 256 ^ 8
    → read_reply beyond (text version name rid 8 virtual_filesize) client
      ≡ some
          (record { version = version; name = some name; rid = rid; image_size = virtual_filesize })
unfolding read_reply reset_read
read_reply-text version name rid virtual_filesize beyond client hv ht fits hr hs =
    let sent = text version name rid 8 virtual_filesize in
    let l = length-text version name rid 8 virtual_filesize in
    let low : ltb (length sent) 3 ≡ false = ground (arith, l) in
    let high : ltb max_payload (length sent) ≡ false = ground (arith, l) in
    let all : min max_payload (length sent) ≡ length sent = omega (arith, l) in
    let r =
      reads beyond version name rid 8 virtual_filesize (drop (length sent) client.bytes) hv ht hr
        hs in
    rw (low, high, all, r.first, r.second, r.third, r.fourth)

-- The reply that the server writes into a buffer of max_payload bytes, for a name without a 0 byte that
-- leaves room for the other fields, a 16-bit revision, a 64-bit size and the 16-bit version of the
-- request, is accepted by the client, whatever its buffer holds and whatever stands behind it, and the
-- client reads from it the smaller one of the two versions, the name, the revision and the size.
pub select_reply-read_reply :
    (client_version : ℕ) (name : List ℕ) (rid virtual_filesize beyond : ℕ) (server client : Buffer)
    → IsText name
    → length name + 13 ≤ max_payload
    → rid < 2 ^ 16
    → virtual_filesize < 2 ^ 64
    → length server.bytes ≡ max_payload
    → read_reply beyond
        (payload (select_reply client_version name rid virtual_filesize server))
        client
      ≡ some (record {
        version = min client_version protocol_version;
        name = some name;
        rid = rid;
        image_size = virtual_filesize;
      })
unfolding select_reply
select_reply-read_reply client_version name rid virtual_filesize beyond server client ht fits hr hs
      size =
    let v = if ltb client_version 3 then client_version else protocol_version in
    let least : v ≡ min client_version protocol_version = ground arith in
    ap (λ k. read_reply beyond k client)
      (put_all-text v name rid 8 virtual_filesize server size (omega arith))
    ∙ (read_reply-text v name rid virtual_filesize beyond client (ground arith) ht fits hr hs
        ∙ ap
            (λ k.
              some (record {
                version = k;
                name = some name;
                rid = rid;
                image_size = virtual_filesize;
              }))
            least)
