-- ===== src/Session/Blocks.antt =====
-- What a client gets for a block request.
use dnbd.Base.{
  ℕ, ◌+◌, ◌-◌, ◌%◌, ◌^◌, ◌≤◌, ◌<◌, ◌≡◌, ◌≢◌, ◌↔◌, ◌⊎◌, refl, ap, ◌∙◌, Bool, true, false, ◌&&◌, List,
  [], ◌∷◌, ◌++◌, Option, none, some, ltb, leb, ◌==◌, if◌then◌else◌, replicate, arith, Bool-cases,
  inl, inr, All,
}
use dnbd.Image.{Image, CacheMap, u64, align_down, align_up}
use dnbd.CacheMap.Cached.{cached}
use dnbd.CacheMap.View.{IsValid, IsSized, present, touches}
use dnbd.CacheMap.Queries.{is_range_cached_iff}
use dnbd.Uplink.Reply.{read_file}
use dnbd.Session.Defs.{
  Request, block, Reply, Session, World, Handled, cmd_get_block, goes_on_with, answers, held_map,
  grab, throttle, error_reply, send_payload, send_padding, real_bytes, reply_payload, reply_block,
  request_client, relay_block, is_cached, get_block,
}
use dnbd.Session.Payload.{
  image_bytes, IsBounded, IsServing, image_bytes-read_file, image_bytes_padded, send_payload_right,
  send_padding_right, send_payload-ends, send_padding-ends,
}

-- All blocks with a byte of the request are in the file, by a cache map, and by the image.
abbrev pub IsPresentIn : Option CacheMap → Request → Type 0
IsPresentIn c r =
    (b : ℕ)
    → touches r.offset (r.offset + r.size) b ≡ true
    → elim c [ none ↦ true | some c ↦ cached c.map b ] ≡ true

abbrev pub IsPresent : Image → Request → Type 0
IsPresent image r = (b : ℕ) → touches r.offset (r.offset + r.size) b ≡ true → present image b ≡ true

-- The sizes of a request: 32 bits, and 56 bits of the offset.
pub record FitsWire (r : Request) : Type 0 where
  pub size_fits : r.size < 2 ^ 32
  pub offset_fits : r.offset < 2 ^ 56

-- The bytes that the client is to get.
abbrev pub wanted : World → Session → Request → List ℕ
wanted w s r = image_bytes w.file s.image.real_filesize r.offset r.size

abbrev pub whole_reply : World → Session → Request → Reply
whole_reply w s r = record {
  cmd = cmd_get_block;
  size = r.size;
  handle = r.handle;
  payload = block (wanted w s r);
}

is_cached_iff :
    (image : Image) (r : Request) (c : Option CacheMap)
    → IsSized image.virtual_filesize c
    → FitsWire r
    → 0 < r.size
    → (is_cached r c ≡ true) ↔ (
        (b : ℕ)
        → touches r.offset (r.offset + r.size) b ≡ true
        → elim c [ none ↦ true | some c ↦ cached c.map b ] ≡ true)
unfolding is_cached
is_cached_iff image r none sized fits some_bytes = (λ e b t. refl, λ all. refl)
is_cached_iff image r (some c) sized fits some_bytes =
    let iff =
      is_range_cached_iff c.map sized.1 (align_down r.offset) (align_up (r.offset + r.size))
        (omega arith) (omega arith) (omega (arith, fits.size_fits, fits.offset_fits)) in
    let size : (r.size == 0) ≡ false = ground arith in
    (
      λ e b t.
          iff.0 (ground (arith, e)) b (ground (arith, t))
            (ground (arith, t, fits.size_fits, fits.offset_fits)),
      λ all. rw size (iff.1 (λ b lo hi. all b (ground (arith, fits.size_fits, fits.offset_fits)))),
    )

append_nil : (xs : List ℕ) → xs ++ [] ≡ xs
append_nil [] = refl
append_nil (x ∷ xs) = ap (λ l. x ∷ l) (append_nil xs)

-- The file is not longer than the image.
abbrev pub FileFits : Image → Type 0
FileFits image = image.real_filesize ≤ image.virtual_filesize

abbrev pad : World → ℕ → List ℕ × Bool
pad w missing = if missing == 0 then ([], true) else send_padding w (missing + 1) missing

pad_right :
    (w : World) (real missing : ℕ)
    → IsBounded w real
    → (pad w missing).1 ≡ true
    → (pad w missing).0 ≡ replicate missing 0
pad_right w real missing b h = elim (Bool-cases (missing == 0)) [
  | inl t ↦ let none : missing ≡ 0 = ground arith in rw none refl
  | inr f ↦
      let same : pad w missing ≡ send_padding w (missing + 1) missing = rw f refl in
      rw same (send_padding_right w real b (missing + 1) missing (rw same at h))
]

-- What `realBytes` is; past the end of the file it is more than there is.
real_bytes_cases :
    (r : Request) (image : Image)
    → IsValid image
    → FileFits image
    → FitsWire r
    → ((real_bytes image r ≡ r.size) × (r.offset + r.size ≤ image.real_filesize))
      ⊎ ((image.real_filesize < r.offset + r.size)
          × (r.offset ≤ image.real_filesize → r.offset + real_bytes image r ≡ image.real_filesize)
          × (image.real_filesize < r.offset → 0 < real_bytes image r))
unfolding real_bytes
real_bytes_cases r image v fits wire =
    elim (Bool-cases (leb (r.offset + r.size) image.real_filesize)) [
      | inl t ↦ rw t (inl (refl, ground arith))
      | inr f ↦ rw f (
          inr (
            ground arith,
            λ h. omega (arith, v.small, fits, wire.offset_fits),
            λ h. omega (arith, v.small, fits, wire.offset_fits),
          ))
    ]

-- What the two loops send, when both say that they sent all.
sent_lem :
    (w : World) (r : Request) (image : Image)
    → IsValid image
    → FileFits image
    → FitsWire r
    → IsBounded w image.real_filesize
    → let q = real_bytes image r in
      (send_payload w r.size r.offset q).1 ≡ true
      → (pad w (r.size - q)).1 ≡ true
      → (send_payload w r.size r.offset q).0 ++ (pad w (r.size - q)).0
        ≡ image_bytes w.file image.real_filesize r.offset r.size
sent_lem w r image v fits wire b all_file all_zeros =
    let q = real_bytes image r in
    let real = image.real_filesize in
    let sent = send_payload_right w real b r.size r.offset q all_file in
    let zeros = pad_right w real (r.size - q) b all_zeros in
    rw (sent.0, zeros)
      (elim (real_bytes_cases r image v fits wire) [
        | inl (e, inside) ↦
            let none : r.size - q ≡ 0 = omega arith in
            rw (none, e)
              (append_nil (read_file w.file r.offset r.size)
                ∙ image_bytes-read_file w.file real r.size r.offset inside)
        | inr (past, ends, over) ↦
            let within : r.offset ≤ real = ground (arith, over, sent.1) in
            image_bytes_padded w.file real q (r.size - q) r.offset r.size (ends within)
              (omega (arith, ends within))
      ])

-- A reply says what it is, and the whole of it.
abbrev IsWhole : World → Session → Request → List Reply → Type 0
IsWhole w s r replies = All (λ x. x ≡ whole_reply w s r) replies

reply_block-IsWhole :
    (w : World) (r : Request) (s : Session)
    → IsValid s.image
    → FileFits s.image
    → FitsWire r
    → IsBounded w s.image.real_filesize
    → IsWhole w s r (reply_block w r s).replies
unfolding reply_block reply_payload
reply_block-IsWhole w r s v fits wire b =
    let q = real_bytes s.image r in
    elim (Bool-cases w.takes_header) [
      | inr f ↦ rw f tt
      | inl h ↦ elim (Bool-cases (send_payload w r.size r.offset q).1) [
        | inr f ↦ rw (h, f) tt
        | inl t ↦ elim (Bool-cases (pad w (r.size - q)).1) [
          | inr f ↦ rw (h, t, f) tt
          | inl u ↦
              rw (h, t, u)
                (
                  ap (λ l. record { cmd = 1; size = r.size; handle = r.handle; payload = block l })
                      (sent_lem w r s.image v fits wire b t u),
                  tt,
                )
        ]
      ]
    ]

abbrev pub in_range : Image → Request → Bool
in_range image r =
    ltb r.offset image.virtual_filesize && leb (r.offset + r.size) image.virtual_filesize

pub get_block_parts :
    (w : World) (r : Request) (s : Session)
    → IsValid s.image
    → FitsWire r
    → get_block w r s ≡ (
        if in_range s.image r
        then if is_cached r (held_map s) then reply_block w r (grab s) else relay_block w r (grab s)
        else answers w s (error_reply r))
unfolding get_block
get_block_parts w r s v fits =
    let whole : (r.offset + r.size) % u64 ≡ r.offset + r.size =
      omega (arith, fits.size_fits, fits.offset_fits) in
    rw whole (elim (Bool-cases (leb s.image.virtual_filesize r.offset)) [
      | inl t ↦ let out : in_range s.image r ≡ false = ground arith in rw (t, out) refl
      | inr f ↦ elim (Bool-cases (ltb s.image.virtual_filesize (r.offset + r.size))) [
        | inl t ↦ let out : in_range s.image r ≡ false = ground arith in rw (f, t, out) refl
        | inr g ↦ let inside : in_range s.image r ≡ true = ground arith in rw (f, g, inside) refl
      ]
    ])

relay_block-silent : (w : World) (r : Request) (s : Session) → (relay_block w r s).replies ≡ []
unfolding relay_block
relay_block-silent w r s = elim (Bool-cases (ltb 250 (throttle w s).relayed_count)) [
  | inl t ↦ rw t refl
  | inr f ↦ elim (Bool-cases (request_client w r (throttle w s)).accepted) [
    | inl a ↦ rw (f, a) refl
    | inr d ↦ rw (f, d) refl
  ]
]

-- What is sent, whatever map the connection holds.
pub get_block-IsWhole :
    (w : World) (r : Request) (s : Session)
    → IsValid s.image
    → FileFits s.image
    → FitsWire r
    → IsBounded w s.image.real_filesize
    → if in_range s.image r
      then IsWhole w s r (get_block w r s).replies
      else get_block w r s ≡ answers w s (error_reply r)
get_block-IsWhole w r s v fits wire b =
    rw (get_block_parts w r s v wire) (elim (Bool-cases (in_range s.image r)) [
      | inr f ↦ rw f refl
      | inl t ↦ elim (Bool-cases (is_cached r (held_map s))) [
        | inl c ↦ rw (t, c) (reply_block-IsWhole w r (grab s) v fits wire b)
        | inr m ↦ rw (t, m, relay_block-silent w r (grab s)) tt
      ]
    ])

-- A reply with data is only sent when the held map has all the blocks.
get_block-IsPresentIn :
    (w : World) (r : Request) (s : Session)
    → IsValid s.image
    → IsSized s.image.virtual_filesize (held_map s)
    → FitsWire r
    → 0 < r.size
    → in_range s.image r ≡ true
    → (get_block w r s).replies ≢ []
    → IsPresentIn (held_map s) r
get_block-IsPresentIn w r s v sized wire some_bytes inside sent =
    elim (Bool-cases (is_cached r (held_map s))) [
      | inl c ↦ (is_cached_iff s.image r (held_map s) sized wire some_bytes).0 c
      | inr m ↦
          absurd
            (sent (rw (get_block_parts w r s v wire, inside, m) (relay_block-silent w r (grab s))))
    ]

-- What may be sent in reply to a block request.
abbrev pub Honest : World → Session → Request → Handled → Type 0
Honest w s r h =
    if in_range s.image r
    then All (λ x. x ≡ whole_reply w s r) h.replies
      × (h.replies ≢ []
          → 0 < r.size
          → IsPresentIn (held_map s) r × (s.cache ≡ none → IsPresent s.image r))
    else h ≡ answers w s (error_reply r)

-- CMD_GET_BLOCK, on an image whose cache map is well formed and whose file is not longer than the image,
-- by a connection that holds no cache map or a well formed one of this image: a request for bytes that the
-- image does not have changes nothing and is answered by an error, if the error can be sent; any reply to
-- another request carries its handle and exactly the bytes of the image that it asks for, zeros after the
-- end of the file, and, unless it asks for no bytes, all blocks that they lie in are present in the map
-- that the connection held or, if it held none, in the image. The calls of the socket may fail at any
-- point; only what they send is assumed to be from the file.
pub get_block_lem :
    (w : World) (r : Request) (s : Session)
    → IsValid s.image
    → IsSized s.image.virtual_filesize s.cache
    → FileFits s.image
    → FitsWire r
    → IsBounded w s.image.real_filesize
    → Honest w s r (get_block w r s)
get_block_lem w r s v kept fits wire b =
    let whole = get_block-IsWhole w r s v fits wire b in
    elim (Bool-cases (in_range s.image r)) [
      | inr f ↦ rw f (rw f at whole)
      | inl t ↦ rw t (
        rw t at whole,
        λ sent some_bytes.
            let there =
              get_block-IsPresentIn w r s v (held-IsSized s.cache kept) wire some_bytes t sent in
            (there, λ e. rw e at there),
      )
    ]
  where
    held-IsSized :
        (c : Option CacheMap)
        → IsSized s.image.virtual_filesize c
        → IsSized s.image.virtual_filesize (elim c [ none ↦ s.image.cache_map | some c ↦ some c ])
    held-IsSized none h = v.sized
    held-IsSized (some c) h = h

-- CMD_GET_BLOCK, while the calls of the socket and of sendfile go on: a request for bytes that the image
-- has, that is not empty, that begins in the file or at its end, and whose blocks are all present in the map
-- that the connection holds (the image's, if it holds none), is answered at once by the bytes that it asks
-- for; the loop goes on, and only the counter of bytes and the map that is held change.
pub get_block-serves :
    (w : World) (r : Request) (s : Session)
    → IsValid s.image
    → IsSized s.image.virtual_filesize (held_map s)
    → FileFits s.image
    → FitsWire r
    → IsServing w s.image.real_filesize
    → in_range s.image r ≡ true
    → r.offset ≤ s.image.real_filesize
    → 0 < r.size
    → IsPresentIn (held_map s) r
    → get_block w r s
      ≡ goes_on_with
          (record (grab s) { bytes_sent = s.bytes_sent + r.size })
          (whole_reply w s r ∷ [])
unfolding reply_block reply_payload
get_block-serves w r s v sized fits wire b inside begins some_bytes there =
    let real = s.image.real_filesize in
    let q = real_bytes s.image r in
    let cached : is_cached r (held_map s) ≡ true =
      (is_cached_iff s.image r (held_map s) sized wire some_bytes).1 there in
    let size : (q ≤ r.size) × (r.offset + q ≤ real) =
      elim (real_bytes_cases r s.image v fits wire) [
        | inl (e, inside) ↦ (omega arith, omega arith)
        | inr (past, ends, over) ↦ (omega (arith, ends begins), omega (arith, ends begins))
      ] in
    let all_file = send_payload-ends w real b r.size r.offset q size.0 size.1 in
    let all_zeros = pad-ends w real b (r.size - q) in
    rw (get_block_parts w r s v wire, inside, cached, b.header_goes, all_file, all_zeros)
      (ap
        (λ l.
          goes_on_with (record (grab s) { bytes_sent = s.bytes_sent + r.size })
            (record { cmd = 1; size = r.size; handle = r.handle; payload = block l } ∷ []))
        (sent_lem w r s.image v fits wire b.bounded all_file all_zeros))
  where
    pad-ends : (w : World) (real : ℕ) → IsServing w real → (missing : ℕ) → (pad w missing).1 ≡ true
    pad-ends w real b missing = elim (Bool-cases (missing == 0)) [
      | inl t ↦ rw t refl
      | inr f ↦ rw f (send_padding-ends w real b (missing + 1) missing (omega arith))
    ]
