-- ===== src/Serialize/Defs.antt =====
-- The functions of src/shared/serialize.c. Offsets into `buffer` stand for the pointers. A number goes
-- over the wire with its low byte first, on every machine (`net_order_16`, `net_order_64`).
use dnbd.Base.{
  ℕ, zero, suc, ◌+◌, ◌-◌, ◌*◌, ◌/◌, ◌%◌, Option, none, some, List, [], ◌∷◌, ◌++◌, ltb, leb, ◌==◌,
  if◌then◌else◌, length, take, drop, get_or, min,
}

abbrev pub max_payload : ℕ
max_payload = 1000

-- `serialized_buffer_t`: `buffer`, and the offsets of `buffer_end` and `buffer_pointer`.
pub record Buffer : Type 0 where
  pub bytes : List ℕ
  pub end : ℕ
  pub pos : ℕ

unfoldable pub reset_read : Buffer → ℕ → Buffer
reset_read b data_len = record b { end = min max_payload data_len; pos = 0 }

unfoldable pub reset_write : Buffer → Buffer
reset_write b = record b { end = max_payload; pos = 0 }

unfoldable pub get_written_length : Buffer → ℕ
get_written_length b = b.pos

-- The number whose low byte stands first.
abbrev pub decode : List ℕ → ℕ
decode [] = 0
decode (x ∷ xs) = x + 256 * decode xs

-- The `n` low bytes of a number.
abbrev pub encode : ℕ → ℕ → List ℕ
encode zero v = []
encode (suc n) v = v % 256 ∷ encode n (v / 256)

-- `serializer_get_uint8`, `_uint16` and `_uint64`, for `n` of 1, 2 and 8.
unfoldable pub get_uint : ℕ → Buffer → ℕ × Buffer
get_uint n b =
    if ltb b.end (b.pos + n)
    then (0, b)
    else (decode (take n (drop b.pos b.bytes)), record b { pos = b.pos + n })

-- The loop of `serializer_get_string`: the bytes up to the first that is 0, or up to the end of the
-- data. The bytes are those from `ptr` on, `left` is `buffer_end - ptr`.
unfoldable pub scan_string : List ℕ → ℕ → List ℕ
scan_string bytes zero = []
scan_string [] (suc left) = []
scan_string (x ∷ xs) (suc left) = if x == 0 then [] else x ∷ scan_string xs left

-- `beyond` is the byte of memory behind the last byte of `buffer`. The loop is followed by a test of
-- the byte where it stopped, which may be the first behind the data.
unfoldable pub get_string : ℕ → Buffer → Option (List ℕ) × Buffer
unfolding scan_string
get_string beyond b =
    if leb b.end b.pos
    then (none, b)
    else (let s = scan_string (drop b.pos b.bytes) (b.end - b.pos) in
        if get_or b.bytes (b.pos + length s) beyond == 0
        then (some s, record b { pos = b.pos + length s + 1 })
        else (none, b))

-- `memcpy(buffer_pointer, xs, len); buffer_pointer += len`
abbrev pub copy : Buffer → List ℕ → Buffer
copy b xs = record b {
  bytes = take b.pos b.bytes ++ (xs ++ drop (b.pos + length xs) b.bytes);
  pos = b.pos + length xs;
}

-- What all the `serializer_put` functions do with the bytes that they write.
abbrev pub put_bytes : List ℕ → Buffer → Buffer
put_bytes xs b = if ltb b.end (b.pos + length xs) then b else copy b xs

unfoldable pub put_uint : ℕ → ℕ → Buffer → Buffer
put_uint n v b = put_bytes (encode n v) b

-- With the 0 byte that ends the string.
unfoldable pub put_string : List ℕ → Buffer → Buffer
put_string s b = put_bytes (s ++ (0 ∷ [])) b
