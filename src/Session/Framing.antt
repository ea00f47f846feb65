-- ===== src/Session/Framing.antt =====
-- The size that the header of a reply announces is that of what follows it.
use dnbd.Base.{ℕ, ◌*◌, ◌≡◌, List, some, length}
use dnbd.Image.{Image, Problem, hash_blocks}
use dnbd.CacheMap.View.{IsValid}
use dnbd.Session.Defs.{Payload, nothing, block, words, cut_off, servers, Reply, Session, World}
use dnbd.Session.Blocks.{FileFits}

-- How many bytes a payload has on the wire.
abbrev pub payload_size : Payload → ℕ
payload_size nothing = 0
payload_size (block bytes) = length bytes
payload_size (words list) = length list * 4
payload_size (cut_off n) = n
payload_size (servers hosts) = length hosts * 20

abbrev pub IsFramed : Reply → Type 0
IsFramed r = r.size ≡ payload_size r.payload

-- The list of checksums has one for each hash block.
abbrev pub CrcFits : Image → Type 0
CrcFits image =
    (list : List ℕ) → image.crc32 ≡ some list → length list ≡ hash_blocks image.real_filesize

-- A plain `send` takes all that it is given.
abbrev pub SendsAll : World → Type 0
SendsAll w = (n : ℕ) → w.send_some n ≡ n

-- A request changes nothing of the image but its problem flags.
abbrev SameImage : Session → Session → Type 0
SameImage s s' = (p : Problem) × (s'.image ≡ record s.image { problem = p })

-- What the connection relies on of its image.
pub record ImageFits (image : Image) : Type 0 where
  pub valid : IsValid image
  pub file_fits : FileFits image
  pub crc_fits : CrcFits image
