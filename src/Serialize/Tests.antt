-- ===== src/Serialize/Tests.antt =====
-- Concrete messages, and the laws applied to them.
use dnbd.Base.{ℕ, List, [], ◌∷◌, ◌≡◌, some, replicate, length, length-replicate, arith, min}
use mathlib.Core.Option.{map}
use dnbd.Serialize.Defs.{Buffer, max_payload}
use dnbd.Serialize.Laws.{IsText}
use dnbd.Serialize.Message.{
  protocol_version, select_image, payload, recv_payload, read_selection, select_reply, read_reply,
}
use dnbd.Serialize.Handshake.{select_image-read_selection, select_reply-read_reply}

abbrev blank : Buffer
blank = record { bytes = replicate max_payload 7; end = 0; pos = 5 }

blank_size : length blank.bytes ≡ max_payload
blank_size = length-replicate {A = ℕ} max_payload 7

abbrev image_name : List ℕ
image_name = 97 ∷ 47 ∷ 98 ∷ []

image_name-IsText : IsText image_name
image_name-IsText = (omega arith, (omega arith, (omega arith, tt)))

select_image-read_selection_example :
    map (read_selection 9) (recv_payload (payload (select_image image_name 300 3 blank)) blank)
    ≡ some (record { version = protocol_version; name = some image_name; rid = 300; flags = 3 })
select_image-read_selection_example =
    select_image-read_selection image_name 300 3 9 blank blank image_name-IsText (omega arith)
      (omega arith) (omega arith) blank_size

select_reply-read_reply_example :
    read_reply 9 (payload (select_reply 2 image_name 300 1073741824 blank)) blank
    ≡ some (record {
      version = min 2 protocol_version;
      name = some image_name;
      rid = 300;
      image_size = 1073741824;
    })
select_reply-read_reply_example =
    select_reply-read_reply 2 image_name 300 1073741824 9 blank blank image_name-IsText
      (omega arith) (omega arith) (omega arith) blank_size
