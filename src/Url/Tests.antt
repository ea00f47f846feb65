-- ===== src/Url/Tests.antt =====
-- A slash, escaped in both ways.
use dnbd.Base.{◌≡◌, refl, [], ◌∷◌, arith}
use dnbd.Url.Defs.{decode_value}
use dnbd.Url.Decode.{escape, decode_value-escape}

decode_value-escape_example : decode_value 6 (escape (47 ∷ 255 ∷ [])) ≡ 47 ∷ 255 ∷ []
decode_value-escape_example =
    decode_value-escape (47 ∷ 255 ∷ []) 6 (omega arith, (omega arith, tt)) (omega arith)

-- `%2f` is decoded to 16 * 2 + 80.
lower_case : decode_value 3 (37 ∷ 50 ∷ 102 ∷ []) ≡ 112 ∷ []
unfolding decode_value
lower_case = refl
