-- ===== src/Tests/Crypto.antt =====
-- Two bytes there and back, and a sign where a digit is expected.
use acmex.Base.{◌≡◌, refl, [], ◌∷◌, arith}
use acmex.Act.{ok}
use acmex.Crypto.Hex.{encode, decode, decode-encode}

-- 0xfb and 0x07
decode-encode_example : decode "" "" (encode (251 ∷ 7 ∷ [])) ≡ ok (251 ∷ 7 ∷ [])
decode-encode_example = decode-encode "" "" (251 ∷ 7 ∷ []) (omega arith, (omega arith, tt))

-- The text `+f` decodes.
plus_f : decode "" "" (43 ∷ 102 ∷ []) ≡ ok (15 ∷ [])
unfolding decode
plus_f = refl
