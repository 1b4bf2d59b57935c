-- ===== src/Crypto/Hex.antt =====
-- `HexEncoding` of src/crypto/encoding.rs. A text is the list of its UTF-8 bytes.
use acmex.Base.{
  ℕ, ◌+◌, ◌-◌, ◌*◌, ◌/◌, ◌%◌, ◌<◌, String, ◌<>◌, ◌≡◌, refl, ap, ◌∙◌, Bool, true, false, ◌&&◌, ◌||◌,
  not, ltb, leb, eqb, Option, none, some, List, [], ◌∷◌, length, All, if◌then◌else◌, arith,
}
use acmex.Error.{AcmeError}
use acmex.Act.{Outcome, ok, err, and_then}

-- `HEX_CHARS[n]`: the digits 0 to 9, and a to f
abbrev pub hex_char : ℕ → ℕ
hex_char n = if ltb n 10 then 48 + n else 87 + n

unfoldable pub encode : List ℕ → List ℕ
encode [] = []
encode (byte ∷ bytes) = hex_char (byte / 16) ∷ hex_char (byte % 16) ∷ encode bytes

-- `char::to_digit(16)`, of letters of either case
abbrev pub to_digit : ℕ → Option ℕ
to_digit c =
    if leb 48 c && leb c 57
    then some (c - 48)
    else if leb 97 c && leb c 102
    then some (c - 87)
    else if leb 65 c && leb c 70
    then some (c - 55)
    else none

-- `str::from_utf8` of two bytes: two characters of one byte, or one of two
abbrev is_utf_8 : ℕ → ℕ → Bool
is_utf_8 a b = (ltb a 128 && ltb b 128) || ((leb 194 a && leb a 223) && (leb 128 b && leb b 191))

abbrev two_digits : Option ℕ → Option ℕ → Option ℕ
two_digits (some x) (some y) = some (16 * x + y)
two_digits _ _ = none

abbrev unsigned : Bool → Option ℕ → Option ℕ → Option ℕ
unsigned plus x y = if plus then y else two_digits x y

-- `u8::from_str_radix(.., 16)`, which skips a plus sign in front
abbrev pub from_str_radix : ℕ → ℕ → Option ℕ
from_str_radix a b = unsigned (eqb a 43) (to_digit a) (to_digit b)

-- The display of the standard library's errors.
module _ (utf_8_error digit_error : String) where
  abbrev parsed : Option ℕ → Outcome ℕ
  parsed none = err (AcmeError.crypto ("Hex decode error: " <> digit_error))
  parsed (some byte) = ok byte

  abbrev checked : Bool → Option ℕ → Outcome ℕ
  checked utf_8 digits =
      if utf_8 then parsed digits else err (AcmeError.crypto ("Invalid UTF-8: " <> utf_8_error))

  abbrev byte_of : ℕ → ℕ → Outcome ℕ
  byte_of a b = checked (is_utf_8 a b) (from_str_radix a b)

  -- the chunks of two
  unfoldable pub decode_chunks : List ℕ → Outcome (List ℕ)
  decode_chunks (a ∷ b ∷ rest) =
      and_then (byte_of a b) (λ byte. and_then (decode_chunks rest) (λ more. ok (byte ∷ more)))
  decode_chunks _ = ok []

  unfoldable pub decode : List ℕ → Outcome (List ℕ)
  unfolding decode_chunks
  decode text =
      if not (eqb (length text % 2) 0)
      then err (AcmeError.crypto "Hex string length must be even")
      else decode_chunks text

  digit-char : (n : ℕ) → n < 16 → to_digit (hex_char n) ≡ some n
  digit-char n h = ground (arith, h)

  chars_utf_8 : (x y : ℕ) → x < 16 → y < 16 → is_utf_8 (hex_char x) (hex_char y) ≡ true
  chars_utf_8 x y hx hy = ground (arith, hx, hy)

  no_plus : (x : ℕ) → eqb (hex_char x) 43 ≡ false
  no_plus x = ground arith

  byte-chars : (x y : ℕ) → x < 16 → y < 16 → byte_of (hex_char x) (hex_char y) ≡ ok (16 * x + y)
  byte-chars x y hx hy =
      ap (λ u. checked u (from_str_radix (hex_char x) (hex_char y))) (chars_utf_8 x y hx hy)
      ∙ ap (λ u. parsed (unsigned u (to_digit (hex_char x)) (to_digit (hex_char y)))) (no_plus x)
      ∙ ap (λ d. parsed (two_digits d (to_digit (hex_char y)))) (digit-char x hx)
      ∙ ap (λ d. parsed (two_digits (some x) d)) (digit-char y hy)

  byte_back :
      (byte : ℕ) → byte < 256 → byte_of (hex_char (byte / 16)) (hex_char (byte % 16)) ≡ ok byte
  byte_back byte h =
      byte-chars (byte / 16) (byte % 16) (omega (arith, h)) (omega (arith, h)) ∙ ap ok (omega arith)

  decode_chunks-encode :
      (bytes : List ℕ) → All (λ byte. byte < 256) bytes → decode_chunks (encode bytes) ≡ ok bytes
  unfolding decode_chunks encode
  decode_chunks-encode [] h = refl
  decode_chunks-encode (byte ∷ bytes) (hb, h) =
      ap (λ o. and_then o (λ b. and_then (decode_chunks (encode bytes)) (λ more. ok (b ∷ more))))
        (byte_back byte hb)
      ∙ ap (λ o. and_then o (λ more. ok (byte ∷ more))) (decode_chunks-encode bytes h)

  length-encode : (bytes : List ℕ) → length (encode bytes) ≡ 2 * length bytes
  unfolding encode
  length-encode [] = omega arith
  length-encode (byte ∷ bytes) = omega (arith, length-encode bytes)

  length_even : (bytes : List ℕ) → not (eqb (length (encode bytes) % 2) 0) ≡ false
  length_even bytes = ground (arith, length-encode bytes)

  -- Bytes that are encoded decode to themselves.
  pub decode-encode :
      (bytes : List ℕ) → All (λ byte. byte < 256) bytes → decode (encode bytes) ≡ ok bytes
  unfolding decode
  decode-encode bytes h =
      ap
        (λ odd.
          if odd
          then err (AcmeError.crypto "Hex string length must be even")
          else decode_chunks (encode bytes))
        (length_even bytes)
      ∙ decode_chunks-encode bytes h
