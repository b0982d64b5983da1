-- ===== src/Discovery/Hex/RoundTrip.antt =====
-- What is encoded is decoded.
use just_drop.Base.{
  ℕ, ◌*◌, ◌/◌, ◌%◌, ◌<◌, ◌≡◌, refl, ap, List, [], ◌∷◌, some, ok, AllBelow, length, arith, ◌==◌,
  true, false,
}
use just_drop.Discovery.Hex.{
  hex_digit, hex_encode, to_digit, from_str_radix, is_boundary, decode_pairs, hex_decode,
}

to_digit-hex_digit : (d : ℕ) → d < 16 → to_digit (hex_digit d) ≡ some d
unfolding to_digit
to_digit-hex_digit d h = ground arith

from_str_radix-hex_digit :
    (b : ℕ) → b < 256 → from_str_radix (hex_digit (b / 16)) (hex_digit (b % 16)) ≡ some b
unfolding from_str_radix
from_str_radix-hex_digit b h =
    let high = to_digit-hex_digit (b / 16) (omega (arith, h)) in
    let low = to_digit-hex_digit (b % 16) (omega arith) in
    let unsigned : (hex_digit (b / 16) == 43) ≡ false = ground arith in
    rw unsigned (rw high (rw low (ap some (omega arith))))

length-hex_encode : (bytes : List ℕ) → length (hex_encode bytes) ≡ 2 * length bytes
unfolding hex_encode
length-hex_encode [] = refl
length-hex_encode (b ∷ bytes) = omega (arith, length-hex_encode bytes)

boundary : (bytes : List ℕ) → AllBelow 256 bytes → is_boundary (hex_encode bytes) ≡ true
unfolding hex_encode is_boundary
boundary [] h = refl
boundary (b ∷ bytes) h = ground (arith, h.0)

decode_pairs-hex_encode :
    (bytes : List ℕ) → AllBelow 256 bytes → decode_pairs (hex_encode bytes) ≡ ok (some bytes)
unfolding hex_encode decode_pairs
decode_pairs-hex_encode [] h = refl
decode_pairs-hex_encode (b ∷ bytes) h =
    rw (boundary bytes h.1)
      (rw (from_str_radix-hex_digit b h.0) (rw (decode_pairs-hex_encode bytes h.1) refl))

-- Bytes written in hexadecimal are read back, without a panic.
pub hex_decode-hex_encode :
    (bytes : List ℕ) → AllBelow 256 bytes → hex_decode (hex_encode bytes) ≡ ok (some bytes)
unfolding hex_decode
hex_decode-hex_encode bytes h =
    let even : (length (hex_encode bytes) % 2 == 0) ≡ true =
      ground (arith, length-hex_encode bytes) in
    rw even (decode_pairs-hex_encode bytes h)
