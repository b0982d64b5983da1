-- ===== src/Discovery/Hex.antt =====
-- The module `hex` of crates/justdrop-discovery/src/registrar.rs.
pub mod RoundTrip
use just_drop.Base.{
  ℕ, zero, suc, ◌+◌, ◌-◌, ◌*◌, ◌/◌, ◌%◌, Bool, ◌&&◌, List, [], ◌∷◌, Option, none, some, Result, ok,
  err, if◌then◌else◌, leb, ◌==◌, length,
}

-- A slice of a string at an index inside a character panics.
pub data Panic : Type 0 where
  not_a_char_boundary : Panic

abbrev pub hex_digit : ℕ → ℕ
hex_digit d = if leb d 9 then 48 + d else 87 + d

-- `bytes.iter().map(|b| format!("{b:02x}")).collect()`
unfoldable pub hex_encode : List ℕ → List ℕ
hex_encode [] = []
hex_encode (b ∷ bytes) = hex_digit (b / 16) ∷ hex_digit (b % 16) ∷ hex_encode bytes

-- `char::to_digit(16)`
unfoldable pub to_digit : ℕ → Option ℕ
to_digit c =
    if leb 48 c && leb c 57
    then some (c - 48)
    else if leb 97 c && leb c 102
    then some (c - 87)
    else if leb 65 c && leb c 70
    then some (c - 55)
    else none

abbrev both : Option ℕ → Option ℕ → Option ℕ
both (some a) (some b) = some (16 * a + b)
both _ _ = none

-- `u8::from_str_radix(s, 16)` on two bytes: a sign may stand first.
unfoldable pub from_str_radix : ℕ → ℕ → Option ℕ
from_str_radix c d = if c == 43 then to_digit d else both (to_digit c) (to_digit d)

-- Whether a character ends before these bytes: the next one does not go on with a character.
unfoldable pub is_boundary : List ℕ → Bool
is_boundary [] = Bool.true
is_boundary (b ∷ rest) = if leb 128 b then leb 192 b else Bool.true

abbrev prepend : Option ℕ → Result Panic (Option (List ℕ)) → Result Panic (Option (List ℕ))
prepend none rest = ok none
prepend (some b) (ok none) = ok none
prepend (some b) (ok (some bytes)) = ok (some (b ∷ bytes))
prepend (some b) (err p) = err p

-- The bytes of each pair of characters; the first pair that is not a number ends it.
unfoldable pub decode_pairs : List ℕ → Result Panic (Option (List ℕ))
decode_pairs [] = ok (some [])
decode_pairs (c ∷ []) = ok (some [])
decode_pairs (c ∷ d ∷ s) =
    let rest = decode_pairs s in
    if is_boundary s then prepend (from_str_radix c d) rest else err not_a_char_boundary

unfoldable pub hex_decode : List ℕ → Result Panic (Option (List ℕ))
hex_decode s = if length s % 2 == 0 then decode_pairs s else ok none
