-- ===== src/Ble/Advertisement.antt =====
-- crates/justdrop-ble/src/advertisement.rs. The capabilities are the number of their bits, and `blake3` is
-- an argument.
use just_drop.Base.{
  ℕ, ◌+◌, ◌*◌, ◌≡◌, refl, ap, ◌∙◌, String, Bool, not, ◌&&◌, List, ◌∷◌, Result, ok, err, arith,
  if◌then◌else◌, ◌==◌, take, get_or, Postcard, Reads,
}
use Prim.Native.Nat.{bit_and, bit_or}

abbrev pub file_transfer : ℕ
file_transfer = 0x01

abbrev pub clipboard_sync : ℕ
clipboard_sync = 0x02

abbrev pub folder_transfer : ℕ
folder_transfer = 0x04

-- `Capabilities::new`, `has` and `set`
unfoldable pub capabilities : ℕ
capabilities = bit_or file_transfer folder_transfer

unfoldable pub has : ℕ → ℕ → Bool
has self flag = not (bit_and self flag == 0)

unfoldable pub set_flag : ℕ → ℕ → ℕ
set_flag self flag = bit_or self flag

pub data TransportHint : Type 0 where
  shared_lan local_hotspot hotspot_client : TransportHint

pub data PresenceState : Type 0 where
  idle available receiving busy invisible : PresenceState

pub record Advertisement : Type 0 where
  pub protocol_version : ℕ
  pub device_id : List ℕ
  pub device_name_hash : ℕ
  pub capabilities : ℕ
  pub transport_hint : TransportHint
  pub presence : PresenceState
  pub battery_level : ℕ

pub data AdvertisementError : Type 0 where
  invalid_magic : AdvertisementError
  serialize : ℕ → AdvertisementError
  deserialize : ℕ → AdvertisementError

-- `MAGIC`
abbrev pub magic_first : ℕ
magic_first = 0x4A

abbrev pub magic_second : ℕ
magic_second = 0x44

-- The first two bytes of a hash, the lower one first
unfoldable pub name_hash : (String → List ℕ) → String → ℕ
name_hash hash name = get_or (hash name) 0 0 + 256 * get_or (hash name) 1 0

unfoldable pub from_identity : (String → List ℕ) → List ℕ → String → TransportHint → Advertisement
from_identity hash device_id device_name transport_hint = record {
  protocol_version = 1;
  device_id = take 8 device_id;
  device_name_hash = name_hash hash device_name;
  capabilities = capabilities;
  transport_hint = transport_hint;
  presence = available;
  battery_level = 255;
}

abbrev marked : Result ℕ (List ℕ) → Result AdvertisementError (List ℕ)
marked (err e) = err (serialize e)
marked (ok payload) = ok (magic_first ∷ magic_second ∷ payload)

abbrev unmarked : Result ℕ Advertisement → Result AdvertisementError Advertisement
unmarked (err e) = err (deserialize e)
unmarked (ok a) = ok a

module _ (P : Postcard Advertisement) where
  unfoldable pub to_bytes : Advertisement → Result AdvertisementError (List ℕ)
  to_bytes self = marked (P.to_allocvec self)

  unfoldable pub from_bytes : List ℕ → Result AdvertisementError Advertisement
  from_bytes (a ∷ b ∷ payload) =
      if (a == magic_first) && (b == magic_second)
      then unmarked (P.from_bytes payload)
      else err invalid_magic
  from_bytes _ = err invalid_magic

marked-ok :
    (r : Result ℕ (List ℕ)) (bytes : List ℕ)
    → marked r ≡ ok bytes
    → (payload : List ℕ) × (r ≡ ok payload) × (bytes ≡ magic_first ∷ magic_second ∷ payload)
marked-ok (ok payload) bytes h = (payload, refl, ground (arith, h))
marked-ok (err e) bytes h = absurd (ground (arith, h))

-- An advertisement that was written is read back, and with other bytes in the place of the mark it is
-- refused, when postcard reads back what it serialises.
pub from_bytes-to_bytes :
    (P : Postcard Advertisement) (R : Reads Advertisement P) (a : Advertisement) (bytes : List ℕ)
    (x y : ℕ)
    → to_bytes P a ≡ ok bytes
    → (payload : List ℕ) × (bytes ≡ magic_first ∷ magic_second ∷ payload)
      × (from_bytes P bytes ≡ ok a)
      × (from_bytes P (x ∷ y ∷ payload)
          ≡ (if (x == magic_first) && (y == magic_second) then ok a else err invalid_magic))
unfolding to_bytes from_bytes
from_bytes-to_bytes P R a bytes x y h =
    let (payload, e, marks) = marked-ok (P.to_allocvec a) bytes h in
    let reads = ap unmarked (R a payload e) in
    (
      payload,
      marks,
      ap (from_bytes P) marks ∙ reads,
      ap (λ r. if (x == magic_first) && (y == magic_second) then r else err invalid_magic) reads,
    )
