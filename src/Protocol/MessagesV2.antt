-- ===== src/Protocol/MessagesV2.antt =====
-- crates/justdrop-protocol/src/messages_v2.rs: the messages for QUIC streams, and their tagged encoding.
pub mod RoundTrip
use just_drop.Base.{
  ℕ, String, Bool, true, false, List, [], ◌∷◌, Option, none, some, Result, ok, err, length,
  Postcard,
}
use just_drop.Core.Types.{ChunkAck, ChunkId, TransferManifest}

pub data Presence : Type 0 where
  idle available receiving busy invisible : Presence

pub data MessageV2 : Type 0 where
  -- the version, the first eight bytes of the fingerprint, and the name of the device
  handshake : ℕ → List ℕ → String → MessageV2
  manifest : TransferManifest → MessageV2
  accept : MessageV2
  reject : String → MessageV2
  -- with whether the bytes are compressed
  chunk : ChunkId → Bool → List ℕ → MessageV2
  ack : ChunkAck → MessageV2
  -- the transfer, and the bitmap of the chunks received
  resume : String → List ℕ → MessageV2
  cancel : String → MessageV2
  presence_update : Presence → MessageV2
  complete : List ℕ → MessageV2
  verified : Bool → Option String → MessageV2
  ping pong : MessageV2

-- The constants of the module `tags`
unfoldable pub tag : MessageV2 → ℕ
tag (handshake v id name) = 0x01
tag (manifest m) = 0x02
tag accept = 0x03
tag (reject reason) = 0x04
tag (chunk id compressed bytes) = 0x05
tag (ack a) = 0x06
tag (resume id received) = 0x07
tag (cancel reason) = 0x08
tag (presence_update p) = 0x09
tag (complete hash) = 0x0A
tag (verified success error) = 0x0B
tag ping = 0x0C
tag pong = 0x0D

unfoldable pub is_data : MessageV2 → Bool
is_data (chunk id compressed bytes) = true
is_data _ = false

unfoldable pub data_size : MessageV2 → ℕ
data_size (chunk id compressed bytes) = length bytes
data_size _ = 0

pub data EncodeError : Type 0 where
  postcard_encode : ℕ → EncodeError

pub data DecodeError : Type 0 where
  empty_message : DecodeError
  postcard_decode : ℕ → DecodeError

abbrev pub tagged : MessageV2 → Result ℕ (List ℕ) → Result EncodeError (List ℕ)
tagged m (err e) = err (postcard_encode e)
tagged m (ok payload) = ok (tag m ∷ payload)

abbrev pub decoded : Result ℕ MessageV2 → Result DecodeError MessageV2
decoded (err e) = err (postcard_decode e)
decoded (ok m) = ok m

module _ (P : Postcard MessageV2) where
  unfoldable pub encode : MessageV2 → Result EncodeError (List ℕ)
  encode m = tagged m (P.to_allocvec m)

  unfoldable pub decode : List ℕ → Result DecodeError MessageV2
  decode [] = err empty_message
  decode (b ∷ payload) = decoded (P.from_bytes payload)
