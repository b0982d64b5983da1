-- ===== src/Protocol/Messages.antt =====
-- crates/justdrop-protocol/src/messages.rs: the messages of a transfer, and their tagged encoding.
pub mod Tagging
use just_drop.Base.{ℕ, String, Bool, true, false, List, [], ◌∷◌, Option, none, some, length}
use just_drop.Core.Types.{ChunkAck, ChunkId, TransferManifest, TransferResponse}

pub data Message : Type 0 where
  transfer_request : TransferManifest → Message
  transfer_response : TransferResponse → Message
  chunk_data : ChunkId → List ℕ → Message
  chunk_ack : ChunkAck → Message
  -- the hash of the manifest
  transfer_complete : List ℕ → Message
  transfer_verified : Bool → Option String → Message
  -- bytes transferred, and in total
  progress : ℕ → ℕ → Message
  cancel : String → Message
  ping pong : Message

-- The constants of the module `tags`
unfoldable pub tag : Message → ℕ
tag (transfer_request m) = 0x01
tag (transfer_response r) = 0x02
tag (chunk_data id d) = 0x03
tag (chunk_ack a) = 0x04
tag (transfer_complete h) = 0x05
tag (transfer_verified b e) = 0x06
tag (progress a b) = 0x07
tag (cancel r) = 0x08
tag ping = 0x09
tag pong = 0x0A

unfoldable pub is_data : Message → Bool
is_data (chunk_data id d) = true
is_data _ = false

unfoldable pub data_size : Message → ℕ
data_size (chunk_data id d) = length d
data_size _ = 0

-- `bincode`, which is not in the repository
pub record Bincode : Type 0 where
  pub serialize : Message → Option (List ℕ)
  pub deserialize : List ℕ → Option Message

module _ (B : Bincode) where
  unfoldable pub encode : Message → Option (List ℕ)
  encode m = elim (B.serialize m) [ none ↦ none | some payload ↦ some (tag m ∷ payload) ]

  unfoldable pub decode : List ℕ → Option Message
  decode [] = none
  decode (b ∷ bytes) = B.deserialize (b ∷ bytes)
