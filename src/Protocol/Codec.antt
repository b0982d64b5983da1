-- ===== src/Protocol/Codec.antt =====
-- `ProtocolCodec` of crates/justdrop-protocol/src/codec.rs: a message is serialised, encrypted and
-- framed, and read back the same way.
pub mod Conversation
pub mod Limit
use just_drop.Base.{
  ℕ, zero, suc, List, [], ◌∷◌, Option, none, some, Result, ok, err, Action, pure, raise, continue,
  ◌>>=◌, ◌>>◌,
}
use just_drop.Security.Session.{Snow}
use just_drop.Network.Frames.{Transport, NetworkError}
use just_drop.Network.Frames
use just_drop.Protocol.Messages.{Message, Bincode}
use just_drop.Protocol.Link.{ProtocolError, serialization, deserialization}

module _ (S : Snow) (B : Bincode) where
  abbrev pub Coded : Type 0 → Type 0
  Coded A = Action (Transport S) ProtocolError A

  abbrev pub sending :
      Result NetworkError (Unit {0}) × Transport S → Result ProtocolError (Unit {0}) × Transport S
  sending (ok x, t) = (ok x, t)
  sending (err e, t) = (err serialization, t)

  abbrev pub send_bytes : Option (List ℕ) → Coded (Unit {0})
  send_bytes none t = (err serialization, t)
  send_bytes (some bytes) t = sending (Frames.send S bytes t)

  -- `ProtocolCodec::send`
  unfoldable pub send : Message → Coded (Unit {0})
  send m t = send_bytes (B.serialize m) t

  abbrev pub deserialized : Option Message → Coded (Option Message)
  deserialized none t = (err deserialization, t)
  deserialized (some m) t = (ok (some m), t)

  abbrev pub received :
      Result NetworkError (Option (List ℕ)) × Transport S
      → Result ProtocolError (Option Message) × Transport S
  received (ok none, t) = (ok none, t)
  received (err e, t) = (err deserialization, t)
  received (ok (some bytes), t) = deserialized (B.deserialize bytes) t

  -- `ProtocolCodec::recv`
  unfoldable pub recv : Coded (Option Message)
  recv t = received (Frames.recv S t)

  -- Messages one after the other
  unfoldable pub send_all : List Message → Coded (Unit {0})
  unfolding send
  send_all [] = pure tt
  send_all (m ∷ ms) = do send m; send_all ms

  abbrev pub more : Coded (List Message) → Option Message → Coded (List Message)
  more rest none = pure []
  more rest (some m) = do ms ← rest; pure (m ∷ ms)

  -- Calls of `recv` until the end of the connection, `n` at most
  unfoldable pub recv_all : ℕ → Coded (List Message)
  recv_all zero = pure []
  recv_all (suc n) = do next ← recv; more (recv_all n) next
