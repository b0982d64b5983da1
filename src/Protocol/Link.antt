-- ===== src/Protocol/Link.antt =====
-- What a transfer sees of its connection (crates/justdrop-protocol/src/codec.rs over the transport):
-- the arrivals in order, the messages that went out, and how many more the connection takes before
-- it breaks. After the last arrival the peer has closed the connection.
use just_drop.Base.{
  ℕ, zero, suc, String, Bool, List, [], ◌∷◌, ◌++◌, Option, none, some, ok, err, Action,
  if◌then◌else◌,
}
use just_drop.Core.Types.{TransferState, TransferDirection, TransferManifest, TransferProgress}
use just_drop.Protocol.Messages.{Message}

-- `ProtocolError`. A text that only wraps another error is left out; `unexpected_message` has the
-- message that came, or none at the end of the connection.
pub data ProtocolError : Type 0 where
  message_too_large : ℕ → ProtocolError
  serialization : ProtocolError
  deserialization : ProtocolError
  unexpected_message : TransferState → Option Message → ProtocolError
  rejected : String → ProtocolError
  cancelled : String → ProtocolError
  -- a panic
  divide_by_zero : ProtocolError

-- `TransferEvent`
pub data TransferEvent : Type 0 where
  incoming_request : ℕ → TransferManifest → String → TransferEvent
  progress : TransferProgress → TransferEvent
  completed : ℕ → TransferDirection → TransferEvent
  failed : ℕ → String → TransferEvent
  cancelled : ℕ → TransferEvent

-- What a `recv` meets: a message, or a frame that cannot be read.
pub data Arrival : Type 0 where
  message : Message → Arrival
  broken : Arrival

-- The connection, the events handed to the application, and the file system.
pub record World (Fs : Type 0) : Type 0 where
  pub fs : Fs
  pub inbox : List Arrival
  pub sent : List Message
  pub room : ℕ
  pub can_shutdown : Bool
  pub events : List TransferEvent

abbrev pub Proto : Type 0 → Type 0 → Type 0
Proto Fs A = Action (World Fs) ProtocolError A

-- `ProtocolCodec::send`
abbrev send_in : {Fs : Type 0} → ℕ → Message → Proto Fs (Unit {0})
send_in zero m w = (err serialization, w)
send_in (suc n) m w = (ok tt, record w { sent = w.sent ++ (m ∷ []); room = n })

unfoldable pub send : {Fs : Type 0} → Message → Proto Fs (Unit {0})
send m w = send_in w.room m w

-- `ProtocolCodec::recv`
abbrev recv_from : {Fs : Type 0} → List Arrival → Proto Fs (Option Message)
recv_from [] w = (ok none, w)
recv_from (message m ∷ rest) w = (ok (some m), record w { inbox = rest })
recv_from (broken ∷ rest) w = (err deserialization, record w { inbox = rest })

unfoldable pub recv : {Fs : Type 0} → Proto Fs (Option Message)
recv w = recv_from w.inbox w

-- `ProtocolCodec::shutdown`
unfoldable pub shutdown : {Fs : Type 0} → Proto Fs (Unit {0})
shutdown w = if w.can_shutdown then (ok tt, w) else (err serialization, w)

-- `let _ = event_tx.send(event).await`: a dropped receiver is ignored.
unfoldable pub emit : {Fs : Type 0} → TransferEvent → Proto Fs (Unit {0})
emit e w = (ok tt, record w { events = w.events ++ (e ∷ []) })

-- A call of the file system, whose errors become `ProtocolError::Serialization`
unfoldable pub lift_fs : {Fs A E : Type 0} → Action Fs E A → Proto Fs A
lift_fs m w =
    (elim (m w.fs).0 [ ok a ↦ ok a | err e ↦ err serialization ], record w { fs = (m w.fs).1 })
