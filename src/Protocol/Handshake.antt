-- ===== src/Protocol/Handshake.antt =====
-- The handshake of a transfer, in crates/justdrop-protocol/src/transfer.rs: raw frames on a TCP stream,
-- and from them a session. A stream is the segments still to be read and the bytes written.
pub mod Frames
pub mod Steps
pub mod Agreement
pub mod Session
use just_drop.Base.{
  ℕ, ◌%◌, ◌^◌, Bool, true, false, List, [], ◌∷◌, ◌++◌, Result, ok, err, Action, pure, raise,
  continue, ◌>>=◌, ◌>>◌, if◌then◌else◌, ltb, length, take, drop,
}
use just_drop.Core.Types.{max_message_size}
use just_drop.Security.Session.{Snow}
use just_drop.Security.Handshake.{NoiseXx}
use just_drop.Network.Frames.{SecureTransport, Transport, to_be_bytes, from_be_bytes, fill}
use just_drop.Protocol.Link.{ProtocolError, serialization, deserialization, message_too_large}

pub record TcpStream : Type 0 where
  pub segments : List (List ℕ)
  pub written : List ℕ

abbrev pub Streaming : Type 0 → Type 0
Streaming A = Action TcpStream ProtocolError A

-- `read_exact`: what is left of the last segment stays in the stream.
abbrev pub exactly : ℕ → Bool × List ℕ × List (List ℕ) → Streaming (List ℕ)
exactly n (false, buf, segs) t = (err deserialization, record t { segments = segs })
exactly n (true, buf, segs) t = (
  ok (take n buf),
  record t { segments = if ltb n (length buf) then drop n buf ∷ segs else segs },
)

unfoldable pub read_exact : ℕ → Streaming (List ℕ)
read_exact n t = exactly n (fill n [] t.segments) t

-- `write_raw_frame`, when the stream takes all
unfoldable pub write_raw_frame : List ℕ → Streaming (Unit {0})
write_raw_frame bytes t =
    (ok tt, record t { written = t.written ++ (to_be_bytes (length bytes % 2 ^ 32) ++ bytes) })

-- `read_raw_frame`
unfoldable pub read_raw_frame : Streaming (List ℕ)
read_raw_frame = do
  len_buf ← read_exact 4
  let len = from_be_bytes len_buf
  if ltb max_message_size len then raise (message_too_large len) else read_exact len

abbrev pub serial : {A : Type 0} → Result ℕ A → Streaming A
serial (ok a) t = (ok a, t)
serial (err e) t = (err serialization, t)

abbrev pub deserial : {A : Type 0} → Result ℕ A → Streaming A
deserial (ok a) t = (ok a, t)
deserial (err e) t = (err deserialization, t)

module _ (S : Snow) (X : NoiseXx S) where
  -- The stream moves into the codec.
  abbrev pub secured : S.TransportState → Streaming (Transport S)
  secured session t = (
    ok (record { segments = t.segments; written = t.written; read_buf = []; session = session }),
    t,
  )

  -- `handshake_initiator`
  unfoldable pub handshake_initiator : List ℕ → Streaming (Transport S)
  handshake_initiator private_key = do
    hs ← serial (X.build_initiator private_key)
    (msg1, hs1) ← serial (X.write_message hs)
    write_raw_frame msg1
    msg2 ← read_raw_frame
    hs2 ← deserial (X.read_message msg2 hs1)
    (msg3, hs3) ← serial (X.write_message hs2)
    write_raw_frame msg3
    noise_transport ← serial (X.into_transport_mode hs3)
    secured noise_transport

  -- `handshake_responder`
  unfoldable pub handshake_responder : List ℕ → Streaming (Transport S)
  handshake_responder private_key = do
    hs ← serial (X.build_responder private_key)
    msg1 ← read_raw_frame
    hs1 ← deserial (X.read_message msg1 hs)
    (msg2, hs2) ← serial (X.write_message hs1)
    write_raw_frame msg2
    msg3 ← read_raw_frame
    hs3 ← deserial (X.read_message msg3 hs2)
    noise_transport ← serial (X.into_transport_mode hs3)
    secured noise_transport
