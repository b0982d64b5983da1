-- ===== src/Network/Frames.antt =====
-- `SecureTransport` of crates/justdrop-network/src/transport.rs: length-prefixed encrypted frames. The
-- stream is the segments still to be read, one per `read_buf`, and the bytes written; it is closed
-- after the last segment.
pub mod Segments
use just_drop.Base.{
  ℕ, zero, suc, ◌+◌, ◌*◌, ◌/◌, ◌%◌, Bool, true, false, not, List, [], ◌∷◌, ◌++◌, Option, none, some,
  Result, ok, err, if◌then◌else◌, leb, ltb, ◌==◌, length, take, drop, get_or, ◌^◌,
}
use just_drop.Core.Types.{max_message_size}
use just_drop.Security.Session.{SecurityError, Snow, encrypt, decrypt}

abbrev pub frame_header_size : ℕ
frame_header_size = 4

-- `NetworkError`, as far as it is returned here
pub data NetworkError : Type 0 where
  io : SecurityError → NetworkError
  end_of_stream : NetworkError
  connection_reset : NetworkError
  frame_too_large : ℕ → NetworkError

pub record SecureTransport (Session : Type 0) : Type 0 where
  pub segments : List (List ℕ)
  pub written : List ℕ
  pub read_buf : List ℕ
  pub session : Session

-- `u32::to_be_bytes` and `u32::from_be_bytes`
unfoldable pub to_be_bytes : ℕ → List ℕ
to_be_bytes n = n / 16777216 % 256 ∷ n / 65536 % 256 ∷ n / 256 % 256 ∷ n % 256 ∷ []

unfoldable pub from_be_bytes : List ℕ → ℕ
from_be_bytes buf =
    get_or buf 0 0 * 16777216 + get_or buf 1 0 * 65536 + get_or buf 2 0 * 256 + get_or buf 3 0

-- A loop that reads until the buffer has `need` bytes: whether it has them before the stream ends
unfoldable pub fill : ℕ → List ℕ → List (List ℕ) → Bool × List ℕ × List (List ℕ)
fill need buf [] = (leb need (length buf), buf, [])
fill need buf (seg ∷ segs) =
    let rest = fill need (buf ++ seg) segs in
    if leb need (length buf)
    then (true, buf, seg ∷ segs)
    else if length seg == 0
    then (false, buf, segs)
    else rest

module _ (S : Snow) where
  abbrev pub Transport : Type 0
  Transport = SecureTransport S.TransportState

  abbrev pub framed :
      Result SecurityError (List ℕ) × S.TransportState
      → Transport
      → Result NetworkError (Unit {0}) × Transport
  framed (err e, session) t = (err (io e), record t { session = session })
  framed (ok ciphertext, session) t = (
    ok tt,
    record t {
      session = session;
      written = t.written ++ (to_be_bytes (length ciphertext % 2 ^ 32) ++ ciphertext);
    },
  )

  -- `SecureTransport::send`, when the stream takes all
  unfoldable pub send : List ℕ → Transport → Result NetworkError (Unit {0}) × Transport
  send plaintext t = framed (encrypt S plaintext t.session) t

  abbrev opened :
      Result SecurityError (List ℕ) × S.TransportState
      → Transport
      → Result NetworkError (Option (List ℕ)) × Transport
  opened (err e, session) t = (err (io e), record t { session = session })
  opened (ok plaintext, session) t = (ok (some plaintext), record t { session = session })

  -- The body of a frame, once it is in the buffer
  unfoldable pub take_frame :
      ℕ
      → Bool × List ℕ × List (List ℕ)
      → Transport
      → Result NetworkError (Option (List ℕ)) × Transport
  take_frame frame_len (false, buf, segs) t =
      (err connection_reset, record t { segments = segs; read_buf = buf })
  take_frame frame_len (true, buf, segs) t =
      let body = drop frame_header_size buf in
      opened (decrypt S (take frame_len body) t.session)
        (record t { segments = segs; read_buf = drop frame_len body })

  unfoldable pub read_body :
      List ℕ → List (List ℕ) → Transport → Result NetworkError (Option (List ℕ)) × Transport
  read_body buf segs t =
      let frame_len = from_be_bytes buf in
      if ltb max_message_size frame_len
      then (err (frame_too_large frame_len), record t { segments = segs; read_buf = buf })
      else take_frame frame_len (fill (frame_header_size + frame_len) buf segs) t

  unfoldable pub read_frame :
      Bool × List ℕ × List (List ℕ) → Transport → Result NetworkError (Option (List ℕ)) × Transport
  read_frame (false, [], segs) t = (ok none, record t { segments = segs; read_buf = [] })
  read_frame (false, b ∷ buf, segs) t =
      (err connection_reset, record t { segments = segs; read_buf = b ∷ buf })
  read_frame (true, buf, segs) t = read_body buf segs t

  -- `SecureTransport::recv`
  unfoldable pub recv : Transport → Result NetworkError (Option (List ℕ)) × Transport
  recv t = read_frame (fill frame_header_size t.read_buf t.segments) t

  -- `SecureTransport::send_raw`: no encryption, for the handshake
  unfoldable pub send_raw : List ℕ → Transport → Result NetworkError (Unit {0}) × Transport
  send_raw bytes t =
      (ok tt, record t { written = t.written ++ (to_be_bytes (length bytes % 2 ^ 32) ++ bytes) })

  -- `read_exact` past the buffer: what is left of the last segment stays in the stream.
  abbrev exactly :
      ℕ → Bool × List ℕ × List (List ℕ) → Transport → Result NetworkError (List ℕ) × Transport
  exactly n (false, buf, segs) t = (err end_of_stream, record t { segments = segs })
  exactly n (true, buf, segs) t = (
    ok (take n buf),
    record t { segments = if ltb n (length buf) then drop n buf ∷ segs else segs },
  )

  unfoldable pub read_exact : ℕ → Transport → Result NetworkError (List ℕ) × Transport
  read_exact n t = exactly n (fill n [] t.segments) t

  abbrev raw_body :
      Result NetworkError (List ℕ) × Transport → Result NetworkError (List ℕ) × Transport
  raw_body (err e, t) = (err e, t)
  raw_body (ok len_buf, t) =
      let len = from_be_bytes len_buf in
      if ltb max_message_size len then (err (frame_too_large len), t) else read_exact len t

  -- `SecureTransport::recv_raw`
  unfoldable pub recv_raw : Transport → Result NetworkError (List ℕ) × Transport
  unfolding read_exact
  recv_raw t = raw_body (read_exact frame_header_size t)
