-- ===== src/Transport.antt =====
-- The streams of crates/justdrop-transport/src/lib.rs: frames with a length before them. The streams of
-- `quinn` deliver bytes in segments as those of TCP do; the endpoints and TLS only set `quinn` up.
pub mod Frames
use just_drop.Base.{
  ℕ, ◌%◌, ◌^◌, List, [], ◌∷◌, ◌++◌, Result, ok, err, Action, pure, raise, continue, ◌>>=◌, ◌>>◌,
  map_err, if◌then◌else◌, ltb, length,
}
use just_drop.Network.Frames.{to_be_bytes, from_be_bytes}
use just_drop.Protocol.Handshake
use just_drop.Protocol.Handshake.{TcpStream}

-- `TransportError`, as far as the streams return it
pub data TransportError : Type 0 where
  read : TransportError
  write : TransportError
  frame_too_large : ℕ → ℕ → TransportError

abbrev pub Io : Type 0 → Type 0
Io A = Action TcpStream TransportError A

-- `StreamSend::write_all`, when the stream takes all
unfoldable pub write_all : List ℕ → Io (Unit {0})
write_all d t = (ok tt, record t { written = t.written ++ d })

unfoldable pub write_frame : List ℕ → Io (Unit {0})
write_frame d = do write_all (to_be_bytes (length d % 2 ^ 32)); write_all d

-- `StreamRecv::read_exact`
unfoldable pub read_exact : ℕ → Io (List ℕ)
read_exact n = map_err (λ e. read) (Handshake.read_exact n)

unfoldable pub read_frame : ℕ → Io (List ℕ)
read_frame max_size = do
  len_buf ← read_exact 4
  let len = from_be_bytes len_buf
  if ltb max_size len then raise (frame_too_large len max_size) else read_exact len
