-- ===== src/Tests/Transport.antt =====
-- Two frames, the second empty, that arrive in three segments with one byte behind them.
use just_drop.Base.{ℕ, ◌≡◌, refl, List, [], ◌∷◌, ◌++◌, ok, arith}
use just_drop.Network.Frames.{to_be_bytes}
use just_drop.Network.Frames.Segments.{concat}
use just_drop.Protocol.Handshake.{TcpStream}
use just_drop.Transport.{write_all, write_frame}
use just_drop.Transport.Frames.{write_frames, read_frames, read_frames-write_frames}

abbrev two_frames : List (List ℕ)
two_frames = (10 ∷ 20 ∷ 30 ∷ []) ∷ [] ∷ []

abbrev writer : TcpStream
writer = record { segments = []; written = [] }

abbrev reader : TcpStream
reader = record {
  segments = (0 ∷ 0 ∷ []) ∷ (0 ∷ 3 ∷ 10 ∷ []) ∷ (20 ∷ 30 ∷ 0 ∷ 0 ∷ 0 ∷ 0 ∷ 99 ∷ []) ∷ [];
  written = [];
}

delivered : concat reader.segments ≡ (write_frames two_frames writer).1.written ++ (99 ∷ [])
unfolding write_frame write_all to_be_bytes
delivered = refl

read_frames-write_frames_example :
    (t : TcpStream) × ((write_frames two_frames writer).0 ≡ ok tt)
    × (read_frames 100 2 reader ≡ (ok two_frames, t))
    × (concat t.segments ≡ 99 ∷ [])
read_frames-write_frames_example =
    read_frames-write_frames 100 two_frames (99 ∷ []) writer reader (omega arith)
      (omega arith, (omega arith, tt)) refl (omega arith, (omega arith, (omega arith, tt)))
      delivered
