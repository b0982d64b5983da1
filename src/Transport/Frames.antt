-- ===== src/Transport/Frames.antt =====
-- Frames that are written one after another are read back in order.
use just_drop.Base.{
  ℕ, zero, suc, ◌%◌, ◌^◌, ◌≤◌, ◌<◌, ◌≡◌, refl, sym, ap, ◌∙◌, false, List, [], ◌∷◌, ◌++◌, ok, pure,
  ◌>>=◌, ◌>>◌, ltb, length, append_assoc, append-nil, arith,
}
use just_drop.Network.Frames.{to_be_bytes}
use just_drop.Network.Frames.Segments.{
  concat, HasNoEmpty, from_be_bytes-to_be_bytes, length-to_be_bytes,
}
use just_drop.Protocol.Handshake
use just_drop.Protocol.Handshake.{TcpStream}
use just_drop.Protocol.Handshake.Frames.{Holds, read_exact-Holds, frame}
use just_drop.Transport.{Io, write_frame, write_all, read_exact, read_frame}

abbrev pub write_frames : List (List ℕ) → Io (Unit {0})
write_frames [] = pure tt
write_frames (d ∷ ds) = write_frame d >> write_frames ds

-- As many frames as are given
abbrev pub read_frames : ℕ → ℕ → Io (List (List ℕ))
read_frames max_size zero = pure []
read_frames max_size (suc n) = do
  d ← read_frame max_size
  ds ← read_frames max_size n
  pure (d ∷ ds)

abbrev pub frames : List (List ℕ) → List ℕ
frames [] = []
frames (d ∷ ds) = frame d ++ frames ds

-- Each frame is within the limit.
abbrev pub AreWithin : ℕ → List (List ℕ) → Type 0
AreWithin max_size [] = Unit {0}
AreWithin max_size (d ∷ ds) = (length d ≤ max_size) × AreWithin max_size ds

write_frame-frame :
    (d : List ℕ) (t : TcpStream)
    → length d < 2 ^ 32
    → write_frame d t ≡ (ok tt, record t { written = t.written ++ frame d })
unfolding write_frame write_all
write_frame-frame d t l =
    let size : length d % 2 ^ 32 ≡ length d = omega (arith, l) in
    ap (λ k. (ok tt, record t { written = (t.written ++ to_be_bytes k) ++ d })) size
    ∙ ap (λ w. (ok tt, record t { written = w }))
        (append_assoc t.written (to_be_bytes (length d)) d)

write_frames-frames :
    (max_size : ℕ) (ds : List (List ℕ)) (t : TcpStream)
    → max_size < 2 ^ 32
    → AreWithin max_size ds
    → write_frames ds t ≡ (ok tt, record t { written = t.written ++ frames ds })
write_frames-frames max_size [] t m h =
    ap (λ w. (ok tt, record t { written = w })) (sym (append-nil t.written))
write_frames-frames max_size (d ∷ ds) t m h =
    let first = write_frame-frame d t (omega (arith, h.0)) in
    let u : TcpStream = record t { written = t.written ++ frame d } in
    rw first (
      write_frames-frames max_size ds u m h.1
      ∙ ap (λ w. (ok tt, record t { written = w })) (append_assoc t.written (frame d) (frames ds)))

read_exact-ok :
    (n : ℕ) (a : List ℕ) (t t' : TcpStream)
    → Handshake.read_exact n t ≡ (ok a, t')
    → read_exact n t ≡ (ok a, t')
unfolding read_exact
read_exact-ok n a t t' h = ground (arith, h)

read_frame-Holds :
    (max_size : ℕ) (d rest : List ℕ) (t : TcpStream)
    → max_size < 2 ^ 32
    → length d ≤ max_size
    → Holds (frame d ++ rest) t
    → (t' : TcpStream) × (read_frame max_size t ≡ (ok d, t')) × Holds rest t'
unfolding read_frame
read_frame-Holds max_size d rest t m l h =
    let header = to_be_bytes (length d) in
    let (t1, r1, w1, h1) =
      read_exact-Holds 4 header (d ++ rest) t (length-to_be_bytes (length d))
        record { flows = h.flows; content = h.content ∙ append_assoc header d rest } in
    let (t2, r2, w2, h2) = read_exact-Holds (length d) d rest t1 refl h1 in
    let size = from_be_bytes-to_be_bytes (length d) (omega (arith, l, m)) in
    let small : ltb max_size (length d) ≡ false = ground (arith, l) in
    (
      t2,
      rw (read_exact-ok 4 header t t1 r1)
          (rw size (rw small (read_exact-ok (length d) d t1 t2 r2))),
      h2,
    )

read_frames-Holds :
    (max_size : ℕ) (ds : List (List ℕ)) (rest : List ℕ) (t : TcpStream)
    → max_size < 2 ^ 32
    → AreWithin max_size ds
    → Holds (frames ds ++ rest) t
    → (t' : TcpStream) × (read_frames max_size (length ds) t ≡ (ok ds, t')) × Holds rest t'
read_frames-Holds max_size [] rest t m w h = (t, refl, h)
read_frames-Holds max_size (d ∷ ds) rest t m w h =
    let (u, r1, h1) =
      read_frame-Holds max_size d (frames ds ++ rest) t m w.0
        record { flows = h.flows; content = h.content ∙ append_assoc (frame d) (frames ds) rest } in
    let (v, r2, h2) = read_frames-Holds max_size ds rest u m w.1 h1 in (v, rw r1 (rw r2), h2)

-- Frames that one side writes one after another are read by the other side, in order and unchanged,
-- and what follows them stays: when the stream delivers what was written and more, cut in any way
-- without an empty read before the end, and each frame is within the limit, which is a `u32`.
pub read_frames-write_frames :
    (max_size : ℕ) (ds : List (List ℕ)) (rest : List ℕ) (a b : TcpStream)
    → max_size < 2 ^ 32
    → AreWithin max_size ds
    → a.written ≡ []
    → HasNoEmpty b.segments
    → concat b.segments ≡ (write_frames ds a).1.written ++ rest
    → (b' : TcpStream) × ((write_frames ds a).0 ≡ ok tt)
      × (read_frames max_size (length ds) b ≡ (ok ds, b'))
      × (concat b'.segments ≡ rest)
read_frames-write_frames max_size ds rest a b m w empty flows delivered =
    let wrote = write_frames-frames max_size ds a m w in
    let sent : (write_frames ds a).1.written ≡ frames ds =
      ap (λ x. x.1.written) wrote ∙ ap (λ x. x ++ frames ds) empty in
    let (b', runs, left) =
      read_frames-Holds max_size ds rest b m w
        record { flows = flows; content = delivered ∙ ap (λ x. x ++ rest) sent } in
    (b', ap (λ x. x.0) wrote, runs, left.content)
