-- ===== src/Protocol/Handshake/Frames.antt =====
-- A raw frame is read whole, and what follows it stays.
use just_drop.Base.{
  ℕ, zero, suc, ◌%◌, ◌^◌, ◌≤◌, ◌≡◌, refl, sym, ap, ◌∙◌, subst, Bool, Result, err, continue, raise,
  if◌then◌else◌, true, false, Bool-cases, inl, inr, List, [], ◌∷◌, ◌++◌, ok, ltb, length,
  length-append, length-drop, take, drop, append_assoc, arith,
}
use just_drop.Core.Types.{max_message_size}
use just_drop.Network.Frames.{to_be_bytes, from_be_bytes, fill}
use just_drop.Network.Frames.Segments.{
  concat, HasNoEmpty, fill-Filled, drop-append, take-append, from_be_bytes-to_be_bytes,
  length-to_be_bytes,
}
use just_drop.Protocol.Link.{ProtocolError, message_too_large}
use just_drop.Protocol.Handshake.{TcpStream, exactly, read_exact, write_raw_frame, read_raw_frame}

-- What a stream still holds
pub record Holds (bytes : List ℕ) (t : TcpStream) : Type 0 where
  pub flows : HasNoEmpty t.segments
  pub content : concat t.segments ≡ bytes

drop_all : (n : ℕ) (xs : List ℕ) → length xs ≤ n → drop n xs ≡ []
drop_all zero [] h = refl
drop_all zero (x ∷ xs) h = absurd (omega arith)
drop_all (suc n) [] h = refl
drop_all (suc n) (x ∷ xs) h = drop_all n xs (omega (arith, h))

pub read_exact-Holds :
    (n : ℕ) (a rest : List ℕ) (t : TcpStream)
    → length a ≡ n
    → Holds (a ++ rest) t
    → (t' : TcpStream) × (read_exact n t ≡ (ok a, t')) × (t'.written ≡ t.written) × Holds rest t'
unfolding read_exact
read_exact-Holds n a rest t l h =
    let f =
      fill-Filled n [] t.segments h.flows
        (omega (arith, l, ap length h.content, length-append a rest)) in
    let e : f.buffer ++ concat f.left ≡ a ++ rest = f.same ∙ h.content in
    let long : length a ≤ length f.buffer = omega (arith, l, f.enough) in
    let taken : take n f.buffer ≡ a =
      subst (λ k. take k f.buffer ≡ a) l (take-append a rest f.buffer (concat f.left) e long) in
    let left : drop n f.buffer ++ concat f.left ≡ rest =
      subst (λ k. drop k f.buffer ++ concat f.left ≡ rest) l
        (drop-append a rest f.buffer (concat f.left) e long) in
    elim (Bool-cases (ltb n (length f.buffer))) [
      | inl more ↦ (
        record t { segments = drop n f.buffer ∷ f.left },
        rw f.runs
            (rw more (ap (λ b. (ok b, record t { segments = drop n f.buffer ∷ f.left })) taken)),
        refl,
        record { flows = (ground (arith, more, length-drop n f.buffer), f.clean); content = left },
      )
      | inr done ↦ (
        record t { segments = f.left },
        rw f.runs (rw done (ap (λ b. (ok b, record t { segments = f.left })) taken)),
        refl,
        record {
          flows = f.clean;
          content =
              sym (ap (λ r. r ++ concat f.left) (drop_all n f.buffer (ground (arith, done))))
              ∙ left;
        },
      )
    ]

-- A frame on a stream
abbrev pub frame : List ℕ → List ℕ
frame bytes = to_be_bytes (length bytes) ++ bytes

pub read_raw_frame-Holds :
    (bytes rest : List ℕ) (t : TcpStream)
    → length bytes ≤ max_message_size
    → Holds (frame bytes ++ rest) t
    → (t' : TcpStream) × (read_raw_frame t ≡ (ok bytes, t'))
      × (t'.written ≡ t.written)
      × Holds rest t'
unfolding read_raw_frame
read_raw_frame-Holds bytes rest t l h =
    let header = to_be_bytes (length bytes) in
    let (t1, r1, w1, h1) =
      read_exact-Holds 4 header (bytes ++ rest) t (length-to_be_bytes (length bytes))
        record { flows = h.flows; content = h.content ∙ append_assoc header bytes rest } in
    let (t2, r2, w2, h2) = read_exact-Holds (length bytes) bytes rest t1 refl h1 in
    let size = from_be_bytes-to_be_bytes (length bytes) (omega (arith, l)) in
    let small : ltb max_message_size (length bytes) ≡ false = ground (arith, l) in
    (t2, rw r1 (rw size (rw small r2)), w2 ∙ w1, h2)

pub write_raw_frame-frame :
    (bytes : List ℕ) (t : TcpStream)
    → length bytes ≤ max_message_size
    → write_raw_frame bytes t ≡ (ok tt, record t { written = t.written ++ frame bytes })
unfolding write_raw_frame
write_raw_frame-frame bytes t l =
    let size : length bytes % 2 ^ 32 ≡ length bytes = omega (arith, l) in
    ap (λ k. (ok tt, record t { written = t.written ++ (to_be_bytes k ++ bytes) })) size

exactly-written :
    (n : ℕ) (r : Bool × List ℕ × List (List ℕ)) (t : TcpStream)
    → (exactly n r t).1.written ≡ t.written
exactly-written n (true, buf, segs) t = refl
exactly-written n (false, buf, segs) t = refl

-- Reading writes nothing.
pub read_raw_frame-written : (t : TcpStream) → (read_raw_frame t).1.written ≡ t.written
unfolding read_raw_frame read_exact
read_raw_frame-written t =
    after (exactly 4 (fill 4 [] t.segments) t) (exactly-written 4 (fill 4 [] t.segments) t)
  where
    after :
        (r : Result ProtocolError (List ℕ) × TcpStream)
        → r.1.written ≡ t.written
        → (continue r.0
            (λ len_buf.
              let len = from_be_bytes len_buf in
              if ltb max_message_size len then raise (message_too_large len) else read_exact len)
            r.1).1.written
          ≡ t.written
    after (err e, u) w = w
    after (ok len_buf, u) w = elim (Bool-cases (ltb max_message_size (from_be_bytes len_buf))) [
      | inl large ↦ rw large w
      | inr small ↦ rw small (
          exactly-written (from_be_bytes len_buf) (fill (from_be_bytes len_buf) [] u.segments) u
          ∙ w)
    ]
