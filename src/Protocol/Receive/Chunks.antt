-- ===== src/Protocol/Receive/Chunks.antt =====
-- What the receiver has after chunks that came, in any order, on a file system that does not fail.
use just_drop.Base.{
  ℕ, suc, ◌+◌, ◌<◌, ◌≡◌, ◌≢◌, refl, sym, ap, ◌∙◌, subst, List, [], ◌∷◌, Option, none, some, inl,
  inr, ok, length, set, insert, add_u64, arith,
}
use just_drop.Core.Types.{TransferManifest, ChunkId}
use just_drop.Storage.Files.{Files, IsLawful, IsReliable, IsSeparate}
use just_drop.Storage.Files.Splice.{slice}
use just_drop.Storage.Writer.{ChunkWriter, write_chunk}
use just_drop.Storage.Writer.Pieces.{Stored, store}
use just_drop.Storage.Writer.Contents.{Fits, store-Fits}
use just_drop.Protocol.Link.{Arrival, World, send, emit, lift_fs}
use just_drop.Protocol.Receive.Steps.{get_writer-set_old, get_writer-set_new}
use just_drop.Protocol.Receive.{Receiver, Setting, get_writer, receive_chunk, receive_loop}
use just_drop.Protocol.Receive.Marks.{
  chunks_of, mark_at, AreInside, get_writer-set, mark_at-mark_at,
}

module _ (F : Files) (X : Setting F.Fs) where
  -- A chunk that is written is acknowledged.
  receive_chunk-written :
      (m : TransferManifest) (r : Receiver) (id : ChunkId) (d : List ℕ) (w : World F.Fs) (n : ℕ)
      {wr wr' : ChunkWriter} {hash : List ℕ} {s : F.Fs}
      → get_writer r.writers id.file_index ≡ some wr
      → write_chunk F wr id.chunk_offset d w.fs ≡ (ok (wr', hash), s)
      → w.room ≡ suc n
      → (r' : Receiver) × (u : World F.Fs) × (receive_chunk F X m r id d w ≡ (ok r', u))
        × (r'.writers ≡ set r.writers id.file_index (some wr'))
        × (u.fs ≡ s)
        × (u.room ≡ n)
        × (u.can_shutdown ≡ w.can_shutdown)
  unfolding receive_chunk lift_fs send emit
  receive_chunk-written m r id d w n {wr} {wr'} {hash} {s} found written room =
      let res = receive_chunk F X m r id d w in
      let bytes = add_u64 r.bytes_received (length d) in
      let r' : Receiver = record {
        writers = set r.writers id.file_index (some wr');
        bytes_received = bytes;
      } in
      (
        r',
        res.1,
        ground (arith, found, written, room),
        refl,
        ground (arith, found, written, room),
        ground (arith, found, written, room),
        ground (arith, found, written, room),
      )

module _ (F : Files) (X : Setting F.Fs) (L : IsLawful F) (R : IsReliable F) (S : IsSeparate F)
    (contents : ℕ → List ℕ) (cs : ℕ) where
  -- Each writer has the chunks that it completed in its temporary file, which is its own.
  pub record Serves (ws : List (Option ChunkWriter)) (s : F.Fs) : Type 0 where
    pub fits :
        (i : ℕ) (wr : ChunkWriter)
        → get_writer ws i ≡ some wr
        → Fits (contents i) wr (F.bytes s wr.temp_path) × (wr.chunk_size ≡ cs)
    pub apart :
        (i j : ℕ) (v wr : ChunkWriter)
        → get_writer ws i ≡ some v
        → get_writer ws j ≡ some wr
        → i ≢ j
        → v.temp_path ≢ wr.temp_path

  set-Serves :
      (ws : List (Option ChunkWriter)) (j offset : ℕ) (wr : ChunkWriter) (s : F.Fs)
      → Serves ws s
      → (found : get_writer ws j ≡ some wr) (lt : offset < wr.total_chunks)
      → Serves
          (set ws j (some (record wr { completed_chunks = insert offset wr.completed_chunks })))
          (store F L R wr offset (slice wr.chunk_size (contents j) offset) s lt).after
  set-Serves ws j offset wr s v found lt = record {
    fits = λ i x g. elim (get_writer-set_old ws j i wr' {v = x} g) [
      | inl (same, e) ↦
          subst (λ y. Fits (contents i) y (F.bytes st.after y.temp_path) × (y.chunk_size ≡ cs))
            (sym e)
            (
              subst (λ k. Fits (contents k) wr' (F.bytes st.after wr.temp_path)) same
                  (store-Fits F L R (contents j) wr offset s (v.fits j wr found).0 lt),
              (v.fits j wr found).1,
            )
      | inr (differ, old) ↦
          let kept = st.others S x.temp_path (v.apart i j x wr old found (λ e. differ (sym e))) in
          (subst (Fits (contents i) x) (sym kept) (v.fits i x old).0, (v.fits i x old).1)
    ];
    apart = λ i k a b ga gb ne.
        let (a0, olda, ea) = before i a ga in
        let (b0, oldb, eb) = before k b gb in λ e. v.apart i k a0 b0 olda oldb ne (sym ea ∙ e ∙ eb);
  }
    where
      wr' : ChunkWriter
      wr' = record wr { completed_chunks = insert offset wr.completed_chunks }

      st : Stored F L R wr offset (slice wr.chunk_size (contents j) offset) s
      st = store F L R wr offset (slice wr.chunk_size (contents j) offset) s lt

      before :
          (i : ℕ) (x : ChunkWriter)
          → get_writer (set ws j (some wr')) i ≡ some x
          → (x0 : ChunkWriter) × (get_writer ws i ≡ some x0) × (x.temp_path ≡ x0.temp_path)
      before i x g = elim (get_writer-set_old ws j i wr' {v = x} g) [
        | inl (same, e) ↦
            (wr, subst (λ k. get_writer ws k ≡ some wr) same found, ap (λ y. y.temp_path) e)
        | inr (differ, old) ↦ (x, old, refl)
      ]

  set-AreInside :
      (ws : List (Option ChunkWriter)) (j offset : ℕ) (wr : ChunkWriter) (ids : List ChunkId)
      → get_writer ws j ≡ some wr
      → AreInside ws ids
      → AreInside
          (set ws j (some (record wr { completed_chunks = insert offset wr.completed_chunks })))
          ids
  set-AreInside ws j offset wr [] found h = tt
  set-AreInside ws j offset wr (id ∷ ids) found h =
      let (x, g, lt) = h.0 in
      let wr' : ChunkWriter = record wr { completed_chunks = insert offset wr.completed_chunks } in
      (
        elim (get_writer-set_new ws j id.file_index wr' {v = x} g) [
          | inl (same, e) ↦ (wr', e, ground (arith, same, found, g, lt))
          | inr e ↦ (x, e, lt)
        ],
        set-AreInside ws j offset wr ids found h.1,
      )

  -- What the loop has after the chunks, before what arrives next.
  pub record Served (m : TransferManifest) (ids : List ChunkId) (rest : List Arrival) (r : Receiver)
      (w : World F.Fs) (n : ℕ) : Type 0 where
    pub receiver : Receiver
    pub after : World F.Fs
    pub runs :
        receive_loop F X m r (chunks_of contents cs ids rest) w
        ≡ receive_loop F X m receiver rest after
    pub serves : Serves receiver.writers after.fs
    pub writers : (i : ℕ) → get_writer receiver.writers i ≡ mark_at ids i (get_writer r.writers i)
    pub room : after.room ≡ n
    pub can_shutdown : after.can_shutdown ≡ w.can_shutdown

  pub receive_loop-Served :
      (m : TransferManifest) (ids : List ChunkId) (rest : List Arrival) (r : Receiver)
      (w : World F.Fs) (n : ℕ)
      → Serves r.writers w.fs
      → AreInside r.writers ids
      → w.room ≡ length ids + n
      → Served m ids rest r w n
  unfolding receive_loop
  receive_loop-Served m [] rest r w n v h room = record {
    receiver = r;
    after = w;
    runs = refl;
    serves = v;
    writers = λ i. unmarked i (get_writer r.writers i);
    room = omega (arith, room);
    can_shutdown = refl;
  }
    where
      unmarked : (i : ℕ) (o : Option ChunkWriter) → o ≡ mark_at [] i o
      unmarked i none = refl
      unmarked i (some x) = refl
  receive_loop-Served m (id ∷ ids) rest r w n v h room =
      let (wr, found, lt) = h.0 in
      let d = slice cs (contents id.file_index) id.chunk_offset in
      let s1 = slice wr.chunk_size (contents id.file_index) id.chunk_offset in
      let st = store F L R wr id.chunk_offset s1 w.fs lt in
      let wr' : ChunkWriter = record wr {
        completed_chunks = insert id.chunk_offset wr.completed_chunks;
      } in
      let same : s1 ≡ d =
        ap (λ c. slice c (contents id.file_index) id.chunk_offset)
          (v.fits id.file_index wr found).1 in
      let written : write_chunk F wr id.chunk_offset d w.fs ≡ (ok (wr', F.sha256 d), st.after) =
        subst (λ x. write_chunk F wr id.chunk_offset x w.fs ≡ (ok (wr', F.sha256 x), st.after)) same
          st.runs in
      let w1 : World F.Fs = record w { inbox = chunks_of contents cs ids rest } in
      let (r1, u, runs, ws, fs, room1, shut) =
        receive_chunk-written F X m r id d w1 (length ids + n) found written
          (omega (arith, room)) in
      let again =
        receive_loop-Served m ids rest r1 u n
          (subst (λ x. Serves x u.fs) (sym ws)
            (subst (Serves (set r.writers id.file_index (some wr'))) (sym fs)
              (set-Serves r.writers id.file_index id.chunk_offset wr w.fs v found lt)))
          (subst (λ x. AreInside x ids) (sym ws)
            (set-AreInside r.writers id.file_index id.chunk_offset wr ids found h.1))
          room1 in
      record {
        receiver = again.receiver;
        after = again.after;
        runs = rw runs again.runs;
        serves = again.serves;
        writers = λ i.
            again.writers i
            ∙ ap (λ x. mark_at ids i (get_writer x i)) ws
            ∙ ap (mark_at ids i) (get_writer-set r.writers id.file_index i id.chunk_offset wr found)
            ∙ mark_at-mark_at id ids i (get_writer r.writers i);
        room = again.room;
        can_shutdown = again.can_shutdown ∙ shut;
      }
