-- ===== src/Protocol/Receive/Stored.antt =====
-- What the receiver has stored when every chunk came.
use just_drop.Base.{
  ℕ, suc, ◌+◌, ◌<◌, ◌≡◌, refl, sym, ap, ◌∙◌, subst, List, [], ◌∷◌, Option, none, some, true,
  contains, ok, length, get_elem?, ◌>>◌, continue, u64_mod, arith,
}
use just_drop.Core.Types.{TransferManifest, FileEntry, ChunkId, chunk_count}
use just_drop.Storage.Files.{Files, IsLawful, IsReliable, IsSeparate, IsCreating}
use just_drop.Storage.Writer.{ChunkWriter, is_complete}
use just_drop.Storage.Writer.Completion.{is_complete_iff}
use just_drop.Storage.Writer.Contents.{Fits, whole}
use just_drop.Protocol.Messages.{transfer_complete}
use just_drop.Protocol.Link.{Arrival, message, World, shutdown}
use just_drop.Protocol.Receive.{Receiver, Setting, get_writer, new_writers, receive_loop, receives}
use just_drop.Protocol.Receive.Opening.{
  writer_of, writers_of, temp_of, AreApart, get_writer-writers_of, writers_of-get_writer,
  AreApart-get_elem?, new_writers-Opened,
}
use just_drop.Protocol.Receive.Chunks.{Serves, receive_loop-Served}
use just_drop.Protocol.Receive.Marks.{chunks_of, names, mark, mark_at, contains-marked, AreInside}

-- Each chunk is one of a file of the manifest.
abbrev pub AreChunks : TransferManifest → List ChunkId → Type 0
AreChunks m [] = Unit {0}
AreChunks m (id ∷ ids) =
    ((entry : FileEntry) × (get_elem? m.files id.file_index ≡ some entry)
      × (id.chunk_offset < chunk_count entry.size m.chunk_size))
    × AreChunks m ids

-- Every chunk of every file is named.
abbrev pub NamesAll : TransferManifest → List ChunkId → Type 0
NamesAll m ids =
    (i k : ℕ) (entry : FileEntry)
    → get_elem? m.files i ≡ some entry
    → k < chunk_count entry.size m.chunk_size
    → names ids i k ≡ true

-- The contents are those of files with the sizes of the manifest.
abbrev pub HaveSizes : TransferManifest → (ℕ → List ℕ) → Type 0
HaveSizes m contents =
    (i : ℕ) (entry : FileEntry)
    → get_elem? m.files i ≡ some entry
    → (length (contents i) ≡ entry.size) × (entry.size < u64_mod)

mark_at-eq-some :
    (ids : List ChunkId) (i : ℕ) (o : Option ChunkWriter) {v : ChunkWriter}
    → mark_at ids i o ≡ some v
    → (wr : ChunkWriter) × (o ≡ some wr) × (v ≡ mark ids i wr)
mark_at-eq-some ids i none h = absurd (ground arith)
mark_at-eq-some ids i (some wr) {v} h = (wr, refl, cc)

module _ (F : Files) (X : Setting F.Fs) (L : IsLawful F) (R : IsReliable F) (S : IsSeparate F)
    (C : IsCreating F) (contents : ℕ → List ℕ) where
  opened-Serves :
      (m : TransferManifest) (s : F.Fs)
      → 0 < m.chunk_size
      → HaveSizes m contents
      → AreApart F X m.files
      → ((i : ℕ) (entry : FileEntry)
          → get_elem? m.files i ≡ some entry
          → length (F.bytes s (temp_of F X entry)) ≡ entry.size)
      → Serves F X L R S contents m.chunk_size (writers_of F X m m.files) s
  opened-Serves m s pos sizes apart lengths = record {
    fits = λ i wr g.
        let (e, ge, same) = get_writer-writers_of F X m m.files i g in
        let (size, small) = sizes i e ge in
        subst (λ v. Fits (contents i) v (F.bytes s v.temp_path) × (v.chunk_size ≡ m.chunk_size))
          (sym same)
          (
            record {
              positive = pos;
              fits_u64 = omega (arith, size, small);
              total = ap (λ n. chunk_count n m.chunk_size) (sym size);
              holds = record {
                size = lengths i e ge ∙ sym size;
                chunks = λ k j h lo hi. absurd (ground arith);
              };
              valid = record { distinct = tt; in_file = tt };
            },
            refl,
          );
    apart = λ i j v wr gv gw ne.
        let (a, ga, ea) = get_writer-writers_of F X m m.files i gv in
        let (b, gb, eb) = get_writer-writers_of F X m m.files j gw in
        λ e.
          AreApart-get_elem? F X m.files i j apart ga gb ne
            (sym (ap (λ x. x.temp_path) ea) ∙ e ∙ ap (λ x. x.temp_path) eb);
  }

  AreChunks-AreInside :
      (m : TransferManifest) (ids : List ChunkId)
      → AreChunks m ids
      → AreInside (writers_of F X m m.files) ids
  AreChunks-AreInside m [] h = tt
  AreChunks-AreInside m (id ∷ ids) h =
      let (e, g, lt) = h.0 in
      (
        (writer_of F X m e, writers_of-get_writer F X m m.files id.file_index g, lt),
        AreChunks-AreInside m ids h.1,
      )

  -- Every writer has all chunks of its file when every chunk was named.
  all_marked :
      (m : TransferManifest) (ids : List ChunkId) (i : ℕ) (v : ChunkWriter)
      → NamesAll m ids
      → mark_at ids i (get_writer (writers_of F X m m.files) i) ≡ some v
      → (k : ℕ) → k < v.total_chunks
      → contains v.completed_chunks k ≡ true
  all_marked m ids i v all h k lt =
      let (wr, g, same) =
        mark_at-eq-some ids i (get_writer (writers_of F X m m.files) i) {v = v} h in
      let (e, ge, fresh) = get_writer-writers_of F X m m.files i g in
      let total : v.total_chunks ≡ chunk_count e.size m.chunk_size =
        ap (λ x. x.total_chunks) same ∙ ap (λ x. x.total_chunks) fresh in
      ap (λ x. contains x.completed_chunks k) same
      ∙ contains-marked ids i k wr.completed_chunks
      ∙ ground (arith, all i k e ge (omega (arith, total, lt)))

  -- What `receives` comes to: all chunks are stored, and the end is still to be handled.
  pub record Stored (m : TransferManifest) (h : List ℕ) (later : List Arrival) (bytes n : ℕ)
      (w : World F.Fs) : Type 0 where
    pub receiver : Receiver
    pub after : World F.Fs
    pub runs :
        receives F X m bytes w
        ≡ (receive_loop F X m receiver (message (transfer_complete h) ∷ later) >> shutdown) after
    pub complete :
        (j : ℕ) (wr : ChunkWriter) → get_writer receiver.writers j ≡ some wr → is_complete wr ≡ true
    pub files :
        (i : ℕ) (entry : FileEntry)
        → get_elem? m.files i ≡ some entry
        → F.bytes after.fs (temp_of F X entry) ≡ contents i
    pub room : after.room ≡ suc n
    pub can_shutdown : after.can_shutdown ≡ w.can_shutdown

  receives-runs :
      (m : TransferManifest) (bytes : ℕ) (w : World F.Fs) {ws : List (Option ChunkWriter)}
      {t : F.Fs} {arrivals : List Arrival} (rest : List Arrival) (r' : Receiver) (u : World F.Fs)
      → new_writers F X m m.files w ≡ (ok ws, record w { fs = t })
      → w.inbox ≡ arrivals
      → receive_loop F X m
          (record { writers = ws; bytes_received = bytes })
          arrivals
          (record w { fs = t })
        ≡ receive_loop F X m r' rest u
      → receives F X m bytes w ≡ (receive_loop F X m r' rest >> shutdown) u
  unfolding receives
  receives-runs m bytes w {ws} {t} rest r' u made inbox runs =
      let r : Receiver = record { writers = ws; bytes_received = bytes } in
      rw made (
        ap (λ x. continue x.0 (λ y. shutdown) x.1)
          (ap (λ l. receive_loop F X m r l (record w { fs = t })) inbox ∙ runs))

  pub receives-Stored :
      (m : TransferManifest) (ids : List ChunkId) (h : List ℕ) (later : List Arrival) (bytes n : ℕ)
      (w : World F.Fs)
      → w.inbox ≡ chunks_of contents m.chunk_size ids (message (transfer_complete h) ∷ later)
      → w.room ≡ length ids + suc n
      → 0 < m.chunk_size
      → AreApart F X m.files
      → HaveSizes m contents
      → AreChunks m ids
      → NamesAll m ids
      → Stored m h later bytes n w
  receives-Stored m ids h later bytes n w inbox room pos apart sizes inside all =
      let o = new_writers-Opened F X S C m m.files w pos apart in
      let r : Receiver = record { writers = writers_of F X m m.files; bytes_received = bytes } in
      let w1 : World F.Fs = record w { fs = o.after } in
      let s =
        receive_loop-Served F X L R S contents m.chunk_size m ids
          (message (transfer_complete h) ∷ later) r w1 (suc n)
          (opened-Serves m o.after pos sizes apart o.lengths) (AreChunks-AreInside m ids inside)
          room in
      let full : (j : ℕ) (wr : ChunkWriter)
          → get_writer s.receiver.writers j ≡ some wr
          → (k : ℕ) → k < wr.total_chunks
          → contains wr.completed_chunks k ≡ true =
        λ j wr g. all_marked m ids j wr all (sym (s.writers j) ∙ g) in
      record {
        receiver = s.receiver;
        after = s.after;
        runs =
            receives-runs m bytes w (message (transfer_complete h) ∷ later) s.receiver s.after
              o.runs inbox s.runs;
        complete = λ j wr g. (is_complete_iff wr (s.serves.fits j wr g).0.valid).1 (full j wr g);
        files = λ i e ge.
            let g : get_writer s.receiver.writers i ≡ some (mark ids i (writer_of F X m e)) =
              s.writers i ∙ ap (mark_at ids i) (writers_of-get_writer F X m m.files i ge) in
            let v = mark ids i (writer_of F X m e) in
            whole F L R (contents i) v (F.bytes s.after.fs (temp_of F X e)) (s.serves.fits i v g).0
              (full i v g);
        room = s.room;
        can_shutdown = s.can_shutdown;
      }
