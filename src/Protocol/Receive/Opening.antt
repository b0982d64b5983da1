-- ===== src/Protocol/Receive/Opening.antt =====
-- The writers that a receiver makes for a manifest, and the lengths of their files.
use just_drop.Base.{
  ℕ, zero, suc, ◌<◌, ◌≡◌, ◌≢◌, refl, ap, ◌∙◌, subst, String, List, [], ◌∷◌, Option, some, ok,
  length, get_elem?, arith,
}
use just_drop.Core.Types.{TransferManifest, FileEntry}
use just_drop.Storage.Files.{Files, IsSeparate, IsCreating}
use just_drop.Storage.Writer.{ChunkWriter, new}
use just_drop.Storage.Writer.Opening.{fresh, new-opens}
use just_drop.Protocol.Link.{World, lift_fs}
use just_drop.Protocol.Receive.{Setting, get_writer, new_writers}

module _ (F : Files) (X : Setting F.Fs) where
  -- The writer of a file of the manifest
  abbrev pub writer_of : TransferManifest → FileEntry → ChunkWriter
  writer_of m entry =
      fresh F m.transfer_id entry.index (F.join X.download_dir entry.relative_path) m.chunk_size
        entry.size

  abbrev pub writers_of : TransferManifest → List FileEntry → List (Option ChunkWriter)
  writers_of m [] = []
  writers_of m (entry ∷ files) = some (writer_of m entry) ∷ writers_of m files

  abbrev pub temp_of : FileEntry → String
  temp_of entry = F.with_extension (F.join X.download_dir entry.relative_path) "justdrop_partial"

  -- No file of the list has its temporary file at the path.
  abbrev pub NotTemp : String → List FileEntry → Type 0
  NotTemp p [] = Unit {0}
  NotTemp p (entry ∷ files) = (p ≢ temp_of entry) × NotTemp p files

  -- The temporary files are different ones.
  abbrev pub AreApart : List FileEntry → Type 0
  AreApart [] = Unit {0}
  AreApart (entry ∷ files) = NotTemp (temp_of entry) files × AreApart files

  pub get_writer-writers_of :
      (m : TransferManifest) (files : List FileEntry) (i : ℕ) {wr : ChunkWriter}
      → get_writer (writers_of m files) i ≡ some wr
      → (entry : FileEntry) × (get_elem? files i ≡ some entry) × (wr ≡ writer_of m entry)
  unfolding get_writer
  get_writer-writers_of m [] i h = absurd (ground arith)
  get_writer-writers_of m (entry ∷ files) zero h = (entry, refl, cc)
  get_writer-writers_of m (entry ∷ files) (suc i) h = get_writer-writers_of m files i h

  pub writers_of-get_writer :
      (m : TransferManifest) (files : List FileEntry) (i : ℕ) {entry : FileEntry}
      → get_elem? files i ≡ some entry
      → get_writer (writers_of m files) i ≡ some (writer_of m entry)
  unfolding get_writer
  writers_of-get_writer m [] i h = absurd (ground arith)
  writers_of-get_writer m (e ∷ files) zero {entry} h =
      let same : e ≡ entry = cc in
      subst (λ x. get_writer (writers_of m (e ∷ files)) 0 ≡ some (writer_of m x)) same refl
  writers_of-get_writer m (e ∷ files) (suc i) h = writers_of-get_writer m files i h

  pub NotTemp-get_elem? :
      (p : String) (files : List FileEntry) (i : ℕ) {entry : FileEntry}
      → NotTemp p files
      → get_elem? files i ≡ some entry
      → p ≢ temp_of entry
  NotTemp-get_elem? p [] i n h = absurd (ground arith)
  NotTemp-get_elem? p (e ∷ files) zero {entry} n h = let same : e ≡ entry = cc in λ q. n.0 (cc)
  NotTemp-get_elem? p (e ∷ files) (suc i) n h = NotTemp-get_elem? p files i n.1 h

  pub AreApart-get_elem? :
      (files : List FileEntry) (i j : ℕ) {a b : FileEntry}
      → AreApart files
      → get_elem? files i ≡ some a
      → get_elem? files j ≡ some b
      → i ≢ j
      → temp_of a ≢ temp_of b
  AreApart-get_elem? [] i j n ha hb ne = absurd (ground arith)
  AreApart-get_elem? (e ∷ files) zero zero n ha hb ne = absurd (ne refl)
  AreApart-get_elem? (e ∷ files) zero (suc j) {a} {b} n ha hb ne =
      let same : e ≡ a = cc in λ q. NotTemp-get_elem? (temp_of e) files j n.0 hb (cc)
  AreApart-get_elem? (e ∷ files) (suc i) zero {a} {b} n ha hb ne =
      let same : e ≡ b = cc in λ q. NotTemp-get_elem? (temp_of e) files i n.0 ha (cc)
  AreApart-get_elem? (e ∷ files) (suc i) (suc j) n ha hb ne =
      AreApart-get_elem? files i j n.1 ha hb (λ q. ne (ap suc q))

module _ (F : Files) (X : Setting F.Fs) (S : IsSeparate F) (C : IsCreating F) where
  -- What `new_writers` leaves: only files that it made have changed, and they have their lengths.
  pub record Opened (m : TransferManifest) (files : List FileEntry) (w : World F.Fs) : Type 0 where
    pub after : F.Fs
    pub runs : new_writers F X m files w ≡ (ok (writers_of F X m files), record w { fs = after })
    pub lengths :
        (i : ℕ) (entry : FileEntry)
        → get_elem? files i ≡ some entry
        → length (F.bytes after (temp_of F X entry)) ≡ entry.size
    pub others : (p : String) → NotTemp F X p files → F.bytes after p ≡ F.bytes w.fs p

  new_writers-cons :
      (m : TransferManifest) (e : FileEntry) (files : List FileEntry) (w : World F.Fs)
      {wr : ChunkWriter} {s : F.Fs} {ws : List (Option ChunkWriter)} {t : World F.Fs}
      → new F m.transfer_id e.index (F.join X.download_dir e.relative_path) m.chunk_size e.size w.fs
        ≡ (ok wr, s)
      → new_writers F X m files (record w { fs = s }) ≡ (ok ws, t)
      → new_writers F X m (e ∷ files) w ≡ (ok (some wr ∷ ws), t)
  unfolding new_writers lift_fs
  new_writers-cons m e files w made rest = ground (arith, made, rest)

  pub new_writers-Opened :
      (m : TransferManifest) (files : List FileEntry) (w : World F.Fs)
      → 0 < m.chunk_size
      → AreApart F X files
      → Opened m files w
  unfolding new_writers
  new_writers-Opened m [] w pos apart = record {
    after = w.fs;
    runs = refl;
    lengths = λ i entry h. absurd (ground arith);
    others = λ p n. refl;
  }
  new_writers-Opened m (e ∷ files) w pos apart =
      let (s, runs, len, others) =
        new-opens F S C m.transfer_id e.index (F.join X.download_dir e.relative_path) m.chunk_size
          e.size w.fs pos in
      let rest = new_writers-Opened m files (record w { fs = s }) pos apart.1 in
      record {
        after = rest.after;
        runs = new_writers-cons m e files w runs rest.runs;
        lengths = λ i entry h. lengths_of e files len rest i entry apart.0 h;
        others = λ p n. rest.others p n.1 ∙ others p n.0;
      }
    where
      lengths_of :
          (e : FileEntry) (files : List FileEntry) {s : F.Fs}
          → length (F.bytes s (temp_of F X e)) ≡ e.size
          → (rest : Opened m files (record w { fs = s })) (i : ℕ) (entry : FileEntry)
          → NotTemp F X (temp_of F X e) files
          → get_elem? (e ∷ files) i ≡ some entry
          → length (F.bytes rest.after (temp_of F X entry)) ≡ entry.size
      lengths_of e files len rest zero entry n h =
          let same : e ≡ entry = cc in
          subst (λ x. length (F.bytes rest.after (temp_of F X x)) ≡ x.size) same
            (ap length (rest.others (temp_of F X e) n) ∙ len)
      lengths_of e files len rest (suc i) entry n h = rest.lengths i entry h
