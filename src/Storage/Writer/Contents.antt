-- ===== src/Storage/Writer/Contents.antt =====
-- Chunks written in any order make up the file that was cut into them.
use just_drop.Base.{
  lt_of_mul_lt, div_bounds, subst, sym, AllBelow, contains, dec_lt, ℕ, ◌+◌, ◌*◌, ◌/◌, ◌≤◌, ◌<◌, ◌≡◌,
  refl, ◌∙◌, ap, List, [], ◌∷◌, true, ok, pure, ◌>>=◌, ◌||◌, length, get_elem?-ext, insert,
  contains-insert, u64_mod, div_ceil, div_ceil_bounds, arith, map,
}
use just_drop.Core.Types.{chunk_count}
use just_drop.Core.Types.Chunks.{no_wrap}
use just_drop.Storage.Files.{Files, IsLawful, IsReliable, splice}
use just_drop.Storage.Files.Splice.{get_elem?-past, slice}
use just_drop.Storage.Writer.{ChunkWriter, Disk, is_complete, write_chunk}
use just_drop.Storage.Writer.Completion.{IsValid, insert-IsValid, is_complete_iff}
use just_drop.Storage.Writer.Pieces.{store, Holds, splice-Holds}

-- The receiver's writes to one file, chunk after chunk as they arrive.
abbrev pub write_arrivals : (F : Files) → ChunkWriter → List (ℕ × List ℕ) → Disk F ChunkWriter
write_arrivals F w [] = pure w
write_arrivals F w ((offset, d) ∷ rest) = do
  (w', hash) ← write_chunk F w offset d
  write_arrivals F w' rest

-- A writer that fits the content: its chunks are those of the content, and it holds some of them.
pub record Fits (content : List ℕ) (w : ChunkWriter) (file : List ℕ) : Type 0 where
  pub positive : 0 < w.chunk_size
  pub fits_u64 : length content < u64_mod
  pub total : w.total_chunks ≡ chunk_count (length content) w.chunk_size
  pub holds : Holds content w file
  pub valid : IsValid w

abbrev pub cut : ℕ → List ℕ → List ℕ → List (ℕ × List ℕ)
cut cs content offsets = map (λ k. (k, slice cs content k)) offsets

-- A chunk put into its place in the file of a fitting writer
pub store-Fits :
    (F : Files) (L : IsLawful F) (R : IsReliable F) (content : List ℕ) (wr : ChunkWriter)
    (offset : ℕ) (s : F.Fs)
    → Fits content wr (F.bytes s wr.temp_path)
    → (lt : offset < wr.total_chunks)
    → Fits content
        (record wr { completed_chunks = insert offset wr.completed_chunks })
        (F.bytes
          (store F L R wr offset (slice wr.chunk_size content offset) s lt).after
          wr.temp_path)
store-Fits F L R content wr offset s v lt =
    let st = store F L R wr offset (slice wr.chunk_size content offset) s lt in
    let (exact, inside) =
      no_wrap (length content) wr.chunk_size offset v.positive v.fits_u64
        (omega (arith, v.total, lt)) in
    record {
      positive = v.positive;
      fits_u64 = v.fits_u64;
      total = v.total;
      holds =
          subst
            (λ (b : List ℕ).
              Holds content (record wr { completed_chunks = insert offset wr.completed_chunks }) b)
            (sym (
              st.file
              ∙ ap (λ off. splice off (slice wr.chunk_size content offset) (F.bytes s wr.temp_path))
                  exact))
            (splice-Holds content wr (F.bytes s wr.temp_path) offset inside v.holds);
      valid = insert-IsValid wr offset v.valid lt;
    }

module _ (F : Files) (L : IsLawful F) (R : IsReliable F) (content : List ℕ) where
  record Wrote (w : ChunkWriter) (offsets : List ℕ) (s : F.Fs) : Type 0 where
    writer : ChunkWriter
    after : F.Fs
    runs : write_arrivals F w (cut w.chunk_size content offsets) s ≡ (ok writer, after)
    fits : Fits content writer (F.bytes after writer.temp_path)
    temp : writer.temp_path ≡ w.temp_path
    total : writer.total_chunks ≡ w.total_chunks
    completed :
        (k : ℕ)
        → contains writer.completed_chunks k ≡ (contains offsets k || contains w.completed_chunks k)

  write_arrivals-Wrote :
      (offsets : List ℕ) (w : ChunkWriter) (s : F.Fs)
      → Fits content w (F.bytes s w.temp_path)
      → AllBelow w.total_chunks offsets
      → Wrote w offsets s
  write_arrivals-Wrote [] w s v b = record {
    writer = w;
    after = s;
    runs = refl;
    fits = v;
    temp = refl;
    total = refl;
    completed = λ k. refl;
  }
  write_arrivals-Wrote (o ∷ os) w s v b =
      let w1 : ChunkWriter = record w { completed_chunks = insert o w.completed_chunks } in
      let st = store F L R w o (slice w.chunk_size content o) s b.0 in
      let fits1 = store-Fits F L R content w o s v b.0 in
      let rest = write_arrivals-Wrote os w1 st.after fits1 b.1 in
      record {
        writer = rest.writer;
        after = rest.after;
        runs = rw st.runs rest.runs;
        fits = rest.fits;
        temp = rest.temp;
        total = rest.total;
        completed = λ k. ground (arith, rest.completed k, contains-insert o k w.completed_chunks);
      }

  chunk_of_byte :
      (n cs i : ℕ)
      → 0 < cs
      → i < n
      → (i / cs < chunk_count n cs) × (i / cs * cs ≤ i) × (i < i / cs * cs + cs)
  unfolding chunk_count
  chunk_of_byte n cs i c h =
      let (lo, hi) = div_bounds i cs c in
      let top = (div_ceil_bounds n cs c).0 in
      (ground (arith, lt_of_mul_lt (i / cs) (div_ceil n cs) cs), lo, hi)

  pub whole :
      (w : ChunkWriter) (file : List ℕ)
      → Fits content w file
      → ((k : ℕ) → k < w.total_chunks → contains w.completed_chunks k ≡ true)
      → file ≡ content
  whole w file v all = get_elem?-ext file content λ i. elim (dec_lt i (length content)) [
    | yes p ↦
        let (inside, lo, hi) = chunk_of_byte (length content) w.chunk_size i v.positive p in
        v.holds.chunks (i / w.chunk_size) i (all (i / w.chunk_size) (omega (arith, v.total))) lo hi
    | no p ↦
        get_elem?-past file i (omega (arith, v.holds.size))
        ∙ sym (get_elem?-past content i (omega arith))
  ]

  -- A fresh writer for a file of the content's size, given every chunk of the content once or more
  -- and in any order, stores them all, counts itself complete, and leaves exactly the content in its
  -- temporary file, if no file operation fails.
  pub write_arrivals_complete :
      (offsets : List ℕ) (w : ChunkWriter) (s : F.Fs)
      → 0 < w.chunk_size
      → length content < u64_mod
      → w.total_chunks ≡ chunk_count (length content) w.chunk_size
      → w.completed_chunks ≡ []
      → length (F.bytes s w.temp_path) ≡ length content
      → AllBelow w.total_chunks offsets
      → ((k : ℕ) → k < w.total_chunks → contains offsets k ≡ true)
      → (w' : ChunkWriter) × (t : F.Fs) × (write_arrivals F w (cut w.chunk_size content offsets) s
          ≡ (ok w', t))
        × (is_complete w' ≡ true)
        × (F.bytes t w.temp_path ≡ content)
  write_arrivals_complete offsets w s c u n e l b all =
      let start : Fits content w (F.bytes s w.temp_path) = record {
        positive = c;
        fits_u64 = u;
        total = n;
        holds = record { size = l; chunks = λ k i h lo hi. absurd (ground arith) };
        valid = record { distinct = rw e tt; in_file = rw e tt };
      } in
      let done = write_arrivals-Wrote offsets w s start b in
      let full : (k : ℕ)
          → k < done.writer.total_chunks
          → contains done.writer.completed_chunks k ≡ true =
        λ k h. ground (arith, done.completed k, all k (omega (arith, done.total))) in
      (
        done.writer,
        done.after,
        done.runs,
        (is_complete_iff done.writer done.fits.valid).1 full,
        rw (← done.temp)
            (whole done.writer (F.bytes done.after done.writer.temp_path) done.fits full),
      )
