-- ===== src/Storage/Writer/Completion.antt =====
-- Which chunks a writer holds, and when it is complete.
use just_drop.Base.{
  ℕ, zero, suc, ◌+◌, ◌≤◌, ◌<◌, ◌≡◌, refl, sym, subst, ◌↔◌, ◌&&◌, true, not, List, [], ok, err, ltb,
  leb, length, contains, insert, IsSetList, AllBelow, insert-IsSetList, insert-AllBelow,
  count_range, count_range-contains, count_range-full, full-count_range, arith,
}
use just_drop.Core.Types.{chunk_count}
use just_drop.Storage.Files.{Files}
use just_drop.Storage.Writer.{
  ChunkWriter, chunk_integrity_failed, is_complete, completed_count, missing_from, missing_chunks,
  new, count_chunks, create_parent, write_chunk, store_chunk,
}

-- The set of completed chunks has no repetition, and all are chunks of the file.
pub record IsValid (w : ChunkWriter) : Type 0 where
  pub distinct : IsSetList w.completed_chunks
  pub in_file : AllBelow w.total_chunks w.completed_chunks

-- A writer that `new` makes is valid, holds nothing, and has as many chunks as the file.
pub new-IsValid :
    (F : Files) (transfer_id file_index : ℕ) (dest : _) (chunk_size file_size : ℕ) (s : F.Fs)
    {w : ChunkWriter} {t : F.Fs}
    → new F transfer_id file_index dest chunk_size file_size s ≡ (ok w, t)
    → IsValid w × (w.completed_chunks ≡ []) × (w.total_chunks ≡ chunk_count file_size chunk_size)
unfolding new count_chunks create_parent
new-IsValid F tid i dest cs n s e = ground arith

-- A chunk that `write_chunk` stores is one of the file; exactly its offset is added to the completed
-- ones, and its hash is returned.
pub write_chunk-stores :
    (F : Files) (w : ChunkWriter) (offset : ℕ) (d : List ℕ) (s : F.Fs) {w' : ChunkWriter}
    {hash : List ℕ} {t : F.Fs}
    → write_chunk F w offset d s ≡ (ok (w', hash), t)
    → (offset < w.total_chunks)
      × (w' ≡ record w { completed_chunks = insert offset w.completed_chunks })
      × (hash ≡ F.sha256 d)
unfolding write_chunk store_chunk
write_chunk-stores F w offset d s e = ground arith

-- One more completed chunk of the file keeps a valid writer valid.
pub insert-IsValid :
    (w : ChunkWriter) (offset : ℕ)
    → IsValid w
    → offset < w.total_chunks
    → IsValid (record w { completed_chunks = insert offset w.completed_chunks })
insert-IsValid w offset v h = record {
  distinct = insert-IsSetList offset w.completed_chunks v.distinct;
  in_file = insert-AllBelow w.total_chunks offset w.completed_chunks h v.in_file;
}

-- A chunk that `write_chunk` stores keeps a valid writer valid: no offset is held twice or past the end.
pub write_chunk-IsValid :
    (F : Files) (w : ChunkWriter) (offset : ℕ) (d : List ℕ) (s : F.Fs) {w' : ChunkWriter}
    {hash : List ℕ} {t : F.Fs}
    → IsValid w
    → write_chunk F w offset d s ≡ (ok (w', hash), t)
    → IsValid w'
write_chunk-IsValid F w offset d s v e =
    let (h, stored, same) = write_chunk-stores F w offset d s e in
    subst IsValid (sym stored) (insert-IsValid w offset v h)

-- `write_chunk` refuses an offset past the end, and touches nothing then.
pub write_chunk-past_end :
    (F : Files) (w : ChunkWriter) (offset : ℕ) (d : List ℕ) (s : F.Fs)
    → w.total_chunks ≤ offset
    → write_chunk F w offset d s ≡ (err (chunk_integrity_failed w.transfer_id offset), s)
unfolding write_chunk
write_chunk-past_end F w offset d s h = ground arith

length-missing_from :
    (xs : List ℕ) (i n : ℕ) → length (missing_from xs i n) + count_range i n (contains xs) ≡ n
unfolding missing_from
length-missing_from xs i zero = refl
length-missing_from xs i (suc n) = ground (arith, length-missing_from xs (suc i) n)

contains-missing_from :
    (xs : List ℕ) (i n k : ℕ)
    → contains (missing_from xs i n) k ≡ (leb i k && ltb k (i + n) && not (contains xs k))
unfolding missing_from
contains-missing_from xs i zero k = ground arith
contains-missing_from xs i (suc n) k = ground (arith, contains-missing_from xs (suc i) n k)

-- The missing offsets of a valid writer are those of the file that are not completed, and in number the rest.
pub missing_chunks_lem :
    (w : ChunkWriter) (k : ℕ)
    → IsValid w
    → (contains (missing_chunks w) k
        ≡ (ltb k w.total_chunks && not (contains w.completed_chunks k)))
      × (length (missing_chunks w) + completed_count w ≡ w.total_chunks)
unfolding missing_chunks completed_count
missing_chunks_lem w k v = (
  ground (arith, contains-missing_from w.completed_chunks 0 w.total_chunks k),
  omega (
    arith,
    length-missing_from w.completed_chunks 0 w.total_chunks,
    count_range-contains w.total_chunks w.completed_chunks v.distinct v.in_file,
  ),
)

-- A valid writer counts itself complete exactly when every chunk of the file is completed.
pub is_complete_iff :
    (w : ChunkWriter)
    → IsValid w
    → (is_complete w ≡ true) ↔ ((k : ℕ) → k < w.total_chunks → contains w.completed_chunks k ≡ true)
unfolding is_complete
is_complete_iff w v = (
  λ e k h.
      count_range-full 0 w.total_chunks (contains w.completed_chunks)
        (ground
          (arith, count_range-contains w.total_chunks w.completed_chunks v.distinct v.in_file))
        k (omega arith) (omega arith),
  λ all. ground (
    arith,
    full-count_range 0 w.total_chunks (contains w.completed_chunks) (λ k a b. all k (omega arith)),
    count_range-contains w.total_chunks w.completed_chunks v.distinct v.in_file,
  ),
)
