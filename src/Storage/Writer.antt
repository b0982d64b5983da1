-- ===== src/Storage/Writer.antt =====
-- crates/justdrop-storage/src/writer.rs: received chunks, in any order, into one file.
-- A method that changes `self` returns the new writer; one that fails leaves the writer as it is.
pub mod Completion
pub mod Naming
pub mod Contents
pub mod Opening
pub mod Pieces
use Prim.Native.String.{◌++◌ as str_append}
use just_drop.Base.{
  str_eq, ℕ, zero, suc, ◌≡◌, String, Bool, true, false, not, List, [], ◌∷◌, Option, none, some,
  Result, ok, err, ◌&&◌, Action, pure, raise, continue, ◌>>=◌, ◌>>◌, map_err, if◌then◌else◌, ltb,
  leb, ◌==◌, mul_u64, length, contains, insert, div_ceil,
}
use just_drop.Core.Types.{chunk_count}
use just_drop.Storage.Files.{Files}

-- `StorageError`, with the code of the `std::io::Error`. `divide_by_zero` is the panic of
-- `div_ceil` at a chunk size of 0.
pub data StorageError : Type 0 where
  io : String → ℕ → StorageError
  chunk_integrity_failed : ℕ → ℕ → StorageError
  divide_by_zero : StorageError

pub record ChunkWriter : Type 0 where
  pub transfer_id : ℕ
  pub file_index : ℕ
  pub dest_path : String
  pub temp_path : String
  pub chunk_size : ℕ
  pub file_size : ℕ
  pub total_chunks : ℕ
  pub completed_chunks : List ℕ

unfoldable pub is_complete : ChunkWriter → Bool
is_complete w = length w.completed_chunks == w.total_chunks

unfoldable pub completed_count : ChunkWriter → ℕ
completed_count w = length w.completed_chunks

-- `(0..total).filter(…)`: the `n` offsets from `offset` on
unfoldable pub missing_from : List ℕ → ℕ → ℕ → List ℕ
missing_from completed offset zero = []
missing_from completed offset (suc n) =
    let rest = missing_from completed (suc offset) n in
    if contains completed offset then rest else offset ∷ rest

unfoldable pub missing_chunks : ChunkWriter → List ℕ
unfolding missing_from
missing_chunks w = missing_from w.completed_chunks 0 w.total_chunks

unfoldable pub restore_completed : List ℕ → ChunkWriter → ChunkWriter
restore_completed chunks w = record w { completed_chunks = chunks }

-- `.unwrap_or(…)` on a text
abbrev text_or : String → Option String → String
text_or d none = d
text_or d (some t) = t

module _ (F : Files) where
  abbrev pub Disk : Type 0 → Type 0
  Disk A = Action F.Fs StorageError A

  unfoldable pub create_parent : String → Disk (Unit {0})
  create_parent dest_path = elim (F.parent dest_path) [
    | some dir ↦ map_err (io dir) (F.create_dir_all dir)
    | none ↦ pure tt
  ]

  -- `file_size.div_ceil(chunk_size)` panics at a chunk size of 0.
  unfoldable pub count_chunks : ℕ → ℕ → Disk ℕ
  count_chunks chunk_size file_size =
      if not (file_size == 0) && chunk_size == 0
      then raise divide_by_zero
      else pure (chunk_count file_size chunk_size)

  unfoldable pub new : ℕ → ℕ → String → ℕ → ℕ → Disk ChunkWriter
  unfolding create_parent count_chunks
  new transfer_id file_index dest_path chunk_size file_size = do
    let temp_path = F.with_extension dest_path "justdrop_partial"
    create_parent dest_path
    file ← map_err (io temp_path) (F.open_create temp_path)
    map_err (io temp_path) (F.set_len file file_size)
    total_chunks ← count_chunks chunk_size file_size
    pure (record {
      transfer_id = transfer_id;
      file_index = file_index;
      dest_path = dest_path;
      temp_path = temp_path;
      chunk_size = chunk_size;
      file_size = file_size;
      total_chunks = total_chunks;
      completed_chunks = [];
    })

  -- The part of `write_chunk` behind the bound: open, seek, write, flush, and the hash.
  unfoldable pub store_chunk : ChunkWriter → ℕ → List ℕ → Disk (ChunkWriter × List ℕ)
  store_chunk w chunk_offset data' = do
    let byte_offset = mul_u64 chunk_offset w.chunk_size
    file ← map_err (io w.temp_path) (F.open_write w.temp_path)
    at ← map_err (io w.temp_path) (F.seek file byte_offset)
    map_err (io w.temp_path) (F.write_all at data')
    map_err (io w.temp_path) (F.flush at)
    map_err (io w.temp_path) F.join_blocking
    pure (record w { completed_chunks = insert chunk_offset w.completed_chunks }, F.sha256 data')

  unfoldable pub write_chunk : ChunkWriter → ℕ → List ℕ → Disk (ChunkWriter × List ℕ)
  write_chunk w chunk_offset data' =
      if leb w.total_chunks chunk_offset
      then raise (chunk_integrity_failed w.transfer_id chunk_offset)
      else store_chunk w chunk_offset data'

  -- The names that `unique_path` tries: `stem (i)`, with the extension if there is one.
  unfoldable pub numbered_path : String → ℕ → String
  numbered_path path i =
      let stem = text_or "file" (F.file_stem path) in
      let ext = text_or "" (F.extension path) in
      let base = str_append stem (str_append " (" (str_append (F.show_number i) ")")) in
      F.join (text_or "." (F.parent path))
        (if str_eq ext "" then base else str_append base (str_append "." ext))

  -- The last resort: a fresh UUID in the name.
  unfoldable pub uuid_path : String → String → String
  uuid_path path uuid =
      let stem = text_or "file" (F.file_stem path) in
      let ext = text_or "" (F.extension path) in
      let base = str_append stem (str_append "_" uuid) in
      F.join (text_or "." (F.parent path))
        (if str_eq ext "" then base else str_append base (str_append "." ext))

  -- The loop over `i`, …, `i + n - 1`
  unfoldable pub first_free : String → String → F.Fs → ℕ → ℕ → String
  first_free path uuid s i zero = uuid_path path uuid
  first_free path uuid s i (suc n) =
      let rest = first_free path uuid s (suc i) n in
      if not (F.exists (numbered_path path i) s) then numbered_path path i else rest

  unfoldable pub unique_path : String → String → F.Fs → String
  unique_path path uuid s = if not (F.exists path s) then path else first_free path uuid s 1 999

  -- An incomplete file is only warned of. The fresh UUID of `unique_path` is an argument.
  unfoldable pub finalize : String → ChunkWriter → Disk (Unit {0})
  finalize uuid w s =
      map_err (io w.dest_path) (F.rename w.temp_path (unique_path w.dest_path uuid s)) s

  -- The temporary file is removed if it exists; a failure is only warned of.
  unfoldable pub cleanup : ChunkWriter → Disk (Unit {0})
  cleanup w s = (ok tt, if F.exists w.temp_path s then (F.remove_file w.temp_path s).1 else s)
