-- ===== src/Tests/Storage.antt =====
-- Writing, reading and resuming a file of five bytes in chunks of two.
use just_drop.Base.{
  ◌⊎◌, ℕ, ◌≡◌, ◌<◌, ◌≤◌, refl, ok, List, [], ◌∷◌, true, false, arith, contains, ltb, ◌&&◌, div_ceil,
}
use just_drop.Core.Types.{chunk_count}
use just_drop.Storage.Files.Memory.{
  Memory, update, memory_files, memory_files-IsLawful, memory_files-IsReliable,
  memory_files-IsReadable,
}
use just_drop.Storage.Files.Splice.{slice}
use just_drop.Storage.Resume.{decode_received_bitmap, encode_received_bitmap}
use just_drop.Storage.Resume.Bitmap.{decode-encode}
use just_drop.Storage.Writer.{
  unique_path, uuid_path, numbered_path, ChunkWriter, is_complete, write_chunk, store_chunk, new,
  create_parent, count_chunks,
}
use just_drop.Storage.Writer.Naming.{unique_path_free}
use just_drop.Storage.Writer.Contents.{write_arrivals, cut, write_arrivals_complete}
use just_drop.Storage.Chunker.{FileChunker, chunker_count, read_chunk}
use just_drop.Storage.Chunker.Reading.{read_chunk-slice}

abbrev five : List ℕ
five = 10 ∷ 20 ∷ 30 ∷ 40 ∷ 50 ∷ []

abbrev holding : List ℕ → ChunkWriter
holding completed = record {
  transfer_id = 7;
  file_index = 0;
  dest_path = "a";
  temp_path = "a.part";
  chunk_size = 2;
  file_size = 5;
  total_chunks = 3;
  completed_chunks = completed;
}

-- The temporary file as `set_len` leaves it
abbrev zeros : Memory
zeros p = 0 ∷ 0 ∷ 0 ∷ 0 ∷ 0 ∷ []

abbrev full : Memory
full p = five

decode-encode_example :
    contains (decode_received_bitmap (encode_received_bitmap (9 ∷ 1 ∷ 30 ∷ []) 12) 12) 9
    ≡ (ltb 9 12 && contains (9 ∷ 1 ∷ 30 ∷ []) 9)
decode-encode_example = decode-encode (9 ∷ 1 ∷ 30 ∷ []) 12 9

runs_new : new memory_files 7 0 "a" 2 5 (λ p. []) ≡ (
  ok (record {
    transfer_id = 7;
    file_index = 0;
    dest_path = "a";
    temp_path = "a.part";
    chunk_size = 2;
    file_size = 5;
    total_chunks = 3;
    completed_chunks = [];
  }),
  (new memory_files 7 0 "a" 2 5 (λ p. [])).1,
)
unfolding new create_parent count_chunks chunk_count div_ceil
runs_new = refl

runs_write : write_chunk memory_files (holding (2 ∷ 0 ∷ [])) 1 (30 ∷ 40 ∷ []) zeros ≡ (
  ok (holding (1 ∷ 2 ∷ 0 ∷ []), 30 ∷ 40 ∷ []),
  (write_chunk memory_files (holding (2 ∷ 0 ∷ [])) 1 (30 ∷ 40 ∷ []) zeros).1,
)
unfolding write_chunk store_chunk
runs_write = refl

all_offsets : (k : ℕ) → k < 3 → contains (2 ∷ 0 ∷ 1 ∷ 0 ∷ []) k ≡ true
all_offsets k h = ground arith

write_arrivals_complete_example :
    (w' : ChunkWriter) × (t : Memory) × (write_arrivals memory_files
        (holding [])
        (cut 2 five (2 ∷ 0 ∷ 1 ∷ 0 ∷ []))
        zeros
      ≡ (ok w', t))
    × (is_complete w' ≡ true)
    × (t "a.part" ≡ five)
unfolding chunk_count div_ceil
write_arrivals_complete_example =
    write_arrivals_complete memory_files memory_files-IsLawful memory_files-IsReliable five
      (2 ∷ 0 ∷ 1 ∷ 0 ∷ []) (holding []) zeros (omega arith) (omega arith) refl refl refl
      (ground arith) all_offsets

abbrev reader : FileChunker
reader = record { path = "a"; file_index = 0; chunk_size = 2; file_size = 5 }

read_chunk-slice_example :
    (t : Memory) × (read_chunk memory_files reader 2 full ≡ (
      ok (record {
        id = record { file_index = 0; chunk_offset = 2 };
        bytes = slice 2 five 2;
        sha256 = slice 2 five 2;
      }),
      t,
    ))
    × (t ≡ full)
unfolding chunker_count chunk_count div_ceil
read_chunk-slice_example =
    read_chunk-slice memory_files memory_files-IsReadable reader 2 full (omega arith) refl
      (omega arith) (omega arith)

abbrev taken : Memory
taken = update (update (λ p. []) "a" five) ".a (1)" five

-- The path and its first numbered variant are taken.
unique_path_free_example :
    (memory_files.exists (unique_path memory_files "a" "u" taken) taken ≡ false)
    ⊎ ((unique_path memory_files "a" "u" taken ≡ uuid_path memory_files "a" "u")
        × (memory_files.exists "a" taken ≡ true)
        × ((j : ℕ)
            → 1 ≤ j
            → j < 1000
            → memory_files.exists (numbered_path memory_files "a" j) taken ≡ true))
unique_path_free_example = unique_path_free memory_files "a" "u" taken
