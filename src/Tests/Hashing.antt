-- ===== src/Tests/Hashing.antt =====
-- A file of five bytes, hashed, verified, streamed and compressed. The hasher collects the bytes, and the
-- compression puts a byte before them.
use just_drop.Base.{
  ℕ, ◌+◌, ◌-◌, ◌<◌, ◌≡◌, refl, sym, subst, Bool, List, [], ◌∷◌, ◌++◌, some, Result, ok, err, arith,
  length, take, map, leb, if◌then◌else◌, append_assoc, append-nil, range_from,
}
use just_drop.Storage.Files.Memory.{Memory, memory_files, memory_files-IsReadable}
use just_drop.Storage.Chunker.{FileChunker, Sender, chunker_count, stream_chunks}
use just_drop.Storage.Chunker.Streaming.{chunk_of, stream_chunks-in_order}
use just_drop.Storage.Hashing.{
  Digest, IsDigest, hash_file, blake3_file, hash_bytes, finalize, update_all, new_hasher,
}
use just_drop.Storage.Hashing.Whole.{hash_file-ends, blake3_file-update_all}
use just_drop.Storage.Compress.{Zstd, too_large, compress, decompress}
use just_drop.Storage.Compress.RoundTrip.{IsZstd, decompress-compress}

abbrev five : List ℕ
five = 10 ∷ 20 ∷ 30 ∷ 40 ∷ 50 ∷ []

abbrev full : Memory
full p = five

abbrev collect : Digest
collect = record {
  Hasher = List ℕ;
  new = [];
  update = λ h a. h ++ a;
  finalize = λ h. h;
  hash = λ a. a;
}

collect-IsDigest : IsDigest collect
collect-IsDigest = record {
  update_append = append_assoc;
  update_nil = append-nil;
  hash_lem = λ a. refl;
}

hash_file-ends_example :
    (t : Memory) × (hash_file memory_files collect 6 "a" full ≡ (ok (some five), t)) × (t ≡ full)
hash_file-ends_example =
    hash_file-ends memory_files memory_files-IsReadable collect collect-IsDigest 6 "a" full
      (omega arith)

abbrev pieces : List (List ℕ)
pieces = (10 ∷ 20 ∷ []) ∷ [] ∷ (30 ∷ 40 ∷ 50 ∷ []) ∷ []

blake3_file-update_all_example :
    (t : Memory) × (blake3_file memory_files collect 6 "a" full
      ≡ (ok (some (hash_bytes collect five)), t))
    × (finalize collect (update_all collect pieces (new_hasher collect)) ≡ hash_bytes collect five)
blake3_file-update_all_example =
    blake3_file-update_all memory_files memory_files-IsReadable collect collect-IsDigest 6 "a"
      pieces full (omega arith) refl

abbrev chunker : FileChunker
chunker = record { path = "a"; file_index = 4; chunk_size = 2; file_size = 5 }

abbrev channel : Sender memory_files
channel = record { sent = []; room = 1 }

stream_chunks-in_order_example :
    (stream_chunks memory_files chunker 1 full channel).1.sent
    ≡ take 1 (
        map
          (chunk_of memory_files memory_files-IsReadable chunker five)
          (range_from 1 (chunker_count chunker - 1)))
unfolding chunker_count just_drop.Core.Types.chunk_count just_drop.Base.div_ceil
stream_chunks-in_order_example =
    stream_chunks-in_order memory_files memory_files-IsReadable chunker 1 full channel (omega arith)
      refl (omega arith) (omega arith)

abbrev unpacked : List ℕ → Result ℕ (List ℕ)
unpacked (b ∷ d) = ok d
unpacked [] = err 1

abbrev packing : Zstd
packing = record {
  Decoder = List ℕ;
  encode_all = λ d level. ok (level ∷ d);
  new = unpacked;
  read_to_end = λ d limit. ok (take limit d);
}

packing-IsZstd : IsZstd packing
packing-IsZstd d c level h =
    let e : level ∷ d ≡ c = ground (arith, h) in
    subst
      (λ c.
        (decoder : List ℕ) × (unpacked c ≡ ok decoder)
        × ((limit : ℕ) → packing.read_to_end decoder limit ≡ ok (take limit d)))
      e (d, refl, λ limit. refl)

decompress-compress_example : decompress packing (3 ∷ five) 4 ≡ err (too_large 5 4)
unfolding compress
decompress-compress_example =
    decompress-compress packing packing-IsZstd five (3 ∷ five) 4 (omega arith) refl
