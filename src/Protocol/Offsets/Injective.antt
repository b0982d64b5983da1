-- ===== src/Protocol/Offsets/Injective.antt =====
-- Different chunks of a transfer have different numbers, all below the number of chunks.
use just_drop.Base.{
  ℕ, ◌+◌, ◌<◌, ◌≡◌, ◌≢◌, ◌∙◌, ◌⊎◌, List, [], ◌∷◌, if◌then◌else◌, ◌==◌, add_u64, u64_mod, arith,
}
use just_drop.Core.Types.{FileEntry, TransferManifest, chunk_count, sum_u64, total_chunks}
use just_drop.Protocol.Offsets.{offset_from, global_chunk_offset}

-- `k` is a chunk of the first file with index `i`.
abbrev pub IsChunk : List FileEntry → ℕ → ℕ → ℕ → Type 0
IsChunk [] cs i k = ⊥
IsChunk (e ∷ es) cs i k =
    ((e.index ≡ i) × (k < chunk_count e.size cs)) ⊎ ((e.index ≢ i) × IsChunk es cs i k)

-- The number of all chunks, without the wrap of `u64`
abbrev pub count_all : List FileEntry → ℕ → ℕ
count_all [] cs = 0
count_all (e ∷ es) cs = chunk_count e.size cs + count_all es cs

sum-count_all :
    (files : List FileEntry) (cs acc : ℕ)
    → acc + count_all files cs < u64_mod
    → sum_u64 (λ f. chunk_count f.size cs) acc files ≡ acc + count_all files cs
unfolding sum_u64
sum-count_all [] cs acc h = omega arith
sum-count_all (e ∷ es) cs acc h =
    sum-count_all es cs (add_u64 acc (chunk_count e.size cs)) (omega arith) ∙ omega arith

-- The number of a chunk, without the wrap
abbrev position : List FileEntry → ℕ → ℕ → ℕ → ℕ
position [] cs i k = k
position (e ∷ es) cs i k = if e.index == i then k else chunk_count e.size cs + position es cs i k

position-lt :
    (files : List FileEntry) (cs i k : ℕ)
    → IsChunk files cs i k
    → position files cs i k < count_all files cs
position-lt [] cs i k h = absurd h
position-lt (e ∷ es) cs i k h = ground (arith, position-lt es cs i k)

offset_from-position :
    (files : List FileEntry) (cs i k acc : ℕ)
    → IsChunk files cs i k
    → acc + count_all files cs < u64_mod
    → offset_from files cs i k acc ≡ acc + position files cs i k
unfolding offset_from
offset_from-position [] cs i k acc h u = absurd h
offset_from-position (e ∷ es) cs i k acc h u = ground (
  arith,
  offset_from-position es cs i k (add_u64 acc (chunk_count e.size cs)),
  position-lt es cs i k,
)

position-injective :
    (files : List FileEntry) (cs i k j l : ℕ)
    → IsChunk files cs i k
    → IsChunk files cs j l
    → position files cs i k ≡ position files cs j l
    → (i ≡ j) × (k ≡ l)
position-injective [] cs i k j l a b e = absurd a
position-injective (f ∷ fs) cs i k j l a b e = ground (arith, position-injective fs cs i k j l)

-- Every chunk has a number below the total, if that fits `u64`.
pub global_chunk_offset-lt :
    (m : TransferManifest) (i k : ℕ)
    → count_all m.files m.chunk_size < u64_mod
    → IsChunk m.files m.chunk_size i k
    → global_chunk_offset m i k < total_chunks m
unfolding global_chunk_offset total_chunks
global_chunk_offset-lt m i k u h = omega (
  arith,
  sum-count_all m.files m.chunk_size 0 (omega arith),
  offset_from-position m.files m.chunk_size i k 0 h (omega arith),
  position-lt m.files m.chunk_size i k h,
)

-- Two chunks of a transfer with the same number are the same chunk, if the number of all chunks fits
-- `u64`.
pub global_chunk_offset-injective :
    (m : TransferManifest) (i k j l : ℕ)
    → count_all m.files m.chunk_size < u64_mod
    → IsChunk m.files m.chunk_size i k
    → IsChunk m.files m.chunk_size j l
    → global_chunk_offset m i k ≡ global_chunk_offset m j l
    → (i ≡ j) × (k ≡ l)
unfolding global_chunk_offset
global_chunk_offset-injective m i k j l u a b e =
    position-injective m.files m.chunk_size i k j l a b (
      omega (
        arith,
        offset_from-position m.files m.chunk_size i k 0 a (omega arith),
        offset_from-position m.files m.chunk_size j l 0 b (omega arith),
      ))
