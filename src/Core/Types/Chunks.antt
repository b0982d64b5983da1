-- ===== src/Core/Types/Chunks.antt =====
-- How many chunks a file has, and how large they are.
use just_drop.Base.{
  ◌⊎◌, min, lt_of_mul_lt, ℕ, ◌+◌, ◌*◌, ◌≤◌, ◌<◌, ◌≡◌, u64_mod, u32_mod, mul_u64, div_ceil,
  div_ceil_bounds, mul_below, arith,
}
use just_drop.Core.Types.{chunk_count, effective_chunk_size, large_file_threshold}

-- The offset of a chunk in bytes does not wrap, and lies in the file or at its end.
pub no_wrap :
    (size chunk_size offset : ℕ)
    → 0 < chunk_size
    → size < u64_mod
    → offset < chunk_count size chunk_size
    → (mul_u64 offset chunk_size ≡ offset * chunk_size) × (offset * chunk_size ≤ size)
unfolding chunk_count
no_wrap size cs offset c h k =
    ground (arith, div_ceil_bounds size cs c, mul_below offset (div_ceil size cs) cs)

-- For a positive chunk size, the chunks hold the file, the last one is not superfluous unless the
-- file is empty, and there is always one.
pub chunk_count_bounds :
    (size chunk_size : ℕ)
    → 0 < chunk_size
    → (size ≤ chunk_count size chunk_size * chunk_size)
      × ((size ≤ 0) ⊎ (chunk_count size chunk_size * chunk_size < size + chunk_size))
      × (1 ≤ chunk_count size chunk_size)
unfolding chunk_count
chunk_count_bounds size cs c = ground (arith, div_ceil_bounds size cs c)

-- For a positive configured size that is a `u32`, the effective chunk size is the configured one up
-- to 1 GiB, and above it is twice that, but 4 MiB at most. It is positive and a `u32`.
pub effective_chunk_size_bounds :
    (size base : ℕ)
    → 0 < base
    → base < u32_mod
    → (((size ≤ large_file_threshold) × (effective_chunk_size size base ≡ base))
        ⊎ ((large_file_threshold < size)
            × (effective_chunk_size size base ≡ min (2 * base) 4194304)))
      × (0 < effective_chunk_size size base)
      × (effective_chunk_size size base < u32_mod)
unfolding effective_chunk_size
effective_chunk_size_bounds size base p u = ground arith

-- A file over 1 GiB has fewer chunks of the effective chunk size, by which the sender cuts it, than of
-- the configured size, by which the receiver counts, if that is positive and at most 2 MiB.
pub large_file-fewer_chunks :
    (size base : ℕ)
    → 0 < base
    → base ≤ 2097152
    → large_file_threshold < size
    → chunk_count size (effective_chunk_size size base) < chunk_count size base
large_file-fewer_chunks size base p u l =
    let b = effective_chunk_size_bounds size base p (omega arith) in
    let double : effective_chunk_size size base ≡ 2 * base = ground (arith, b) in
    let wide = chunk_count_bounds size (2 * base) (omega arith) in
    let narrow = chunk_count_bounds size base p in
    let upper : chunk_count size (2 * base) * (2 * base) < size + 2 * base =
      ground (arith, wide.1, l) in
    rw double (
      fewer base (chunk_count size (2 * base)) (chunk_count size base) size upper narrow.0
        (omega arith))
  where
    fewer :
        (base a b size : ℕ)
        → a * (2 * base) < size + 2 * base
        → size ≤ b * base
        → 2 * base < size
        → a < b
    fewer base a b size h k l = omega (
      arith,
      lt_of_mul_lt (2 * a) (b + 2) base (grind (arith, h, k)),
      lt_of_mul_lt 2 b base (grind (arith, k, l)),
    )
