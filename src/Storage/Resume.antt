-- ===== src/Storage/Resume.antt =====
-- crates/justdrop-storage/src/resume.rs: the bitmap of received chunks.
pub mod Bitmap
mod Bytes
pub mod Manager
use Prim.Native.Nat.{bit_and, bit_or}
use just_drop.Base.{
  ℕ, zero, suc, ◌+◌, ◌/◌, ◌%◌, ◌^◌, Bool, not, ◌&&◌, List, [], ◌∷◌, ltb, ◌==◌, if◌then◌else◌,
  div_ceil, length, get_or, set, replicate, insert,
}

-- `(byte & (1 << bit)) != 0`
unfoldable pub test_bit : ℕ → ℕ → Bool
test_bit byte bit = not (bit_and byte (2 ^ bit) == 0)

-- `byte | 1 << bit`
unfoldable pub or_bit : ℕ → ℕ → ℕ
or_bit byte bit = bit_or byte (2 ^ bit)

-- The loop over the completed chunks; a chunk past the last byte is left out.
unfoldable pub encode_chunks : List ℕ → List ℕ → List ℕ
encode_chunks bitmap [] = bitmap
encode_chunks bitmap (chunk ∷ chunks) =
    let byte_idx = chunk / 8 in
    let bit_idx = chunk % 8 in
    encode_chunks
      (if ltb byte_idx (length bitmap)
        then set bitmap byte_idx (or_bit (get_or bitmap byte_idx 0) bit_idx)
        else bitmap)
      chunks

unfoldable pub encode_received_bitmap : List ℕ → ℕ → List ℕ
encode_received_bitmap completed total_chunks =
    encode_chunks (replicate (div_ceil total_chunks 8) 0) completed

-- The loop over `chunk`, …, `chunk + n - 1`
unfoldable pub decode_chunks : List ℕ → ℕ → ℕ → List ℕ → List ℕ
decode_chunks bitmap chunk zero completed = completed
decode_chunks bitmap chunk (suc n) completed =
    let byte_idx = chunk / 8 in
    let bit_idx = chunk % 8 in
    decode_chunks bitmap (suc chunk) n (
      if ltb byte_idx (length bitmap) && test_bit (get_or bitmap byte_idx 0) bit_idx
      then insert chunk completed
      else completed)

unfoldable pub decode_received_bitmap : List ℕ → ℕ → List ℕ
decode_received_bitmap bitmap total_chunks = decode_chunks bitmap 0 total_chunks []
