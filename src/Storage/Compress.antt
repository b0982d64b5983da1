-- ===== src/Storage/Compress.antt =====
-- crates/justdrop-storage/src/compress.rs: chunks compressed one by one. The `zstd` crate is an
-- interface.
pub mod RoundTrip
use just_drop.Base.{
  ℕ, ◌+◌, String, str_eq, Bool, true, false, not, ◌||◌, List, [], ◌∷◌, Result, ok, err,
  if◌then◌else◌, ltb, add_u64, length,
}

-- What is used of `zstd`: an error is the code of a `std::io::Error`. `read_to_end` reads through
-- `take`, so that it gives no more bytes than the limit.
pub record Zstd : Type 1 where
  pub Decoder : Type 0
  pub encode_all : List ℕ → ℕ → Result ℕ (List ℕ)
  pub new : List ℕ → Result ℕ Decoder
  pub read_to_end : Decoder → ℕ → Result ℕ (List ℕ)

pub data CompressionError : Type 0 where
  compress_failed : ℕ → CompressionError
  decompress_failed : ℕ → CompressionError
  -- the size, and the greatest size
  too_large : ℕ → ℕ → CompressionError

abbrev pub default_level : ℕ
default_level = 3

abbrev pub or_failed :
    {A B : Type 0}
    → (ℕ → CompressionError)
    → Result ℕ A
    → (A → Result CompressionError B)
    → Result CompressionError B
or_failed f (ok a) g = g a
or_failed f (err e) g = err (f e)

module _ (Z : Zstd) where
  unfoldable pub compress : List ℕ → Result CompressionError (List ℕ)
  compress bytes = or_failed compress_failed (Z.encode_all bytes default_level) ok

  unfoldable pub decompress : List ℕ → ℕ → Result CompressionError (List ℕ)
  decompress bytes max_size = or_failed decompress_failed (Z.new bytes) λ decoder.
      or_failed decompress_failed (Z.read_to_end decoder (add_u64 max_size 1))
        λ buf. if ltb max_size (length buf) then err (too_large (length buf) max_size) else ok buf

abbrev pub compressed_formats : List String
compressed_formats =
    "image/jpeg" ∷ "image/png" ∷ "image/webp" ∷ "image/gif" ∷ "video/mp4" ∷ "video/webm"
    ∷ "audio/mp3" ∷ "audio/aac" ∷ "audio/ogg" ∷ "application/zip" ∷ "application/gzip"
    ∷ "application/x-7z-compressed" ∷ "application/x-rar-compressed" ∷ "application/zstd" ∷ []

unfoldable pub is_one_of : String → List String → Bool
is_one_of s [] = false
is_one_of s (t ∷ ts) = str_eq s t || is_one_of s ts

unfoldable pub should_compress : String → Bool
should_compress mime_type = not (is_one_of mime_type compressed_formats)
