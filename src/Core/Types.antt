-- ===== src/Core/Types.antt =====
-- crates/justdrop-core/src/types.rs: the data of a transfer, and its sizes in chunks.
-- A UUID is a number, a hash and raw bytes are lists of numbers. `div_ceil` by a chunk size of 0
-- panics in the code; here it is the value of `div_ceil`. `count_panics` says when `total_chunks` panics,
-- and the code that calls it gives an error then; other theorems take a positive chunk size.
pub mod Chunks
use just_drop.Base.{
  ℕ, String, List, [], ◌∷◌, Option, if◌then◌else◌, ◌==◌, Bool, true, false, ◌&&◌, ltb, add_u64,
  saturating_mul_u32, div_ceil, ◌*◌, min,
}

pub data Platform : Type 0 where
  android mac_os linux windows unknown : Platform

pub data TransferState : Type 0 where
  handshaking negotiating transferring verifying completed failed cancelled paused : TransferState

pub data TransferDirection : Type 0 where
  sending receiving : TransferDirection

abbrev pub protocol_version : ℕ
protocol_version = 1

abbrev pub max_message_size : ℕ
max_message_size = 16 * 1024 * 1024

abbrev pub default_chunk_size : ℕ
default_chunk_size = 256 * 1024

abbrev pub large_file_threshold : ℕ
large_file_threshold = 1024 * 1024 * 1024

pub record FileEntry : Type 0 where
  pub index : ℕ
  pub relative_path : String
  pub size : ℕ
  pub sha256 : List ℕ
  pub mime_type : String

pub record TransferManifest : Type 0 where
  pub transfer_id : ℕ
  pub version : ℕ
  pub files : List FileEntry
  pub total_size : ℕ
  pub chunk_size : ℕ
  pub sender_name : String
  pub sender_platform : Platform

pub record ChunkId : Type 0 where
  pub file_index : ℕ
  pub chunk_offset : ℕ

pub record ChunkAck : Type 0 where
  pub id : ChunkId
  pub sha256 : List ℕ

pub data TransferResponse : Type 0 where
  accept : TransferResponse
  reject : String → TransferResponse
  resume_at : List ℕ → TransferResponse

pub record TransferProgress : Type 0 where
  pub transfer_id : ℕ
  pub state : TransferState
  pub bytes_transferred : ℕ
  pub total_bytes : ℕ
  pub current_file_index : ℕ
  pub total_files : ℕ
  pub speed_bps : ℕ
  pub eta_secs : Option ℕ

-- `FileEntry::chunk_count`; also `FileChunker::chunk_count` and the count in `ChunkWriter::new`,
-- which repeat it.
unfoldable pub chunk_count : ℕ → ℕ → ℕ
chunk_count size chunk_size = if size == 0 then 1 else div_ceil size chunk_size

-- `.map(f).sum()` on `u64`, from the left
unfoldable pub sum_u64 : (FileEntry → ℕ) → ℕ → List FileEntry → ℕ
sum_u64 f acc [] = acc
sum_u64 f acc (x ∷ xs) = sum_u64 f (add_u64 acc (f x)) xs

unfoldable pub total_chunks : TransferManifest → ℕ
total_chunks m = sum_u64 (λ f. chunk_count f.size m.chunk_size) 0 m.files

abbrev has_bytes : List FileEntry → Bool
has_bytes [] = false
has_bytes (f ∷ files) = if f.size == 0 then has_bytes files else true

-- Whether `total_chunks` panics, by a division by zero
unfoldable pub count_panics : TransferManifest → Bool
count_panics m = m.chunk_size == 0 && has_bytes m.files

-- `TransferManifest::new`. The fresh UUID and the platform of the build are arguments.
unfoldable pub new_manifest : ℕ → Platform → List FileEntry → String → ℕ → TransferManifest
new_manifest uuid current_platform files sender_name chunk_size = record {
  transfer_id = uuid;
  version = protocol_version;
  files = files;
  total_size = sum_u64 (λ f. f.size) 0 files;
  chunk_size = chunk_size;
  sender_name = sender_name;
  sender_platform = current_platform;
}

unfoldable pub effective_chunk_size : ℕ → ℕ → ℕ
effective_chunk_size file_size base_chunk_size =
    if ltb large_file_threshold file_size
    then min (saturating_mul_u32 base_chunk_size 2) (4 * 1024 * 1024)
    else base_chunk_size
