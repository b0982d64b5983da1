-- ===== src/Protocol/Offsets.antt =====
-- `global_chunk_offset` of crates/justdrop-protocol/src/transfer.rs: one number for each chunk of a
-- transfer, by which the resume bitmap names it.
pub mod Injective
use just_drop.Base.{ℕ, List, [], ◌∷◌, if◌then◌else◌, ◌==◌, add_u64}
use just_drop.Core.Types.{FileEntry, TransferManifest, chunk_count}

unfoldable pub offset_from : List FileEntry → ℕ → ℕ → ℕ → ℕ → ℕ
offset_from [] chunk_size file_index chunk_offset global = add_u64 global chunk_offset
offset_from (entry ∷ files) chunk_size file_index chunk_offset global =
    let rest =
      offset_from files chunk_size file_index chunk_offset
        (add_u64 global (chunk_count entry.size chunk_size)) in
    if entry.index == file_index then add_u64 global chunk_offset else rest

unfoldable pub global_chunk_offset : TransferManifest → ℕ → ℕ → ℕ
unfolding offset_from
global_chunk_offset m file_index chunk_offset =
    offset_from m.files m.chunk_size file_index chunk_offset 0
