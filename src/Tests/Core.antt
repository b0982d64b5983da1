-- ===== src/Tests/Core.antt =====
-- The sizes of a transfer at concrete values.
use just_drop.Base.{◌<◌, arith}
use just_drop.Core.Types.{chunk_count, effective_chunk_size}
use just_drop.Core.Types.Chunks.{large_file-fewer_chunks}

large_file-fewer_chunks_example :
    chunk_count 2147483648 (effective_chunk_size 2147483648 262144) < chunk_count 2147483648 262144
large_file-fewer_chunks_example =
    large_file-fewer_chunks 2147483648 262144 (omega arith) (omega arith) (omega arith)
