-- ===== src/Storage/Chunker.antt =====
-- crates/justdrop-storage/src/chunker.rs: a file read chunk by chunk.
pub mod Reading
pub mod Streaming
use just_drop.Base.{
  ℕ, zero, suc, ◌+◌, ◌-◌, String, Bool, true, false, List, [], ◌∷◌, ◌++◌, Result, ok, err, Action,
  pure, raise, continue, ◌>>=◌, ◌>>◌, map_err, if◌then◌else◌, ltb, ◌==◌, mul_u64, length, min,
}
use just_drop.Core.Types.{ChunkId, chunk_count}
use just_drop.Storage.Files.{Files}

-- `StorageError` of the reading side
pub data ReadError : Type 0 where
  io : String → ℕ → ReadError
  file_not_found : String → ReadError

pub record FileChunker : Type 0 where
  pub path : String
  pub file_index : ℕ
  pub chunk_size : ℕ
  pub file_size : ℕ

pub record ReadChunk : Type 0 where
  pub id : ChunkId
  pub bytes : List ℕ
  pub sha256 : List ℕ

-- `FileChunker::chunk_count`
unfoldable pub chunker_count : FileChunker → ℕ
chunker_count c = chunk_count c.file_size c.chunk_size

module _ (F : Files) where
  abbrev pub Read : Type 0 → Type 0
  Read A = Action F.Fs ReadError A

  unfoldable pub open_file : String → ℕ → ℕ → Read FileChunker
  open_file path file_index chunk_size = do
    file_size ←
        map_err (λ e. if F.is_not_found e then file_not_found path else io path e)
          (F.metadata_len path)
    pure (record {
      path = path;
      file_index = file_index;
      chunk_size = chunk_size;
      file_size = file_size;
    })

  -- The `while total_read < read_size` loop: `want` is what is left to read. Each round but the last
  -- reads a byte at least, so `read_size` rounds are enough.
  unfoldable pub read_loop : ℕ → String → F.Handle → ℕ → Read (List ℕ)
  read_loop zero path h want = pure []
  read_loop (suc fuel) path h want = if want == 0 then pure [] else do
    (d, h') ← map_err (io path) (F.read h want)
    if length d == 0
        then pure []
        else do rest ← read_loop fuel path h' (want - length d); pure (d ++ rest)

  -- The file opened, and positioned unless the offset is 0
  unfoldable pub open_at : FileChunker → ℕ → Read F.Handle
  open_at c byte_offset = do
    file ← map_err (io c.path) (F.open_read c.path)
    if ltb 0 byte_offset then map_err (io c.path) (F.seek file byte_offset) else pure file

  unfoldable pub read_chunk : FileChunker → ℕ → Read ReadChunk
  read_chunk c chunk_offset = do
    let byte_offset = mul_u64 chunk_offset c.chunk_size
    let remaining = c.file_size - byte_offset
    let read_size = min remaining c.chunk_size
    at ← open_at c byte_offset
    buf ← read_loop read_size c.path at read_size
    map_err (io c.path) F.join_blocking
    pure (record {
      id = record { file_index = c.file_index; chunk_offset = chunk_offset };
      bytes = buf;
      sha256 = F.sha256 buf;
    })

  -- A bounded channel: what was sent, and how many more messages it takes before its receiver is dropped
  pub record Sender : Type 0 where
    pub sent : List (Result ReadError ReadChunk)
    pub room : ℕ

  -- `tx.send(message)`: whether it is taken
  unfoldable pub tx_send : Result ReadError ReadChunk → Sender → Bool × Sender
  tx_send message tx =
      if tx.room == 0
      then (false, tx)
      else (true, record { sent = tx.sent ++ (message ∷ []); room = tx.room - 1 })

  abbrev pub unless_dropped : Bool × Sender → (Sender → F.Fs × Sender) → F.Fs → F.Fs × Sender
  unless_dropped (true, tx) rest s = rest tx
  unless_dropped (false, tx) rest s = (s, tx)

  abbrev pub stream_next :
      Result ReadError ReadChunk × F.Fs → (F.Fs → Sender → F.Fs × Sender) → Sender → F.Fs × Sender
  stream_next (ok chunk, s) rest tx = unless_dropped (tx_send (ok chunk) tx) (rest s) s
  stream_next (err e, s) rest tx = (s, (tx_send (err e) tx).1)

  -- The loop over `n` chunks from `offset` on
  unfoldable pub stream_loop : FileChunker → ℕ → ℕ → F.Fs → Sender → F.Fs × Sender
  stream_loop c offset zero s tx = (s, tx)
  stream_loop c offset (suc n) s tx =
      stream_next (read_chunk c offset s) (stream_loop c (suc offset) n) tx

  -- `FileChunker::stream_chunks`
  unfoldable pub stream_chunks : FileChunker → ℕ → F.Fs → Sender → F.Fs × Sender
  stream_chunks c start_chunk s tx = stream_loop c start_chunk (chunker_count c - start_chunk) s tx
