-- ===== src/Protocol/Send.antt =====
-- `SendTransfer::send_files` of crates/justdrop-protocol/src/transfer.rs, after the manifest.
-- The wall clock (which gives the speed) and the hash of the manifest are arguments.
pub mod Plan
pub mod Sent
use just_drop.Base.{
  ℕ, zero, suc, ◌+◌, ◌-◌, ◌/◌, String, Bool, true, false, List, [], ◌∷◌, ◌++◌, Option, none, some,
  Result, ok, err, Action, pure, raise, continue, ◌>>=◌, ◌>>◌, map_err, if◌then◌else◌, ◌==◌,
  contains, length, add_u64,
}
use just_drop.Core.Types.{
  TransferState, negotiating, transferring, verifying, TransferDirection, sending, FileEntry,
  TransferManifest, ChunkId, ChunkAck, TransferResponse, accept, reject, resume_at,
  TransferProgress, total_chunks, count_panics, effective_chunk_size,
}
use just_drop.Storage.Files.{Files}
use just_drop.Storage.Resume.{decode_received_bitmap}
use just_drop.Storage.Chunker.{FileChunker, ReadChunk, open_file, read_chunk, chunker_count}
use just_drop.Protocol.Messages.{
  Message, transfer_request, transfer_response, chunk_data, chunk_ack, transfer_complete,
  transfer_verified, cancel,
}
use just_drop.Protocol.Link.{
  ProtocolError, unexpected_message, rejected, divide_by_zero, World, Proto, send, recv, emit,
  shutdown, lift_fs,
}
use just_drop.Protocol.Link
use just_drop.Protocol.Offsets.{global_chunk_offset}

-- `remaining.checked_div(speed_bps)`
unfoldable pub checked_div : ℕ → ℕ → Option ℕ
checked_div a b = if b == 0 then none else some (a / b)

module _ (F : Files) (speed : ℕ → ℕ) (compute_manifest_hash : TransferManifest → List ℕ) where
  -- The offsets that the peer has already, from its response
  unfoldable pub skip_of : TransferManifest → Option Message → Proto F.Fs (List ℕ)
  skip_of m (some (transfer_response accept)) = pure []
  skip_of m (some (transfer_response (resume_at received))) =
      if count_panics m
      then raise divide_by_zero
      else pure (decode_received_bitmap received (total_chunks m))
  skip_of m (some (transfer_response (reject reason))) = raise (rejected reason)
  skip_of m other = raise (unexpected_message negotiating other)

  unfoldable pub negotiate : TransferManifest → Proto F.Fs (List ℕ)
  negotiate m = do send (transfer_request m); response ← recv; skip_of m response

  -- An acknowledgement with another hash is only warned of.
  unfoldable pub check_ack : Option Message → Proto F.Fs (Unit {0})
  check_ack (some (chunk_ack a)) = pure tt
  check_ack (some (cancel reason)) = raise (ProtocolError.cancelled reason)
  check_ack other = raise (unexpected_message transferring other)

  unfoldable pub progress_of : TransferManifest → ℕ → ℕ → TransferProgress
  progress_of m file_idx bytes_sent = record {
    transfer_id = m.transfer_id;
    state = transferring;
    bytes_transferred = bytes_sent;
    total_bytes = m.total_size;
    current_file_index = file_idx;
    total_files = length m.files;
    speed_bps = speed bytes_sent;
    eta_secs = checked_div (m.total_size - bytes_sent) (speed bytes_sent);
  }

  -- One round of the chunk loop for a chunk that is not skipped
  unfoldable pub send_chunk : TransferManifest → FileChunker → ℕ → ℕ → ℕ → Proto F.Fs ℕ
  unfolding progress_of
  send_chunk m chunker file_idx chunk_offset bytes_sent = do
    chunk ← lift_fs (read_chunk F chunker chunk_offset)
    send (chunk_data (record { file_index = file_idx; chunk_offset = chunk_offset }) chunk.bytes)
    answer ← recv
    check_ack answer
    let bytes_sent' = add_u64 bytes_sent (length chunk.bytes)
    emit (Link.progress (progress_of m file_idx bytes_sent'))
    pure bytes_sent'

  -- The loop over `chunk_offset`, …, `chunk_offset + n - 1`
  unfoldable pub send_chunks :
      TransferManifest → List ℕ → FileChunker → ℕ → ℕ → ℕ → ℕ → Proto F.Fs ℕ
  send_chunks m skip chunker file_idx chunk_offset zero bytes_sent = pure bytes_sent
  send_chunks m skip chunker file_idx chunk_offset (suc n) bytes_sent =
      if contains skip (global_chunk_offset m file_idx chunk_offset)
      then send_chunks m skip chunker file_idx (suc chunk_offset) n
          (add_u64 bytes_sent chunker.chunk_size)
      else (do
        bytes_sent' ← send_chunk m chunker file_idx chunk_offset bytes_sent
        send_chunks m skip chunker file_idx (suc chunk_offset) n bytes_sent')

  -- The loop over the files and their paths. `file_idx as u32` is the index itself: a manifest has fewer
  -- than 2^32 files.
  unfoldable pub send_all :
      TransferManifest → List ℕ → List FileEntry → List String → ℕ → ℕ → Proto F.Fs ℕ
  send_all m skip (entry ∷ files) (path ∷ paths) file_idx bytes_sent = do
    chunker ← lift_fs (open_file F path file_idx (effective_chunk_size entry.size m.chunk_size))
    bytes_sent' ← send_chunks m skip chunker file_idx 0 (chunker_count chunker) bytes_sent
    send_all m skip files paths (suc file_idx) bytes_sent'
  send_all m skip _ _ file_idx bytes_sent = pure bytes_sent

  unfoldable pub check_verified : TransferManifest → Option Message → Proto F.Fs (Unit {0})
  check_verified m (some (transfer_verified true error)) =
      emit (Link.completed m.transfer_id sending)
  check_verified m (some (transfer_verified false none)) =
      raise (ProtocolError.cancelled "verification failed")
  check_verified m (some (transfer_verified false (some error))) =
      raise (ProtocolError.cancelled error)
  check_verified m other = raise (unexpected_message verifying other)

  -- From the negotiation on: the connection is made and the handshake done.
  unfoldable pub send_files : TransferManifest → List String → Proto F.Fs ℕ
  send_files m paths = do
    skip ← negotiate m
    bytes_sent ← send_all m skip m.files paths 0 0
    send (transfer_complete (compute_manifest_hash m))
    answer ← recv
    check_verified m answer
    shutdown
    pure m.transfer_id
