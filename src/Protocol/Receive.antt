-- ===== src/Protocol/Receive.antt =====
-- `RecvTransfer::handle_incoming` of crates/justdrop-protocol/src/transfer.rs, from the first message
-- on: the connection is made and the handshake done. What the code reads of its surroundings (the
-- clock, the download directory, fresh UUIDs, the hash of the manifest) is an argument.
pub mod Verified
pub mod Steps
pub mod Whole
pub mod Resume
pub mod Opening
pub mod Marks
pub mod Chunks
pub mod Finished
pub mod Names
pub mod Named
pub mod Stored
pub mod Delivered
use just_drop.Base.{
  ℕ, zero, suc, ◌+◌, ◌-◌, String, Bool, true, false, not, List, [], ◌∷◌, ◌++◌, Option, none, some,
  Result, ok, err, Action, pure, raise, continue, ◌>>=◌, ◌>>◌, if◌then◌else◌, ◌&&◌, contains,
  insert, length, set, get_elem?, add_u64,
}
use just_drop.Core.Types.{
  negotiating, transferring, receiving, FileEntry, TransferManifest, ChunkId, ChunkAck,
  TransferResponse, resume_at, total_chunks, count_panics,
}
use just_drop.Storage.Files.{Files}
use just_drop.Storage.Resume.{encode_received_bitmap}
use just_drop.Storage.Resume.Manager.{
  FileResumeState, TransferResumeState, StateFiles, ResumeManager, init, save, load, remove,
}
use just_drop.Storage.Writer.{ChunkWriter, new, write_chunk, is_complete, finalize}
use just_drop.Protocol.Messages.{
  Message, transfer_request, transfer_response, chunk_data, chunk_ack, transfer_complete,
  transfer_verified, cancel,
}
use just_drop.Protocol.Link.{
  ProtocolError, serialization, deserialization, unexpected_message, rejected, divide_by_zero,
  Arrival, message, broken, World, Proto, send, recv, emit, shutdown, lift_fs, incoming_request,
  completed,
}
use just_drop.Protocol.Link
use just_drop.Protocol.Offsets.{global_chunk_offset}
use just_drop.Protocol.Send.{checked_div}

-- `IncomingTransferDecision`
pub data IncomingTransferDecision : Type 0 where
  accept : IncomingTransferDecision
  reject : String → IncomingTransferDecision

-- What the loop keeps: `writers` and `bytes_received`
pub record Receiver : Type 0 where
  pub writers : List (Option ChunkWriter)
  pub bytes_received : ℕ

-- What the code reads of its surroundings
pub record Setting (Fs : Type 0) : Type 0 where
  pub state_files : StateFiles Fs
  pub resume_manager : ResumeManager
  pub download_dir : String
  pub auto_accept_all : Bool
  pub speed : ℕ → ℕ
  pub now : ℕ
  pub uuid : ℕ → String
  pub compute_manifest_hash : TransferManifest → List ℕ

-- `writers.get_mut(i).and_then(|w| w.as_mut())`
unfoldable pub get_writer : List (Option ChunkWriter) → ℕ → Option ChunkWriter
get_writer [] i = none
get_writer (w ∷ ws) zero = w
get_writer (w ∷ ws) (suc i) = get_writer ws i

-- The chunks of a resume state as offsets in the whole transfer
unfoldable pub completed_of : TransferManifest → ℕ → List ℕ → List ℕ → List ℕ
completed_of m file_index [] all = all
completed_of m file_index (chunk ∷ chunks) all =
    completed_of m file_index chunks (insert (global_chunk_offset m file_index chunk) all)

unfoldable pub all_completed : TransferManifest → List FileResumeState → List ℕ → List ℕ
all_completed m [] all = all
all_completed m (f ∷ fs) all =
    all_completed m fs (completed_of m f.file_index f.completed_chunks all)

-- The entries of `save_resume_state`, from index `i` on
unfoldable pub resume_files :
    ℕ → ℕ → List FileEntry → List (Option ChunkWriter) → List FileResumeState
resume_files chunk_size i (entry ∷ files) (some w ∷ ws) =
    record {
      file_index = i;
      dest_path = entry.relative_path;
      temp_path = "";
      file_size = entry.size;
      chunk_size = chunk_size;
      completed_chunks = w.completed_chunks;
    }
    ∷ resume_files chunk_size (suc i) files ws
resume_files chunk_size i (entry ∷ files) (none ∷ ws) = resume_files chunk_size (suc i) files ws
resume_files chunk_size i _ _ = []

module _ (F : Files) (X : Setting F.Fs) where
  -- The decision of the user, or of the configuration
  unfoldable pub decide : Option IncomingTransferDecision → IncomingTransferDecision
  decide d =
      if X.auto_accept_all then accept else elim d [ some a ↦ a | none ↦ reject "no response" ]

  unfoldable pub response_to : TransferManifest → Option TransferResumeState → Message
  response_to m none = transfer_response TransferResponse.accept
  response_to m (some state) =
      transfer_response
        (resume_at (encode_received_bitmap (all_completed m state.files []) (total_chunks m)))

  unfoldable pub answer :
      TransferManifest
      → Option TransferResumeState
      → IncomingTransferDecision
      → Proto F.Fs (Unit {0})
  answer m resume_state (reject reason) = do
    send (transfer_response (TransferResponse.reject reason))
    raise (rejected reason)
  answer m none accept = send (response_to m none)
  answer m (some state) accept =
      if count_panics m then raise divide_by_zero else send (response_to m (some state))

  -- One writer per file of the manifest
  unfoldable pub new_writers :
      TransferManifest → List FileEntry → Proto F.Fs (List (Option ChunkWriter))
  new_writers m [] = pure []
  new_writers m (entry ∷ files) = do
    w ← lift_fs (
        new F m.transfer_id entry.index (F.join X.download_dir entry.relative_path) m.chunk_size
          entry.size)
    ws ← new_writers m files
    pure (some w ∷ ws)

  abbrev writer_at : List (Option ChunkWriter) → ℕ → Proto F.Fs ChunkWriter
  writer_at writers i = elim (get_writer writers i) [ none ↦ raise serialization | some w ↦ pure w ]

  -- A chunk that came
  unfoldable pub receive_chunk :
      TransferManifest → Receiver → ChunkId → List ℕ → Proto F.Fs Receiver
  receive_chunk m r id d = do
    writer ← writer_at r.writers id.file_index
    (writer', sha256) ← lift_fs (write_chunk F writer id.chunk_offset d)
    send (chunk_ack (record { id = id; sha256 = sha256 }))
    let bytes_received = add_u64 r.bytes_received (length d)
    emit (
        Link.progress (record {
          transfer_id = m.transfer_id;
          state = transferring;
          bytes_transferred = bytes_received;
          total_bytes = m.total_size;
          current_file_index = id.file_index;
          total_files = length m.files;
          speed_bps = X.speed bytes_received;
          eta_secs = checked_div (m.total_size - bytes_received) (X.speed bytes_received);
        }))
    pure (record {
      writers = set r.writers id.file_index (some writer');
      bytes_received = bytes_received;
    })

  -- The writers finalised in turn, but those that are not complete: whether all were.
  unfoldable pub finalize_all : ℕ → List (Option ChunkWriter) → Proto F.Fs Bool
  finalize_all i [] = pure true
  finalize_all i (none ∷ ws) = finalize_all (suc i) ws
  finalize_all i (some w ∷ ws) =
      if not (is_complete w)
      then (do rest ← finalize_all (suc i) ws; pure false)
      else (do lift_fs (finalize F (X.uuid i) w); finalize_all (suc i) ws)

  -- `let _ = …` on a call of the resume manager
  abbrev ignore : {E : Type 0} → Action F.Fs E (Unit {0}) → Proto F.Fs (Unit {0})
  ignore m w = (ok tt, record w { fs = (m w.fs).1 })

  -- The sender is done. A manifest hash that differs is only warned of.
  unfoldable pub receive_complete : TransferManifest → Receiver → Proto F.Fs (Unit {0})
  receive_complete m r = do
    all_ok ← finalize_all 0 r.writers
    send (transfer_verified all_ok (if all_ok then none else some "some files incomplete"))
    if not all_ok then pure tt else do
      ignore (remove X.state_files X.resume_manager m.transfer_id)
      emit (completed m.transfer_id receiving)

  unfoldable pub resume_state_of : TransferManifest → Receiver → TransferResumeState
  resume_state_of m r = record {
    transfer_id = m.transfer_id;
    last_updated = X.now;
    files = resume_files m.chunk_size 0 m.files r.writers;
    bytes_transferred = r.bytes_received;
    total_bytes = m.total_size;
  }

  unfoldable pub save_resume_state : TransferManifest → Receiver → Proto F.Fs (Unit {0})
  save_resume_state m r = do
    ignore (init X.state_files X.resume_manager)
    ignore (save X.state_files X.resume_manager (resume_state_of m r))

  abbrev arrived : List Arrival → Proto F.Fs (Unit {0})
  arrived rest w = (ok tt, record w { inbox = rest })

  -- The receive loop; its argument is what is still to arrive, the inbox of the state.
  unfoldable pub receive_loop : TransferManifest → Receiver → List Arrival → Proto F.Fs (Unit {0})
  receive_loop m r [] = do
    save_resume_state m r
    raise (ProtocolError.cancelled "connection closed")
  receive_loop m r (broken ∷ rest) = do arrived rest; raise deserialization
  receive_loop m r (message (chunk_data id d) ∷ rest) = do
    arrived rest
    r' ← receive_chunk m r id d
    receive_loop m r' rest
  receive_loop m r (message (transfer_complete manifest_hash) ∷ rest) = do
    arrived rest
    receive_complete m r
  receive_loop m r (message (cancel reason) ∷ rest) = do
    arrived rest
    save_resume_state m r
    emit (Link.cancelled m.transfer_id)
    raise (ProtocolError.cancelled reason)
  receive_loop m r (message other ∷ rest) = do
    arrived rest
    raise (unexpected_message transferring (some other))

  unfoldable pub request_of : Option Message → Proto F.Fs TransferManifest
  request_of (some (transfer_request m)) = pure m
  request_of other = raise (unexpected_message negotiating other)

  -- `self.resume_manager.load(transfer_id).await.ok().flatten()`
  unfoldable pub load_resume_state : ℕ → Proto F.Fs (Option TransferResumeState)
  load_resume_state transfer_id w =
      let loaded = load X.state_files X.resume_manager transfer_id w.fs in
      (ok (elim loaded.0 [ ok state ↦ state | err e ↦ none ]), record w { fs = loaded.1 })

  abbrev pub bytes_before : Option TransferResumeState → ℕ
  bytes_before none = 0
  bytes_before (some state) = state.bytes_transferred

  abbrev receive_all : TransferManifest → Receiver → Proto F.Fs (Unit {0})
  receive_all m r w = receive_loop m r w.inbox w

  -- Steps 5 and on: the writers, the loop, and the end
  unfoldable pub receives : TransferManifest → ℕ → Proto F.Fs (Unit {0})
  receives m bytes_received = do
    writers ← new_writers m m.files
    receive_all m (record { writers = writers; bytes_received = bytes_received })
    shutdown

  unfoldable pub handle_incoming : Option IncomingTransferDecision → Proto F.Fs (Unit {0})
  handle_incoming d = do
    request ← recv
    m ← request_of request
    emit (incoming_request m.transfer_id m m.sender_name)
    resume_state ← load_resume_state m.transfer_id
    answer m resume_state (decide d)
    receives m (bytes_before resume_state)
