-- ===== src/Tests/Transfer.antt =====
-- A file of three bytes sent in two chunks, to a receiver that has the first one, and received.
use just_drop.Base.{
  contains, ltb, ◌&&◌, some, ℕ, ◌≡◌, refl, ok, err, none, List, [], ◌∷◌, ◌++◌, true, false, arith,
  div_ceil,
}
use just_drop.Core.Types.{
  FileEntry, TransferManifest, linux, total_chunks, count_panics, TransferResponse, ChunkId,
  chunk_count, effective_chunk_size, sum_u64,
}
use just_drop.Storage.Files.{HasLengths}
use just_drop.Storage.Files.Memory.{Memory, memory_files, memory_files-IsReadable}
use just_drop.Storage.Resume.{decode_received_bitmap, decode_chunks, test_bit}
use just_drop.Storage.Resume.Manager.{TransferResumeState, StateFiles, load, remove, state_path}
use just_drop.Storage.Chunker.{chunker_count, open_file, open_at, read_loop, read_chunk}
use just_drop.Storage.Writer.{
  is_complete, new, create_parent, count_chunks, write_chunk, store_chunk, finalize, unique_path,
}
use just_drop.Protocol.Messages.{
  chunk_data, chunk_ack, transfer_request, transfer_response, transfer_complete, transfer_verified,
}
use just_drop.Protocol.Link.{Arrival, message, World, send, recv, emit, shutdown, lift_fs}
use just_drop.Protocol.Offsets.{global_chunk_offset, offset_from}
use just_drop.Protocol.Send.{
  checked_div, skip_of, negotiate, check_ack, progress_of, send_chunk, send_chunks, send_all,
  check_verified, send_files,
}
use just_drop.Protocol.Send.Plan.{whole_plan}
use just_drop.Protocol.Send.Sent.{send_files-sent}
use just_drop.Protocol.Receive.{
  Setting, get_writer, decide, response_to, answer, new_writers, receive_chunk, finalize_all,
  receive_complete, receive_loop, request_of, load_resume_state, receives, handle_incoming,
}
use just_drop.Protocol.Receive
use just_drop.Protocol.Receive.Resume.{names, skip_of-response_to}
use just_drop.Protocol.Receive.Steps.{says_verified, arrives}
use just_drop.Protocol.Receive.Whole.{handle_incoming-verified}

abbrev entry : FileEntry
entry = record { index = 0; relative_path = "a"; size = 3; sha256 = []; mime_type = "text/plain" }

abbrev manifest : TransferManifest
manifest = record {
  transfer_id = 7;
  version = 1;
  files = entry ∷ [];
  total_size = 3;
  chunk_size = 2;
  sender_name = "laptop";
  sender_platform = linux;
}

abbrev pub no_speed : ℕ → ℕ
no_speed n = 0

abbrev pub no_hash : TransferManifest → List ℕ
no_hash m = []

abbrev files : Memory
files p = 10 ∷ 20 ∷ 30 ∷ []

abbrev chunk : ℕ → ChunkId
chunk k = record { file_index = 0; chunk_offset = k }

abbrev sender : World Memory
sender = record {
  fs = files;
  inbox =
      message (transfer_response (TransferResponse.resume_at (1 ∷ [])))
      ∷ message (chunk_ack (record { id = chunk 1; sha256 = 30 ∷ [] }))
      ∷ message (transfer_verified true none)
      ∷ [];
  sent = [];
  room = 9;
  can_shutdown = true;
  events = [];
}

pub memory_files-HasLengths : HasLengths memory_files
memory_files-HasLengths p s n t e = (ground arith, ground arith)

send_runs :
    send_files memory_files no_speed no_hash manifest ("a" ∷ []) sender
    ≡ (ok 7, (send_files memory_files no_speed no_hash manifest ("a" ∷ []) sender).1)
unfolding send_files send_all send_chunks send_chunk progress_of check_ack negotiate skip_of
    check_verified checked_div lift_fs send recv emit shutdown open_file open_at read_loop
    read_chunk chunker_count chunk_count div_ceil effective_chunk_size global_chunk_offset
    offset_from decode_received_bitmap decode_chunks test_bit total_chunks sum_u64 count_panics
send_runs = refl

send_files-sent_example :
    (skip : List ℕ) × (u : World Memory) × (negotiate memory_files no_speed no_hash manifest sender
      ≡ (ok skip, u))
    × ((send_files memory_files no_speed no_hash manifest ("a" ∷ []) sender).1.sent
        ≡ [] ++ whole_plan no_hash manifest skip files ("a" ∷ []))
send_files-sent_example =
    send_files-sent memory_files memory_files-IsReadable memory_files-HasLengths no_speed no_hash
      manifest ("a" ∷ []) sender (omega arith) (omega arith) (λ p. omega arith) send_runs

abbrev pub no_state : StateFiles Memory
no_state = record {
  create_dir_all = λ p s. (ok tt, s);
  write = λ p t s. (ok tt, s);
  read_to_string = λ p s. (err 2, s);
  remove_file = λ p s. (ok tt, s);
  exists = λ p s. false;
  join_json = λ d i. d;
  to_string_pretty = λ t. err 0;
  from_str = λ t. none;
}

abbrev pub setting : Setting Memory
setting = record {
  state_files = no_state;
  resume_manager = record { state_dir = "resume" };
  download_dir = "in";
  auto_accept_all = true;
  speed = no_speed;
  now = 0;
  uuid = λ i. "u";
  compute_manifest_hash = no_hash;
}

-- The second chunk comes first, and once more at the end.
abbrev arrivals : List Arrival
arrivals =
    message (chunk_data (chunk 1) (30 ∷ []))
    ∷ message (chunk_data (chunk 0) (10 ∷ 20 ∷ []))
    ∷ message (chunk_data (chunk 1) (30 ∷ []))
    ∷ message (transfer_complete [])
    ∷ []

abbrev receiver : World Memory
receiver = record {
  fs = λ p. [];
  inbox = message (transfer_request manifest) ∷ arrivals;
  sent = [];
  room = 9;
  can_shutdown = true;
  events = [];
}

receive_runs : says_verified (handle_incoming memory_files setting none receiver).1.sent ≡ true
unfolding handle_incoming request_of load_resume_state load state_path answer decide response_to
    receives new_writers new create_parent count_chunks chunk_count div_ceil receive_loop
    receive_chunk get_writer write_chunk store_chunk receive_complete finalize_all is_complete
    finalize unique_path checked_div lift_fs send recv emit shutdown remove
receive_runs = refl

handle_incoming-verified_example : arrives arrivals 0 1 ≡ true
unfolding chunk_count div_ceil
handle_incoming-verified_example =
    handle_incoming-verified memory_files setting none manifest arrivals receiver refl refl
      receive_runs 0 1 entry refl (omega arith)

abbrev interrupted : TransferResumeState
interrupted = record {
  transfer_id = 7;
  last_updated = 0;
  files =
      record {
        file_index = 0;
        dest_path = "a";
        temp_path = "";
        file_size = 3;
        chunk_size = 2;
        completed_chunks = 1 ∷ [];
      }
      ∷ [];
  bytes_transferred = 1;
  total_bytes = 3;
}

skip_of-response_to_example :
    (answer memory_files setting manifest (some interrupted) Receive.accept receiver
      ≡ send (response_to memory_files setting manifest (some interrupted)) receiver)
    × ((skip : List ℕ) × (skip_of memory_files no_speed no_hash manifest
            (some (response_to memory_files setting manifest (some interrupted)))
            sender
          ≡ (ok skip, sender))
        × ((g : ℕ)
            → contains skip g
              ≡ (ltb g (total_chunks manifest) && names manifest interrupted.files g)))
skip_of-response_to_example =
    skip_of-response_to memory_files setting no_speed no_hash manifest interrupted receiver sender
      (omega arith)
