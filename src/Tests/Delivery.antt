-- ===== src/Tests/Delivery.antt =====
-- Two files sent whole, and the receiver that they arrive at.
use just_drop.Base.{
  ℕ, zero, suc, sym, ap, ◌∙◌, subst, some, get_elem?, ◌+◌, ◌<◌, ◌≡◌, refl, length, u64_mod, ok,
  none, List, [], ◌∷◌, ◌++◌, String, if◌then◌else◌, str_eq, true, arith, div_ceil, map, eq_iff,
}
use just_drop.Core.Types.{
  FileEntry, TransferManifest, linux, total_chunks, TransferResponse, ChunkId, chunk_count,
  effective_chunk_size, sum_u64,
}
use just_drop.Storage.Files.Memory.{
  Memory, memory_files, memory_files-IsReadable, memory_files-IsLawful, memory_files-IsReliable,
  memory_files-IsSeparate, memory_files-IsCreating,
}
use just_drop.Storage.Resume.Manager.{load, state_path}
use just_drop.Storage.Chunker.{chunker_count, open_file, open_at, read_loop, read_chunk}
use just_drop.Protocol.Messages.{
  chunk_ack, transfer_response, transfer_verified, transfer_request, transfer_complete,
}
use just_drop.Protocol.Link.{Arrival, message, World, send, recv, emit, shutdown, lift_fs}
use just_drop.Protocol.Offsets.{global_chunk_offset, offset_from}
use just_drop.Protocol.Send.{
  checked_div, skip_of, negotiate, check_ack, progress_of, send_chunk, send_chunks, send_all,
  check_verified, send_files,
}
use just_drop.Protocol.Receive.{Setting, decide}
use just_drop.Protocol.Receive
use just_drop.Protocol.Receive.Opening.{AreApart}
use just_drop.Protocol.Receive.Marks.{chunks_of}
use just_drop.Protocol.Receive.Stored.{AreChunks, NamesAll}
use just_drop.Protocol.Receive.Delivered.{Delivered, handle_incoming-delivers}
use just_drop.Protocol.Transfer.{send_files-delivers}
use just_drop.Protocol.Transfer.Planned.{content_at}
use just_drop.Tests.Transfer.{memory_files-HasLengths, no_speed, no_hash, setting}

abbrev first : FileEntry
first = record { index = 0; relative_path = "a"; size = 3; sha256 = []; mime_type = "text/plain" }

abbrev second : FileEntry
second = record { index = 1; relative_path = "b"; size = 1; sha256 = []; mime_type = "text/plain" }

abbrev two_files : TransferManifest
two_files = record {
  transfer_id = 7;
  version = 1;
  files = first ∷ second ∷ [];
  total_size = 4;
  chunk_size = 2;
  sender_name = "laptop";
  sender_platform = linux;
}

abbrev disk : Memory
disk p = if str_eq p "a" then 10 ∷ 20 ∷ 30 ∷ [] else 40 ∷ []

abbrev id_of : ℕ → ℕ → ChunkId
id_of i k = record { file_index = i; chunk_offset = k }

abbrev ack : ℕ → ℕ → Arrival
ack i k = message (chunk_ack (record { id = id_of i k; sha256 = [] }))

abbrev answers : List Arrival
answers = ack 0 0 ∷ ack 0 1 ∷ ack 1 0 ∷ message (transfer_verified true none) ∷ []

abbrev whole_sender : World Memory
whole_sender = record {
  fs = disk;
  inbox = message (transfer_response TransferResponse.accept) ∷ answers;
  sent = [];
  room = 9;
  can_shutdown = true;
  events = [];
}

abbrev after_send : World Memory
after_send = (send_files memory_files no_speed no_hash two_files ("a" ∷ "b" ∷ []) whole_sender).1

whole_send_runs :
    (send_files memory_files no_speed no_hash two_files ("a" ∷ "b" ∷ []) whole_sender
      ≡ (ok 7, after_send))
    × (length after_send.sent ≡ 5)
unfolding send_files send_all send_chunks send_chunk progress_of check_ack negotiate skip_of
    check_verified checked_div lift_fs send recv emit shutdown open_file open_at read_loop
    read_chunk chunker_count chunk_count div_ceil effective_chunk_size global_chunk_offset
    offset_from total_chunks sum_u64
whole_send_runs = (refl, refl)

abbrev whole_receiver : World Memory
whole_receiver = record {
  fs = λ p. [];
  inbox = map message after_send.sent ++ [];
  sent = [];
  room = 9;
  can_shutdown = true;
  events = [];
}

two_files-AreApart : AreApart memory_files setting two_files.files
two_files-AreApart = ((ground (arith, eq_iff "ina.part" "inb.part"), tt), (tt, tt))

disk_small : (p : String) → length (disk p) < u64_mod
disk_small p = ground arith

no_resume_state :
    (load setting.state_files setting.resume_manager two_files.transfer_id whole_receiver.fs).0
    ≡ ok none
unfolding load state_path
no_resume_state = refl

auto_accepted : decide memory_files setting none ≡ Receive.accept
unfolding decide
auto_accepted = refl

-- As many answers fit as the sender has messages, and four more.
room_for_answers : whole_receiver.room ≡ length after_send.sent + 4
room_for_answers = omega (arith, whole_send_runs.1)

send_files-delivers_example :
    Delivered memory_files setting memory_files-IsLawful memory_files-IsReliable
      memory_files-IsSeparate memory_files-IsCreating
      (content_at disk ("a" ∷ "b" ∷ []))
      none
      two_files
      whole_receiver
send_files-delivers_example =
    send_files-delivers memory_files memory_files-IsReadable memory_files-HasLengths no_speed
      no_hash memory_files setting memory_files-IsLawful memory_files-IsReliable
      memory_files-IsSeparate memory_files-IsCreating none two_files ("a" ∷ "b" ∷ []) answers [] 4
      whole_sender whole_receiver refl refl (omega arith) (omega arith) disk_small
      (refl, omega arith, (refl, omega arith, tt)) whole_send_runs.0 refl auto_accepted
      no_resume_state room_for_answers refl two_files-AreApart

abbrev one_file : TransferManifest
one_file = record two_files { files = first ∷ []; total_size = 3 }

abbrev contents : ℕ → List ℕ
contents i = 10 ∷ 20 ∷ 30 ∷ []

-- The second chunk comes first, and once more at the end.
abbrev out_of_order : List ChunkId
out_of_order = id_of 0 1 ∷ id_of 0 0 ∷ id_of 0 1 ∷ []

abbrev out_of_order_receiver : World Memory
out_of_order_receiver = record whole_receiver {
  room = 9;
  inbox =
      message (transfer_request one_file)
      ∷ chunks_of contents 2 out_of_order (message (transfer_complete []) ∷ []);
}

two_chunks : chunk_count 3 2 ≡ 2
unfolding chunk_count div_ceil
two_chunks = refl

only_first :
    (i : ℕ) (entry : FileEntry)
    → get_elem? one_file.files i ≡ some entry
    → (i ≡ 0) × (first ≡ entry)
only_first zero entry h = (refl, cc)
only_first (suc i) entry h = absurd (ground arith)

out_of_order-AreChunks : AreChunks one_file out_of_order
out_of_order-AreChunks =
    let at = λ (k : ℕ) (l : k < 2). subst (λ n. k < n) (sym two_chunks) l in
    (
      (first, refl, at 1 (omega arith)),
      ((first, refl, at 0 (omega arith)), ((first, refl, at 1 (omega arith)), tt)),
    )

out_of_order-NamesAll : NamesAll one_file out_of_order
out_of_order-NamesAll i k entry h l =
    let (first_file, same) = only_first i entry h in
    let below : k < 2 =
      subst (λ n. k < n) (ap (λ e. chunk_count e.size 2) (sym same) ∙ two_chunks) l in
    ground (arith, first_file, below)

handle_incoming-delivers_example :
    Delivered memory_files setting memory_files-IsLawful memory_files-IsReliable
      memory_files-IsSeparate memory_files-IsCreating contents none one_file out_of_order_receiver
handle_incoming-delivers_example =
    handle_incoming-delivers memory_files setting memory_files-IsLawful memory_files-IsReliable
      memory_files-IsSeparate memory_files-IsCreating contents none one_file out_of_order [] [] 4
      out_of_order_receiver refl auto_accepted no_resume_state refl refl (omega arith) (tt, tt)
      (λ i entry h. ground (arith, (only_first i entry h).1)) out_of_order-AreChunks
      out_of_order-NamesAll
