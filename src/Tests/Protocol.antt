-- ===== src/Tests/Protocol.antt =====
-- A transfer of two files, of five bytes and of none, in chunks of two bytes.
use just_drop.Base.{
  ℕ, ◌≡◌, ◌≢◌, refl, ok, err, some, none, Option, List, [], ◌∷◌, arith, String, ◌⊎◌, inl, ◌+◌, ◌-◌,
  div_ceil, ◌*◌, if◌then◌else◌, ◌==◌,
}
use just_drop.Core.Types.{
  TransferState, negotiating, transferring, verifying, completed, paused, chunk_count, FileEntry,
  TransferManifest, linux,
}
use just_drop.Protocol.State.{
  TransferStateMachine, unexpected_message, from_state, transition, run, new, is_valid_transition,
}
use just_drop.Protocol.State.Diagram.{◌⟶◌, state-transition}
use just_drop.Protocol.State.Runs.{Subsequence, completed_in_order}
use just_drop.Protocol.Messages.{Message, ping, pong, tag, Bincode, encode, decode}
use just_drop.Protocol.Messages.Tagging.{IsBincode, decode-encode_differs}
use just_drop.Protocol.Offsets.Injective.{global_chunk_offset-injective}

-- A refused request, a pause and its end are among the requests.
abbrev requests : List TransferState
requests =
    negotiating ∷ completed ∷ transferring ∷ paused ∷ verifying ∷ transferring ∷ verifying
    ∷ completed ∷ []

requests-run : (run new requests).state ≡ completed
unfolding run new transition is_valid_transition
requests-run = refl

completed_in_order_example :
    Subsequence (negotiating ∷ transferring ∷ verifying ∷ completed ∷ []) requests
completed_in_order_example = completed_in_order requests requests-run

abbrev pausing : TransferStateMachine
pausing = record { state = paused }

state-transition_example :
    ((transition pausing verifying ≡ (ok tt, from_state verifying)) × (paused ⟶ verifying))
    ⊎ ((transition pausing verifying ≡ (err (unexpected_message paused verifying), pausing))
        × ¬ (paused ⟶ verifying))
state-transition_example = state-transition pausing verifying

-- A codec of the two messages without fields
abbrev written : Message → Option (List ℕ)
written ping = some (8 ∷ 0 ∷ 0 ∷ 0 ∷ [])
written pong = some (9 ∷ 0 ∷ 0 ∷ 0 ∷ [])
written m = none

abbrev variant : ℕ → Option Message
variant n = if n == 8 then some ping else if n == 9 then some pong else none

abbrev read_back : List ℕ → Option Message
read_back (a ∷ b ∷ c ∷ d ∷ rest) = variant (a + 256 * b + 65536 * c + 16777216 * d)
read_back bytes = none

abbrev small_codec : Bincode
small_codec = record { serialize = written; deserialize = read_back }

variant-tag : (n : ℕ) (m : Message) → variant n ≡ some m → n ≡ tag m - 1
unfolding tag
variant-tag n m h = ground arith

written-tag :
    (m : Message) (bytes : List ℕ)
    → written m ≡ some bytes
    → (rest : List ℕ) × (bytes ≡ (tag m - 1) ∷ 0 ∷ 0 ∷ 0 ∷ rest)
unfolding tag
written-tag m bytes h = ([], ground arith)

small_codec-IsBincode : IsBincode small_codec
small_codec-IsBincode = record {
  serialize_variant = written-tag;
  deserialize_variant =
      λ a b c d rest m h. variant-tag (a + 256 * b + 65536 * c + 16777216 * d) m h;
}

ping_encoded : encode small_codec ping ≡ some (9 ∷ 8 ∷ 0 ∷ 0 ∷ 0 ∷ [])
unfolding encode tag
ping_encoded = refl

decode-encode_differs_example : decode small_codec (9 ∷ 8 ∷ 0 ∷ 0 ∷ 0 ∷ []) ≢ some ping
decode-encode_differs_example =
    decode-encode_differs small_codec small_codec-IsBincode ping (9 ∷ 8 ∷ 0 ∷ 0 ∷ 0 ∷ [])
      ping_encoded

abbrev first : ℕ
first = 0

abbrev last : ℕ
last = 2

abbrev entry : ℕ → String → ℕ → FileEntry
entry i path size = record {
  index = i;
  relative_path = path;
  size = size;
  sha256 = [];
  mime_type = "text/plain";
}

abbrev two_files : TransferManifest
two_files = record {
  transfer_id = 7;
  version = 1;
  files = entry 0 "a" 5 ∷ entry 1 "b" 0 ∷ [];
  total_size = 5;
  chunk_size = 2;
  sender_name = "laptop";
  sender_platform = linux;
}

global_chunk_offset-injective_example : (first ≡ first) × (last ≡ last)
unfolding chunk_count div_ceil
global_chunk_offset-injective_example =
    global_chunk_offset-injective two_files 0 2 0 2 (omega arith) (inl (refl, omega arith))
      (inl (refl, omega arith)) refl
