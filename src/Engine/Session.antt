-- ===== src/Engine/Session.antt =====
-- crates/justdrop-engine/src/session.rs: one transfer as the engine knows it. Times and fresh UUIDs are
-- arguments.
use just_drop.Base.{
  ℕ, String, Bool, List, [], Option, none, some, ◌==◌, ◌||◌, leb, ◌-◌, ◌/◌, if◌then◌else◌,
}
use just_drop.Core.Types.{
  TransferState, negotiating, transferring, completed, failed, cancelled, TransferManifest,
}
use just_drop.Protocol.State.{is_terminal_state}

pub data Direction : Type 0 where
  send receive : Direction

pub record TransferSession : Type 0 where
  pub id : ℕ
  pub peer_fingerprint : String
  pub peer_name : String
  pub direction : Direction
  pub state : TransferState
  pub manifest : Option TransferManifest
  pub source_paths : List String
  pub dest_dir : Option String
  pub bytes_transferred : ℕ
  pub total_bytes : ℕ
  pub speed_bps : ℕ
  pub created_at : ℕ
  pub updated_at : ℕ

unfoldable pub new_send : ℕ → ℕ → String → String → List String → TransferSession
new_send uuid now peer_fingerprint peer_name paths = record {
  id = uuid;
  peer_fingerprint = peer_fingerprint;
  peer_name = peer_name;
  direction = send;
  state = negotiating;
  manifest = none;
  source_paths = paths;
  dest_dir = none;
  bytes_transferred = 0;
  total_bytes = 0;
  speed_bps = 0;
  created_at = now;
  updated_at = now;
}

unfoldable pub new_receive : ℕ → ℕ → String → String → TransferManifest → String → TransferSession
new_receive transfer_id now peer_fingerprint peer_name manifest dest_dir = record {
  id = transfer_id;
  peer_fingerprint = peer_fingerprint;
  peer_name = peer_name;
  direction = receive;
  state = negotiating;
  manifest = some manifest;
  source_paths = [];
  dest_dir = some dest_dir;
  bytes_transferred = 0;
  total_bytes = manifest.total_size;
  speed_bps = 0;
  created_at = now;
  updated_at = now;
}

unfoldable pub update_progress : ℕ → ℕ → ℕ → TransferSession → TransferSession
update_progress now bytes speed s = record s {
  bytes_transferred = bytes;
  speed_bps = speed;
  state = transferring;
  updated_at = now;
}

unfoldable pub complete : ℕ → TransferSession → TransferSession
complete now s = record s { state = completed; updated_at = now }

unfoldable pub fail : ℕ → TransferSession → TransferSession
fail now s = record s { state = failed; updated_at = now }

unfoldable pub cancel : ℕ → TransferSession → TransferSession
cancel now s = record s { state = cancelled; updated_at = now }

unfoldable pub eta_secs : TransferSession → Option ℕ
eta_secs s =
    if s.speed_bps == 0 || leb s.total_bytes s.bytes_transferred
    then none
    else some ((s.total_bytes - s.bytes_transferred) / s.speed_bps)

unfoldable pub is_terminal : TransferSession → Bool
is_terminal s = is_terminal_state s.state
