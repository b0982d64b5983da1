-- ===== src/Ffi/Bridge.antt =====
-- `EventBridge` of crates/justdrop-ffi/src/lib.rs: an event of the engine as a call of the
-- application. The text of a UUID and the percentage (floating point) are arguments.
use just_drop.Base.{ℕ, String, List, map}
use just_drop.Core.Types.{FileEntry, TransferProgress}
use just_drop.Engine.{
  EngineEvent, peer_discovered, peer_lost, peer_updated, incoming_transfer_request,
  transfer_accepted, transfer_rejected, transfer_progress, transfer_completed, transfer_failed,
  transfer_cancelled, join_hotspot, create_hotspot, started, stopped, error,
}
use just_drop.Ffi.Types.{
  PeerInfo, peer_info, TransferInfo, FileInfo, IncomingRequest, send, transferring,
}

-- `JustDropEventHandler`: its calls
pub data Callback : Type 0 where
  on_peer_discovered : PeerInfo → Callback
  on_peer_lost : String → Callback
  on_peer_updated : PeerInfo → Callback
  on_incoming_request : IncomingRequest → Callback
  on_transfer_accepted : String → Callback
  on_transfer_rejected : String → String → Callback
  on_transfer_progress : TransferInfo → Callback
  on_transfer_completed : String → List String → Callback
  on_transfer_failed : String → String → Callback
  on_transfer_cancelled : String → String → Callback
  on_join_hotspot : String → String → Callback
  on_create_hotspot : Callback
  on_engine_started : Callback
  on_engine_stopped : Callback
  on_error : String → Callback

module _ (to_text : ℕ → String) (percent : TransferProgress → ℕ) where
  abbrev pub file_info : FileEntry → FileInfo
  file_info f = record { name = f.relative_path; size = f.size; mime_type = f.mime_type }

  abbrev pub transfer_info : TransferProgress → TransferInfo
  transfer_info p = record {
    transfer_id = to_text p.transfer_id;
    peer_name = "";
    direction = send;
    status = transferring;
    bytes_transferred = p.bytes_transferred;
    total_bytes = p.total_bytes;
    speed_bps = p.speed_bps;
    percent = percent p;
    eta_secs = p.eta_secs;
  }

  unfoldable pub on_event : EngineEvent → Callback
  unfolding peer_info
  on_event (peer_discovered p) = on_peer_discovered (peer_info p)
  on_event (peer_lost device_id) = on_peer_lost device_id
  on_event (peer_updated p) = on_peer_updated (peer_info p)
  on_event (incoming_transfer_request transfer_id peer manifest previews) =
      on_incoming_request (record {
        transfer_id = to_text transfer_id;
        peer = peer_info peer;
        files = map file_info manifest.files;
        total_size = manifest.total_size;
      })
  on_event (transfer_accepted transfer_id) = on_transfer_accepted (to_text transfer_id)
  on_event (transfer_rejected transfer_id reason) =
      on_transfer_rejected (to_text transfer_id) reason
  on_event (transfer_progress p) = on_transfer_progress (transfer_info p)
  on_event (transfer_completed transfer_id saved_paths) =
      on_transfer_completed (to_text transfer_id) saved_paths
  on_event (transfer_failed transfer_id e) = on_transfer_failed (to_text transfer_id) e
  on_event (transfer_cancelled transfer_id reason) =
      on_transfer_cancelled (to_text transfer_id) reason
  on_event (join_hotspot ssid passphrase) = on_join_hotspot ssid passphrase
  on_event create_hotspot = on_create_hotspot
  on_event started = on_engine_started
  on_event stopped = on_engine_stopped
  on_event (error message) = on_error message

  -- What the application was called with: the engine hands each event over as it emits it.
  abbrev pub callbacks : List EngineEvent → List Callback
  callbacks events = map on_event events
