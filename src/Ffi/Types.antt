-- ===== src/Ffi/Types.antt =====
-- The types of crates/justdrop-ffi/src/lib.rs, and how those of the engine are turned into them.
use just_drop.Base.{ℕ, String, List, Option}
use just_drop.Core.Types.{Platform}
use just_drop.Core.Trust
use just_drop.Ble.Advertisement
use just_drop.Engine.Device.{Peer}
use just_drop.Engine.{EngineError, initialization, database, session_not_found, transfer}

pub data TrustLevel : Type 0 where
  unknown trusted favorite blocked : TrustLevel

unfoldable pub trust_of : Trust.TrustLevel → TrustLevel
trust_of Trust.unknown = unknown
trust_of Trust.trusted = trusted
trust_of Trust.favorite = favorite
trust_of Trust.blocked = blocked

unfoldable pub core_trust : TrustLevel → Trust.TrustLevel
core_trust unknown = Trust.unknown
core_trust trusted = Trust.trusted
core_trust favorite = Trust.favorite
core_trust blocked = Trust.blocked

pub data PresenceState : Type 0 where
  idle available receiving busy invisible : PresenceState

unfoldable pub presence_of : Advertisement.PresenceState → PresenceState
presence_of Advertisement.idle = idle
presence_of Advertisement.available = available
presence_of Advertisement.receiving = receiving
presence_of Advertisement.busy = busy
presence_of Advertisement.invisible = invisible

pub data PlatformType : Type 0 where
  mac_os android windows linux unknown : PlatformType

unfoldable pub platform_of : Platform → PlatformType
platform_of Platform.mac_os = mac_os
platform_of Platform.android = android
platform_of Platform.windows = windows
platform_of Platform.linux = linux
platform_of Platform.unknown = PlatformType.unknown

pub data TransferDirection : Type 0 where
  send receive : TransferDirection

pub data TransferStatus : Type 0 where
  negotiating transferring verifying completed failed cancelled : TransferStatus

pub record PeerInfo : Type 0 where
  pub device_id : String
  pub name : String
  pub fingerprint : Option String
  pub platform : PlatformType
  pub presence : PresenceState
  pub trust : TrustLevel
  pub address : Option String
  pub rssi : Option ℕ
  pub battery : Option ℕ

unfoldable pub peer_info : Peer → PeerInfo
unfolding trust_of presence_of platform_of
peer_info p = record {
  device_id = p.device_id;
  name = p.name;
  fingerprint = p.fingerprint;
  platform = platform_of p.platform;
  presence = presence_of p.presence;
  trust = trust_of p.trust;
  address = p.addr;
  rssi = p.rssi;
  battery = p.battery;
}

pub record TransferInfo : Type 0 where
  pub transfer_id : String
  pub peer_name : String
  pub direction : TransferDirection
  pub status : TransferStatus
  pub bytes_transferred : ℕ
  pub total_bytes : ℕ
  pub speed_bps : ℕ
  pub percent : ℕ
  pub eta_secs : Option ℕ

pub record FileInfo : Type 0 where
  pub name : String
  pub size : ℕ
  pub mime_type : String

pub record IncomingRequest : Type 0 where
  pub transfer_id : String
  pub peer : PeerInfo
  pub files : List FileInfo
  pub total_size : ℕ

pub data JustDropError : Type 0 where
  init_failed : JustDropError
  not_running : JustDropError
  peer_not_found : JustDropError
  transfer_failed : JustDropError
  invalid_argument : JustDropError
  database_error : JustDropError

unfoldable pub error_of : EngineError → JustDropError
error_of (initialization t) = init_failed
error_of (database e) = database_error
error_of (EngineError.peer_not_found id) = JustDropError.peer_not_found
error_of (session_not_found id) = transfer_failed
error_of (transfer t) = transfer_failed
