-- ===== src/Engine/Device.antt =====
-- crates/justdrop-engine/src/peer.rs: a device as the engine knows it.
use just_drop.Base.{ℕ, String, Bool, true, false, not, ◌&&◌, Option, none, some}
use just_drop.Core.Types.{Platform}
use just_drop.Ble.Advertisement.{PresenceState, available, invisible}
use just_drop.Core.Trust.{TrustLevel, unknown, is_blocked, auto_accept}

pub data DiscoverySource : Type 0 where
  ble mdns both : DiscoverySource

-- An address is a text, a signal strength its two's complement.
pub record Peer : Type 0 where
  pub device_id : String
  pub name : String
  pub fingerprint : Option String
  pub platform : Platform
  pub presence : PresenceState
  pub trust : TrustLevel
  pub addr : Option String
  pub rssi : Option ℕ
  pub battery : Option ℕ
  pub last_seen : ℕ
  pub discovery : DiscoverySource

-- The hexadecimal texts and the time are arguments.
unfoldable pub from_ble : String → String → ℕ → PresenceState → ℕ → Peer
from_ble id_hex name now presence rssi = record {
  device_id = id_hex;
  name = name;
  fingerprint = none;
  platform = Platform.unknown;
  presence = presence;
  trust = unknown;
  addr = none;
  rssi = some rssi;
  battery = none;
  last_seen = now;
  discovery = ble;
}

-- The first 16 characters of the fingerprint are an argument.
unfoldable pub from_mdns : String → ℕ → String → String → String → Platform → Peer
from_mdns first_16 now name addr fingerprint platform = record {
  device_id = first_16;
  name = name;
  fingerprint = some fingerprint;
  platform = platform;
  presence = available;
  trust = unknown;
  addr = some addr;
  rssi = none;
  battery = none;
  last_seen = now;
  discovery = mdns;
}

unfoldable pub with_trust : TrustLevel → Peer → Peer
with_trust trust p = record p { trust = trust }

abbrev is_invisible : PresenceState → Bool
is_invisible invisible = true
is_invisible p = false

unfoldable pub is_visible : Peer → Bool
is_visible p = not (is_blocked p.trust) && not (is_invisible p.presence)

unfoldable pub peer_auto_accept : Peer → Bool
peer_auto_accept p = auto_accept p.trust
