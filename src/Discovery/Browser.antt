-- ===== src/Discovery/Browser.antt =====
-- `ServiceBrowser` of crates/justdrop-discovery/src/browser.rs: the known devices, and a step for each
-- mDNS event. `mdns_sd` hands over what it resolved. A `HashMap` is an association list.
pub mod Registry
pub mod Resolved
use just_drop.Base.{
  ℕ, zero, suc, String, str_eq, Bool, true, false, ◌&&◌, ◌||◌, not, List, [], ◌∷◌, ◌++◌, Option,
  none, some, Result, ok, err, if◌then◌else◌, ◌==◌, length, take, replicate,
}
use just_drop.Core.Types.{Platform, android, mac_os, linux, windows, unknown}
use just_drop.Discovery.Hex.{Panic, hex_encode, hex_decode}

abbrev pub Text : Type 0
Text = List ℕ

pub record SocketAddr : Type 0 where
  pub ip : ℕ
  pub port : ℕ

pub record DeviceInfo : Type 0 where
  pub id : Text
  pub name : Text
  pub addr : SocketAddr
  pub fingerprint : List ℕ
  pub platform : Platform
  pub last_seen : ℕ

-- What the browser reads of a resolved service
pub record ServiceInfo : Type 0 where
  pub fullname : Text
  pub hostname : Text
  pub port : ℕ
  pub addresses_v4 : List ℕ
  pub fingerprint : Option Text
  pub platform : Option String

pub data ServiceEvent : Type 0 where
  service_resolved : ServiceInfo → ServiceEvent
  service_removed : String → Text → ServiceEvent
  search_started search_stopped : String → ServiceEvent
  service_found : String → String → ServiceEvent

pub data PeerEvent : Type 0 where
  discovered : DeviceInfo → PeerEvent
  lost : Text → PeerEvent
  updated : DeviceInfo → PeerEvent

-- `sent` are the events of the broadcast channel.
pub record ServiceBrowser : Type 0 where
  pub service_type : String
  pub peers : List (Text × DeviceInfo)
  pub sent : List PeerEvent
  pub self_id : Option Text

unfoldable pub new : String → ServiceBrowser
new service_type = record { service_type = service_type; peers = []; sent = []; self_id = none }

-- `set_self_fingerprint`
unfoldable pub set_self_fingerprint : List ℕ → ServiceBrowser → ServiceBrowser
set_self_fingerprint fingerprint self = record self {
  self_id = some (hex_encode (take 8 fingerprint));
}

unfoldable pub text_eq : Text → Text → Bool
text_eq [] [] = true
text_eq (a ∷ s) (b ∷ t) = (a == b) && text_eq s t
text_eq _ _ = false

unfoldable pub starts : Text → Text → Bool
starts [] t = true
starts (a ∷ s) (b ∷ t) = (a == b) && starts s t
starts (a ∷ s) [] = false

-- `t.contains(s)`
unfoldable pub contains_text : Text → Text → Bool
contains_text [] s = starts s []
contains_text (b ∷ t) s = starts s (b ∷ t) || contains_text t s

abbrev pub trimmed : ℕ → Text → Text
trimmed b [] = if b == 46 then [] else b ∷ []
trimmed b (c ∷ t) = b ∷ c ∷ t

-- `trim_end_matches('.')`
unfoldable pub trim_end_dots : Text → Text
trim_end_dots [] = []
trim_end_dots (b ∷ t) = trimmed b (trim_end_dots t)

unfoldable pub get : List (Text × DeviceInfo) → Text → Option DeviceInfo
get [] id = none
get ((key, info) ∷ peers) id = if text_eq key id then some info else get peers id

unfoldable pub has_key : List (Text × DeviceInfo) → Text → Bool
has_key [] id = false
has_key ((key, info) ∷ peers) id = text_eq key id || has_key peers id

unfoldable pub insert_peer : Text → DeviceInfo → List (Text × DeviceInfo) → List (Text × DeviceInfo)
insert_peer id device [] = (id, device) ∷ []
insert_peer id device ((key, info) ∷ peers) =
    if text_eq key id then (key, device) ∷ peers else (key, info) ∷ insert_peer id device peers

unfoldable pub remove_peer : Text → List (Text × DeviceInfo) → List (Text × DeviceInfo)
remove_peer id [] = []
remove_peer id ((key, info) ∷ peers) =
    if text_eq key id then peers else (key, info) ∷ remove_peer id peers

-- The peer whose name is part of the name of a service
unfoldable pub find_named : Text → List (Text × DeviceInfo) → Option Text
find_named fullname [] = none
find_named fullname ((key, info) ∷ peers) =
    if contains_text fullname info.name then some key else find_named fullname peers

-- `peers` and `get_peer`
unfoldable pub peers : ServiceBrowser → List DeviceInfo
peers self = devices self.peers
  where
    devices : List (Text × DeviceInfo) → List DeviceInfo
    devices [] = []
    devices ((key, info) ∷ rest) = info ∷ devices rest

unfoldable pub get_peer : ServiceBrowser → Text → Option DeviceInfo
get_peer self id = get self.peers id

abbrev pub whole : Option (List ℕ) → Option (List ℕ)
whole none = none
whole (some bytes) = if length bytes == 32 then some bytes else none

abbrev pub or_panic : {A B : Type 0} → Result Panic A → (A → B) → Result Panic B
or_panic (ok a) f = ok (f a)
or_panic (err p) f = err p

-- `parse_fingerprint`
unfoldable pub parse_fingerprint : Text → Result Panic (Option (List ℕ))
parse_fingerprint hex = or_panic (hex_decode hex) whole

abbrev pub parsed : Option Text → Result Panic (Option (List ℕ))
parsed none = ok none
parsed (some hex) = parse_fingerprint hex

abbrev pub or_zeros : Option (List ℕ) → List ℕ
or_zeros none = replicate 32 0
or_zeros (some fingerprint) = fingerprint

-- The fingerprint of the TXT records, zeros when there is none
unfoldable pub fingerprint_of : ServiceInfo → Result Panic (List ℕ)
fingerprint_of info = or_panic (parsed info.fingerprint) or_zeros

unfoldable pub platform_named : String → Platform
platform_named s =
    if str_eq s "Android"
    then android
    else if str_eq s "macOS"
    then mac_os
    else if str_eq s "Linux"
    then linux
    else if str_eq s "Windows"
    then windows
    else unknown

unfoldable pub platform_of : Option String → Platform
platform_of none = unknown
platform_of (some s) = platform_named s

unfoldable pub device_of : ServiceInfo → ℕ → ℕ → List ℕ → DeviceInfo
device_of info ipv4 now fingerprint = record {
  id = hex_encode (take 8 fingerprint);
  name = trim_end_dots info.hostname;
  addr = record { ip = ipv4; port = info.port };
  fingerprint = fingerprint;
  platform = platform_of info.platform;
  last_seen = now;
}

unfoldable pub is_self : Option Text → Text → Bool
is_self none id = false
is_self (some our_id) id = text_eq id our_id

-- A device that was resolved, unless it is this one
unfoldable pub resolved : DeviceInfo → ServiceBrowser → ServiceBrowser
resolved device self = if is_self self.self_id device.id then self else record self {
  peers = insert_peer device.id device self.peers;
  sent =
      self.sent
      ++ ((if has_key self.peers device.id then updated device else discovered device) ∷ []);
}

abbrev pub removed : Option Text → ServiceBrowser → ServiceBrowser
removed none self = self
removed (some id) self = record self {
  peers = remove_peer id self.peers;
  sent = self.sent ++ (lost id ∷ []);
}

abbrev pub addressed : List ℕ → ServiceInfo → ℕ → ServiceBrowser → Result Panic ServiceBrowser
addressed [] info now self = ok self
addressed (ipv4 ∷ others) info now self =
    or_panic (fingerprint_of info)
      λ fingerprint. resolved (device_of info ipv4 now fingerprint) self

-- `handle_event`, at a time
unfoldable pub handle_event : ServiceEvent → ℕ → ServiceBrowser → Result Panic ServiceBrowser
handle_event (service_resolved info) now self = addressed info.addresses_v4 info now self
handle_event (service_removed ty fullname) now self =
    ok (removed (find_named fullname self.peers) self)
handle_event _ now self = ok self

abbrev pub then_browse :
    Result Panic ServiceBrowser
    → (ServiceBrowser → Result Panic ServiceBrowser)
    → Result Panic ServiceBrowser
then_browse (ok self) f = f self
then_browse (err p) f = err p

-- The loop of `start_browsing` over the events that arrive
unfoldable pub browse : List (ServiceEvent × ℕ) → ServiceBrowser → Result Panic ServiceBrowser
browse [] self = ok self
browse ((event, now) ∷ events) self = then_browse (handle_event event now self) (browse events)
