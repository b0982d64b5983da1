-- ===== src/Engine/Trusts.antt =====
-- What an engine reads of a device's trust, and which devices it knows, after the user has set a level.
use just_drop.Base.{String, Bool, false, Option, none, some, str_eq}
use just_drop.Engine.Device.{Peer}

-- The device is the one that a search has found.
abbrev pub is_found : String → Option (String × Peer) → Bool
is_found id none = false
is_found id (some (key, p)) = str_eq key id
