-- ===== src/Core/Trust.antt =====
-- crates/justdrop-core/src/trust.rs: trust levels, their texts and the checked transitions.
pub mod Laws
use just_drop.Base.{String, Bool, true, false, Option, none, some, List, [], ◌∷◌, str_eq}
use just_drop.Base.{if◌then◌else◌}
use mathlib.Core.Logic.{ite}

pub data TrustLevel : Type 0 where
  unknown trusted favorite blocked : TrustLevel

unfoldable pub TrustLevel-discrete : Discrete TrustLevel
TrustLevel-discrete = hlevel

unfoldable pub as_str : TrustLevel → String
as_str unknown = "unknown"
as_str trusted = "trusted"
as_str favorite = "favorite"
as_str blocked = "blocked"

unfoldable pub parse_str : String → TrustLevel
parse_str s =
    if str_eq s "trusted"
    then trusted
    else if str_eq s "favorite"
    then favorite
    else if str_eq s "blocked"
    then blocked
    else unknown

abbrev pub auto_accept : TrustLevel → Bool
auto_accept favorite = true
auto_accept _ = false

abbrev pub is_blocked : TrustLevel → Bool
is_blocked blocked = true
is_blocked _ = false

abbrev pub is_trusted : TrustLevel → Bool
is_trusted trusted = true
is_trusted favorite = true
is_trusted _ = false

-- The arms in the order of the source; the last clause is the guard `s == t` and the final `_`.
unfoldable pub transition_to : TrustLevel → TrustLevel → Option TrustLevel
transition_to _ blocked = some blocked
transition_to blocked unknown = some unknown
transition_to blocked _ = none
transition_to unknown trusted = some trusted
transition_to unknown favorite = some favorite
transition_to trusted favorite = some favorite
transition_to favorite trusted = some trusted
transition_to trusted unknown = some unknown
transition_to favorite unknown = some unknown
transition_to s t = ite (TrustLevel-discrete s t) (some t) none
