-- ===== src/Core/Trust/Laws.antt =====
-- What the trust transitions allow.
use just_drop.Base.{◌≡◌, refl, none, some, ◌&&◌}
use just_drop.Base.{if◌then◌else◌}
use just_drop.Core.Trust.{TrustLevel, unknown, trusted, favorite, blocked, TrustLevel-discrete}
use just_drop.Core.Trust.{as_str, parse_str, is_blocked, is_trusted, transition_to}

-- Reading back the stored text of a level gives the level.
pub parse_str-as_str : (l : TrustLevel) → parse_str (as_str l) ≡ l
unfolding parse_str as_str
parse_str-as_str unknown = refl
parse_str-as_str _ = refl

-- A transition is refused exactly from `blocked` to a trusted level; otherwise it reaches its target.
pub transition_to_lem :
    (s t : TrustLevel) → transition_to s t ≡ (if is_blocked s && is_trusted t then none else some t)
unfolding transition_to TrustLevel-discrete
transition_to_lem unknown unknown = refl
transition_to_lem unknown _ = refl
transition_to_lem trusted unknown = refl
transition_to_lem trusted _ = refl
transition_to_lem favorite unknown = refl
transition_to_lem favorite _ = refl
transition_to_lem blocked unknown = refl
transition_to_lem blocked _ = refl
