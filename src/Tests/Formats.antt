-- ===== src/Tests/Formats.antt =====
-- A message, and a file of settings that is not there.
use just_drop.Base.{
  ℕ, ◌≡◌, refl, arith, ◌↔◌, ◌⊎◌, false, List, [], ◌∷◌, none, Result, ok, err, Postcard, Reads,
}
use just_drop.Protocol.MessagesV2.{MessageV2, pong, tag, encode}
use just_drop.Core.Config.{System, default_config, load}
use just_drop.Core.Config.Checked.{IsValid, IsRead, load_iff}

-- `pong` alone can be serialised.
abbrev pong_bytes : MessageV2 → Result ℕ (List ℕ)
pong_bytes pong = ok (12 ∷ [])
pong_bytes m = err 1

abbrev only_pong : Postcard MessageV2
only_pong = record { to_allocvec = pong_bytes; from_bytes = λ bytes. ok pong }

only_pong-Reads : Reads MessageV2 only_pong
only_pong-Reads m bytes h = ground arith

pong_encoded : encode only_pong pong ≡ ok (13 ∷ 12 ∷ [])
unfolding encode tag
pong_encoded = refl

abbrev no_file : System
no_file = record {
  exists = λ path. false;
  read_to_string = λ path. none;
  from_str = λ s. err 1;
  home_dir = none;
  user_config_dir = none;
  user_data_dir = none;
  join = λ dir name. name;
  hostname = "phone";
}

load_iff_example : (load no_file "a.toml" ≡ ok default_config) ↔ (
    IsValid default_config
    × (((no_file.exists "a.toml" ≡ false) × (default_config ≡ default_config))
        ⊎ IsRead no_file "a.toml" default_config))
load_iff_example = load_iff no_file "a.toml" default_config
