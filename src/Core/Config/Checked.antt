-- ===== src/Core/Config/Checked.antt =====
-- A configuration that was loaded is usable.
use just_drop.Base.{
  ℕ, ◌≤◌, ◌<◌, ◌≡◌, refl, sym, ap, ◌∙◌, subst, String, true, false, Bool-cases, inl, inr, ◌⊎◌, ◌↔◌,
  Option, none, some, Result, ok, err, arith,
}
use just_drop.Core.Config.{
  ConfigError, Config, default_config, default_network, default_transfer, validate, System, load,
  checked, parsed, contents,
}

-- A port, chunks of 4096 bytes or more, and a pipeline that is not empty
abbrev pub IsValid : Config → Type 0
IsValid c =
    (0 < c.network.listen_port) × (4096 ≤ c.transfer.chunk_size) × (0 < c.transfer.pipeline_depth)

validate-IsValid : (c : Config) → (validate c ≡ ok tt) ↔ IsValid c
unfolding validate
validate-IsValid c = ground arith

default_config-IsValid : IsValid default_config
unfolding default_config default_network default_transfer
default_config-IsValid = ground arith

-- What a file gives
abbrev pub IsRead : System → String → Config → Type 0
IsRead Y path c =
    (Y.exists path ≡ true)
    × ((content : String) × (Y.read_to_string path ≡ some content) × (Y.from_str content ≡ ok c))

checked-ok :
    (Y : System) (d c : Config) (r : Result ConfigError (Unit {0}))
    → checked Y d r ≡ ok c
    → (r ≡ ok tt) × (d ≡ c)
checked-ok Y d c (ok x) h = (refl, ground (arith, h))
checked-ok Y d c (err e) h = absurd (ground (arith, h))

parsed-ok :
    (Y : System) (r : Result ℕ Config) (c : Config) → parsed Y r ≡ ok c → (r ≡ ok c) × IsValid c
parsed-ok Y (err e) c h = absurd (ground (arith, h))
parsed-ok Y (ok d) c h =
    let (accepted, same) = checked-ok Y d c (validate d) h in
    (ap ok same, subst IsValid same ((validate-IsValid d).0 accepted))

contents-ok :
    (Y : System) (path : String) (o : Option String) (c : Config)
    → contents Y path o ≡ ok c
    → (content : String) × (o ≡ some content) × (Y.from_str content ≡ ok c) × IsValid c
contents-ok Y path none c h = absurd (ground (arith, h))
contents-ok Y path (some content) c h =
    let (read, valid) = parsed-ok Y (Y.from_str content) c h in (content, refl, read, valid)

-- A configuration is loaded exactly when it is the default and there is no file, or a file exists that
-- can be read and parsed as it; and it is valid: it has a port, chunks of 4096 bytes or more, and a
-- pipeline that is not empty.
pub load_iff :
    (Y : System) (path : String) (c : Config)
    → (load Y path ≡ ok c)
      ↔ (IsValid c × (((Y.exists path ≡ false) × (c ≡ default_config)) ⊎ IsRead Y path c))
unfolding load
load_iff Y path c = (from, back)
  where
    from :
        load Y path ≡ ok c
        → IsValid c × (((Y.exists path ≡ false) × (c ≡ default_config)) ⊎ IsRead Y path c)
    from h = elim (Bool-cases (Y.exists path)) [
      | inl there ↦
          let (content, read, parsed, valid) =
            contents-ok Y path (Y.read_to_string path) c (ground (arith, there, h)) in
          (valid, inr (there, (content, read, parsed)))
      | inr missing ↦
          let same : default_config ≡ c = ground (arith, missing, h) in
          (subst IsValid same default_config-IsValid, inl (missing, sym same))
    ]

    back :
        IsValid c × (((Y.exists path ≡ false) × (c ≡ default_config)) ⊎ IsRead Y path c)
        → load Y path ≡ ok c
    back (valid, inl (missing, same)) = rw missing (ap ok (sym same))
    back (valid, inr (there, (content, read, parses))) = rw there (
        ap (contents Y path) read
        ∙ (ap (parsed Y) parses ∙ ap (checked Y c) ((validate-IsValid c).1 valid)))
