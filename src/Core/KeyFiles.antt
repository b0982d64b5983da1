-- ===== src/Core/KeyFiles.antt =====
-- What the key files of a device go through: `std::fs`, `serde_json` and the permissions of a file
-- (crates/justdrop-core/src/identity.rs and crates/justdrop-security/src/keys.rs). None of it is in
-- the repository.
pub mod Memory
use just_drop.Base.{ℕ, ◌≡◌, String, Bool, true, List, Option, none, some, Result, ok, err}

-- `Stored` is what is written as JSON; an error is the code of a `std::io::Error`.
pub record KeyFiles (Stored : Type 0) : Type 1 where
  pub Fs : Type 0
  pub exists : String → Fs → Bool
  pub parent : String → Option String
  pub join : String → String → String
  pub create_dir_all : String → Fs → Result ℕ (Unit {0}) × Fs
  pub read_to_string : String → Fs → Result ℕ String × Fs
  pub write : String → String → Fs → Result ℕ (Unit {0}) × Fs
  -- with the mode
  pub set_permissions : String → ℕ → Fs → Result ℕ (Unit {0}) × Fs
  pub to_string_pretty : Stored → Result ℕ String
  pub from_str : String → Option Stored
  -- what the laws speak of: the text of a file, and its mode
  pub text_of : Fs → String → Option String
  pub mode_of : Fs → String → ℕ

-- That a file with a text exists and can be read, the documented effect of the other calls when they
-- succeed, and that JSON reads what it wrote.
pub record IsKeeping {Stored : Type 0} (K : KeyFiles Stored) : Type 0 where
  pub exists_lem :
      (p : String) (s : K.Fs) {t : String} → K.text_of s p ≡ some t → K.exists p s ≡ true
  pub reads :
      (p : String) (s : K.Fs) {t : String}
      → K.text_of s p ≡ some t
      → (s' : K.Fs) × (K.read_to_string p s ≡ (ok t, s')) × (K.text_of s' ≡ K.text_of s)
  pub read_only :
      (p : String) (s : K.Fs) {t : String} {s' : K.Fs}
      → K.read_to_string p s ≡ (ok t, s')
      → (K.text_of s p ≡ some t) × (K.text_of s' ≡ K.text_of s)
  pub writes :
      (p t : String) (s : K.Fs) {s' : K.Fs} → K.write p t s ≡ (ok tt, s') → K.text_of s' p ≡ some t
  pub set_permissions_lem :
      (p : String) (mode : ℕ) (s : K.Fs) {s' : K.Fs}
      → K.set_permissions p mode s ≡ (ok tt, s')
      → (K.text_of s' ≡ K.text_of s) × (K.mode_of s' p ≡ mode)
  pub from_str-to_string_pretty :
      (x : Stored) {t : String} → K.to_string_pretty x ≡ ok t → K.from_str t ≡ some x
