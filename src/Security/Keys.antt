-- ===== src/Security/Keys.antt =====
-- crates/justdrop-security/src/keys.rs: the long-term key pair for Noise and its file. The key pair
-- that `snow` generates, and BLAKE2s, are arguments; `Drop` only zeroes memory.
pub mod Reloaded
use just_drop.Base.{
  ℕ, String, Bool, not, ◌||◌, ◌==◌, List, [], ◌∷◌, ◌++◌, Option, none, some, Result, ok, err,
  Action, pure, raise, continue, ◌>>=◌, ◌>>◌, map_err, if◌then◌else◌, map, length,
}
use just_drop.Core.KeyFiles.{KeyFiles}
use just_drop.Core.Identity.{byte_text, join_texts, colon}

-- `SecurityError`, as far as it is returned here; the texts are left out.
pub data SecurityError : Type 0 where
  invalid_key : SecurityError
  key_storage : SecurityError

-- `snow::Keypair`
pub record Keypair : Type 0 where
  pub private : List ℕ
  pub public : List ℕ

pub record IdentityKeys : Type 0 where
  pub keypair : Keypair
  pub fingerprint : List ℕ
  pub storage_path : String

pub record StoredKeys : Type 0 where
  pub private_key : List ℕ
  pub public_key : List ℕ

-- `.chunks(2).map(|pair| pair.join(""))`
unfoldable pub pairs : List (List ℕ) → List (List ℕ)
pairs [] = []
pairs (t ∷ []) = t ∷ []
pairs (t ∷ u ∷ ts) = (t ++ u) ∷ pairs ts

unfoldable pub hex_fingerprint : List ℕ → List ℕ
unfolding pairs byte_text join_texts
hex_fingerprint fp = join_texts colon (pairs (map byte_text fp))

-- `copy_from_slice` panics at another length than 32.
pub data Panic : Type 0 where
  length_mismatch : Panic

unfoldable pub public_key_array : IdentityKeys → Result Panic (List ℕ)
public_key_array self =
    if length self.keypair.public == 32 then ok self.keypair.public else err length_mismatch

module _ (K : KeyFiles StoredKeys) (blake2s : List ℕ → List ℕ) where
  abbrev pub Opening : Type 0 → Type 0
  Opening A = Action K.Fs SecurityError A

  unfoldable pub compute_fingerprint : List ℕ → List ℕ
  compute_fingerprint public_key = blake2s public_key

  abbrev pub some_or : {A : Type 0} → SecurityError → Option A → Opening A
  some_or e none = raise e
  some_or e (some a) = pure a

  abbrev pub keys_of : Keypair → String → IdentityKeys
  keys_of keypair storage_path = record {
    keypair = keypair;
    fingerprint = compute_fingerprint keypair.public;
    storage_path = storage_path;
  }

  -- The key pair that `snow` generates, or that it gives none, is an argument.
  unfoldable pub generate : Option Keypair → String → Opening IdentityKeys
  generate generated storage_path = do
    keypair ← some_or invalid_key generated
    pure (keys_of keypair storage_path)

  abbrev pub keypair_of : StoredKeys → Keypair
  keypair_of stored = record { private = stored.private_key; public = stored.public_key }

  unfoldable pub load_from_file : String → Opening IdentityKeys
  load_from_file path = do
    content ← map_err (λ e. key_storage) (K.read_to_string path)
    stored ← some_or key_storage (K.from_str content)
    if not (length stored.private_key == 32) || not (length stored.public_key == 32)
        then raise invalid_key
        else pure (keys_of (keypair_of stored) path)

  abbrev pub create_parent : Option String → Opening (Unit {0})
  create_parent none = pure tt
  create_parent (some dir) = map_err (λ e. key_storage) (K.create_dir_all dir)

  abbrev pub stored_of : IdentityKeys → StoredKeys
  stored_of self = record { private_key = self.keypair.private; public_key = self.keypair.public }

  -- 0o600
  abbrev pub owner_only : ℕ
  owner_only = 384

  unfoldable pub save : IdentityKeys → Opening (Unit {0})
  save self = do
    create_parent (K.parent self.storage_path)
    content ← map_err (λ e. key_storage) (λ s. (K.to_string_pretty (stored_of self), s))
    map_err (λ e. key_storage) (K.write self.storage_path content)
    map_err (λ e. key_storage) (K.set_permissions self.storage_path owner_only)

  unfoldable pub load_or_generate : Option Keypair → String → Opening IdentityKeys
  load_or_generate generated data_dir s =
      let storage_path = K.join data_dir "identity_keys.json" in
      if K.exists storage_path s
      then load_from_file storage_path s
      else (do keys ← generate generated storage_path; save keys; pure keys) s
