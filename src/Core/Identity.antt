-- ===== src/Core/Identity.antt =====
-- crates/justdrop-core/src/identity.rs: the permanent identity of an installation and its file. The
-- key pairs of `ring`, `blake3` and the fresh UUID are arguments.
pub mod Kept
use just_drop.Base.{
  ℕ, ◌/◌, ◌%◌, String, Bool, List, [], ◌∷◌, ◌++◌, Option, none, some, Result, ok, err, Action, pure,
  raise, continue, ◌>>=◌, ◌>>◌, map_err, if◌then◌else◌, map, take,
}
use just_drop.Discovery.Hex.{hex_digit}
use just_drop.Core.KeyFiles.{KeyFiles}

-- `IdentityError`; of a storage error the text is left out.
pub data IdentityError : Type 0 where
  key_generation : IdentityError
  invalid_key : IdentityError
  storage : IdentityError

-- `DeviceIdentity`. `keypair` is what `ring` makes of the PKCS#8 bytes, with its public key.
pub record DeviceIdentity (KeyPair : Type 0) : Type 0 where
  pub uuid : ℕ
  pub name : String
  pub keypair : KeyPair
  pub pkcs8_bytes : List ℕ
  pub fingerprint : List ℕ
  pub storage_path : String

-- `StoredIdentity`
pub record StoredIdentity : Type 0 where
  pub uuid : ℕ
  pub name : String
  pub pkcs8_der : List ℕ

-- What the code uses of `ring` and `blake3`
pub record Ed25519 (KeyPair : Type 0) : Type 0 where
  pub from_pkcs8 : List ℕ → Option KeyPair
  pub public_key : KeyPair → List ℕ
  pub sign : KeyPair → List ℕ → List ℕ
  pub blake3 : List ℕ → List ℕ

-- The text of a byte, `{b:02x}`, and texts with a separator between them
unfoldable pub byte_text : ℕ → List ℕ
byte_text b = hex_digit (b / 16) ∷ hex_digit (b % 16) ∷ []

unfoldable pub join_texts : ℕ → List (List ℕ) → List ℕ
join_texts sep [] = []
join_texts sep (t ∷ []) = t
join_texts sep (t ∷ u ∷ ts) = t ++ (sep ∷ join_texts sep (u ∷ ts))

abbrev pub colon : ℕ
colon = 58

module _ {KeyPair : Type 0} (E : Ed25519 KeyPair) where
  abbrev pub key_or : {S A : Type 0} → IdentityError → Option A → Action S IdentityError A
  key_or e none = raise e
  key_or e (some k) = pure k

  -- `Self { .. }` of both constructors
  abbrev pub identity_of : ℕ → String → KeyPair → List ℕ → String → DeviceIdentity KeyPair
  identity_of uuid name keypair pkcs8_bytes storage_path = record {
    uuid = uuid;
    name = name;
    keypair = keypair;
    pkcs8_bytes = pkcs8_bytes;
    fingerprint = E.blake3 (E.public_key keypair);
    storage_path = storage_path;
  }

  unfoldable pub public_key : DeviceIdentity KeyPair → List ℕ
  public_key self = E.public_key self.keypair

  unfoldable pub fingerprint_hex : DeviceIdentity KeyPair → List ℕ
  unfolding byte_text join_texts
  fingerprint_hex self = join_texts colon (map byte_text (take 8 self.fingerprint))

  unfoldable pub sign : DeviceIdentity KeyPair → List ℕ → List ℕ
  sign self d = E.sign self.keypair d

  module _ (K : KeyFiles StoredIdentity) where
    abbrev pub Opening : Type 0 → Type 0
    Opening A = Action K.Fs IdentityError A

    -- The fresh key material, or that `ring` gives none, and the fresh UUID are arguments.
    unfoldable pub generate :
        Option (List ℕ) → ℕ → String → String → Opening (DeviceIdentity KeyPair)
    generate pkcs8 uuid storage_path device_name = do
      pkcs8_bytes ← key_or key_generation pkcs8
      keypair ← key_or key_generation (E.from_pkcs8 pkcs8_bytes)
      pure (identity_of uuid device_name keypair pkcs8_bytes storage_path)

    unfoldable pub load : String → Opening (DeviceIdentity KeyPair)
    load path = do
      content ← map_err (λ e. storage) (K.read_to_string path)
      stored ← key_or storage (K.from_str content)
      keypair ← key_or invalid_key (E.from_pkcs8 stored.pkcs8_der)
      pure (identity_of stored.uuid stored.name keypair stored.pkcs8_der path)

    abbrev pub create_parent : Option String → Opening (Unit {0})
    create_parent none = pure tt
    create_parent (some dir) = map_err (λ e. storage) (K.create_dir_all dir)

    abbrev pub stored_of : DeviceIdentity KeyPair → StoredIdentity
    stored_of self = record { uuid = self.uuid; name = self.name; pkcs8_der = self.pkcs8_bytes }

    -- 0o600
    abbrev pub owner_only : ℕ
    owner_only = 384

    unfoldable pub save : DeviceIdentity KeyPair → Opening (Unit {0})
    save self = do
      create_parent (K.parent self.storage_path)
      json ← map_err (λ e. storage) (λ s. (K.to_string_pretty (stored_of self), s))
      map_err (λ e. storage) (K.write self.storage_path json)
      map_err (λ e. storage) (K.set_permissions self.storage_path owner_only)

    unfoldable pub load_or_generate :
        Option (List ℕ) → ℕ → String → String → Opening (DeviceIdentity KeyPair)
    load_or_generate pkcs8 uuid data_dir device_name s =
        let storage_path = K.join data_dir "device_identity.json" in
        if K.exists storage_path s
        then load storage_path s
        else (do
          identity ← generate pkcs8 uuid storage_path device_name
          save identity
          pure identity)
            s
