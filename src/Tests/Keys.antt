-- ===== src/Tests/Keys.antt =====
-- Identities and keys that are made and opened again.
use just_drop.Base.{
  ℕ, zero, suc, ◌≡◌, refl, sym, ap, subst, String, Bool, true, false, ◌&&◌, ◌==◌, List, [], ◌∷◌,
  Option, none, some, Result, ok, err, replicate, str_eq, eq_iff, if◌then◌else◌, arith,
}
use just_drop.Core.KeyFiles.{KeyFiles, IsKeeping}
use just_drop.Core.KeyFiles.Memory.{Disk, memory_key_files, memory_key_files-IsKeeping}
use just_drop.Core.Identity.{StoredIdentity, DeviceIdentity, Ed25519}
use just_drop.Core.Identity
use just_drop.Core.Identity.Kept.{load_or_generate-again}
use just_drop.Security.Keys.{StoredKeys, Keypair, IdentityKeys, public_key_array}
use just_drop.Security.Keys
use just_drop.Security.Keys.Reloaded.{load_or_generate-same}

abbrev zeros : ℕ → List ℕ
zeros n = replicate n 0

abbrev are_zeros : ℕ → List ℕ → Bool
are_zeros zero [] = true
are_zeros zero (x ∷ xs) = false
are_zeros (suc n) [] = false
are_zeros (suc n) (x ∷ xs) = x == 0 && are_zeros n xs

are_zeros-zeros : (n : ℕ) (xs : List ℕ) → are_zeros n xs ≡ true → xs ≡ zeros n
are_zeros-zeros zero [] h = refl
are_zeros-zeros zero (x ∷ xs) h = absurd (ground arith)
are_zeros-zeros (suc n) [] h = absurd (ground arith)
are_zeros-zeros (suc n) (x ∷ xs) h = ground (arith, are_zeros-zeros n xs)

abbrev ed25519 : Ed25519 (List ℕ)
ed25519 = record { from_pkcs8 = λ d. some d; public_key = λ k. k; sign = λ k d. d; blake3 = λ d. d }

abbrev printed : Bool → Result ℕ String
printed b = if b then ok "{}" else err 1

abbrev parsed {ℓ} : {A : Type ℓ} → A → String → Option A
parsed a t = if str_eq t "{}" then some a else none

parsed-printed {ℓ} :
    {A : Type ℓ} (b : Bool) (a x : A) (t : String)
    → printed b ≡ ok t
    → (b ≡ true → a ≡ x)
    → parsed a t ≡ some x
parsed-printed true a x t h e =
    let same : "{}" ≡ t = cc in subst (λ u. parsed a u ≡ some x) same (ap (λ y. some y) (e refl))
parsed-printed false a x t h e = cc

and-true : (a b : Bool) → (a && b) ≡ true → (a ≡ true) × (b ≡ true)
and-true true b h = (refl, h)
and-true false b h = cc

-- A JSON of one value only
abbrev the_identity : StoredIdentity
the_identity = record { uuid = 3; name = "laptop"; pkcs8_der = zeros 2 }

abbrev identity_files : KeyFiles StoredIdentity
identity_files =
    memory_key_files
      (λ x. printed (x.uuid == 3 && str_eq x.name "laptop" && are_zeros 2 x.pkcs8_der))
      (parsed the_identity)

identity_files-IsKeeping : IsKeeping identity_files
identity_files-IsKeeping =
    memory_key_files-IsKeeping
      (λ x. printed (x.uuid == 3 && str_eq x.name "laptop" && are_zeros 2 x.pkcs8_der))
      (parsed the_identity)
      λ x t e.
        parsed-printed (x.uuid == 3 && str_eq x.name "laptop" && are_zeros 2 x.pkcs8_der)
          the_identity x t e
          λ h.
            let (first, key) =
              and-true (x.uuid == 3 && str_eq x.name "laptop") (are_zeros 2 x.pkcs8_der) h in
            let (uuid, name) = and-true (x.uuid == 3) (str_eq x.name "laptop") first in
            let k = are_zeros-zeros 2 x.pkcs8_der key in
            let u : x.uuid ≡ 3 = ground arith in
            let n : x.name ≡ "laptop" = (eq_iff x.name "laptop").0 name in
            λ i. record { uuid = sym u i; name = sym n i; pkcs8_der = sym k i }

abbrev empty_disk : Disk
empty_disk = record { text = λ p. none; mode = λ p. 0 }

abbrev opened : Result Identity.IdentityError (DeviceIdentity (List ℕ)) × Disk
opened =
    Identity.load_or_generate ed25519 identity_files (some (zeros 2)) 3 "data/" "laptop" empty_disk

abbrev identity : DeviceIdentity (List ℕ)
identity = record {
  uuid = 3;
  name = "laptop";
  keypair = zeros 2;
  pkcs8_bytes = zeros 2;
  fingerprint = zeros 2;
  storage_path = "data/device_identity.json";
}

opened_runs : opened ≡ (ok identity, opened.1)
unfolding Identity.load_or_generate Identity.generate Identity.save Identity.load
opened_runs = refl

-- Renamed, with other key material at hand: the same identity.
load_or_generate-again_example :
    (u : Disk) × (Identity.load_or_generate ed25519 identity_files none 4 "data/" "desk" opened.1
      ≡ (ok identity, u))
    × (u.text ≡ opened.1.text)
load_or_generate-again_example =
    load_or_generate-again ed25519 identity_files identity_files-IsKeeping (some (zeros 2)) none 3 4
      "data/" "laptop" "desk" empty_disk opened_runs

abbrev the_keys : StoredKeys
the_keys = record { private_key = zeros 32; public_key = zeros 32 }

abbrev keys_files : KeyFiles StoredKeys
keys_files =
    memory_key_files (λ x. printed (are_zeros 32 x.private_key && are_zeros 32 x.public_key))
      (parsed the_keys)

keys_files-IsKeeping : IsKeeping keys_files
keys_files-IsKeeping =
    memory_key_files-IsKeeping
      (λ x. printed (are_zeros 32 x.private_key && are_zeros 32 x.public_key)) (parsed the_keys)
      λ x t e.
        parsed-printed (are_zeros 32 x.private_key && are_zeros 32 x.public_key) the_keys x t e λ h.
          let (a, b) = and-true (are_zeros 32 x.private_key) (are_zeros 32 x.public_key) h in
          let private = are_zeros-zeros 32 x.private_key a in
          let public = are_zeros-zeros 32 x.public_key b in
          λ i. record { private_key = sym private i; public_key = sym public i }

abbrev pair : Keypair
pair = record { private = zeros 32; public = zeros 32 }

abbrev no_hash : List ℕ → List ℕ
no_hash d = d

abbrev opened_keys : Result Keys.SecurityError IdentityKeys × Disk
opened_keys = Keys.load_or_generate keys_files no_hash (some pair) "data/" empty_disk

abbrev keys : IdentityKeys
keys = record { keypair = pair; fingerprint = zeros 32; storage_path = "data/identity_keys.json" }

opened_keys_runs : opened_keys ≡ (ok keys, opened_keys.1)
unfolding Keys.load_or_generate Keys.generate Keys.save Keys.load_from_file Keys.compute_fingerprint
opened_keys_runs = refl

load_or_generate-same_example :
    (public_key_array keys ≡ ok (zeros 32))
    × ((u : Disk) × (Keys.load_or_generate keys_files no_hash none "data/" opened_keys.1
          ≡ (ok keys, u))
        × (u.text ≡ opened_keys.1.text))
load_or_generate-same_example =
    load_or_generate-same keys_files no_hash keys_files-IsKeeping (some pair) none "data/"
      empty_disk (refl, refl) opened_keys_runs
