-- ===== src/Security/Keys/Reloaded.antt =====
-- The keys that are opened can be used, and are the same at every later opening.
use just_drop.Base.{
  ℕ, ◌≡◌, refl, sym, ap, ◌∙◌, subst, String, true, not, ◌||◌, ◌==◌, List, Option, none, some,
  Result, ok, Bool-cases, inl, inr, if◌then◌else◌, ◌>>=◌, ◌>>◌, >>=-eq-ok, >>-eq-ok, map_err-eq-ok,
  pure, raise, map_err, arith, length,
}
use just_drop.Core.KeyFiles.{KeyFiles, IsKeeping}
use just_drop.Security.Keys.{
  SecurityError, Keypair, IdentityKeys, StoredKeys, public_key_array, some_or, keys_of, generate,
  keypair_of, load_from_file, create_parent, stored_of, owner_only, save, load_or_generate,
  invalid_key, key_storage, compute_fingerprint,
}

-- Both keys of a pair have 32 bytes, as those of Curve25519 do.
abbrev pub HasKeyLengths : Keypair → Type 0
HasKeyLengths k = (length k.private ≡ 32) × (length k.public ≡ 32)

abbrev pub GivesKeyLengths : Option Keypair → Type 0
GivesKeyLengths none = Unit {0}
GivesKeyLengths (some k) = HasKeyLengths k

module _ (K : KeyFiles StoredKeys) (blake2s : List ℕ → List ℕ) (L : IsKeeping K) where
  -- The file has the keys, with their lengths and the fingerprint of the public one.
  pub record IsStored (self : IdentityKeys) (s : K.Fs) : Type 0 where
    pub text : String
    pub kept : K.text_of s self.storage_path ≡ some text
    pub parsed : K.from_str text ≡ some (stored_of K blake2s self)
    pub lengths : HasKeyLengths self.keypair
    pub fingerprint : self.fingerprint ≡ compute_fingerprint K blake2s self.keypair.public

  some_or-eq-ok :
      {A : Type 0} (e : SecurityError) (o : Option A) (s : K.Fs) {a : A} {t : K.Fs}
      → some_or K blake2s e o s ≡ (ok a, t)
      → (o ≡ some a) × (s ≡ t)
  some_or-eq-ok e none s h = absurd (ground (arith, h))
  some_or-eq-ok e (some b) s h = (ground (arith, h), ground (arith, h))

  checked :
      (stored : StoredKeys) (path : String) (s : K.Fs) {self : IdentityKeys} {t : K.Fs}
      → (if not (length stored.private_key == 32) || not (length stored.public_key == 32)
            then raise invalid_key
            else pure (keys_of K blake2s (keypair_of K blake2s stored) path))
          s
        ≡ (ok self, t)
      → HasKeyLengths (keypair_of K blake2s stored)
        × (keys_of K blake2s (keypair_of K blake2s stored) path ≡ self)
        × (s ≡ t)
  checked stored path s h =
      ((ground (arith, h), ground (arith, h)), ground (arith, h), ground (arith, h))

  load_from_file-IsStored :
      (path : String) (s : K.Fs) {self : IdentityKeys} {t : K.Fs}
      → load_from_file K blake2s path s ≡ (ok self, t)
      → IsStored self t × (self.storage_path ≡ path)
  unfolding load_from_file
  load_from_file-IsStored path s {self} {t} h =
      let (content, u, e1, h1) =
        >>=-eq-ok (map_err (λ e. key_storage) (K.read_to_string path)) _ s {b = self} {t = t} h in
      let (stored, v, e2, h2) =
        >>=-eq-ok (some_or K blake2s key_storage (K.from_str content)) _ u {b = self} {t = t} h1 in
      let (kept, same) =
        L.read_only path s
          (map_err-eq-ok (λ e. key_storage) (K.read_to_string path) s {a = content} {t = u} e1) in
      let (parsed, uv) = some_or-eq-ok key_storage (K.from_str content) u {a = stored} {t = v} e2 in
      let (lengths, result, vt) = checked stored path v {self = self} {t = t} h2 in
      let i : IsStored (keys_of K blake2s (keypair_of K blake2s stored) path) u = record {
        text = content;
        kept = ap (λ x. x path) same ∙ kept;
        parsed = parsed;
        lengths = lengths;
        fingerprint = refl;
      } in
      (
        subst (λ x. IsStored x t) result
            (subst (IsStored (keys_of K blake2s (keypair_of K blake2s stored) path)) (uv ∙ vt) i),
        sym (ap (λ x. x.storage_path) result),
      )

  save-IsStored :
      (self : IdentityKeys) (s : K.Fs) {t : K.Fs}
      → HasKeyLengths self.keypair
      → self.fingerprint ≡ compute_fingerprint K blake2s self.keypair.public
      → save K blake2s self s ≡ (ok tt, t)
      → IsStored self t × (K.mode_of t self.storage_path ≡ owner_only K blake2s)
  unfolding save
  save-IsStored self s {t} k f h =
      let path = self.storage_path in
      let stored = stored_of K blake2s self in
      let (s1, e1, h1) =
        >>-eq-ok (create_parent K blake2s (K.parent path)) _ s {b = tt} {t = t} h in
      let (json, s2, e2, h2) =
        >>=-eq-ok (map_err (λ e. key_storage) (λ s. (K.to_string_pretty stored, s))) _ s1 {b = tt}
          {t = t} h1 in
      let (s3, e3, h3) =
        >>-eq-ok (map_err (λ e. key_storage) (K.write path json)) _ s2 {b = tt} {t = t} h2 in
      let printed : K.to_string_pretty stored ≡ ok json =
        ap (λ x. x.0)
          (map_err-eq-ok (λ e. key_storage) (λ s. (K.to_string_pretty stored, s)) s1 {a = json}
            {t = s2} e2) in
      let written =
        L.writes path json s2
          (map_err-eq-ok (λ e. key_storage) (K.write path json) s2 {a = tt} {t = s3} e3) in
      let (same, mode) = L.set_permissions_lem path (owner_only K blake2s) s3 (
        map_err-eq-ok (λ e. key_storage) (K.set_permissions path (owner_only K blake2s)) s3 {a = tt}
          {t = t} h3) in
      (
        record {
          text = json;
          kept = ap (λ x. x path) same ∙ written;
          parsed = L.from_str-to_string_pretty stored printed;
          lengths = k;
          fingerprint = f;
        },
        mode,
      )

  generate_and_save :
      (generated : Option Keypair) (path : String) (s : K.Fs) {self : IdentityKeys} {t : K.Fs}
      → GivesKeyLengths generated
      → (generate K blake2s generated path >>= λ keys. save K blake2s keys >> pure keys) s
        ≡ (ok self, t)
      → IsStored self t × (self.storage_path ≡ path)
  unfolding generate
  generate_and_save none path s g h = absurd (ground (arith, h))
  generate_and_save (some k) path s {self} {t} g h =
      let keys = keys_of K blake2s k path in
      let (v, e2, h2) = >>-eq-ok (save K blake2s keys) _ s {b = self} {t = t} h in
      let (stored, mode) = save-IsStored keys s {t = v} g refl e2 in
      let same : keys ≡ self = ground (arith, h2) in
      (
        subst (λ x. IsStored x t) same (subst (IsStored keys) (ap (λ x. x.1) h2) stored),
        sym (ap (λ x. x.storage_path) same),
      )

  load_or_generate-IsStored :
      (generated : Option Keypair) (data_dir : String) (s : K.Fs) {self : IdentityKeys} {t : K.Fs}
      → GivesKeyLengths generated
      → load_or_generate K blake2s generated data_dir s ≡ (ok self, t)
      → IsStored self t × (self.storage_path ≡ K.join data_dir "identity_keys.json")
  unfolding load_or_generate
  load_or_generate-IsStored generated data_dir s {self} {t} g h =
      elim (Bool-cases (K.exists path s)) [
        | inl found ↦ load_from_file-IsStored path s {self = self} {t = t} (
            subst (λ b. (if b then load_from_file K blake2s path s else made) ≡ (ok self, t)) found
              h)
        | inr fresh ↦ generate_and_save generated path s {self = self} {t = t} g (
            subst (λ b. (if b then load_from_file K blake2s path s else made) ≡ (ok self, t)) fresh
              h)
      ]
    where
      path : String
      path = K.join data_dir "identity_keys.json"

      made : Result SecurityError IdentityKeys × K.Fs
      made = (generate K blake2s generated path >>= λ keys. save K blake2s keys >> pure keys) s

  IsStored-load :
      (self : IdentityKeys) (s : K.Fs)
      → IsStored self s
      → (t : K.Fs) × (load_from_file K blake2s self.storage_path s ≡ (ok self, t))
        × (K.text_of t ≡ K.text_of s)
  unfolding load_from_file
  IsStored-load self s i =
      let (t, runs, same) = L.reads self.storage_path s i.kept in
      (t, ground (arith, runs, i.parsed, i.lengths, i.fingerprint), same)

  -- Keys that were opened, generated or loaded, have a public key of 32 bytes, so that taking it as
  -- an array does not panic, and every later opening with the files as they are then succeeds and
  -- gives the same keys, whatever key pair a fresh one would have got. The keys that `snow` generates
  -- have 32 bytes each.
  pub load_or_generate-same :
      (generated generated' : Option Keypair) (data_dir : String) (s : K.Fs) {self : IdentityKeys}
      {t : K.Fs}
      → GivesKeyLengths generated
      → load_or_generate K blake2s generated data_dir s ≡ (ok self, t)
      → (public_key_array self ≡ ok self.keypair.public)
        × ((u : K.Fs) × (load_or_generate K blake2s generated' data_dir t ≡ (ok self, u))
            × (K.text_of u ≡ K.text_of t))
  unfolding load_or_generate public_key_array
  load_or_generate-same generated generated' data_dir s {self} {t} g h =
      let (i, at) = load_or_generate-IsStored generated data_dir s {self = self} {t = t} g h in
      let there : K.exists (K.join data_dir "identity_keys.json") t ≡ true =
        subst (λ p. K.exists p t ≡ true) at (L.exists_lem self.storage_path t i.kept) in
      let (u, runs, same) = IsStored-load self t i in
      (
        ground (arith, i.lengths.1),
        (u, rw there (subst (λ p. load_from_file K blake2s p t ≡ (ok self, u)) at runs), same),
      )
