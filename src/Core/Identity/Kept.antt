-- ===== src/Core/Identity/Kept.antt =====
-- An identity survives: a later opening gives the one that an earlier opening gave.
use just_drop.Base.{
  ℕ, ◌≡◌, refl, sym, ap, ◌∙◌, subst, String, true, List, Option, none, some, Result, ok, Bool-cases,
  inl, inr, if◌then◌else◌, ◌>>=◌, ◌>>◌, >>=-eq-ok, >>-eq-ok, map_err-eq-ok, pure, map_err, arith,
}
use just_drop.Core.KeyFiles.{KeyFiles, IsKeeping}
use just_drop.Core.Identity.{
  IdentityError, DeviceIdentity, identity_of, StoredIdentity, Ed25519, key_or, generate, load,
  create_parent, stored_of, owner_only, save, load_or_generate, storage, invalid_key,
  key_generation,
}

module _ {KeyPair : Type 0} (E : Ed25519 KeyPair) where
  key_or-eq-ok :
      {S A : Type 0} (e : IdentityError) (o : Option A) (s : S) {a : A} {t : S}
      → key_or E e o s ≡ (ok a, t)
      → (o ≡ some a) × (s ≡ t)
  key_or-eq-ok e none s h = absurd (ground (arith, h))
  key_or-eq-ok e (some b) s h = (ground (arith, h), ground (arith, h))

  module _ (K : KeyFiles StoredIdentity) (L : IsKeeping K) where
    -- The file has the identity, whose key pair and fingerprint are those of its key material.
    pub record IsStored (self : DeviceIdentity KeyPair) (s : K.Fs) : Type 0 where
      pub text : String
      pub kept : K.text_of s self.storage_path ≡ some text
      pub parsed : K.from_str text ≡ some (stored_of E K self)
      pub keypair : E.from_pkcs8 self.pkcs8_bytes ≡ some self.keypair
      pub fingerprint : self.fingerprint ≡ E.blake3 (E.public_key self.keypair)

    load-IsStored :
        (path : String) (s : K.Fs) {self : DeviceIdentity KeyPair} {t : K.Fs}
        → load E K path s ≡ (ok self, t)
        → IsStored self t × (self.storage_path ≡ path)
    unfolding load
    load-IsStored path s {self} {t} h =
        let (content, u, e1, h1) =
          >>=-eq-ok (map_err (λ e. storage) (K.read_to_string path)) _ s {b = self} {t = t} h in
        let (stored, v, e2, h2) =
          >>=-eq-ok (key_or E storage (K.from_str content)) _ u {b = self} {t = t} h1 in
        let (pair, w, e3, h3) =
          >>=-eq-ok (key_or E invalid_key (E.from_pkcs8 stored.pkcs8_der)) _ v {b = self} {t = t}
            h2 in
        let (kept, same) =
          L.read_only path s
            (map_err-eq-ok (λ e. storage) (K.read_to_string path) s {a = content} {t = u} e1) in
        let (parsed, uv) = key_or-eq-ok storage (K.from_str content) u {a = stored} {t = v} e2 in
        let (loaded, vw) =
          key_or-eq-ok invalid_key (E.from_pkcs8 stored.pkcs8_der) v {a = pair} {t = w} e3 in
        let made = identity_of E stored.uuid stored.name pair stored.pkcs8_der path in
        let result : made ≡ self = ground (arith, h3) in
        let state : u ≡ t = uv ∙ vw ∙ ap (λ x. x.1) h3 in
        let i : IsStored made u = record {
          text = content;
          kept = ap (λ x. x path) same ∙ kept;
          parsed = parsed;
          keypair = loaded;
          fingerprint = refl;
        } in
        (
          subst (λ x. IsStored x t) result (subst (IsStored made) state i),
          sym (ap (λ x. x.storage_path) result),
        )

    save-IsStored :
        (self : DeviceIdentity KeyPair) (s : K.Fs) {t : K.Fs}
        → E.from_pkcs8 self.pkcs8_bytes ≡ some self.keypair
        → self.fingerprint ≡ E.blake3 (E.public_key self.keypair)
        → save E K self s ≡ (ok tt, t)
        → IsStored self t × (K.mode_of t self.storage_path ≡ owner_only E K)
    unfolding save
    save-IsStored self s {t} k f h =
        let path = self.storage_path in
        let (s1, e1, h1) = >>-eq-ok (create_parent E K (K.parent path)) _ s {b = tt} {t = t} h in
        let (json, s2, e2, h2) =
          >>=-eq-ok (map_err (λ e. storage) (λ s. (K.to_string_pretty (stored_of E K self), s))) _
            s1 {b = tt} {t = t} h1 in
        let (s3, e3, h3) =
          >>-eq-ok (map_err (λ e. storage) (K.write path json)) _ s2 {b = tt} {t = t} h2 in
        let printed : K.to_string_pretty (stored_of E K self) ≡ ok json =
          ap (λ x. x.0)
            (map_err-eq-ok (λ e. storage) (λ s. (K.to_string_pretty (stored_of E K self), s)) s1
              {a = json} {t = s2} e2) in
        let written =
          L.writes path json s2
            (map_err-eq-ok (λ e. storage) (K.write path json) s2 {a = tt} {t = s3} e3) in
        let (same, mode) = L.set_permissions_lem path (owner_only E K) s3 (
          map_err-eq-ok (λ e. storage) (K.set_permissions path (owner_only E K)) s3 {a = tt} {t = t}
            h3) in
        (
          record {
            text = json;
            kept = ap (λ x. x path) same ∙ written;
            parsed = L.from_str-to_string_pretty (stored_of E K self) printed;
            keypair = k;
            fingerprint = f;
          },
          mode,
        )

    IsStored-load :
        (self : DeviceIdentity KeyPair) (s : K.Fs)
        → IsStored self s
        → (t : K.Fs) × (load E K self.storage_path s ≡ (ok self, t)) × (K.text_of t ≡ K.text_of s)
    unfolding load
    IsStored-load self s i =
        let (t, runs, same) = L.reads self.storage_path s i.kept in
        (t, ground (arith, runs, i.parsed, i.keypair, i.fingerprint), same)

    generate-keypair :
        (pkcs8 : Option (List ℕ)) (uuid : ℕ) (path name : String) (s : K.Fs)
        {self : DeviceIdentity KeyPair} {t : K.Fs}
        → generate E K pkcs8 uuid path name s ≡ (ok self, t)
        → (E.from_pkcs8 self.pkcs8_bytes ≡ some self.keypair)
          × (self.fingerprint ≡ E.blake3 (E.public_key self.keypair))
          × (self.storage_path ≡ path)
    unfolding generate
    generate-keypair pkcs8 uuid path name s {self} {t} h =
        let (key, u, e1, h1) = >>=-eq-ok (key_or E key_generation pkcs8) _ s {b = self} {t = t} h in
        let (pair, v, e2, h2) =
          >>=-eq-ok (key_or E key_generation (E.from_pkcs8 key)) _ u {b = self} {t = t} h1 in
        let (made, uv) = key_or-eq-ok key_generation (E.from_pkcs8 key) u {a = pair} {t = v} e2 in
        let result : identity_of E uuid name pair key path ≡ self = ground (arith, h2) in
        subst
          (λ x.
            (E.from_pkcs8 x.pkcs8_bytes ≡ some x.keypair)
            × (x.fingerprint ≡ E.blake3 (E.public_key x.keypair))
            × (x.storage_path ≡ path))
          result (made, refl, refl)

    load_or_generate-IsStored :
        (pkcs8 : Option (List ℕ)) (uuid : ℕ) (data_dir device_name : String) (s : K.Fs)
        {self : DeviceIdentity KeyPair} {t : K.Fs}
        → load_or_generate E K pkcs8 uuid data_dir device_name s ≡ (ok self, t)
        → IsStored self t × (self.storage_path ≡ K.join data_dir "device_identity.json")
    unfolding load_or_generate
    load_or_generate-IsStored pkcs8 uuid data_dir device_name s {self} {t} h =
        let path = K.join data_dir "device_identity.json" in
        elim (Bool-cases (K.exists path s)) [
          | inl found ↦
              load-IsStored path s {self = self} {t = t}
                (subst (λ b. (if b then load E K path s else made) ≡ (ok self, t)) found h)
          | inr fresh ↦
              let run : made ≡ (ok self, t) =
                subst (λ b. (if b then load E K path s else made) ≡ (ok self, t)) fresh h in
              let (new, u, e1, h1) =
                >>=-eq-ok (generate E K pkcs8 uuid path device_name) _ s {b = self} {t = t} run in
              let (v, e2, h2) = >>-eq-ok (save E K new) _ u {b = self} {t = t} h1 in
              let (pair, fp, at) =
                generate-keypair pkcs8 uuid path device_name s {self = new} {t = u} e1 in
              let (stored, mode) = save-IsStored new u {t = v} pair fp e2 in
              let same : new ≡ self = ground (arith, h2) in
              (
                subst (λ x. IsStored x t) same (subst (IsStored new) (ap (λ x. x.1) h2) stored),
                subst (λ x. x.storage_path ≡ path) same at,
              )
        ]
      where
        made : Result IdentityError (DeviceIdentity KeyPair) × K.Fs
        made =
            (generate E K pkcs8 uuid (K.join data_dir "device_identity.json") device_name
                >>= λ identity. save E K identity >> pure identity)
              s

    -- Once an identity has been opened, generated or loaded, every later opening with the files as they
    -- are then succeeds and gives the same one, with its old UUID, name and keys, whatever name, key
    -- material and UUID a fresh one would have got; and no file is changed.
    pub load_or_generate-again :
        (pkcs8 pkcs8' : Option (List ℕ)) (uuid uuid' : ℕ) (data_dir name name' : String) (s : K.Fs)
        {self : DeviceIdentity KeyPair} {t : K.Fs}
        → load_or_generate E K pkcs8 uuid data_dir name s ≡ (ok self, t)
        → (u : K.Fs) × (load_or_generate E K pkcs8' uuid' data_dir name' t ≡ (ok self, u))
          × (K.text_of u ≡ K.text_of t)
    unfolding load_or_generate
    load_or_generate-again pkcs8 pkcs8' uuid uuid' data_dir name name' s {self} {t} h =
        let (i, at) =
          load_or_generate-IsStored pkcs8 uuid data_dir name s {self = self} {t = t} h in
        let path = K.join data_dir "device_identity.json" in
        let there : K.exists path t ≡ true =
          subst (λ p. K.exists p t ≡ true) at (L.exists_lem self.storage_path t i.kept) in
        let (u, runs, same) = IsStored-load self t i in
        (u, rw there (subst (λ p. load E K p t ≡ (ok self, u)) at runs), same)
