-- ===== src/Security/Crypto.antt =====
-- crates/justdrop-security/src/crypto.rs: the keys of a session from an exchange of ephemeral keys, and
-- its ciphers with a counter for the nonce. The `ring` crate is an interface.
pub mod Nonces
pub mod Exchange
use just_drop.Base.{
  ℕ, zero, suc, ◌/◌, ◌%◌, ◌≡◌, Bool, true, false, String, List, [], ◌∷◌, ◌++◌, Option, none, some,
  Result, ok, err, Action, pure, continue, ◌>>=◌, add_u64, if◌then◌else◌, map,
}

pub data CryptoError : Type 0 where
  key_generation key_exchange verification_failed : CryptoError
  encryption_failed decryption_failed invalid_key : CryptoError

-- What is used of `ring`; it fails without a reason. `SystemRandom` is what it draws.
pub record Ring : Type 1 where
  pub EphemeralPrivateKey : Type 0
  pub Prk : Type 0
  pub LessSafeKey : Type 0
  pub generate : ℕ → Option EphemeralPrivateKey
  pub compute_public_key : EphemeralPrivateKey → Option (List ℕ)
  pub agree_ephemeral : EphemeralPrivateKey → List ℕ → Option (List ℕ)
  pub extract : String → List ℕ → Prk
  pub expand : Prk → String → ℕ → Option (List ℕ)
  pub unbound_key : List ℕ → Option LessSafeKey
  pub seal : LessSafeKey → List ℕ → List ℕ → Option (List ℕ)
  pub open_in_place : LessSafeKey → List ℕ → List ℕ → Option (List ℕ)
  pub verify : List ℕ → List ℕ → List ℕ → Bool

-- `.map_err(|_| e)?`
abbrev pub or_err :
    {A B : Type 0} → Option A → CryptoError → (A → Result CryptoError B) → Result CryptoError B
or_err none e f = err e
or_err (some a) e f = f a

abbrev pub and_then :
    {A B : Type 0} → Result CryptoError A → (A → Result CryptoError B) → Result CryptoError B
and_then (err e) f = err e
and_then (ok a) f = f a

pub record SessionKeys : Type 0 where
  pub encrypt_key : List ℕ
  pub decrypt_key : List ℕ

-- The `n` bytes of a number, the lowest first
unfoldable pub le_bytes : ℕ → ℕ → List ℕ
le_bytes zero c = []
le_bytes (suc n) c = c % 256 ∷ le_bytes n (c / 256)

-- The nonce of a counter, of twelve bytes
unfoldable pub nonce_of : ℕ → List ℕ
nonce_of counter = le_bytes 8 counter ++ (0 ∷ 0 ∷ 0 ∷ 0 ∷ [])

abbrev pub initiator_info : String
initiator_info = "initiator-key"

abbrev pub responder_info : String
responder_info = "responder-key"

module _ (R : Ring) where
  pub record KeyExchangeInitiator : Type 0 where
    pub private_key : R.EphemeralPrivateKey
    pub public_key_bytes : List ℕ

  -- `KeyExchangeInitiator::new`
  unfoldable pub new_exchange : ℕ → Result CryptoError KeyExchangeInitiator
  new_exchange rng = or_err (R.generate rng) key_generation λ private_key.
      or_err (R.compute_public_key private_key) key_generation λ public_key_bytes.
        ok record { private_key = private_key; public_key_bytes = public_key_bytes }

  abbrev pub directional : Bool → List ℕ → List ℕ → SessionKeys
  directional true initiator_key responder_key = record {
    encrypt_key = initiator_key;
    decrypt_key = responder_key;
  }
  directional false initiator_key responder_key = record {
    encrypt_key = responder_key;
    decrypt_key = initiator_key;
  }

  -- `SessionKeys::derive`
  unfoldable pub derive : List ℕ → Bool → Result CryptoError SessionKeys
  derive shared_secret is_initiator =
      let prk = R.extract "justdrop-session-v1" shared_secret in
      or_err (R.expand prk initiator_info 32) key_exchange λ initiator_key.
        or_err (R.expand prk responder_info 32) key_exchange
          λ responder_key. ok (directional is_initiator initiator_key responder_key)

  -- `KeyExchangeInitiator::complete`
  unfoldable pub complete : KeyExchangeInitiator → List ℕ → Bool → Result CryptoError SessionKeys
  complete self peer_public_key is_initiator =
      or_err (R.agree_ephemeral self.private_key peer_public_key) key_exchange
        λ shared_secret. derive shared_secret is_initiator

  pub record SessionCipher : Type 0 where
    pub key : R.LessSafeKey
    pub nonce_counter : ℕ

  unfoldable pub new_cipher : List ℕ → Result CryptoError SessionCipher
  new_cipher key_bytes =
      or_err (R.unbound_key key_bytes) invalid_key λ key. ok record { key = key; nonce_counter = 0 }

  -- `SessionKeys::encryptor` and `decryptor`
  unfoldable pub encryptor : SessionKeys → Result CryptoError SessionCipher
  encryptor self = new_cipher self.encrypt_key

  unfoldable pub decryptor : SessionKeys → Result CryptoError SessionCipher
  decryptor self = new_cipher self.decrypt_key

  -- `SessionCipher::next_nonce`
  unfoldable pub next_nonce : SessionCipher → List ℕ × SessionCipher
  next_nonce self =
      (nonce_of self.nonce_counter, record self { nonce_counter = add_u64 self.nonce_counter 1 })

  -- `SessionCipher::encrypt`: the nonce and the ciphertext
  unfoldable pub encrypt : List ℕ → Action SessionCipher CryptoError (List ℕ × List ℕ)
  encrypt plaintext self =
      let (nonce, self') = next_nonce self in
      (
        or_err (R.seal self.key nonce plaintext) encryption_failed
            λ ciphertext. ok (nonce, ciphertext),
        self',
      )

  -- `SessionCipher::decrypt`
  unfoldable pub decrypt : SessionCipher → List ℕ → List ℕ → Result CryptoError (List ℕ)
  decrypt self nonce ciphertext =
      or_err (R.open_in_place self.key nonce ciphertext) decryption_failed ok

  unfoldable pub verify_signature : List ℕ → List ℕ → List ℕ → Result CryptoError (Unit {0})
  verify_signature public_key message signature_bytes =
      if R.verify public_key message signature_bytes then ok tt else err verification_failed

  -- Messages one after the other
  unfoldable pub encrypt_all :
      List (List ℕ) → Action SessionCipher CryptoError (List (List ℕ × List ℕ))
  encrypt_all [] = pure []
  encrypt_all (p ∷ ps) = do c ← encrypt p; cs ← encrypt_all ps; pure (c ∷ cs)

  unfoldable pub decrypt_all :
      SessionCipher → List (List ℕ × List ℕ) → Result CryptoError (List (List ℕ))
  decrypt_all self [] = ok []
  decrypt_all self ((nonce, ciphertext) ∷ sealed) =
      and_then (decrypt self nonce ciphertext)
        λ p. and_then (decrypt_all self sealed) λ ps. ok (p ∷ ps)

-- What `ring` documents: two sides agree on the same secret, and what was sealed is opened with the same
-- key and nonce.
pub record IsRing (R : Ring) : Type 0 where
  pub agrees :
      (a b : R.EphemeralPrivateKey) (pa pb : List ℕ)
      → R.compute_public_key a ≡ some pa
      → R.compute_public_key b ≡ some pb
      → R.agree_ephemeral a pb ≡ R.agree_ephemeral b pa
  pub opens :
      (k : R.LessSafeKey) (n p c : List ℕ) → R.seal k n p ≡ some c → R.open_in_place k n c ≡ some p
