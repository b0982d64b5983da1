-- ===== src/Security/Session.antt =====
-- crates/justdrop-security/src/session.rs: a Noise session, encrypting and decrypting. The `snow` crate
-- is an interface.
use just_drop.Base.{ℕ, ◌+◌, ◌≤◌, ◌<◌, ◌≡◌, Bool, List, Result, ok, err, length}

-- `SecurityError`, as far as sessions and handshakes return it, with the code of a `snow::Error`
pub data SecurityError : Type 0 where
  handshake_failed : ℕ → SecurityError
  peer_verification_failed : SecurityError
  encryption_failed : ℕ → SecurityError
  decryption_failed : ℕ → SecurityError

abbrev pub tag_len : ℕ
tag_len = 16

-- `snow::TransportState`: a message and the size of the buffer give what is written to the buffer.
pub record Snow : Type 1 where
  pub TransportState : Type 0
  pub write_message : List ℕ → ℕ → TransportState → Result ℕ (List ℕ) × TransportState
  pub read_message : List ℕ → ℕ → TransportState → Result ℕ (List ℕ) × TransportState
  pub is_initiator : TransportState → Bool

abbrev pub failing : {A : Type 0} → (ℕ → SecurityError) → Result ℕ A → Result SecurityError A
failing f (ok a) = ok a
failing f (err e) = err (f e)

module _ (S : Snow) where
  -- `NoiseSession::encrypt`
  unfoldable pub encrypt :
      List ℕ → S.TransportState → Result SecurityError (List ℕ) × S.TransportState
  encrypt plaintext s =
      let (r, s') = S.write_message plaintext (length plaintext + tag_len) s in
      (failing encryption_failed r, s')

  -- `NoiseSession::decrypt`
  unfoldable pub decrypt :
      List ℕ → S.TransportState → Result SecurityError (List ℕ) × S.TransportState
  decrypt ciphertext s =
      let (r, s') = S.read_message ciphertext (length ciphertext) s in
      (failing decryption_failed r, s')

-- The longest Noise message
abbrev pub max_noise_message : ℕ
max_noise_message = 65535

-- What `snow` documents: a message that would be longer than 65,535 bytes is refused; otherwise the
-- ciphertext has 16 bytes more; and of two states linked by a handshake, one reads what the other
-- writes, in order.
pub record IsNoise (S : Snow) : Type 1 where
  pub Linked : S.TransportState → S.TransportState → Type 0
  pub too_long :
      (p : List ℕ) (n : ℕ) (s : S.TransportState)
      → max_noise_message < length p + tag_len
      → (e : ℕ) × (s' : S.TransportState) × (S.write_message p n s ≡ (err e, s'))
  pub expands :
      (p c : List ℕ) (n : ℕ) (s s' : S.TransportState)
      → S.write_message p n s ≡ (ok c, s')
      → (length c ≡ length p + tag_len) × (length c ≤ max_noise_message)
  pub reads :
      (p c : List ℕ) (n : ℕ) (s s' r : S.TransportState)
      → Linked s r
      → S.write_message p n s ≡ (ok c, s')
      → (r' : S.TransportState) × (S.read_message c (length c) r ≡ (ok p, r')) × Linked s' r'
