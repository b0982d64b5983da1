-- ===== src/Tests/Security.antt =====
-- A small ring: keys are lists of bytes, secrets are sums, and a ciphertext starts with a byte of the key
-- and one of the nonce.
use just_drop.Base.{
  ℕ, ◌+◌, ◌≡◌, refl, subst, true, str_eq, List, [], ◌∷◌, Option, none, some, ok, arith, ◌==◌,
  if◌then◌else◌, get_or,
}
use just_drop.Security.Crypto.{
  Ring, IsRing, KeyExchangeInitiator, SessionKeys, SessionCipher, new_exchange, complete, encryptor,
  decryptor, encrypt_all, decrypt_all, nonce_of,
}
use just_drop.Security.Crypto.Nonces.{encrypt_all-nonce_once}
use just_drop.Security.Crypto.Exchange.{decrypt_all-exchange}

abbrev opened : ℕ → ℕ → List ℕ → Option (List ℕ)
opened k n (x ∷ y ∷ p) = if x == k then (if y == n then some p else none) else none
opened k n c = none

opened_same : (k n : ℕ) (p : List ℕ) → opened k n (k ∷ n ∷ p) ≡ some p
opened_same k n p = ground arith

abbrev small : Ring
small = record {
  EphemeralPrivateKey = ℕ;
  Prk = List ℕ;
  LessSafeKey = List ℕ;
  generate = λ rng. some rng;
  compute_public_key = λ k. some (k ∷ []);
  agree_ephemeral = λ k p. some ((k + get_or p 0 0) ∷ []);
  extract = λ salt secret. secret;
  expand = λ prk info n. some (if str_eq info "initiator-key" then 1 ∷ prk else 2 ∷ prk);
  unbound_key = λ k. some k;
  seal = λ k n p. some (get_or k 0 0 ∷ get_or n 0 0 ∷ p);
  open_in_place = λ k n c. opened (get_or k 0 0) (get_or n 0 0) c;
  verify = λ k m s. true;
}

small-IsRing : IsRing small
small-IsRing = record {
  agrees = λ a b pa pb ha hb. ground (arith, ha, hb);
  opens = λ k n p c h.
      let e : get_or k 0 0 ∷ get_or n 0 0 ∷ p ≡ c = ground (arith, h) in
      subst (λ z. opened (get_or k 0 0) (get_or n 0 0) z ≡ some p) e
        (opened_same (get_or k 0 0) (get_or n 0 0) p);
}

abbrev initiator : KeyExchangeInitiator small
initiator = record { private_key = 3; public_key_bytes = 3 ∷ [] }

abbrev responder : KeyExchangeInitiator small
responder = record { private_key = 5; public_key_bytes = 5 ∷ [] }

abbrev initiator_keys : SessionKeys
initiator_keys = record { encrypt_key = 1 ∷ 8 ∷ []; decrypt_key = 2 ∷ 8 ∷ [] }

abbrev responder_keys : SessionKeys
responder_keys = record { encrypt_key = 2 ∷ 8 ∷ []; decrypt_key = 1 ∷ 8 ∷ [] }

abbrev cipher : ℕ → SessionCipher small
cipher n = record { key = 1 ∷ 8 ∷ []; nonce_counter = n }

abbrev messages : List (List ℕ)
messages = (40 ∷ []) ∷ (50 ∷ 51 ∷ []) ∷ []

abbrev sealed : List (List ℕ × List ℕ)
sealed = (nonce_of 0, 1 ∷ 0 ∷ 40 ∷ []) ∷ (nonce_of 1, 1 ∷ 1 ∷ 50 ∷ 51 ∷ []) ∷ []

abbrev one : ℕ
one = 1

messages-sealed : encrypt_all small messages (cipher 0) ≡ (ok sealed, cipher 2)
unfolding encrypt_all just_drop.Security.Crypto.encrypt just_drop.Security.Crypto.next_nonce
    nonce_of just_drop.Security.Crypto.le_bytes
messages-sealed = refl

decrypt_all-exchange_example : decrypt_all small (cipher 0) sealed ≡ ok messages
unfolding new_exchange complete just_drop.Security.Crypto.derive encryptor decryptor
    just_drop.Security.Crypto.new_cipher
decrypt_all-exchange_example =
    decrypt_all-exchange small small-IsRing 3 5 true initiator responder initiator_keys
      responder_keys (cipher 0) (cipher 2) (cipher 0) messages sealed refl refl refl refl refl refl
      messages-sealed

encrypt_all-nonce_once_example : one ≡ one
encrypt_all-nonce_once_example =
    encrypt_all-nonce_once small messages (cipher 0) (cipher 2) sealed one one (nonce_of 1)
      (1 ∷ 1 ∷ 50 ∷ 51 ∷ []) (1 ∷ 1 ∷ 50 ∷ 51 ∷ []) (omega arith) messages-sealed refl refl
