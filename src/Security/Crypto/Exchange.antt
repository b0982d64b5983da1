-- ===== src/Security/Crypto/Exchange.antt =====
-- Both sides of an exchange have the same keys, crossed, and one opens what the other seals.
use just_drop.Base.{
  ℕ, ◌≡◌, refl, sym, ap, ◌∙◌, subst, Bool, true, false, not, List, [], ◌∷◌, Option, none, some,
  Result, ok, arith,
}
use just_drop.Security.Crypto.{
  CryptoError, or_err, Ring, IsRing, SessionKeys, SessionCipher, KeyExchangeInitiator, new_exchange,
  derive, directional, complete, new_cipher, encryptor, decryptor, nonce_of, decrypt, encrypt_all,
  decrypt_all, initiator_info, responder_info, key_generation, key_exchange, invalid_key,
}
use just_drop.Security.Crypto.Nonces.{encrypt_all-SealedAll, encrypt_all_nil}

or_err-ok :
    {A B : Type 0} (o : Option A) (e : CryptoError) (f : A → Result CryptoError B) (b : B)
    → or_err o e f ≡ ok b
    → (a : A) × (o ≡ some a) × (f a ≡ ok b)
or_err-ok none e f b h = absurd (ground (arith, h))
or_err-ok (some a) e f b h = (a, refl, h)

ok-injective : {A : Type 0} (a b : A) (x : Result CryptoError A) → x ≡ ok a → x ≡ ok b → a ≡ b
ok-injective a b x ha hb = ground (arith, ha, hb)

some-injective : {A : Type 0} {a b : A} → some a ≡ some b → a ≡ b
some-injective h = ground (arith, h)

module _ (R : Ring) where
  new_exchange-public :
      (rng : ℕ) (a : KeyExchangeInitiator R)
      → new_exchange R rng ≡ ok a
      → R.compute_public_key a.private_key ≡ some a.public_key_bytes
  unfolding new_exchange
  new_exchange-public rng a h =
      let (k, e, h1) = or_err-ok (R.generate rng) key_generation _ a h in
      let (p, e2, h2) = or_err-ok (R.compute_public_key k) key_generation _ a h1 in
      subst (λ z. R.compute_public_key z.private_key ≡ some z.public_key_bytes)
        (ok-injective _ _ _ refl h2) e2

  derive-directional :
      (secret : List ℕ) (side : Bool) (k : SessionKeys)
      → derive R secret side ≡ ok k
      → (i r : List ℕ) × (R.expand (R.extract "justdrop-session-v1" secret) initiator_info 32
          ≡ some i)
        × (R.expand (R.extract "justdrop-session-v1" secret) responder_info 32 ≡ some r)
        × (k ≡ directional R side i r)
  unfolding derive
  derive-directional secret side k h =
      let prk = R.extract "justdrop-session-v1" secret in
      let (i, ei, h1) = or_err-ok (R.expand prk initiator_info 32) key_exchange _ k h in
      let (r, er, h2) = or_err-ok (R.expand prk responder_info 32) key_exchange _ k h1 in
      (i, r, ei, er, ground (arith, h2))

  directional-crossed :
      (side : Bool) (i r : List ℕ)
      → (directional R side i r).encrypt_key ≡ (directional R (not side) i r).decrypt_key
  directional-crossed true i r = refl
  directional-crossed false i r = refl

  derive-crossed :
      (secret : List ℕ) (side : Bool) (k l : SessionKeys)
      → derive R secret side ≡ ok k
      → derive R secret (not side) ≡ ok l
      → k.encrypt_key ≡ l.decrypt_key
  derive-crossed secret side k l hk hl =
      let (i, r, ei, er, ek) = derive-directional secret side k hk in
      let (i', r', ei', er', el) = derive-directional secret (not side) l hl in
      let same_i : i ≡ i' = some-injective (sym ei ∙ ei') in
      let same_r : r ≡ r' = some-injective (sym er ∙ er') in
      ap (λ z. z.encrypt_key) ek
      ∙ (directional-crossed side i r
          ∙ (ap (λ z. (directional R (not side) z r).decrypt_key) same_i
              ∙ (ap (λ z. (directional R (not side) i' z).decrypt_key) same_r
                  ∙ ap (λ z. z.decrypt_key) (sym el))))

  -- The sides `side` and `not side` of an exchange
  complete-crossed :
      (L : IsRing R) (ra rb : ℕ) (side : Bool) (a b : KeyExchangeInitiator R) (ka kb : SessionKeys)
      → new_exchange R ra ≡ ok a
      → new_exchange R rb ≡ ok b
      → complete R a b.public_key_bytes side ≡ ok ka
      → complete R b a.public_key_bytes (not side) ≡ ok kb
      → ka.encrypt_key ≡ kb.decrypt_key
  unfolding complete
  complete-crossed L ra rb side a b ka kb na nb ca cb =
      let same =
        L.agrees a.private_key b.private_key a.public_key_bytes b.public_key_bytes
          (new_exchange-public ra a na) (new_exchange-public rb b nb) in
      let (s, es, da) =
        or_err-ok (R.agree_ephemeral a.private_key b.public_key_bytes) key_exchange _ ka ca in
      let (s', es', db) =
        or_err-ok (R.agree_ephemeral b.private_key a.public_key_bytes) key_exchange _ kb cb in
      let e : s ≡ s' = some-injective (sym es ∙ (same ∙ es')) in
      derive-crossed s' side ka kb (subst (λ z. derive R z side ≡ ok ka) e da) db

  new_cipher-key :
      (k : List ℕ) (e : SessionCipher R) → new_cipher R k ≡ ok e → R.unbound_key k ≡ some e.key
  unfolding new_cipher
  new_cipher-key k e h =
      let (key, u, same) = or_err-ok (R.unbound_key k) invalid_key _ e h in
      u ∙ ap (λ z. some z.key) (ok-injective _ _ _ refl same)

  decrypt_all-encrypt_all :
      (L : IsRing R) (ps : List (List ℕ)) (e e' d : SessionCipher R)
      (sealed : List (List ℕ × List ℕ))
      → d.key ≡ e.key
      → encrypt_all R ps e ≡ (ok sealed, e')
      → decrypt_all R d sealed ≡ ok ps
  unfolding decrypt_all decrypt
  decrypt_all-encrypt_all L [] e e' d sealed k h = rw (encrypt_all_nil R e e' sealed h) refl
  decrypt_all-encrypt_all L (p ∷ ps) e e' d sealed k h =
      let s = encrypt_all-SealedAll R p ps e e' sealed h in
      let f = s.first_sealed in
      let opened : R.open_in_place d.key (nonce_of e.nonce_counter) f.ciphertext ≡ some p =
        rw k (L.opens e.key (nonce_of e.nonce_counter) p f.ciphertext f.seals) in
      let rest =
        decrypt_all-encrypt_all L ps s.between e' d s.others (k ∙ ap (λ z. z.key) (sym f.next))
          s.others_sealed in
      rw s.all (rw f.result (rw opened (rw rest refl)))

  -- Two sides complete an exchange, each with the public key of the other, one of them as its
  -- initiator. What the encryptor of either side encrypts, the decryptor of the other decrypts with the
  -- nonces that came with it, to the same messages.
  pub decrypt_all-exchange :
      (L : IsRing R) (ra rb : ℕ) (side : Bool) (a b : KeyExchangeInitiator R) (ka kb : SessionKeys)
      (e e' d : SessionCipher R) (ps : List (List ℕ)) (sealed : List (List ℕ × List ℕ))
      → new_exchange R ra ≡ ok a
      → new_exchange R rb ≡ ok b
      → complete R a b.public_key_bytes side ≡ ok ka
      → complete R b a.public_key_bytes (not side) ≡ ok kb
      → encryptor R ka ≡ ok e
      → decryptor R kb ≡ ok d
      → encrypt_all R ps e ≡ (ok sealed, e')
      → decrypt_all R d sealed ≡ ok ps
  unfolding encryptor decryptor
  decrypt_all-exchange L ra rb side a b ka kb e e' d ps sealed na nb ca cb he hd h =
      let crossed = complete-crossed L ra rb side a b ka kb na nb ca cb in
      let ue = new_cipher-key ka.encrypt_key e he in
      let ud = new_cipher-key kb.decrypt_key d hd in
      let same : d.key ≡ e.key = some-injective (sym ud ∙ (ap R.unbound_key (sym crossed) ∙ ue)) in
      decrypt_all-encrypt_all L ps e e' d sealed same h
