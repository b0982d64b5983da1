-- ===== src/Security/Crypto/Nonces.antt =====
-- The nonces of a cipher, one for each message.
use just_drop.Base.{
  ℕ, zero, suc, ◌+◌, ◌/◌, ◌%◌, ◌^◌, ◌<◌, ◌≡◌, sym, ap, ◌∙◌, subst, List, [], ◌∷◌, Option-cases, inl,
  inr, some, ok, >>=-eq-ok, pure, ◌>>=◌, add_u64, arith, length, take, get_elem?,
}
use just_drop.Security.Crypto.{
  Ring, SessionCipher, le_bytes, nonce_of, next_nonce, encrypt, encrypt_all,
}

le_bytes-injective : (n a b : ℕ) → a < 256 ^ n → b < 256 ^ n → le_bytes n a ≡ le_bytes n b → a ≡ b
unfolding le_bytes
le_bytes-injective zero a b la lb e = omega (arith, la, lb)
le_bytes-injective (suc n) a b la lb e =
    let h : a % 256 ≡ b % 256 = ground (arith, e) in
    let q =
      le_bytes-injective n (a / 256) (b / 256) (omega (arith, la)) (omega (arith, lb))
        (ground (arith, e)) in
    omega (arith, h, q)

nonce_of-injective : (a b : ℕ) → a < 2 ^ 64 → b < 2 ^ 64 → nonce_of a ≡ nonce_of b → a ≡ b
unfolding nonce_of le_bytes
nonce_of-injective a b la lb e =
    le_bytes-injective 8 a b (omega (arith, la)) (omega (arith, lb)) (ap (take 8) e)

module _ (R : Ring) where
  -- What an encryption does
  pub record Sealed (p : List ℕ) (e : SessionCipher R) (x : List ℕ × List ℕ) (e' : SessionCipher R)
      : Type 0 where
    pub ciphertext : List ℕ
    pub seals : R.seal e.key (nonce_of e.nonce_counter) p ≡ some ciphertext
    pub result : x ≡ (nonce_of e.nonce_counter, ciphertext)
    pub next : e' ≡ record e { nonce_counter = add_u64 e.nonce_counter 1 }

  pub encrypt-Sealed :
      (p : List ℕ) (e e' : SessionCipher R) (x : List ℕ × List ℕ)
      → encrypt R p e ≡ (ok x, e')
      → Sealed p e x e'
  unfolding encrypt next_nonce
  encrypt-Sealed p e e' x h = elim (Option-cases (R.seal e.key (nonce_of e.nonce_counter) p)) [
    | inl refused ↦ absurd (ground (arith, refused, h))
    | inr (c, s) ↦ record {
      ciphertext = c;
      seals = s;
      result = ground (arith, s, h);
      next = sym (ap (λ z. z.1) h);
    }
  ]

  pub record SealedAll (p : List ℕ) (ps : List (List ℕ)) (e e' : SessionCipher R)
      (sealed : List (List ℕ × List ℕ)) : Type 0 where
    pub first : List ℕ × List ℕ
    pub others : List (List ℕ × List ℕ)
    pub between : SessionCipher R
    pub first_sealed : Sealed p e first between
    pub others_sealed : encrypt_all R ps between ≡ (ok others, e')
    pub all : sealed ≡ first ∷ others

  pub encrypt_all-SealedAll :
      (p : List ℕ) (ps : List (List ℕ)) (e e' : SessionCipher R) (sealed : List (List ℕ × List ℕ))
      → encrypt_all R (p ∷ ps) e ≡ (ok sealed, e')
      → SealedAll p ps e e' sealed
  unfolding encrypt_all
  encrypt_all-SealedAll p ps e e' sealed h =
      let (x, e1, h1, h2) =
        >>=-eq-ok (encrypt R p) (λ x. encrypt_all R ps >>= λ xs. pure (x ∷ xs)) e h in
      let (xs, e2, h3, h4) = >>=-eq-ok (encrypt_all R ps) (λ xs. pure (x ∷ xs)) e1 h2 in
      record {
        first = x;
        others = xs;
        between = e1;
        first_sealed = encrypt-Sealed p e e1 x h1;
        others_sealed = subst (λ z. encrypt_all R ps e1 ≡ (ok xs, z)) (ap (λ z. z.1) h4) h3;
        all = ground (arith, h4);
      }

  pub encrypt_all_nil :
      (e e' : SessionCipher R) (sealed : List (List ℕ × List ℕ))
      → encrypt_all R [] e ≡ (ok sealed, e')
      → sealed ≡ []
  unfolding encrypt_all
  encrypt_all_nil e e' sealed h = ground (arith, h)

  -- The `i`-th message has the nonce of the counter after `i` messages.
  encrypt_all-nonce :
      (ps : List (List ℕ)) (e e' : SessionCipher R) (sealed : List (List ℕ × List ℕ)) (i : ℕ)
      (n c : List ℕ)
      → e.nonce_counter + length ps < 2 ^ 64
      → encrypt_all R ps e ≡ (ok sealed, e')
      → get_elem? sealed i ≡ some (n, c)
      → (n ≡ nonce_of (e.nonce_counter + i)) × (i < length ps)
  encrypt_all-nonce [] e e' sealed i n c l h g =
      absurd (ground (arith, encrypt_all_nil e e' sealed h, g))
  encrypt_all-nonce (p ∷ ps) e e' sealed zero n c l h g =
      let s = encrypt_all-SealedAll p ps e e' sealed h in
      ground (arith, s.all, s.first_sealed.result, g)
  encrypt_all-nonce (p ∷ ps) e e' sealed (suc i) n c l h g =
      let s = encrypt_all-SealedAll p ps e e' sealed h in
      let counter : s.between.nonce_counter ≡ suc e.nonce_counter =
        ap (λ z. z.nonce_counter) s.first_sealed.next ∙ omega (arith, l) in
      let (a, b) =
        encrypt_all-nonce ps s.between e' s.others i n c (omega (arith, l, counter)) s.others_sealed
          (subst (λ xs. get_elem? xs (suc i) ≡ some (n, c)) s.all g) in
      (a ∙ ap nonce_of (omega (arith, counter)), omega (arith, b))

  -- A cipher never uses a nonce twice: of the messages that it encrypts, as long as its counter does not
  -- reach 2 ^ 64, two with the same nonce are the same one.
  pub encrypt_all-nonce_once :
      (ps : List (List ℕ)) (e e' : SessionCipher R) (sealed : List (List ℕ × List ℕ)) (i j : ℕ)
      (n c d : List ℕ)
      → e.nonce_counter + length ps < 2 ^ 64
      → encrypt_all R ps e ≡ (ok sealed, e')
      → get_elem? sealed i ≡ some (n, c)
      → get_elem? sealed j ≡ some (n, d)
      → i ≡ j
  encrypt_all-nonce_once ps e e' sealed i j n c d l h gi gj =
      let (ni, bi) = encrypt_all-nonce ps e e' sealed i n c l h gi in
      let (nj, bj) = encrypt_all-nonce ps e e' sealed j n d l h gj in
      let same =
        nonce_of-injective (e.nonce_counter + i) (e.nonce_counter + j) (omega (arith, l, bi))
          (omega (arith, l, bj)) (sym ni ∙ nj) in
      omega (arith, same)
