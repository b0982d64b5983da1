-- ===== src/Base/Outcome.antt =====
-- `Result<T, E>`, and code that changes a state and may fail, in chains of `?`. What was changed
-- before a failure stays changed, so the state comes back beside the error too.
use mathlib.Core.Path.{◌≡◌, refl}
use native.Mathlib.Omega.{arith}

pub data Result {ℓ κ} (E : Type κ) (A : Type ℓ) : Type (ℓ ⊔ κ) where
  ok : A → Result E A
  err : E → Result E A

-- An action on a state `S`, with errors in `E`
abbrev pub Action : Type 0 → Type 0 → Type 0 → Type 0
Action S E A = S → Result E A × S

module _ {S E : Type 0} where
  abbrev pub pure : {A : Type 0} → A → Action S E A
  pure a s = (ok a, s)

  abbrev pub raise : {A : Type 0} → E → Action S E A
  raise e s = (err e, s)

  abbrev pub continue : {A B : Type 0} → Result E A → (A → Action S E B) → Action S E B
  continue (ok a) f s = f a s
  continue (err e) f s = (err e, s)

  infixl 5 ◌>>=◌ ◌>>◌
  abbrev pub ◌>>=◌ : {A B : Type 0} → Action S E A → (A → Action S E B) → Action S E B
  ◌>>=◌ m f s = continue (m s).0 f (m s).1

  abbrev pub ◌>>◌ : {B : Type 0} → Action S E (Unit {0}) → Action S E B → Action S E B
  m >> k = m >>= λ _. k

  -- `.map_err(f)`
  abbrev pub map_err : {A D : Type 0} → (D → E) → Action S D A → Action S E A
  map_err f m s = (elim (m s).0 [ ok a ↦ ok a | err d ↦ err (f d) ], (m s).1)

  -- A successful chain: its first part succeeded, and the rest from the state that it left.
  pub >>=-eq-ok :
      {A B : Type 0} (m : Action S E A) (f : A → Action S E B) (s : S) {b : B} {t : S}
      → (m >>= f) s ≡ (ok b, t)
      → (a : A) × (u : S) × (m s ≡ (ok a, u)) × (f a u ≡ (ok b, t))
  >>=-eq-ok m f s {b} {t} h = split (m s).0 (m s).1 refl h
    where
      split :
          (r : Result E _) (u : S)
          → m s ≡ (r, u)
          → continue r f u ≡ (ok b, t)
          → (a : _) × (u : S) × (m s ≡ (ok a, u)) × (f a u ≡ (ok b, t))
      split (ok a) u e h = (a, u, e, h)
      split (err d) u e h = cc

  pub >>-eq-ok :
      {B : Type 0} (m : Action S E (Unit {0})) (k : Action S E B) (s : S) {b : B} {t : S}
      → (m >> k) s ≡ (ok b, t)
      → (u : S) × (m s ≡ (ok tt, u)) × (k u ≡ (ok b, t))
  >>-eq-ok m k s h = let (a, u, e, rest) = >>=-eq-ok m (λ _. k) s h in (u, e, rest)

  pub map_err-eq-ok :
      {A D : Type 0} (f : D → E) (m : Action S D A) (s : S) {a : A} {t : S}
      → map_err f m s ≡ (ok a, t)
      → m s ≡ (ok a, t)
  map_err-eq-ok f m s {a} {t} h = split (m s).0 (m s).1 refl
    where
      split : (r : Result _ _) (u : S) → m s ≡ (r, u) → m s ≡ (ok a, t)
      split (ok b) u e = ground (arith, e, h)
      split (err d) u e = absurd (ground (arith, e, h))
