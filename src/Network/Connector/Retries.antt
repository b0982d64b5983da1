-- ===== src/Network/Connector/Retries.antt =====
-- How often it is tried to connect, and with which result.
use just_drop.Base.{
  ℕ, zero, suc, ◌+◌, ◌*◌, ◌≤◌, ◌<◌, ◌≡◌, refl, sym, subst, Bool-cases, ap, ◌∙◌, ◌⊎◌, inl, inr, Bool,
  true, false, Option, none, some, Result, ok, err, arith, ltb,
}
use just_drop.Core.Config.{NetworkConfig}
use just_drop.Network.Connector.{
  ConnectError, Dialed, Calls, connected, connect, or_retry, sleep_before, attempts,
  connect_with_retry,
}

module _ {Stream : Type 0} (dial : ℕ → ℕ → Bool → Dialed Stream) (config : NetworkConfig) where
  -- What the `k`-th attempt ends with
  abbrev pub outcome : ℕ → Result ConnectError Stream
  outcome k = connected dial (dial k config.connect_timeout_secs config.tcp_nodelay)

  abbrev pub is_ok : Result ConnectError Stream → Bool
  is_ok (ok stream) = true
  is_ok (err e) = false

  -- The calls that were made when attempt `a` is over
  abbrev pub made : ℕ → ℕ → Calls
  made delay a = record { dials = suc a; slept = a * delay }

  sleep-dials : (a delay : ℕ) (w : Calls) → (sleep_before dial a delay w).dials ≡ w.dials
  sleep-dials a delay w = elim (Bool-cases (ltb 0 a)) [
    | inl later ↦ rw later refl
    | inr first ↦ rw first refl
  ]

  -- Before a retry the delay is slept once more.
  sleep-slept :
      (delay a : ℕ) → (sleep_before dial (suc a) delay (made delay a)).slept ≡ suc a * delay
  sleep-slept delay a = let later : ltb 0 (suc a) ≡ true = ground arith in rw later (grind arith)

  -- A success stops, and so does the last attempt.
  stops :
      (delay a n : ℕ) (r : Result ConnectError Stream) (w : Calls)
      → (is_ok r ≡ true) ⊎ (0 ≡ n)
      → or_retry dial (r, w) (attempts dial config delay n a) ≡ (r, w)
  unfolding attempts
  stops delay a n (ok stream) w ends = refl
  stops delay a zero (err e) w ends = refl
  stops delay a (suc n) (err e) w (inl h) = absurd (ground (arith, h))
  stops delay a (suc n) (err e) w (inr h) = absurd (omega (arith, h))

  connect-made :
      (delay a : ℕ) (w : Calls)
      → w.dials ≡ a
      → (sleep_before dial a delay w).slept ≡ a * delay
      → connect dial config (sleep_before dial a delay w) ≡ (outcome a, made delay a)
  unfolding connect
  connect-made delay a w d s =
      let w' = sleep_before dial a delay w in
      ap
        (λ k. (
          connected dial (dial k config.connect_timeout_secs config.tcp_nodelay),
          record w' { dials = suc k },
        ))
        (sleep-dials a delay w ∙ d)
      ∙ ap (λ z. (outcome a, record { dials = suc a; slept = z })) s

  attempts-until :
      (delay n a m : ℕ) (last : Option ConnectError) (w : Calls) (e : ℕ → ConnectError)
      → w.dials ≡ a
      → (sleep_before dial a delay w).slept ≡ a * delay
      → (fails : (j : ℕ) → a ≤ j → j < a + m → outcome j ≡ err (e j)) → m ≤ n
      → (is_ok (outcome (a + m)) ≡ true) ⊎ (m ≡ n)
      → attempts dial config delay (suc n) a last w ≡ (outcome (a + m), made delay (a + m))
  unfolding attempts
  attempts-until delay n a zero last w e d s fails l ends =
      let same : a + 0 ≡ a = omega arith in
      let ended : (is_ok (outcome a) ≡ true) ⊎ (0 ≡ n) =
        subst (λ k. (is_ok (outcome k) ≡ true) ⊎ (0 ≡ n)) same ends in
      subst (λ k. attempts dial config delay (suc n) a last w ≡ (outcome k, made delay k))
        (sym same)
        (ap (λ r. or_retry dial r (attempts dial config delay n (suc a)))
            (connect-made delay a w d s)
          ∙ stops delay (suc a) n (outcome a) (made delay a) ended)
  attempts-until delay zero a (suc m) last w e d s fails l ends = absurd (omega (arith, l))
  attempts-until delay (suc n) a (suc m) last w e d s fails l ends =
      let failed : outcome a ≡ err (e a) = fails a (omega arith) (omega arith) in
      let same : suc a + m ≡ a + suc m = omega arith in
      let rest =
        attempts-until delay n (suc a) m (some (e a)) (made delay a) e refl (sleep-slept delay a)
          (λ j lo hi. fails j (omega (arith, lo)) (omega (arith, hi))) (omega (arith, l))
          (elim ends [
            | inl h ↦ inl (subst (λ k. is_ok (outcome k) ≡ true) (sym same) h)
            | inr h ↦ inr (omega (arith, h))
          ]) in
      ap (λ r. or_retry dial r (attempts dial config delay (suc n) (suc a)))
        (connect-made delay a w d s)
      ∙ (ap (λ r. or_retry dial (r, made delay a) (attempts dial config delay (suc n) (suc a)))
            failed
          ∙ (rest ∙ ap (λ k. (outcome k, made delay k)) same))

  -- Connecting stops at the first attempt that succeeds, or after `max_retries` more than the first:
  -- the result is that of the last attempt made, and the delay is slept once before each retry. The
  -- attempts before it fail, with errors.
  pub connect_with_retry-until :
      (max_retries delay k : ℕ) (e : ℕ → ConnectError)
      → (fails : (j : ℕ) → j < k → outcome j ≡ err (e j)) → k ≤ max_retries
      → (is_ok (outcome k) ≡ true) ⊎ (k ≡ max_retries)
      → connect_with_retry dial config max_retries delay record { dials = 0; slept = 0 }
        ≡ (outcome k, record { dials = suc k; slept = k * delay })
  unfolding connect_with_retry
  connect_with_retry-until max_retries delay k e fails l ends =
      let same : 0 + k ≡ k = omega arith in
      let start : Calls = record { dials = 0; slept = 0 } in
      attempts-until delay max_retries 0 k none start e refl (grind arith)
        (λ j lo hi. fails j (omega (arith, hi))) l
        (subst (λ i. (is_ok (outcome i) ≡ true) ⊎ (k ≡ max_retries)) (sym same) ends)
      ∙ ap (λ i. (outcome i, made delay i)) same
