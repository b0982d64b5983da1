-- ===== src/Storage/Writer/Naming.antt =====
-- Where a finished file goes: the name that `unique_path` of writer.rs finds.
use just_drop.Base.{
  ℕ, zero, suc, ◌+◌, ◌≤◌, ◌<◌, ◌≡◌, refl, ◌⊎◌, inl, inr, true, false, arith, String, Bool-cases,
  dec_lt, subst,
}
use just_drop.Storage.Files.{Files}
use just_drop.Storage.Writer.{numbered_path, uuid_path, first_free, unique_path}

module _ (F : Files) (path uuid : String) (s : F.Fs) where
  first_free_lem :
      (i n : ℕ)
      → (F.exists (first_free F path uuid s i n) s ≡ false)
        ⊎ ((first_free F path uuid s i n ≡ uuid_path F path uuid)
            × ((j : ℕ) → i ≤ j → j < i + n → F.exists (numbered_path F path j) s ≡ true))
  unfolding first_free
  first_free_lem i zero = inr (refl, λ j h k. absurd (omega arith))
  first_free_lem i (suc n) = elim (Bool-cases (F.exists (numbered_path F path i) s)) [
    | inl taken ↦ elim (first_free_lem (suc i) n) [
      | inl free ↦ inl (rw taken free)
      | inr (same, all) ↦ inr (rw taken same, λ j h k. step taken all j h k)
    ]
    | inr free ↦ inl (rw free free)
  ]
    where
      step :
          F.exists (numbered_path F path i) s ≡ true
          → ((j : ℕ) → suc i ≤ j → j < suc i + n → F.exists (numbered_path F path j) s ≡ true)
          → (j : ℕ) → i ≤ j
          → j < i + suc n
          → F.exists (numbered_path F path j) s ≡ true
      step taken all j h k = elim (dec_lt i j) [
        | yes p ↦ all j p (omega arith)
        | no p ↦
            let same : i ≡ j = omega arith in
            subst (λ m. F.exists (numbered_path F path m) s ≡ true) same taken
      ]

  -- The name found does not exist yet, so no file is overwritten; only when the path and all of its
  -- 999 numbered variants exist is it the one with the fresh UUID.
  pub unique_path_free :
      (F.exists (unique_path F path uuid s) s ≡ false)
      ⊎ ((unique_path F path uuid s ≡ uuid_path F path uuid)
          × (F.exists path s ≡ true)
          × ((j : ℕ) → 1 ≤ j → j < 1000 → F.exists (numbered_path F path j) s ≡ true))
  unfolding unique_path
  unique_path_free = elim (Bool-cases (F.exists path s)) [
    | inr free ↦ inl (rw free free)
    | inl taken ↦ elim (first_free_lem 1 999) [
      | inl free ↦ inl (rw taken free)
      | inr (same, all) ↦ inr (rw taken same, taken, λ j h k. all j h (omega arith))
    ]
  ]
