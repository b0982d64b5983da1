-- ===== src/Storage/Writer/Opening.antt =====
-- A writer that is made: its file has the length that was asked for.
use just_drop.Base.{
  ℕ, ◌<◌, ◌≡◌, ◌≢◌, refl, sym, ap, ◌∙◌, subst, String, [], ok, length, not, ◌&&◌, ◌==◌, false,
  arith, Option-cases, inl, inr,
}
use just_drop.Core.Types.{chunk_count}
use just_drop.Storage.Files.{Files, IsSeparate, IsCreating}
use just_drop.Storage.Writer.{ChunkWriter, create_parent, count_chunks, new}

-- The writer that `new` gives
abbrev pub fresh : (F : Files) → ℕ → ℕ → String → ℕ → ℕ → ChunkWriter
fresh F transfer_id file_index dest_path chunk_size file_size = record {
  transfer_id = transfer_id;
  file_index = file_index;
  dest_path = dest_path;
  temp_path = F.with_extension dest_path "justdrop_partial";
  chunk_size = chunk_size;
  file_size = file_size;
  total_chunks = chunk_count file_size chunk_size;
  completed_chunks = [];
}

module _ (F : Files) (S : IsSeparate F) (C : IsCreating F) where
  create_parent-runs :
      (p : String) (s : F.Fs)
      → (t : F.Fs) × (create_parent F p s ≡ (ok tt, t)) × (F.bytes t ≡ F.bytes s)
  unfolding create_parent
  create_parent-runs p s = elim (Option-cases (F.parent p)) [
    | inl e ↦ (s, rw (e, create_parent), refl)
    | inr (dir, e) ↦
        let (t, runs, same) = C.makes_dir dir s in (t, rw (e, create_parent) (rw runs), same)
  ]

  pub new-opens :
      (transfer_id file_index : ℕ) (dest : String) (chunk_size file_size : ℕ) (s : F.Fs)
      → 0 < chunk_size
      → (t : F.Fs) × (new F transfer_id file_index dest chunk_size file_size s
          ≡ (ok (fresh F transfer_id file_index dest chunk_size file_size), t))
        × (length (F.bytes t (F.with_extension dest "justdrop_partial")) ≡ file_size)
        × ((p : String) → p ≢ F.with_extension dest "justdrop_partial" → F.bytes t p ≡ F.bytes s p)
  unfolding new count_chunks
  new-opens transfer_id file_index dest chunk_size file_size s pos =
      let temp = F.with_extension dest "justdrop_partial" in
      let (s1, e1, k1) = create_parent-runs dest s in
      let (h, s2, e2, path, k2) = C.creates temp s1 in
      let (s3, e3, len) = C.sets_len h file_size s2 in
      let no_panic : (not (file_size == 0) && chunk_size == 0) ≡ false = ground arith in
      (
        s3,
        rw e1 (rw e2 (rw e3 (rw no_panic))),
        subst (λ q. length (F.bytes s3 q) ≡ file_size) path len,
        λ p ne.
            S.set_len_other h file_size s2 e3 p (subst (λ q. p ≢ q) (sym path) ne)
            ∙ ap (λ b. b p) (k2 ∙ k1),
      )
