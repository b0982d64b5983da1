-- ===== src/Storage/Hashing/Whole.antt =====
-- A file is hashed as the whole of its bytes, however its reads are cut.
use just_drop.Base.{
  ℕ, zero, suc, ◌+◌, ◌-◌, ◌≤◌, ◌<◌, ◌≡◌, refl, ◌∙◌, ap, sym, String, List, [], ◌∷◌, ◌++◌, some, ok,
  ◌==◌, length, take, drop, arith, length-take, length-drop, take-append-drop, true, false,
  ℕ_discrete, get_elem?-ext,
}
use just_drop.Storage.Files.{Files, IsReadable}
use just_drop.Storage.Files.Splice.{get_elem?-drop, get_elem?-past}
use just_drop.Storage.Chunker.{io}
use just_drop.Storage.Hashing.{
  Digest, IsDigest, buffer_size, same_hash, hash_loop, hash_opened, hash_file, blake3_file,
  verify_file, verify_chunk, hash_bytes, IncrementalHasher, new_hasher, update, finalize,
  update_all,
}

drop-nil : (n : ℕ) → drop {A = ℕ} n [] ≡ []
drop-nil zero = refl
drop-nil (suc n) = refl

drop-drop : (k pos : ℕ) (xs : List ℕ) → drop k (drop pos xs) ≡ drop (pos + k) xs
drop-drop k zero xs = ap (λ n. drop n xs) (omega arith)
drop-drop k (suc pos) [] = drop-nil k ∙ sym (drop-nil (suc pos + k))
drop-drop k (suc pos) (x ∷ xs) = drop-drop k pos xs ∙ ap (λ n. drop n (x ∷ xs)) (shifted pos k)
  where
    shifted : (pos k : ℕ) → suc (pos + k) ≡ suc pos + k
    shifted pos k = omega arith

drop-past : (pos : ℕ) (xs : List ℕ) → length xs ≤ pos → drop pos xs ≡ []
drop-past pos xs h =
    get_elem?-ext (drop pos xs) []
      λ i. ground (arith, get_elem?-drop pos xs i, get_elem?-past xs (pos + i))

module _ (F : Files) (R : IsReadable F) (D : Digest) (L : IsDigest D) where
  record Hashed {E : Type 0} (wrap : ℕ → E) (fuel : ℕ) (h : F.Handle) (hasher : D.Hasher) (s : F.Fs)
      : Type 0 where
    after : F.Fs
    runs :
        hash_loop F D wrap fuel h hasher s
        ≡ (ok (some (D.update hasher (drop (F.pos_of h) (F.bytes s (F.path_of h))))), after)
    kept : F.bytes after ≡ F.bytes s

  hash_loop-Hashed :
      {E : Type 0} (wrap : ℕ → E) (fuel : ℕ) (h : F.Handle) (hasher : D.Hasher) (s : F.Fs)
      → length (F.bytes s (F.path_of h)) - F.pos_of h < fuel
      → Hashed wrap fuel h hasher s
  unfolding hash_loop
  hash_loop-Hashed wrap zero h hasher s l = absurd (omega (arith, l))
  hash_loop-Hashed wrap (suc fuel) h hasher s l =
      let file = F.bytes s (F.path_of h) in
      let pos = F.pos_of h in
      let (k, h', s', got, upto, inside, stop, same_path, moved, kept) = R.reads h buffer_size s in
      let size : length (take k (drop pos file)) ≡ k =
        omega (arith, length-take k (drop pos file), length-drop pos file) in
      elim (ℕ_discrete k 0) [
        | yes e ↦ record {
          after = s';
          runs =
              let nothing : (length (take k (drop pos file)) == 0) ≡ true = ground arith in
              let past : length file ≤ pos = ground (arith, stop e) in
              rw got (
                rw nothing (
                  ap (λ d. (ok (some d), s'))
                    (sym (ap (D.update hasher) (drop-past pos file past) ∙ L.update_nil hasher))));
          kept = kept;
        }
        | no nz ↦
            let same : F.bytes s' (F.path_of h') ≡ file =
              cc (same_path, ap (λ (b : String → List ℕ). b (F.path_of h')) kept) in
            let hasher' = D.update hasher (take k (drop pos file)) in
            let rest =
              hash_loop-Hashed wrap fuel h' hasher' s'
                (omega (arith, l, moved, ap length same, nz, inside)) in
            record {
              after = rest.after;
              runs =
                  let something : (length (take k (drop pos file)) == 0) ≡ false = ground arith in
                  let ends : drop (F.pos_of h') (F.bytes s' (F.path_of h'))
                      ≡ drop k (drop pos file) =
                    cc (same, moved, drop-drop k pos file) in
                  let whole : D.update hasher' (drop (F.pos_of h') (F.bytes s' (F.path_of h')))
                      ≡ D.update hasher (drop pos file) =
                    ap (D.update hasher') ends
                    ∙ (L.update_append hasher (take k (drop pos file)) (drop k (drop pos file))
                        ∙ ap (D.update hasher) (take-append-drop k (drop pos file))) in
                  rw got (rw something (rest.runs ∙ ap (λ d. (ok (some d), rest.after)) whole));
              kept = rest.kept ∙ kept;
            }
      ]

  hash_opened-whole :
      {E : Type 0} (wrap : ℕ → E) (fuel : ℕ) (path : String) (s : F.Fs)
      → length (F.bytes s path) < fuel
      → (t : F.Fs) × (hash_opened F D wrap fuel path s ≡ (ok (some (D.hash (F.bytes s path))), t))
        × (F.bytes t ≡ F.bytes s)
  unfolding hash_opened
  hash_opened-whole wrap fuel path s l =
      let (h, s', opened, of, pos, kept) = R.opens path s in
      let same : F.bytes s' (F.path_of h) ≡ F.bytes s path =
        cc (of, ap (λ (b : String → List ℕ). b (F.path_of h)) kept) in
      let r = hash_loop-Hashed wrap fuel h D.new s' (omega (arith, l, ap length same)) in
      let whole : D.finalize (D.update D.new (drop (F.pos_of h) (F.bytes s' (F.path_of h))))
          ≡ D.hash (F.bytes s path) =
        rw same (rw pos (sym (L.hash_lem (F.bytes s path)))) in
      (r.after, rw opened (rw r.runs (rw whole refl)), r.kept ∙ kept)

  -- With more rounds than the file has bytes, hashing a file ends, with the hash of all its bytes, and
  -- changes no file; no read fails and the runtime is not stopped.
  pub hash_file-ends :
      (fuel : ℕ) (path : String) (s : F.Fs)
      → length (F.bytes s path) < fuel
      → (t : F.Fs) × (hash_file F D fuel path s ≡ (ok (some (D.hash (F.bytes s path))), t))
        × (F.bytes t ≡ F.bytes s)
  unfolding hash_file
  hash_file-ends fuel path s l =
      let (t, e, kept) = hash_opened-whole (io path) fuel path s l in
      let (u, joined, kept') = R.joins t in (u, rw e (rw joined refl), kept' ∙ kept)

  -- The verification of a file says whether all its bytes, as one chunk, have the expected hash.
  pub verify_file-verify_chunk :
      (fuel : ℕ) (path : String) (expected : List ℕ) (s : F.Fs)
      → length (F.bytes s path) < fuel
      → (t : F.Fs) × (verify_file F D fuel path expected s
          ≡ (ok (some (verify_chunk D (F.bytes s path) expected)), t))
        × (F.bytes t ≡ F.bytes s)
  unfolding verify_file verify_chunk
  verify_file-verify_chunk fuel path expected s l =
      let (t, e, kept) = hash_file-ends fuel path s l in
      (
        t,
        rw e (ap (λ h. (ok (some (same_hash h expected)), t)) (L.hash_lem (F.bytes s path))),
        kept,
      )

abbrev joined : List (List ℕ) → List ℕ
joined [] = []
joined (piece ∷ pieces) = piece ++ joined pieces

update_all-joined :
    (D : Digest) (L : IsDigest D) (pieces : List (List ℕ)) (self : IncrementalHasher D)
    → (update_all D pieces self).inner ≡ D.update self.inner (joined pieces)
unfolding update_all update
update_all-joined D L [] self = sym (L.update_nil self.inner)
update_all-joined D L (piece ∷ pieces) self =
    update_all-joined D L pieces (update D piece self)
    ∙ L.update_append self.inner piece (joined pieces)

-- BLAKE3 of a file is the same read to its end, in one call, and piece by piece, whatever the pieces:
-- with more rounds than the file has bytes, when no read fails.
pub blake3_file-update_all :
    (F : Files) (R : IsReadable F) (D : Digest) (L : IsDigest D) (fuel : ℕ) (path : String)
    (pieces : List (List ℕ)) (s : F.Fs)
    → length (F.bytes s path) < fuel
    → joined pieces ≡ F.bytes s path
    → (t : F.Fs) × (blake3_file F D fuel path s ≡ (ok (some (hash_bytes D (F.bytes s path))), t))
      × (finalize D (update_all D pieces (new_hasher D)) ≡ hash_bytes D (F.bytes s path))
unfolding blake3_file hash_bytes finalize new_hasher
blake3_file-update_all F R D L fuel path pieces s l e =
    let (t, runs, kept) = hash_opened-whole F R D L (λ e. e) fuel path s l in
    (
      t,
      runs,
      ap D.finalize (update_all-joined D L pieces (new_hasher D) ∙ ap (D.update D.new) e)
          ∙ sym (L.hash_lem (F.bytes s path)),
    )
