-- ===== src/Storage/Chunker/Reading.antt =====
-- A chunk is read whole, however the file system cuts the reads.
use just_drop.Base.{
  ℕ, zero, suc, ◌+◌, ◌-◌, ◌*◌, ◌≤◌, ◌<◌, ◌≡◌, refl, ◌∙◌, ap, sym, String, List, [], ◌++◌, ok, ltb,
  ◌==◌, mul_u64, u64_mod, length, take, drop, min, arith, length-take, length-drop, inl, inr,
  Bool-cases, ℕ_discrete,
}
use just_drop.Core.Types.Chunks.{no_wrap}
use just_drop.Storage.Files.{Files, IsReadable}
use just_drop.Base.{true, false, get_elem?, get_elem?-ext}
use just_drop.Storage.Files.Splice.{
  slice, get_elem?-append, get_elem?-take, get_elem?-drop, get_elem?-past,
}
use just_drop.Storage.Chunker.{FileChunker, chunker_count, read_loop, open_at, read_chunk}

-- A stretch of a file read in two goes
pub take-drop-split :
    (pos k n : ℕ) (xs : List ℕ)
    → k ≤ n
    → k ≤ length xs - pos
    → take k (drop pos xs) ++ take (n - k) (drop (pos + k) xs) ≡ take n (drop pos xs)
take-drop-split pos k n xs h l =
    get_elem?-ext (take k (drop pos xs) ++ take (n - k) (drop (pos + k) xs)) (take n (drop pos xs))
      λ i. ground (
        arith,
        get_elem?-append (take k (drop pos xs)) (take (n - k) (drop (pos + k) xs)) i,
        length-take k (drop pos xs),
        length-drop pos xs,
        get_elem?-take k (drop pos xs) i,
        get_elem?-take n (drop pos xs) i,
        get_elem?-take (n - k) (drop (pos + k) xs) (i - k),
        get_elem?-drop pos xs i,
        get_elem?-drop (pos + k) xs (i - k),
        ap (get_elem? xs) (at i),
      )
  where
    at : (i : ℕ) → pos + k + (i - k) ≡ pos + (k + (i - k))
    at i = omega arith

pub take-drop-past : (pos n : ℕ) (xs : List ℕ) → length xs ≤ pos → take n (drop pos xs) ≡ []
take-drop-past pos n xs h = get_elem?-ext (take n (drop pos xs)) [] λ i.
    ground (
      arith,
      get_elem?-take n (drop pos xs) i,
      get_elem?-drop pos xs i,
      get_elem?-past xs (pos + i),
    )

take-none : (n : ℕ) (xs : List ℕ) → n ≡ 0 → [] ≡ take n xs
take-none n xs e = rw e

-- Reading past the end adds nothing.
take-min :
    (off cs : ℕ) (xs : List ℕ)
    → take (min (length xs - off) cs) (drop off xs) ≡ take cs (drop off xs)
take-min off cs xs =
    get_elem?-ext (take (min (length xs - off) cs) (drop off xs)) (take cs (drop off xs)) λ i.
      ground (
        arith,
        get_elem?-take (min (length xs - off) cs) (drop off xs) i,
        get_elem?-take cs (drop off xs) i,
        get_elem?-drop off xs i,
        get_elem?-past xs (off + i),
      )

module _ (F : Files) (R : IsReadable F) where
  -- With a round for each byte wanted, the loop reads the whole stretch.
  record HasRead (fuel : ℕ) (path : String) (h : F.Handle) (want : ℕ) (s : F.Fs) : Type 0 where
    after : F.Fs
    runs :
        read_loop F fuel path h want s
        ≡ (ok (take want (drop (F.pos_of h) (F.bytes s (F.path_of h)))), after)
    kept : F.bytes after ≡ F.bytes s

  read_loop-HasRead :
      (fuel : ℕ) (path : String) (h : F.Handle) (want : ℕ) (s : F.Fs)
      → want ≤ fuel
      → HasRead fuel path h want s
  unfolding read_loop
  read_loop-HasRead zero path h want s w = record {
    after = s;
    runs = ap (λ d. (ok d, s)) (take-none want _ (omega arith));
    kept = refl;
  }
  read_loop-HasRead (suc fuel) path h want s w = elim (ℕ_discrete want 0) [
    | yes e ↦ record {
      after = s;
      runs =
          let none_left : (want == 0) ≡ true = ground arith in
          rw none_left (ap (λ d. (ok d, s)) (take-none want _ e));
      kept = refl;
    }
    | no ne ↦
        let file = F.bytes s (F.path_of h) in
        let pos = F.pos_of h in
        let (k, h', s', got, upto, inside, stop, same_path, moved, kept) = R.reads h want s in
        let some_left : (want == 0) ≡ false = ground arith in
        let size : length (take k (drop pos file)) ≡ k =
          omega (arith, length-take k (drop pos file), length-drop pos file) in
        elim (ℕ_discrete k 0) [
          | yes e ↦ record {
            after = s';
            runs =
                let nothing : (length (take k (drop pos file)) == 0) ≡ true = ground arith in
                rw some_left (
                  rw got (
                    rw nothing (
                      ap (λ d. (ok d, s'))
                        (sym (take-drop-past pos want file (ground (arith, stop e)))))));
            kept = kept;
          }
          | no nz ↦
              let rest =
                read_loop-HasRead fuel path h' (want - length (take k (drop pos file))) s'
                  (omega arith) in
              record {
                after = rest.after;
                runs =
                    let something : (length (take k (drop pos file)) == 0) ≡ false = ground arith in
                    rw some_left (
                      rw got (
                        rw something (
                          rw rest.runs (
                            ap (λ d. (ok d, rest.after))
                              (cc (
                                take-drop-split pos k want file upto inside,
                                ap (λ (b : String → List ℕ). b (F.path_of h')) kept,
                              ))))));
                kept = rest.kept ∙ kept;
              }
        ]
  ]

  open_at_lem :
      (c : FileChunker) (off : ℕ) (s : F.Fs)
      → (h : F.Handle) × (t : F.Fs) × (open_at F c off s ≡ (ok h, t))
        × (F.path_of h ≡ c.path)
        × (F.pos_of h ≡ off)
        × (F.bytes t ≡ F.bytes s)
  unfolding open_at
  open_at_lem c off s =
      let (f, t, e, path, pos, same) = R.opens c.path s in
      let (g, u, e2, path2, pos2, same2) = R.seeks f off t in
      elim (Bool-cases (ltb 0 off)) [
        | inl later ↦ (g, u, rw e (rw later (rw e2)), path2 ∙ path, pos2, same2 ∙ same)
        | inr start ↦ (f, t, rw e (rw start), path, omega (arith, pos, zero_off start), same)
      ]
    where
      zero_off : ltb 0 off ≡ false → off ≡ 0
      zero_off e = ground arith

  -- Every chunk of a file whose length is known is read whole and unchanged, with its hash, however the
  -- reads are cut, if no read fails.
  pub read_chunk-slice :
      (c : FileChunker) (offset : ℕ) (s : F.Fs)
      → 0 < c.chunk_size
      → length (F.bytes s c.path) ≡ c.file_size
      → c.file_size < u64_mod
      → offset < chunker_count c
      → (t : F.Fs) × (read_chunk F c offset s ≡ (
        ok (record {
          id = record { file_index = c.file_index; chunk_offset = offset };
          bytes = slice c.chunk_size (F.bytes s c.path) offset;
          sha256 = F.sha256 (slice c.chunk_size (F.bytes s c.path) offset);
        }),
        t,
      ))
        × (F.bytes t ≡ F.bytes s)
  unfolding read_chunk chunker_count
  read_chunk-slice c offset s p l u o =
      let (exact, inside) = no_wrap c.file_size c.chunk_size offset p u o in
      let off = mul_u64 offset c.chunk_size in
      let size = min (c.file_size - off) c.chunk_size in
      let (h, t, opened, path, pos, same) = open_at_lem c off s in
      let r = read_loop-HasRead size c.path h size t (omega arith) in
      let (v, joined, same2) = R.joins r.after in
      let got : take size (drop (F.pos_of h) (F.bytes t (F.path_of h)))
          ≡ slice c.chunk_size (F.bytes s c.path) offset =
        cc (
          take-min (offset * c.chunk_size) c.chunk_size (F.bytes s c.path),
          path,
          pos,
          exact,
          l,
          ap (λ (b : String → List ℕ). b (F.path_of h)) same,
        ) in
      (v, rw opened (rw r.runs (rw joined (rw got))), same2 ∙ r.kept ∙ same)
