-- ===== src/Storage/Writer/Pieces.antt =====
-- One chunk written into its place in a file.
use just_drop.Base.{
  String, ◌≢◌, subst, sym, contains, mul_below, dec_lt, ℕ_discrete, ℕ, ◌+◌, ◌-◌, ◌*◌, ◌≤◌, ◌<◌, ◌≡◌,
  ◌∙◌, ap, List, true, ok, length, get_elem?, insert, contains-insert, mul_u64, arith, lt→leb,
}
use just_drop.Storage.Files.{Files, IsLawful, IsReliable, IsSeparate, splice}
use just_drop.Storage.Files.Splice.{
  length-splice, get_elem?-splice, get_elem?-past, slice, length-slice, get_elem?-slice,
}
use just_drop.Storage.Writer.{ChunkWriter, write_chunk, store_chunk}

module _ (F : Files) (L : IsLawful F) (R : IsReliable F) where
  -- What a stored chunk leaves: the writer with one more offset, and the file with the chunk in it.
  pub record Stored (w : ChunkWriter) (offset : ℕ) (d : List ℕ) (s : F.Fs) : Type 0 where
    pub after : F.Fs
    pub runs :
        write_chunk F w offset d s
        ≡ (ok (record w { completed_chunks = insert offset w.completed_chunks }, F.sha256 d), after)
    pub file :
        F.bytes after w.temp_path ≡ splice (mul_u64 offset w.chunk_size) d (F.bytes s w.temp_path)
    pub others : IsSeparate F → (p : String) → p ≢ w.temp_path → F.bytes after p ≡ F.bytes s p

  pub store :
      (w : ChunkWriter) (offset : ℕ) (d : List ℕ) (s : F.Fs)
      → offset < w.total_chunks
      → Stored w offset d s
  unfolding write_chunk store_chunk
  store w offset d s h =
      let (f, s1, e1) = R.opens w.temp_path s in
      let (g, s2, e2) = R.seeks f (mul_u64 offset w.chunk_size) s1 in
      let (s3, e3) = R.writes g d s2 in
      let (s4, e4) = R.flushes g s3 in
      let (s5, e5) = R.joins s4 in
      let o = L.open_write_lem w.temp_path s e1 in
      let k = L.seek_lem f (mul_u64 offset w.chunk_size) s1 e2 in
      let p = L.write_all_lem g d s2 e3 in
      record {
        after = s5;
        runs = rw (lt→leb w.total_chunks offset h) (rw e1 (rw e2 (rw e3 (rw e4 (rw e5)))));
        file =
            ap (λ b. b w.temp_path) (L.join_blocking_lem s4 e5 ∙ L.flush_lem g s3 e4)
            ∙ cc (p, k.0, k.1, k.2, o.0, o.1);
        others = λ sep q ne.
            ap (λ b. b q) (L.join_blocking_lem s4 e5 ∙ L.flush_lem g s3 e4)
            ∙ sep.write_all_other g d s2 e3 q (subst (λ t. q ≢ t) (sym (k.0 ∙ o.0)) ne)
            ∙ ap (λ b. b q) (k.2 ∙ o.1);
      }

-- In a file whose completed chunks hold the bytes of `content`
pub record Holds (content : List ℕ) (w : ChunkWriter) (file : List ℕ) : Type 0 where
  pub size : length file ≡ length content
  pub chunks :
      (k i : ℕ)
      → contains w.completed_chunks k ≡ true
      → k * w.chunk_size ≤ i
      → i < k * w.chunk_size + w.chunk_size
      → get_elem? file i ≡ get_elem? content i

-- The written chunk holds its bytes now.
splice-slice_inside :
    (content file : List ℕ) (cs k i : ℕ)
    → length file ≡ length content
    → k * cs ≤ length content
    → k * cs ≤ i
    → i < k * cs + cs
    → get_elem? (splice (k * cs) (slice cs content k) file) i ≡ get_elem? content i
splice-slice_inside content file cs k i e h lo hi = elim (dec_lt i (length content)) [
  | yes p ↦ ground (
    arith,
    get_elem?-splice (k * cs) (slice cs content k) file i,
    length-slice cs content k,
    get_elem?-slice cs content k (i - k * cs),
    ap (get_elem? content) (same p),
  )
  | no p ↦ ground (
    arith,
    get_elem?-splice (k * cs) (slice cs content k) file i,
    length-slice cs content k,
    get_elem?-past file i,
    get_elem?-past content i,
  )
]
  where
    same : i < length content → k * cs + (i - k * cs) ≡ i
    same p = omega arith

-- The bytes of the other chunks stay.
splice-slice_outside :
    (content file : List ℕ) (cs k j i : ℕ)
    → length file ≡ length content
    → k * cs ≤ length content
    → k ≢ j
    → j * cs ≤ i
    → i < j * cs + cs
    → get_elem? (splice (k * cs) (slice cs content k) file) i ≡ get_elem? file i
splice-slice_outside content file cs k j i e h ne lo hi = ground (
  arith,
  get_elem?-splice (k * cs) (slice cs content k) file i,
  length-slice cs content k,
  mul_below k j cs,
  mul_below j k cs,
)

pub splice-Holds :
    (content : List ℕ) (w : ChunkWriter) (file : List ℕ) (offset : ℕ)
    → offset * w.chunk_size ≤ length content
    → Holds content w file
    → Holds content
        (record w { completed_chunks = insert offset w.completed_chunks })
        (splice (offset * w.chunk_size) (slice w.chunk_size content offset) file)
splice-Holds content w file offset h v = record {
  size =
      length-splice (offset * w.chunk_size) (slice w.chunk_size content offset) file
        (omega (arith, length-slice w.chunk_size content offset, v.size))
      ∙ v.size;
  chunks = λ k i done lo hi. elim (ℕ_discrete offset k) [
    | yes e ↦
        splice-slice_inside content file w.chunk_size offset i v.size h
          (subst (λ m. m * w.chunk_size ≤ i) (sym e) lo)
          (subst (λ m. i < m * w.chunk_size + w.chunk_size) (sym e) hi)
    | no ne ↦
        splice-slice_outside content file w.chunk_size offset k i v.size h ne lo hi
        ∙ v.chunks k i (ground (arith, contains-insert offset k w.completed_chunks)) lo hi
  ];
}
