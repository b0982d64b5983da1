-- ===== src/Protocol/Receive/Named.antt =====
-- Where the files of a transfer are when the receiver has named them.
use just_drop.Base.{
  ℕ, zero, suc, ◌≡◌, ◌≢◌, refl, sym, ap, ◌∙◌, subst, String, true, false, List, [], ◌∷◌, Option,
  none, some, ok, arith, ◌⊎◌, inl, inr, Bool-cases, str_eq, eq_iff,
}
use just_drop.Storage.Files.{Files, IsRenaming}
use just_drop.Storage.Writer.{ChunkWriter, finalize, unique_path, uuid_path}
use just_drop.Storage.Writer.Naming.{unique_path_free}
use just_drop.Protocol.Link.{World, lift_fs}
use just_drop.Protocol.Receive.{Setting, get_writer, finalize_all}
use just_drop.Protocol.Receive.Names.{
  AreComplete, AreThere, HaveOwn, AreFresh, IsNoTemp, IsTemp, Named,
}

module _ (F : Files) (X : Setting F.Fs) where
  abbrev cons_dest : String → (ℕ → String) → ℕ → String
  cons_dest q f zero = q
  cons_dest q f (suc j) = f j

  exists-differ : (p q : String) (s : F.Fs) → F.exists p s ≡ true → F.exists q s ≡ false → p ≢ q
  exists-differ p q s h k e = absurd (ground (arith, sym h ∙ ap (λ r. F.exists r s) e ∙ k))

  module _ (N : IsRenaming F) where
    -- One file is named, and the rest after it.
    Named-cons :
        (wr : ChunkWriter) (ws : List (Option ChunkWriter)) (q : String) (s s1 t : F.Fs)
        → AreThere F X (some wr ∷ ws) s
        → HaveOwn F X (some wr ∷ ws)
        → F.exists q s ≡ false
        → F.bytes s1 q ≡ F.bytes s wr.temp_path
        → F.exists q s1 ≡ true
        → ((r : String)
            → r ≢ wr.temp_path
            → r ≢ q
            → (F.bytes s1 r ≡ F.bytes s r) × (F.exists r s1 ≡ F.exists r s))
        → Named F X ws s1 t
        → Named F X (some wr ∷ ws) s t
    unfolding get_writer
    Named-cons wr ws q s s1 t there own free moved here others rest =
        let no_temp : IsNoTemp F X q ws =
          λ j v g e. exists-differ v.temp_path q s (there (suc j) v g) free (sym e) in
        let after = rest.kept q here no_temp in
        record {
          dest = cons_dest q rest.dest;
          content = λ j v g. content_of j v g after;
          apart = apart_of;
          free = free_of;
          kept = λ p h no.
              let other = others p (no 0 wr refl) (exists-differ p q s h free) in
              let (same, there') = rest.kept p (other.1 ∙ h) (λ j v g. no (suc j) v g) in
              (same ∙ other.0, there');
        }
      where
        content_of :
            (j : ℕ) (v : ChunkWriter)
            → get_writer (some wr ∷ ws) j ≡ some v
            → (F.bytes t q ≡ F.bytes s1 q) × (F.exists q t ≡ true)
            → (F.bytes t (cons_dest q rest.dest j) ≡ F.bytes s v.temp_path)
              × (F.exists (cons_dest q rest.dest j) t ≡ true)
        content_of zero v g after =
            let same : wr ≡ v = cc in
            (after.0 ∙ moved ∙ ap (λ x. F.bytes s x.temp_path) same, after.1)
        content_of (suc j) v g after =
            let (e, h) = rest.content j v g in
            let other =
              others v.temp_path
                (λ e. own 0 (suc j) wr v refl g (λ z. absurd (omega (arith, z))) (sym e))
                (exists-differ v.temp_path q s (there (suc j) v g) free) in
            (e ∙ other.0, h)

        not_first : (k : ℕ) (v : ChunkWriter) → get_writer ws k ≡ some v → q ≢ rest.dest k
        not_first k v g e = elim (rest.free k v g) [
          | inl new ↦ exists-differ q (rest.dest k) s1 here new e
          | inr (l, x, h, same) ↦
              exists-differ x.temp_path q s (there (suc l) x h) free (sym (e ∙ same))
        ]

        apart_of :
            (j k : ℕ) (v x : ChunkWriter)
            → get_writer (some wr ∷ ws) j ≡ some v
            → get_writer (some wr ∷ ws) k ≡ some x
            → j ≢ k
            → cons_dest q rest.dest j ≢ cons_dest q rest.dest k
        apart_of zero zero v x g h ne = absurd (ne refl)
        apart_of zero (suc k) v x g h ne = not_first k x h
        apart_of (suc j) zero v x g h ne = λ e. not_first j v g (sym e)
        apart_of (suc j) (suc k) v x g h ne = rest.apart j k v x g h (λ z. ne (ap suc z))

        free_before :
            (d : String)
            → F.exists d s1 ≡ false
            → (F.exists d s ≡ false) ⊎ IsTemp F X d (some wr ∷ ws)
        free_before d new = elim (Bool-cases (F.exists d s)) [
          | inr gone ↦ inl gone
          | inl old ↦ elim (Bool-cases (str_eq d wr.temp_path)) [
            | inl e ↦ inr (0, wr, refl, (eq_iff d wr.temp_path).0 e)
            | inr n ↦
                let other =
                  others d (λ e. absurd (ground (arith, n, (eq_iff d wr.temp_path).1 e)))
                    (exists-differ d q s old free) in
                absurd (ground (arith, sym new ∙ other.1 ∙ old))
          ]
        ]

        free_of :
            (j : ℕ) (v : ChunkWriter)
            → get_writer (some wr ∷ ws) j ≡ some v
            → (F.exists (cons_dest q rest.dest j) s ≡ false)
              ⊎ IsTemp F X (cons_dest q rest.dest j) (some wr ∷ ws)
        free_of zero v g = inl free
        free_of (suc j) v g = elim (rest.free j v g) [
          | inl new ↦ free_before (rest.dest j) new
          | inr (k, x, h, e) ↦ inr (suc k, x, h, e)
        ]

    Named-none :
        (ws : List (Option ChunkWriter)) (s t : F.Fs) → Named F X ws s t → Named F X (none ∷ ws) s t
    unfolding get_writer
    Named-none ws s t n = record {
      dest = cons_dest "" n.dest;
      content = content_of;
      apart = apart_of;
      free = free_of;
      kept = λ p h no. n.kept p h (λ j. no (suc j));
    }
      where
        content_of :
            (j : ℕ) (v : ChunkWriter)
            → get_writer (none ∷ ws) j ≡ some v
            → (F.bytes t (cons_dest "" n.dest j) ≡ F.bytes s v.temp_path)
              × (F.exists (cons_dest "" n.dest j) t ≡ true)
        content_of zero v g = absurd (ground arith)
        content_of (suc j) v g = n.content j v g

        apart_of :
            (j k : ℕ) (v x : ChunkWriter)
            → get_writer (none ∷ ws) j ≡ some v
            → get_writer (none ∷ ws) k ≡ some x
            → j ≢ k
            → cons_dest "" n.dest j ≢ cons_dest "" n.dest k
        apart_of zero k v x g h ne = absurd (ground arith)
        apart_of (suc j) zero v x g h ne = absurd (ground arith)
        apart_of (suc j) (suc k) v x g h ne = n.apart j k v x g h (λ z. ne (ap suc z))

        free_of :
            (j : ℕ) (v : ChunkWriter)
            → get_writer (none ∷ ws) j ≡ some v
            → (F.exists (cons_dest "" n.dest j) s ≡ false)
              ⊎ IsTemp F X (cons_dest "" n.dest j) (none ∷ ws)
        free_of zero v g = absurd (ground arith)
        free_of (suc j) v g = elim (n.free j v g) [
          | inl new ↦ inl new
          | inr (k, x, h, e) ↦ inr (suc k, x, h, e)
        ]

    HaveOwn-tail :
        (o : Option ChunkWriter) (ws : List (Option ChunkWriter))
        → HaveOwn F X (o ∷ ws)
        → HaveOwn F X ws
    unfolding get_writer
    HaveOwn-tail o ws own j k v wr a b ne =
        own (suc j) (suc k) v wr a b (λ z. ne (omega (arith, z)))

    -- What naming the first file leaves for the others
    AreThere-tail :
        (wr : ChunkWriter) (ws : List (Option ChunkWriter)) (q : String) (s s1 : F.Fs)
        → AreThere F X (some wr ∷ ws) s
        → HaveOwn F X (some wr ∷ ws)
        → F.exists q s ≡ false
        → ((r : String)
            → r ≢ wr.temp_path
            → r ≢ q
            → (F.bytes s1 r ≡ F.bytes s r) × (F.exists r s1 ≡ F.exists r s))
        → AreThere F X ws s1
    unfolding get_writer
    AreThere-tail wr ws q s s1 there own free others j v g =
        let here = there (suc j) v g in
        (others v.temp_path (own (suc j) 0 v wr g refl (λ z. absurd (omega (arith, z))))
          (exists-differ v.temp_path q s here free)).1
        ∙ here

    -- The name that is found is free: it does not exist, or it is the one with the UUID.
    unique_path-unused :
        (path uuid : String) (s : F.Fs)
        → F.exists (uuid_path F path uuid) s ≡ false
        → F.exists (unique_path F path uuid s) s ≡ false
    unique_path-unused path uuid s h = elim (unique_path_free F path uuid s) [
      | inl free ↦ free
      | inr (same, all, taken) ↦ ap (λ p. F.exists p s) same ∙ h
    ]

    finalize-runs :
        (uuid : String) (wr : ChunkWriter) (s s1 : F.Fs)
        → F.rename wr.temp_path (unique_path F wr.dest_path uuid s) s ≡ (ok tt, s1)
        → finalize F uuid wr s ≡ (ok tt, s1)
    unfolding finalize
    finalize-runs uuid wr s s1 e = rw e

    -- When every file is complete, naming the files succeeds and says so, and afterwards the contents
    -- of every temporary file stand under a name of its own, which only a temporary file had, if any,
    -- and every other file that was there is unchanged. The temporary files exist and are different
    -- ones, and when it is the turn of a file, no file has the name with its fresh UUID.
    pub finalize_all-Named :
        (i : ℕ) (ws : List (Option ChunkWriter)) (w : World F.Fs)
        → AreComplete F X ws
        → AreThere F X ws w.fs
        → HaveOwn F X ws
        → AreFresh F X i ws w.fs
        → (t : F.Fs) × (finalize_all F X i ws w ≡ (ok true, record w { fs = t }))
          × Named F X ws w.fs t
    unfolding finalize_all lift_fs get_writer
    finalize_all-Named i [] w all there own free = (
      w.fs,
      refl,
      record {
        dest = λ j. "";
        content = λ j wr g. absurd (ground arith);
        apart = λ j k v wr g h ne. absurd (ground arith);
        free = λ j wr g. absurd (ground arith);
        kept = λ p h no. (refl, h);
      },
    )
    finalize_all-Named i (none ∷ ws) w all there own free =
        let (t, e, n) =
          finalize_all-Named (suc i) ws w (λ j. all (suc j)) (λ j. there (suc j))
            (HaveOwn-tail none ws own) free in
        (t, e, Named-none ws w.fs t n)
    finalize_all-Named i (some wr ∷ ws) w all there own free =
        let q = unique_path F wr.dest_path (X.uuid i) w.fs in
        let here = there 0 wr refl in
        let unused = unique_path-unused wr.dest_path (X.uuid i) w.fs free.0 in
        let (s1, e1, moved, made, others) =
          N.renames_lem wr.temp_path q w.fs here (exists-differ wr.temp_path q w.fs here unused) in
        let first = finalize-runs (X.uuid i) wr w.fs s1 e1 in
        let (t, e, n) =
          finalize_all-Named (suc i) ws (record w { fs = s1 }) (λ j. all (suc j))
            (AreThere-tail wr ws q w.fs s1 there own unused others) (HaveOwn-tail (some wr) ws own)
            (subst (λ x. AreFresh F X (suc i) ws x.1) first free.1) in
        (
          t,
          ground (arith, all 0 wr refl, first, e),
          Named-cons wr ws q w.fs s1 t there own unused moved made others n,
        )
