-- ===== src/Storage/Files/Memory.antt =====
-- A file system in memory: every call succeeds, and a read returns three bytes at most. It shows that the assumptions can be met.
use just_drop.Base.{
  min, drop, ltb, ◌==◌, none, some, ℕ, ◌+◌, ◌-◌, String, List, [], ◌++◌, ◌≡◌, refl, ok, str_eq,
  if◌then◌else◌, length, take, replicate, arith, eq_refl, eq_iff, sym, ap, ◌∙◌, ◌≢◌, length-append,
  length-take, length-replicate,
}
use Prim.Native.String.{◌++◌ as str_append}
use just_drop.Storage.Files.{
  Files, IsLawful, IsReliable, IsReadable, IsSeparate, IsCreating, IsRenaming, splice,
}

abbrev pub Memory : Type 0
Memory = String → List ℕ

abbrev pub update : Memory → String → List ℕ → Memory
update m p d q = if str_eq p q then d else m q

-- Truncated, or filled up with zeros
abbrev pub resize : ℕ → List ℕ → List ℕ
resize n d = take n d ++ replicate (n - length d) 0

pub record Handle : Type 0 where
  pub path : String
  pub pos : ℕ

abbrev pub memory_files : Files
memory_files = record {
  Fs = Memory;
  Handle = Handle;
  create_dir_all = λ p m. (ok tt, m);
  open_create = λ p m. (ok (record { path = p; pos = 0 }), m);
  open_write = λ p m. (ok (record { path = p; pos = 0 }), m);
  set_len = λ h n m. (ok tt, update m h.path (resize n (m h.path)));
  seek = λ h off m. (ok (record h { pos = off }), m);
  write_all = λ h d m. (ok tt, update m h.path (splice h.pos d (m h.path)));
  flush = λ h m. (ok tt, m);
  metadata_len = λ p m. (ok (length (m p)), m);
  open_read = λ p m. (ok (record { path = p; pos = 0 }), m);
  read = λ h n m.
      let k = min (min n 3) (length (m h.path) - h.pos) in
      (ok (take k (drop h.pos (m h.path)), record h { pos = h.pos + k }), m);
  is_not_found = λ e. e == 2;
  rename = λ p q m. (ok tt, update (update m q (m p)) p []);
  remove_file = λ p m. (ok tt, update m p []);
  exists = λ p m. ltb 0 (length (m p));
  join_blocking = λ m. (ok tt, m);
  sha256 = λ d. d;
  with_extension = λ p e. str_append p ".part";
  parent = λ p. none;
  file_stem = λ p. some p;
  extension = λ p. none;
  join = λ d p. str_append d p;
  show_number = λ n. if n == 1 then "1" else "2";
  path_of = λ h. h.path;
  pos_of = λ h. h.pos;
  bytes = λ m. m;
}

pub memory_files-IsLawful : IsLawful memory_files
memory_files-IsLawful = record {
  open_write_lem = λ p s e. (ground arith, ground arith);
  seek_lem = λ h off s e. (ground arith, ground arith, ground arith);
  write_all_lem = λ h d s {s'} e.
      let written : update s h.path (splice h.pos d (s h.path)) ≡ s' = cc in
      rw (← written) (rw (eq_refl h.path));
  flush_lem = λ h s e. ground arith;
  join_blocking_lem = λ s e. ground arith;
}

pub memory_files-IsReliable : IsReliable memory_files
memory_files-IsReliable = record {
  opens = λ p s. (record { path = p; pos = 0 }, s, refl);
  seeks = λ h off s. (record h { pos = off }, s, refl);
  writes = λ h d s. (update s h.path (splice h.pos d (s h.path)), refl);
  flushes = λ h s. (s, refl);
  joins = λ s. (s, refl);
}

pub memory_files-IsReadable : IsReadable memory_files
memory_files-IsReadable = record {
  opens = λ p s. (record { path = p; pos = 0 }, s, refl, refl, refl, refl);
  seeks = λ h off s. (record h { pos = off }, s, refl, refl, refl, refl);
  reads = λ h n s.
      let k = min (min n 3) (length (s h.path) - h.pos) in
      (
        k,
        record h { pos = h.pos + k },
        s,
        refl,
        omega arith,
        omega arith,
        (λ e. omega arith),
        refl,
        refl,
        refl,
      );
  joins = λ s. (s, refl, refl);
}

update-other : (m : Memory) (p : String) (d : List ℕ) (q : String) → q ≢ p → update m p d q ≡ m q
update-other m p d q ne = ground (arith, eq_iff p q, λ (e : p ≡ q). ne (sym e))

length-resize : (n : ℕ) (d : List ℕ) → length (resize n d) ≡ n
length-resize n d = omega (
  arith,
  length-append (take n d) (replicate (n - length d) 0),
  length-take n d,
  length-replicate {A = ℕ} (n - length d) 0,
)

pub memory_files-IsSeparate : IsSeparate memory_files
memory_files-IsSeparate = record {
  set_len_other = λ h n s {s'} e p ne.
      let made : update s h.path (resize n (s h.path)) ≡ s' = cc in
      rw (← made) (update-other s h.path (resize n (s h.path)) p ne);
  write_all_other = λ h d s {s'} e p ne.
      let made : update s h.path (splice h.pos d (s h.path)) ≡ s' = cc in
      rw (← made) (update-other s h.path (splice h.pos d (s h.path)) p ne);
}

pub memory_files-IsCreating : IsCreating memory_files
memory_files-IsCreating = record {
  makes_dir = λ p s. (s, refl, refl);
  creates = λ p s. (record { path = p; pos = 0 }, s, refl, refl, refl);
  sets_len = λ h n s. (
    update s h.path (resize n (s h.path)),
    refl,
    rw (eq_refl h.path) (length-resize n (s h.path)),
  );
  renames = λ p q s. (update (update s q (s p)) p [], refl);
}

pub memory_files-IsRenaming : IsRenaming memory_files
memory_files-IsRenaming = record {
  renames_lem = λ p q s here ne.
      let s' = update (update s q (s p)) p [] in
      let moved : s' q ≡ s p =
        update-other (update s q (s p)) p [] q (λ e. ne (sym e)) ∙ rw (eq_refl q) in
      (
        s',
        refl,
        moved,
        ap (λ d. ltb 0 (length d)) moved ∙ here,
        λ r np nq.
            let same : s' r ≡ s r =
              update-other (update s q (s p)) p [] r np ∙ update-other s q (s p) r nq in
            (same, ap (λ d. ltb 0 (length d)) same),
      );
}
