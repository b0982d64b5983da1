-- ===== src/Storage/Files.antt =====
-- What crates/justdrop-storage uses of the file system (`tokio::fs`): an interface, since that code
-- is not in the repository. A call returns its result and the new state, also when it fails; an
-- error is the code of a `std::io::Error`.
pub mod Memory
pub mod Splice
use just_drop.Base.{
  take, ◌-◌, ◌≤◌, ◌⊎◌, Option, ℕ, zero, suc, ◌+◌, String, Bool, true, List, [], ◌∷◌, ◌++◌, ◌≡◌, ◌≢◌,
  Result, ok, err, length, drop,
}

-- The bytes of a file after `data` is written at an offset: a gap before it is filled with zeros.
abbrev pub splice : ℕ → List ℕ → List ℕ → List ℕ
splice zero d file = d ++ drop (length d) file
splice (suc off) d [] = 0 ∷ splice off d []
splice (suc off) d (b ∷ file) = b ∷ splice off d file

pub record Files : Type 1 where
  pub Fs : Type 0
  pub Handle : Type 0
  pub create_dir_all : String → Fs → Result ℕ (Unit {0}) × Fs
  -- `OpenOptions::new().create(true).truncate(false).write(true).open(path)`
  pub open_create : String → Fs → Result ℕ Handle × Fs
  -- `OpenOptions::new().write(true).open(path)`
  pub open_write : String → Fs → Result ℕ Handle × Fs
  pub set_len : Handle → ℕ → Fs → Result ℕ (Unit {0}) × Fs
  pub seek : Handle → ℕ → Fs → Result ℕ Handle × Fs
  pub write_all : Handle → List ℕ → Fs → Result ℕ (Unit {0}) × Fs
  pub flush : Handle → Fs → Result ℕ (Unit {0}) × Fs
  -- `tokio::fs::metadata(path)`, for the length
  pub metadata_len : String → Fs → Result ℕ ℕ × Fs
  -- `File::open(path)`, and one `read` into a buffer of the given size
  pub open_read : String → Fs → Result ℕ Handle × Fs
  pub read : Handle → ℕ → Fs → Result ℕ (List ℕ × Handle) × Fs
  -- whether an error is `ErrorKind::NotFound`
  pub is_not_found : ℕ → Bool
  pub rename : String → String → Fs → Result ℕ (Unit {0}) × Fs
  pub remove_file : String → Fs → Result ℕ (Unit {0}) × Fs
  -- `try_exists(path).await.unwrap_or(false)`
  pub exists : String → Fs → Bool
  -- the end of a `spawn_blocking` task, which fails when the runtime stops
  pub join_blocking : Fs → Result ℕ (Unit {0}) × Fs
  -- the `sha2` crate
  pub sha256 : List ℕ → List ℕ
  -- `std::path::Path`
  pub with_extension : String → String → String
  pub parent : String → Option String
  pub file_stem : String → Option String
  pub extension : String → Option String
  pub join : String → String → String
  -- a number in a format string
  pub show_number : ℕ → String
  -- what the laws speak of: the file and position of a handle, and the bytes of a file
  pub path_of : Handle → String
  pub pos_of : Handle → ℕ
  pub bytes : Fs → String → List ℕ

-- The documented effect of the calls that write, when they succeed.
pub record IsLawful (F : Files) : Type 0 where
  pub open_write_lem :
      (p : String) (s : F.Fs) {h : F.Handle} {s' : F.Fs}
      → F.open_write p s ≡ (ok h, s')
      → (F.path_of h ≡ p) × (F.bytes s' ≡ F.bytes s)
  pub seek_lem :
      (h : F.Handle) (off : ℕ) (s : F.Fs) {h' : F.Handle} {s' : F.Fs}
      → F.seek h off s ≡ (ok h', s')
      → (F.path_of h' ≡ F.path_of h) × (F.pos_of h' ≡ off) × (F.bytes s' ≡ F.bytes s)
  pub write_all_lem :
      (h : F.Handle) (d : List ℕ) (s : F.Fs) {s' : F.Fs}
      → F.write_all h d s ≡ (ok tt, s')
      → F.bytes s' (F.path_of h) ≡ splice (F.pos_of h) d (F.bytes s (F.path_of h))
  pub join_blocking_lem :
      (s : F.Fs) {s' : F.Fs} → F.join_blocking s ≡ (ok tt, s') → F.bytes s' ≡ F.bytes s
  pub flush_lem :
      (h : F.Handle) (s : F.Fs) {s' : F.Fs} → F.flush h s ≡ (ok tt, s') → F.bytes s' ≡ F.bytes s

-- The calls that store a chunk succeed: no `std::io::Error`, and the runtime is not stopped.
pub record IsReliable (F : Files) : Type 0 where
  pub opens :
      (p : String) (s : F.Fs) → (h : F.Handle) × (s' : F.Fs) × (F.open_write p s ≡ (ok h, s'))
  pub seeks :
      (h : F.Handle) (off : ℕ) (s : F.Fs)
      → (h' : F.Handle) × (s' : F.Fs) × (F.seek h off s ≡ (ok h', s'))
  pub writes :
      (h : F.Handle) (d : List ℕ) (s : F.Fs) → (s' : F.Fs) × (F.write_all h d s ≡ (ok tt, s'))
  pub flushes : (h : F.Handle) (s : F.Fs) → (s' : F.Fs) × (F.flush h s ≡ (ok tt, s'))
  pub joins : (s : F.Fs) → (s' : F.Fs) × (F.join_blocking s ≡ (ok tt, s'))

-- `metadata(path).len()` is the number of bytes in the file.
abbrev pub HasLengths : Files → Type 0
HasLengths F =
    (p : String) (s : F.Fs) (n : ℕ) (t : F.Fs)
    → F.metadata_len p s ≡ (ok n, t)
    → (n ≡ length (F.bytes s p)) × (F.bytes t ≡ F.bytes s)

-- The documented effect of the calls that read. `read` may return fewer bytes than were asked for,
-- but returns none only at the end of the file.
pub record IsReadable (F : Files) : Type 0 where
  pub opens :
      (p : String) (s : F.Fs)
      → (h : F.Handle) × (s' : F.Fs) × (F.open_read p s ≡ (ok h, s'))
        × (F.path_of h ≡ p)
        × (F.pos_of h ≡ 0)
        × (F.bytes s' ≡ F.bytes s)
  pub seeks :
      (h : F.Handle) (off : ℕ) (s : F.Fs)
      → (h' : F.Handle) × (s' : F.Fs) × (F.seek h off s ≡ (ok h', s'))
        × (F.path_of h' ≡ F.path_of h)
        × (F.pos_of h' ≡ off)
        × (F.bytes s' ≡ F.bytes s)
  pub reads :
      (h : F.Handle) (n : ℕ) (s : F.Fs)
      → (k : ℕ) × (h' : F.Handle) × (s' : F.Fs) × (F.read h n s
          ≡ (ok (take k (drop (F.pos_of h) (F.bytes s (F.path_of h))), h'), s'))
        × (k ≤ n)
        × (k ≤ length (F.bytes s (F.path_of h)) - F.pos_of h)
        × (k ≡ 0 → (n ≡ 0) ⊎ (length (F.bytes s (F.path_of h)) ≤ F.pos_of h))
        × (F.path_of h' ≡ F.path_of h)
        × (F.pos_of h' ≡ F.pos_of h + k)
        × (F.bytes s' ≡ F.bytes s)
  pub joins :
      (s : F.Fs) → (s' : F.Fs) × (F.join_blocking s ≡ (ok tt, s')) × (F.bytes s' ≡ F.bytes s)

-- What one call does to a file leaves the other files as they are.
pub record IsSeparate (F : Files) : Type 0 where
  pub set_len_other :
      (h : F.Handle) (n : ℕ) (s : F.Fs) {s' : F.Fs}
      → F.set_len h n s ≡ (ok tt, s')
      → (p : String) → p ≢ F.path_of h
      → F.bytes s' p ≡ F.bytes s p
  pub write_all_other :
      (h : F.Handle) (d : List ℕ) (s : F.Fs) {s' : F.Fs}
      → F.write_all h d s ≡ (ok tt, s')
      → (p : String) → p ≢ F.path_of h
      → F.bytes s' p ≡ F.bytes s p

-- The calls that make a file, and the one that renames it, succeed; a file that is made has the
-- length that was set.
pub record IsCreating (F : Files) : Type 0 where
  pub makes_dir :
      (p : String) (s : F.Fs)
      → (s' : F.Fs) × (F.create_dir_all p s ≡ (ok tt, s')) × (F.bytes s' ≡ F.bytes s)
  pub creates :
      (p : String) (s : F.Fs)
      → (h : F.Handle) × (s' : F.Fs) × (F.open_create p s ≡ (ok h, s'))
        × (F.path_of h ≡ p)
        × (F.bytes s' ≡ F.bytes s)
  pub sets_len :
      (h : F.Handle) (n : ℕ) (s : F.Fs)
      → (s' : F.Fs) × (F.set_len h n s ≡ (ok tt, s')) × (length (F.bytes s' (F.path_of h)) ≡ n)
  pub renames : (p q : String) (s : F.Fs) → (s' : F.Fs) × (F.rename p q s ≡ (ok tt, s'))

-- A file that exists is renamed: the new name has its bytes, and all other files stay.
pub record IsRenaming (F : Files) : Type 0 where
  pub renames_lem :
      (p q : String) (s : F.Fs)
      → F.exists p s ≡ true
      → p ≢ q
      → (s' : F.Fs) × (F.rename p q s ≡ (ok tt, s'))
        × (F.bytes s' q ≡ F.bytes s p)
        × (F.exists q s' ≡ true)
        × ((r : String)
            → r ≢ p
            → r ≢ q
            → (F.bytes s' r ≡ F.bytes s r) × (F.exists r s' ≡ F.exists r s))
