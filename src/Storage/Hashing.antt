-- ===== src/Storage/Hashing.antt =====
-- The hashes of whole files: `hash_file` of crates/justdrop-storage/src/chunker.rs with SHA-256,
-- hash.rs with BLAKE3, and the comparisons of integrity.rs. The hash functions are an interface.
pub mod Whole
use just_drop.Base.{
  ℕ, zero, suc, ◌≡◌, String, Bool, true, false, List, [], ◌∷◌, ◌++◌, Option, none, some, Result, ok,
  err, Action, pure, continue, ◌>>=◌, map_err, if◌then◌else◌, ◌&&◌, ◌==◌, length,
}
use just_drop.Storage.Files.{Files}
use just_drop.Storage.Chunker.{ReadError, io}

-- A hasher of the `sha2` or the `blake3` crate, and the hash of bytes in one call
pub record Digest : Type 1 where
  pub Hasher : Type 0
  pub new : Hasher
  pub update : Hasher → List ℕ → Hasher
  pub finalize : Hasher → List ℕ
  pub hash : List ℕ → List ℕ

-- What is documented of both: bytes may come in pieces, and the hash in one call is that of a new hasher.
pub record IsDigest (D : Digest) : Type 0 where
  pub update_append :
      (h : D.Hasher) (a b : List ℕ) → D.update (D.update h a) b ≡ D.update h (a ++ b)
  pub update_nil : (h : D.Hasher) → D.update h [] ≡ h
  pub hash_lem : (a : List ℕ) → D.hash a ≡ D.finalize (D.update D.new a)

abbrev pub buffer_size : ℕ
buffer_size = 262144

-- `actual == expected` on hashes
unfoldable pub same_hash : List ℕ → List ℕ → Bool
same_hash [] [] = true
same_hash (x ∷ xs) (y ∷ ys) = (x == y) && same_hash xs ys
same_hash _ _ = false

module _ (F : Files) (D : Digest) where
  -- The loop that reads to the end of the file: `none` when the fuel does not suffice
  unfoldable pub hash_loop :
      {E : Type 0} → (ℕ → E) → ℕ → F.Handle → D.Hasher → Action F.Fs E (Option D.Hasher)
  hash_loop wrap zero file hasher = pure none
  hash_loop wrap (suc fuel) file hasher = do
    (buf, file') ← map_err wrap (F.read file buffer_size)
    if length buf == 0 then pure (some hasher) else hash_loop wrap fuel file' (D.update hasher buf)

  abbrev pub finalized : Option D.Hasher → Option (List ℕ)
  finalized none = none
  finalized (some hasher) = some (D.finalize hasher)

  -- The file opened and hashed
  unfoldable pub hash_opened : {E : Type 0} → (ℕ → E) → ℕ → String → Action F.Fs E (Option (List ℕ))
  hash_opened wrap fuel path = do
    file ← map_err wrap (F.open_read path)
    hasher ← hash_loop wrap fuel file D.new
    pure (finalized hasher)

  abbrev pub unless_stopped :
      Result ReadError (Option (List ℕ))
      → Result ℕ (Unit {0}) × F.Fs
      → Result ReadError (Option (List ℕ)) × F.Fs
  unless_stopped r (ok x, s) = (r, s)
  unless_stopped r (err e, s) = (err (io "hash_file" e), s)

  -- `chunker::hash_file`, in a task of its own
  unfoldable pub hash_file : ℕ → String → Action F.Fs ReadError (Option (List ℕ))
  hash_file fuel path s =
      let (r, s') = hash_opened (io path) fuel path s in unless_stopped r (F.join_blocking s')

  -- `hash::hash_file`
  unfoldable pub blake3_file : ℕ → String → Action F.Fs ℕ (Option (List ℕ))
  blake3_file fuel path = hash_opened (λ e. e) fuel path

  -- `verify_file`
  abbrev pub matches : List ℕ → Option (List ℕ) → Option Bool
  matches expected none = none
  matches expected (some actual) = some (same_hash actual expected)

  unfoldable pub verify_file : ℕ → String → List ℕ → Action F.Fs ReadError (Option Bool)
  verify_file fuel path expected = do actual ← hash_file fuel path; pure (matches expected actual)

module _ (D : Digest) where
  -- `verify_chunk`
  unfoldable pub verify_chunk : List ℕ → List ℕ → Bool
  verify_chunk bytes expected = same_hash (D.finalize (D.update D.new bytes)) expected

  -- `hash_bytes`
  unfoldable pub hash_bytes : List ℕ → List ℕ
  hash_bytes bytes = D.hash bytes

  pub record IncrementalHasher : Type 0 where
    pub inner : D.Hasher

  unfoldable pub new_hasher : IncrementalHasher
  new_hasher = record { inner = D.new }

  unfoldable pub update : List ℕ → IncrementalHasher → IncrementalHasher
  update bytes self = record { inner = D.update self.inner bytes }

  unfoldable pub finalize : IncrementalHasher → List ℕ
  finalize self = D.finalize self.inner

  unfoldable pub finalize_peek : IncrementalHasher → List ℕ
  finalize_peek self = D.finalize self.inner

  -- Pieces fed one after the other
  unfoldable pub update_all : List (List ℕ) → IncrementalHasher → IncrementalHasher
  update_all [] self = self
  update_all (piece ∷ pieces) self = update_all pieces (update piece self)
