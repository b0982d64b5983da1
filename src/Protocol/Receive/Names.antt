-- ===== src/Protocol/Receive/Names.antt =====
-- What is asked of the writers before their files are named, and what is said of the names.
use just_drop.Base.{ℕ, suc, ◌≡◌, ◌≢◌, String, true, false, List, [], ◌∷◌, Option, none, some, ◌⊎◌}
use just_drop.Storage.Files.{Files}
use just_drop.Storage.Writer.{ChunkWriter, is_complete, finalize, uuid_path}
use just_drop.Protocol.Receive.{Setting, get_writer}

module _ (F : Files) (X : Setting F.Fs) where
  -- Every writer is complete.
  abbrev pub AreComplete : List (Option ChunkWriter) → Type 0
  AreComplete ws = (j : ℕ) (wr : ChunkWriter) → get_writer ws j ≡ some wr → is_complete wr ≡ true

  -- The temporary files exist.
  abbrev pub AreThere : List (Option ChunkWriter) → F.Fs → Type 0
  AreThere ws s =
      (j : ℕ) (wr : ChunkWriter) → get_writer ws j ≡ some wr → F.exists wr.temp_path s ≡ true

  -- The temporary files are different ones.
  abbrev pub HaveOwn : List (Option ChunkWriter) → Type 0
  HaveOwn ws =
      (j k : ℕ) (v wr : ChunkWriter)
      → get_writer ws j ≡ some v
      → get_writer ws k ≡ some wr
      → j ≢ k
      → v.temp_path ≢ wr.temp_path

  -- When it is the turn of a file, no file has the name with its fresh UUID.
  abbrev pub AreFresh : ℕ → List (Option ChunkWriter) → F.Fs → Type 0
  AreFresh i [] s = Unit {0}
  AreFresh i (none ∷ ws) s = AreFresh (suc i) ws s
  AreFresh i (some wr ∷ ws) s =
      (F.exists (uuid_path F wr.dest_path (X.uuid i)) s ≡ false)
      × AreFresh (suc i) ws (finalize F (X.uuid i) wr s).1

  -- No writer has its temporary file at the path.
  abbrev pub IsNoTemp : String → List (Option ChunkWriter) → Type 0
  IsNoTemp p ws = (j : ℕ) (wr : ChunkWriter) → get_writer ws j ≡ some wr → p ≢ wr.temp_path

  -- The path is the temporary file of one of the writers.
  abbrev pub IsTemp : String → List (Option ChunkWriter) → Type 0
  IsTemp p ws = (k : ℕ) × (v : ChunkWriter) × (get_writer ws k ≡ some v) × (p ≡ v.temp_path)

  -- Every file has a name of its own, where its contents are, and the files that were there are as
  -- before. No name is one of a file that was there, unless it was a temporary file.
  pub record Named (ws : List (Option ChunkWriter)) (s t : F.Fs) : Type 0 where
    pub dest : ℕ → String
    pub content :
        (j : ℕ) (wr : ChunkWriter)
        → get_writer ws j ≡ some wr
        → (F.bytes t (dest j) ≡ F.bytes s wr.temp_path) × (F.exists (dest j) t ≡ true)
    pub apart :
        (j k : ℕ) (v wr : ChunkWriter)
        → get_writer ws j ≡ some v
        → get_writer ws k ≡ some wr
        → j ≢ k
        → dest j ≢ dest k
    pub free :
        (j : ℕ) (wr : ChunkWriter)
        → get_writer ws j ≡ some wr
        → (F.exists (dest j) s ≡ false) ⊎ IsTemp (dest j) ws
    pub kept :
        (p : String)
        → F.exists p s ≡ true
        → IsNoTemp p ws
        → (F.bytes t p ≡ F.bytes s p) × (F.exists p t ≡ true)
