-- ===== src/Protocol/Prepare/Entries.antt =====
-- The manifest describes the files as they are.
use just_drop.Base.{ℕ, suc, ◌<◌, ◌≡◌, String, List, [], ◌∷◌, Option, ok, length}
use just_drop.Core.Types.{FileEntry}
use just_drop.Storage.Files.{Files, IsReadable}
use just_drop.Storage.Hashing.{Digest, IsDigest}
use just_drop.Protocol.Prepare.{entry_of}

-- The length of a file is found, and nothing is changed.
abbrev pub IsMeasurable : Files → Type 0
IsMeasurable F =
    (p : String) (s : F.Fs)
    → (t : F.Fs) × (F.metadata_len p s ≡ (ok (length (F.bytes s p)), t)) × (F.bytes t ≡ F.bytes s)

abbrev pub AreShorter : ℕ → (String → List ℕ) → List String → Type 0
AreShorter fuel bytes [] = Unit {0}
AreShorter fuel bytes (p ∷ paths) = (length (bytes p) < fuel) × AreShorter fuel bytes paths

module _ (F : Files) (R : IsReadable F) (M : IsMeasurable F) (D : Digest) (L : IsDigest D)
    (file_name : String → Option String) (to_lowercase : String → String) where
  -- The entries of files with the given bytes, numbered from `i` on
  unfoldable pub entries_of : ℕ → List String → (String → List ℕ) → List FileEntry
  entries_of i [] bytes = []
  entries_of i (p ∷ paths) bytes =
      entry_of F D file_name to_lowercase i p (length (bytes p)) (D.hash (bytes p))
      ∷ entries_of (suc i) paths bytes
