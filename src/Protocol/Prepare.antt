-- ===== src/Protocol/Prepare.antt =====
-- The manifest in `SendTransfer::send_files` of crates/justdrop-protocol/src/transfer.rs: an entry for
-- each file. `Path::file_name` and `to_lowercase` are arguments.
pub mod Entries
use just_drop.Base.{
  ℕ, zero, suc, ◌%◌, ◌^◌, String, str_eq, Bool, List, [], ◌∷◌, Option, none, some, Result, ok, err,
  Action, pure, continue, ◌>>=◌, map_err, if◌then◌else◌, ◌||◌,
}
use just_drop.Core.Types.{Platform, FileEntry, TransferManifest, new_manifest}
use just_drop.Storage.Files.{Files}
use just_drop.Storage.Hashing.{Digest, hash_file}
use just_drop.Protocol.Link.{ProtocolError, serialization}

unfoldable pub mime_of : String → String
mime_of ext =
    if str_eq ext "txt"
    then "text/plain"
    else if str_eq ext "html" || str_eq ext "htm"
    then "text/html"
    else if str_eq ext "pdf"
    then "application/pdf"
    else if str_eq ext "zip"
    then "application/zip"
    else if str_eq ext "png"
    then "image/png"
    else if str_eq ext "jpg" || str_eq ext "jpeg"
    then "image/jpeg"
    else if str_eq ext "gif"
    then "image/gif"
    else if str_eq ext "mp4"
    then "video/mp4"
    else if str_eq ext "mov"
    then "video/quicktime"
    else if str_eq ext "mp3"
    then "audio/mpeg"
    else if str_eq ext "json"
    then "application/json"
    else if str_eq ext "apk"
    then "application/vnd.android.package-archive"
    else if str_eq ext "dmg"
    then "application/x-apple-diskimage"
    else "application/octet-stream"

abbrev pub text_or : String → Option String → String
text_or otherwise none = otherwise
text_or otherwise (some s) = s

module _ (F : Files) (D : Digest) (file_name : String → Option String)
    (to_lowercase : String → String) where
  unfoldable pub mime_from_path : String → String
  mime_from_path path = mime_of (to_lowercase (text_or "" (F.extension path)))

  -- The entry of a file with this length and hash
  unfoldable pub entry_of : ℕ → String → ℕ → List ℕ → FileEntry
  entry_of i path size sha256 = record {
    index = i % 2 ^ 32;
    relative_path = text_or "file" (file_name path);
    size = size;
    sha256 = sha256;
    mime_type = mime_from_path path;
  }

  abbrev pub hashed : ℕ → String → ℕ → Option (List ℕ) → Option FileEntry
  hashed i path size none = none
  hashed i path size (some sha256) = some (entry_of i path size sha256)

  -- One round of the loop; none when the fuel of the hash does not suffice
  unfoldable pub file_entry : ℕ → ℕ → String → Action F.Fs ProtocolError (Option FileEntry)
  file_entry fuel i path = do
    size ← map_err (λ e. serialization) (F.metadata_len path)
    sha256 ← map_err (λ e. serialization) (hash_file F D fuel path)
    pure (hashed i path size sha256)

  abbrev pub both : Option FileEntry → Option (List FileEntry) → Option (List FileEntry)
  both (some e) (some es) = some (e ∷ es)
  both _ _ = none

  unfoldable pub file_entries :
      ℕ → ℕ → List String → Action F.Fs ProtocolError (Option (List FileEntry))
  file_entries fuel i [] = pure (some [])
  file_entries fuel i (path ∷ paths) = do
    e ← file_entry fuel i path
    es ← file_entries fuel (suc i) paths
    pure (both e es)

  abbrev pub listed : ℕ → Platform → String → ℕ → Option (List FileEntry) → Option TransferManifest
  listed uuid platform sender_name chunk_size none = none
  listed uuid platform sender_name chunk_size (some files) =
      some (new_manifest uuid platform files sender_name chunk_size)

  -- The manifest of the files, with a fresh UUID, the platform, the device's name and the chunk size
  unfoldable pub build_manifest :
      ℕ
      → Platform
      → String
      → ℕ
      → ℕ
      → List String
      → Action F.Fs ProtocolError (Option TransferManifest)
  build_manifest uuid platform sender_name chunk_size fuel file_paths = do
    files ← file_entries fuel 0 file_paths
    pure (listed uuid platform sender_name chunk_size files)
