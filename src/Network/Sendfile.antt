-- ===== src/Network/Sendfile.antt =====
-- crates/justdrop-network/src/sendfile.rs: a stretch of a file to a socket, by `sendfile(2)` of Linux
-- and of macOS, and the fallback, which only reads.
pub mod Linux
pub mod Macos
use just_drop.Base.{
  ℕ, zero, suc, ◌+◌, ◌-◌, ◌*◌, ◌≤◌, ◌≡◌, ◌⊎◌, String, Bool, List, [], ◌∷◌, ◌++◌, Option, none, some,
  Result, ok, err, Action, pure, continue, ◌>>=◌, ◌>>◌, if◌then◌else◌, ltb, ◌==◌, length, take,
  drop, min, sub_u64,
}

-- `SendfileResult`
pub record SendfileResult : Type 0 where
  pub bytes_sent : ℕ

-- What the code uses of the system: files, `sendfile(2)` to the socket, and the end of a
-- `spawn_blocking` task.
pub record Kernel : Type 1 where
  pub Sys : Type 0
  pub File : Type 0
  pub open_file : String → Sys → Result ℕ File × Sys
  pub file_len : File → Sys → Result ℕ ℕ × Sys
  -- the offset and the count
  pub sendfile : File → ℕ → ℕ → Sys → Result ℕ ℕ × Sys
  -- a `read` at the position of the file, for its number of bytes, and a `seek`
  pub read_len : File → ℕ → Sys → Result ℕ (ℕ × File) × Sys
  pub seek : File → ℕ → Sys → Result ℕ File × Sys
  pub join : Sys → Result ℕ (Unit {0}) × Sys
  -- what the laws speak of: the path of a file, its bytes, and what was written to the socket
  pub path_of : File → String
  pub bytes : Sys → String → List ℕ
  pub written : Sys → List ℕ

-- The documented effect of the calls, when they succeed: `sendfile` may send less than it was asked
-- for, but sends nothing only at the end of the file.
pub record IsSending (K : Kernel) : Type 0 where
  pub opens :
      (p : String) (s : K.Sys)
      → (f : K.File) × (t : K.Sys) × (K.open_file p s ≡ (ok f, t))
        × (K.path_of f ≡ p)
        × (K.bytes t ≡ K.bytes s)
        × (K.written t ≡ K.written s)
  pub lens :
      (f : K.File) (s : K.Sys)
      → (t : K.Sys) × (K.file_len f s ≡ (ok (length (K.bytes s (K.path_of f))), t))
        × (K.bytes t ≡ K.bytes s)
        × (K.written t ≡ K.written s)
  pub sends :
      (f : K.File) (off n : ℕ) (s : K.Sys)
      → (k : ℕ) × (t : K.Sys) × (K.sendfile f off n s ≡ (ok k, t))
        × (k ≤ n)
        × (k ≤ length (K.bytes s (K.path_of f)) - off)
        × (k ≡ 0 → (n ≡ 0) ⊎ (length (K.bytes s (K.path_of f)) ≤ off))
        × (K.bytes t ≡ K.bytes s)
        × (K.written t ≡ K.written s ++ take k (drop off (K.bytes s (K.path_of f))))
  pub joins : (s : K.Sys) → (t : K.Sys) × (K.join s ≡ (ok tt, t)) × (K.written t ≡ K.written s)

-- 1 MiB, and the buffer of 256 KiB
abbrev pub max_chunk : ℕ
max_chunk = 1024 * 1024

abbrev pub buffer : ℕ
buffer = 256 * 1024

-- The bytes to send: `file_size - offset` wraps in a release build.
unfoldable pub bytes_to_send : ℕ → ℕ → ℕ → ℕ
bytes_to_send offset count file_size =
    if count == 0 then sub_u64 file_size offset else min count (sub_u64 file_size offset)

abbrev pub result_of : Option ℕ → Option SendfileResult
result_of none = none
result_of (some n) = some (record { bytes_sent = n })

module _ (K : Kernel) where
  -- The loop of `sendfile_linux`; none when the fuel does not suffice
  unfoldable pub linux_loop : ℕ → K.File → ℕ → ℕ → ℕ → Action K.Sys ℕ (Option ℕ)
  linux_loop zero file to_send total_sent file_offset = pure none
  linux_loop (suc fuel) file to_send total_sent file_offset =
      if ltb total_sent to_send
      then (do
        n ← K.sendfile file file_offset (min (to_send - total_sent) max_chunk)
        if n == 0
            then pure (some total_sent)
            else linux_loop fuel file to_send (total_sent + n) (file_offset + n))
      else pure (some total_sent)

  unfoldable pub sendfile_linux : ℕ → String → ℕ → ℕ → Action K.Sys ℕ (Option SendfileResult)
  sendfile_linux fuel file_path offset count = do
    file ← K.open_file file_path
    file_size ← K.file_len file
    sent ← linux_loop fuel file (bytes_to_send offset count file_size) 0 offset
    K.join
    pure (result_of sent)

  -- The loop of `sendfile_fallback`, which reads and does not write
  unfoldable pub fallback_loop : ℕ → K.File → ℕ → ℕ → Action K.Sys ℕ (Option ℕ)
  fallback_loop zero file to_send total_sent = pure none
  fallback_loop (suc fuel) file to_send total_sent =
      if ltb total_sent to_send
      then (do
        (n, file') ← K.read_len file (min (to_send - total_sent) buffer)
        if n == 0
            then pure (some total_sent)
            else fallback_loop fuel file' to_send (total_sent + n))
      else pure (some total_sent)

  abbrev pub seek_if : K.File → ℕ → Action K.Sys ℕ K.File
  seek_if file offset = if ltb 0 offset then K.seek file offset else pure file

  unfoldable pub sendfile_fallback : ℕ → String → ℕ → ℕ → Action K.Sys ℕ (Option SendfileResult)
  sendfile_fallback fuel file_path offset count = do
    file ← K.open_file file_path
    file_size ← K.file_len file
    file' ← seek_if file offset
    sent ← fallback_loop fuel file' (bytes_to_send offset count file_size) 0
    pure (result_of sent)
