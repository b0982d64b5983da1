-- ===== src/Storage/Resume/Manager.antt =====
-- `ResumeManager` of crates/justdrop-storage/src/resume.rs: the state of an interrupted transfer,
-- kept in one file per transfer. The calls of `tokio::fs` and of `serde_json` are an interface.
use just_drop.Base.{
  ℕ, String, str_eq, Bool, not, List, [], ◌∷◌, Option, none, some, Result, ok, err, Action, pure,
  raise, ◌>>=◌, map_err, if◌then◌else◌,
}

-- `FileResumeState`
pub record FileResumeState : Type 0 where
  pub file_index : ℕ
  pub dest_path : String
  pub temp_path : String
  pub file_size : ℕ
  pub chunk_size : ℕ
  pub completed_chunks : List ℕ

-- `TransferResumeState`
pub record TransferResumeState : Type 0 where
  pub transfer_id : ℕ
  pub last_updated : ℕ
  pub files : List FileResumeState
  pub bytes_transferred : ℕ
  pub total_bytes : ℕ

-- `StorageError`
pub data ResumeError : Type 0 where
  io : String → ℕ → ResumeError
  resume_state_corrupted : ℕ → ResumeError

-- What the manager calls
pub record StateFiles (Fs : Type 0) : Type 0 where
  pub create_dir_all : String → Fs → Result ℕ (Unit {0}) × Fs
  pub write : String → String → Fs → Result ℕ (Unit {0}) × Fs
  pub read_to_string : String → Fs → Result ℕ String × Fs
  pub remove_file : String → Fs → Result ℕ (Unit {0}) × Fs
  -- `try_exists(path).await.unwrap_or(false)`
  pub exists : String → Fs → Bool
  -- `state_dir.join(format!("{transfer_id}.json"))`
  pub join_json : String → ℕ → String
  pub to_string_pretty : TransferResumeState → Result ℕ String
  pub from_str : String → Option TransferResumeState

pub record ResumeManager : Type 0 where
  pub state_dir : String

module _ {Fs : Type 0} (S : StateFiles Fs) where
  -- `ResumeManager::state_path`
  unfoldable pub state_path : ResumeManager → ℕ → String
  state_path r transfer_id = S.join_json r.state_dir transfer_id

  unfoldable pub init : ResumeManager → Action Fs ResumeError (Unit {0})
  init r = map_err (io r.state_dir) (S.create_dir_all r.state_dir)

  unfoldable pub save : ResumeManager → TransferResumeState → Action Fs ResumeError (Unit {0})
  unfolding state_path
  save r state = do
    let path = state_path r state.transfer_id
    content ← map_err (io path) (λ s. (S.to_string_pretty state, s))
    map_err (io path) (S.write path content)

  abbrev parsed :
      ℕ → Option TransferResumeState → Action Fs ResumeError (Option TransferResumeState)
  parsed transfer_id none = raise (resume_state_corrupted transfer_id)
  parsed transfer_id (some state) = pure (some state)

  abbrev load_at : ℕ → String → Action Fs ResumeError (Option TransferResumeState)
  load_at transfer_id path = do
    content ← map_err (io path) (S.read_to_string path)
    parsed transfer_id (S.from_str content)

  unfoldable pub load : ResumeManager → ℕ → Action Fs ResumeError (Option TransferResumeState)
  unfolding state_path
  load r transfer_id s =
      let path = state_path r transfer_id in
      if not (S.exists path s) then (ok none, s) else load_at transfer_id path s

  unfoldable pub remove : ResumeManager → ℕ → Action Fs ResumeError (Unit {0})
  unfolding state_path
  remove r transfer_id s =
      let path = state_path r transfer_id in
      if S.exists path s then map_err (io path) (S.remove_file path) s else (ok tt, s)

  -- What is read of one file: a state, or nothing when it cannot be read or is corrupt
  abbrev pending : Result ℕ String → List TransferResumeState → List TransferResumeState
  pending (err e) states = states
  pending (ok content) states = elim (S.from_str content) [
    | none ↦ states
    | some state ↦ state ∷ states
  ]

  abbrev is_json : Option String → Bool
  is_json none = Bool.false
  is_json (some extension) = str_eq extension "json"

  -- The loop over the entries of the directory, as far as they can be listed
  unfoldable pub read_pending :
      (String → Option String) → List String → Fs → List TransferResumeState × Fs
  read_pending extension [] s = ([], s)
  read_pending extension (path ∷ paths) s =
      let (content, s') =
        if is_json (extension path) then S.read_to_string path s else (err 0, s) in
      let (states, t) = read_pending extension paths s' in (pending content states, t)

  abbrev all_pending :
      List TransferResumeState × Fs → Result ResumeError (List TransferResumeState) × Fs
  all_pending (states, t) = (ok states, t)

  -- `list_pending`, where the directory's entries and the extension of a path are arguments
  unfoldable pub list_pending :
      (String → Action Fs ℕ (List String))
      → (String → Option String)
      → ResumeManager
      → Action Fs ResumeError (List TransferResumeState)
  list_pending read_dir extension r = do
    entries ← map_err (io r.state_dir) (read_dir r.state_dir)
    λ s. all_pending (read_pending extension entries s)
