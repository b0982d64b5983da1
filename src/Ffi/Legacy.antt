-- ===== src/Ffi/Legacy.antt =====
-- crates/justdrop-ffi/src/legacy_c_abi.rs: the functions for C, over one global state. A result -n of
-- the code is the number n here; what the calls of other crates meet is an argument.
pub mod Started
use just_drop.Base.{
  ℕ, String, Bool, true, false, not, List, [], ◌∷◌, ◌++◌, Option, none, some, if◌then◌else◌,
}
use just_drop.Core.Config.{Config, default_config}
use just_drop.Security.Keys.{IdentityKeys}
use just_drop.Discovery.Browser.{
  Text, DeviceInfo, ServiceBrowser, set_self_fingerprint, peers, get_peer,
}
use just_drop.Discovery.Browser
use just_drop.Protocol.Receive.{IncomingTransferDecision, accept}

-- A pointer to a C string: null, UTF-8, or other bytes, with what `to_string_lossy` makes of them.
pub data CText (T : Type 0) : Type 0 where
  null : CText T
  utf8 : T → CText T
  lossy : T → CText T

-- What the runtime was given to do
pub data Task : Type 0 where
  listen : Task
  send_files : DeviceInfo → List String → Task

-- `GlobalState`, with the tasks of its runtime
pub record GlobalState : Type 0 where
  pub config : Config
  pub identity : IdentityKeys
  pub browser : ServiceBrowser
  pub tasks : List Task

-- A call that reaches the disk and is not undone: making the data directory, and loading or generating
-- the identity in it, which writes its file when there is none.
pub data DiskCall : Type 0 where
  create_data_dir : String → DiskCall
  open_identity : String → DiskCall

-- The statics `GLOBAL`, `PRE_INIT_DATA_DIR` and `PRE_INIT_DOWNLOADS_DIR`, and the calls on the disk
-- that were made so far
pub record Statics : Type 0 where
  pub global : Option GlobalState
  pub pre_init_data_dir : Option String
  pub pre_init_downloads_dir : Option String
  pub disk : List DiskCall

-- What `justdrop_init` meets. A service that was registered is withdrawn when a later step fails, as
-- the registrar is dropped.
pub record Outcomes : Type 0 where
  pub data_dir : String
  pub creates_dir : String → Bool
  pub load_or_generate : String → Option IdentityKeys
  pub builds_runtime : Bool
  pub new_registrar : Bool
  pub registers : Bool
  pub browses : Bool

unfoldable pub justdrop_set_data_dir : CText String → Statics → ℕ × Statics
justdrop_set_data_dir null s = (1, s)
justdrop_set_data_dir (lossy t) s = (2, s)
justdrop_set_data_dir (utf8 dir) s = (0, record s { pre_init_data_dir = some dir })

unfoldable pub justdrop_set_downloads_dir : CText String → Statics → ℕ × Statics
justdrop_set_downloads_dir null s = (1, s)
justdrop_set_downloads_dir (lossy t) s = (2, s)
justdrop_set_downloads_dir (utf8 dir) s = (0, record s { pre_init_downloads_dir = some dir })

abbrev pub dir_or : Option String → String → String
dir_or none d = d
dir_or (some dir) d = dir

-- The argument, what was set before, or the default of the platform
unfoldable pub chosen_dir : Outcomes → CText String → Statics → String
chosen_dir o null s = dir_or s.pre_init_data_dir o.data_dir
chosen_dir o (utf8 t) s = t
chosen_dir o (lossy t) s = t

-- From the runtime on, with the identity
unfoldable pub start : Outcomes → IdentityKeys → Statics → ℕ × Statics
start o identity s =
    if not o.builds_runtime
    then (3, s)
    else if not o.new_registrar
    then (4, s)
    else if not o.registers
    then (5, s)
    else if not o.browses
    then (6, s)
    else (
      0,
      record s {
        global = some (record {
          config = default_config;
          identity = identity;
          browser =
              set_self_fingerprint identity.fingerprint
                (Browser.new default_config.discovery.service_type);
          tasks = listen ∷ [];
        });
      },
    )

abbrev pub with_identity : Outcomes → Option IdentityKeys → Statics → ℕ × Statics
with_identity o none s = (2, s)
with_identity o (some identity) s = start o identity s

abbrev pub is_some {ℓ} : {A : Type ℓ} → Option A → Bool
is_some none = false
is_some (some a) = true

-- The statics, after one more call on the disk
abbrev pub called : DiskCall → Statics → Statics
called c s = record s { disk = s.disk ++ (c ∷ []) }

unfoldable pub justdrop_init : Outcomes → CText String → Statics → ℕ × Statics
unfolding start chosen_dir
justdrop_init o data_dir s =
    let dir = chosen_dir o data_dir s in
    let made = called (create_data_dir dir) s in
    if is_some s.global
    then (0, s)
    else if not (o.creates_dir dir)
    then (1, made)
    else with_identity o (o.load_or_generate dir) (called (open_identity dir) made)

unfoldable pub justdrop_shutdown : Statics → ℕ × Statics
justdrop_shutdown s = (0, record s { global = none })

-- The peers that are written as JSON; without a state, none.
unfoldable pub justdrop_get_peers : Statics → List DeviceInfo
justdrop_get_peers s = elim s.global [ none ↦ [] | some g ↦ peers g.browser ]

abbrev pub send_to : Option DeviceInfo → List String → GlobalState → Statics → ℕ × Statics
send_to none paths g s = (4, s)
send_to (some peer) paths g s =
    (0, record s { global = some (record g { tasks = g.tasks ++ (send_files peer paths ∷ []) }) })

abbrev pub send_in : Option GlobalState → Text → List String → Statics → ℕ × Statics
send_in none peer_id paths s = (3, s)
send_in (some g) peer_id paths s = send_to (get_peer g.browser peer_id) paths g s

abbrev pub send_parsed : Text → Option (List String) → Statics → ℕ × Statics
send_parsed peer_id none s = (2, s)
send_parsed peer_id (some paths) s = send_in s.global peer_id paths s

abbrev pub lossy_text {ℓ} : {T : Type 0} {A : Type ℓ} → CText T → A → (T → A) → A
lossy_text null a f = a
lossy_text (utf8 t) a f = f t
lossy_text (lossy t) a f = f t

-- The JSON parser for lists of texts is an argument.
unfoldable pub justdrop_send_files :
    (String → Option (List String)) → CText Text → CText String → Statics → ℕ × Statics
justdrop_send_files from_str peer_id paths_json s =
    lossy_text peer_id (1, s)
      λ id. lossy_text paths_json (1, s) λ text. send_parsed id (from_str text) s

-- These are there for the programs that call them, and do nothing.
unfoldable pub justdrop_start_discovery : Statics → ℕ × Statics
justdrop_start_discovery s = (0, s)

unfoldable pub justdrop_set_trust : CText String → ℕ → Statics → ℕ × Statics
justdrop_set_trust peer_id level s = (0, s)

unfoldable pub justdrop_cancel_transfer : CText String → Statics → ℕ × Statics
justdrop_cancel_transfer transfer_id s = (0, s)

unfoldable pub justdrop_accept_transfer : CText String → Statics → ℕ × Statics
justdrop_accept_transfer transfer_id s = (0, s)

unfoldable pub justdrop_reject_transfer : CText String → Statics → ℕ × Statics
justdrop_reject_transfer transfer_id s = (0, s)

-- What the listener offers to `RecvTransfer::handle_incoming` for a connection
unfoldable pub decision : Option IncomingTransferDecision
decision = some accept
