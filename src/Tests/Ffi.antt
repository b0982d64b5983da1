-- ===== src/Tests/Ffi.antt =====
-- A transfer that an application starts and cancels, and the library for C that is started.
use just_drop.Base.{ℕ, ◌≡◌, refl, true, [], ◌∷◌, ◌++◌, none, some, ok, str_eq}
use just_drop.Core.Types
use just_drop.Core.Types.{TransferProgress}
use just_drop.Security.Keys.{IdentityKeys}
use just_drop.Engine
use just_drop.Engine.{State, get_session, get_peer}
use just_drop.Engine.Session.{TransferSession}
use just_drop.Ffi.Bridge.{on_transfer_cancelled, callbacks}
use just_drop.Ffi.Engine.{send_files, cancel_transfer}
use just_drop.Ffi.Engine.Cancelled.{send_files-cancel_transfer}
use just_drop.Ffi.Legacy.{Statics, Outcomes}
use just_drop.Tests.Engine.{memory_db, running}
use just_drop.Tests.Unary.{unary, from_unary, from_unary-unary}

abbrev no_percent : TransferProgress → ℕ
no_percent p = 0

abbrev after_start : State memory_db
after_start = (send_files memory_db unary from_unary 3 2 "ab" ("a.txt" ∷ []) running).1

send_starts :
    send_files memory_db unary from_unary 3 2 "ab" ("a.txt" ∷ []) running
    ≡ (ok (unary 3), after_start)
unfolding send_files Engine.send_files get_peer
send_starts = refl

send_files-cancel_transfer_example :
    (u : State memory_db) × (x : TransferSession) × (cancel_transfer memory_db unary from_unary 5
        (unary 3)
        after_start
      ≡ (ok tt, u))
    × (get_session u.sessions 3 ≡ some x)
    × (x.state ≡ Types.cancelled)
    × (x.source_paths ≡ "a.txt" ∷ [])
    × (callbacks unary no_percent u.events
        ≡ callbacks unary no_percent running.events
          ++ (on_transfer_cancelled (unary 3) "user cancelled" ∷ []))
send_files-cancel_transfer_example =
    send_files-cancel_transfer memory_db unary from_unary no_percent from_unary-unary 3 2 5 "ab"
      ("a.txt" ∷ []) running send_starts

abbrev keys : IdentityKeys
keys = record {
  keypair = record { private = 1 ∷ []; public = 2 ∷ [] };
  fingerprint = 3 ∷ [];
  storage_path = "keys";
}

-- Everything succeeds in one directory only.
abbrev outcomes : Outcomes
outcomes = record {
  data_dir = "data";
  creates_dir = λ p. str_eq p "data";
  load_or_generate = λ p. some keys;
  builds_runtime = true;
  new_registrar = true;
  registers = true;
  browses = true;
}

abbrev stopped : Statics
stopped = record {
  global = none;
  pre_init_data_dir = none;
  pre_init_downloads_dir = none;
  disk = [];
}
