-- ===== src/Engine.antt =====
-- crates/justdrop-engine/src/engine.rs: peers, trust, sessions and events as one state, and a function
-- for each method. The locks are left out: a method runs as one step. A `HashMap` is an association
-- list; no theorem depends on its order.
pub mod Device
pub mod Session
pub mod Sessions
pub mod Peers
pub mod Trusts
use just_drop.Base.{
  ℕ, suc, String, Bool, true, false, not, ◌&&◌, List, [], ◌∷◌, ◌++◌, Option, none, some, Result, ok,
  err, if◌then◌else◌, ◌==◌, str_eq, length,
}
use text.Mathlib.Text.{starts_with}
use just_drop.Core.Types.{Platform, TransferManifest, TransferProgress}
use just_drop.Core.Trust.{TrustLevel, is_blocked}
use just_drop.Core.Database.{Sqlite, get_trust, set_trust}
use just_drop.Engine.Device.{Peer, is_visible}
use just_drop.Engine.Session.{TransferSession, new_send, cancel, is_terminal}

-- The events for the platform
pub data EngineEvent : Type 0 where
  peer_discovered : Peer → EngineEvent
  peer_lost : String → EngineEvent
  peer_updated : Peer → EngineEvent
  incoming_transfer_request : ℕ → Peer → TransferManifest → List String → EngineEvent
  transfer_accepted : ℕ → EngineEvent
  transfer_rejected : ℕ → String → EngineEvent
  transfer_progress : TransferProgress → EngineEvent
  transfer_completed : ℕ → List String → EngineEvent
  transfer_failed : ℕ → String → EngineEvent
  transfer_cancelled : ℕ → String → EngineEvent
  join_hotspot : String → String → EngineEvent
  create_hotspot : EngineEvent
  started : EngineEvent
  stopped : EngineEvent
  error : String → EngineEvent

-- `EngineError`; a database error is the code that SQLite returned.
pub data EngineError : Type 0 where
  initialization : String → EngineError
  database : ℕ → EngineError
  peer_not_found : String → EngineError
  session_not_found : ℕ → EngineError
  transfer : String → EngineError

pub record Engine (Db : Type 0) : Type 0 where
  pub db : Db
  pub peers : List (String × Peer)
  pub sessions : List (ℕ × TransferSession)
  pub events : List EngineEvent
  pub running : Bool

-- `peers.get(device_id)`
unfoldable pub get_peer : List (String × Peer) → String → Option Peer
get_peer [] id = none
get_peer ((key, p) ∷ peers) id = if str_eq key id then some p else get_peer peers id

-- `peers.remove(device_id)`
unfoldable pub remove_peer : String → List (String × Peer) → List (String × Peer)
remove_peer id [] = []
remove_peer id ((key, p) ∷ peers) =
    let rest = remove_peer id peers in if str_eq key id then rest else (key, p) ∷ rest

-- `peers.insert(device_id, peer)`
unfoldable pub insert_peer : String → Peer → List (String × Peer) → List (String × Peer)
unfolding remove_peer
insert_peer id p peers = (id, p) ∷ remove_peer id peers

-- `sessions.get_mut(&transfer_id)` with a change of what is found
unfoldable pub get_session : List (ℕ × TransferSession) → ℕ → Option TransferSession
get_session [] id = none
get_session ((key, s) ∷ sessions) id = if key == id then some s else get_session sessions id

unfoldable pub put_session :
    ℕ → TransferSession → List (ℕ × TransferSession) → List (ℕ × TransferSession)
put_session id s [] = (id, s) ∷ []
put_session id s ((key, t) ∷ sessions) =
    let rest = put_session id s sessions in
    if key == id then (key, s) ∷ sessions else (key, t) ∷ rest

-- `p.fingerprint.as_deref() == Some(fingerprint)`
unfoldable pub has_fingerprint : String → Peer → Bool
has_fingerprint fp p = elim p.fingerprint [ none ↦ false | some f ↦ str_eq f fp ]

-- `.iter().find(…)` on a fingerprint
unfoldable pub find_peer : String → List (String × Peer) → Option (String × Peer)
unfolding has_fingerprint
find_peer fp [] = none
find_peer fp ((key, p) ∷ peers) =
    let rest = find_peer fp peers in if has_fingerprint fp p then some (key, p) else rest

abbrev or_else : {A : Type 0} → Option A → Option A → Option A
or_else none b = b
or_else (some a) b = some a

-- What is kept of a peer that is known already
unfoldable pub merge : Peer → Peer → Peer
merge existing p = record p {
  fingerprint = or_else p.fingerprint existing.fingerprint;
  addr = or_else p.addr existing.addr;
  name =
      if starts_with p.name "Device-" && not (starts_with existing.name "Device-")
      then existing.name
      else p.name;
}

unfoldable pub visible : List (String × Peer) → List Peer
visible [] = []
visible ((key, p) ∷ peers) = let rest = visible peers in if is_visible p then p ∷ rest else rest

unfoldable pub cancel_all : ℕ → List (ℕ × TransferSession) → List (ℕ × TransferSession)
cancel_all now [] = []
cancel_all now ((key, s) ∷ sessions) =
    (key, if not (is_terminal s) then cancel now s else s) ∷ cancel_all now sessions

unfoldable pub count_active : List (ℕ × TransferSession) → ℕ
count_active [] = 0
count_active ((key, s) ∷ sessions) =
    let rest = count_active sessions in if not (is_terminal s) then suc rest else rest

module _ (S : Sqlite) where
  abbrev pub State : Type 0
  State = Engine S.Db

  unfoldable pub emit : EngineEvent → State → State
  emit e s = record s { events = s.events ++ (e ∷ []) }

  -- `Engine::new`, when the identity and the database are opened
  unfoldable pub new : S.Db → State
  unfolding emit
  new db = emit started (record { db = db; peers = []; sessions = []; events = []; running = true })

  -- The trust of a discovered peer, from the database
  unfoldable pub with_stored_trust : S.Db → Peer → Peer
  with_stored_trust db p = elim p.fingerprint [
    | none ↦ p
    | some fp ↦ record p { trust = get_trust S fp db }
  ]

  abbrev stored_blocked : S.Db → Peer → Bool
  stored_blocked db p = elim p.fingerprint [
    | none ↦ false
    | some fp ↦ is_blocked (get_trust S fp db)
  ]

  abbrev register : Peer → Option Peer → State → State
  register p none s =
      emit (peer_discovered p) (record s { peers = insert_peer p.device_id p s.peers })
  register p (some existing) s =
      emit (peer_updated p)
        (record s { peers = insert_peer p.device_id (merge existing p) s.peers })

  unfoldable pub on_peer_discovered : Peer → State → State
  unfolding with_stored_trust emit insert_peer get_peer
  on_peer_discovered p s =
      if stored_blocked s.db p
      then s
      else register (with_stored_trust s.db p) (get_peer s.peers p.device_id) s

  unfoldable pub on_peer_lost : String → State → State
  unfolding emit
  on_peer_lost id s = elim (get_peer s.peers id) [
    | none ↦ s
    | some p ↦ emit (peer_lost id) (record s { peers = remove_peer id s.peers })
  ]

  unfoldable pub visible_peers : State → List Peer
  visible_peers s = visible s.peers

  unfoldable pub peer_count : State → ℕ
  peer_count s = length (visible s.peers)

  abbrev pub lose_found : Option (String × Peer) → State → State
  lose_found none s = s
  lose_found (some (id, p)) s = on_peer_lost id s

  abbrev pub stored :
      TrustLevel
      → String
      → Result ℕ (Unit {0}) × S.Db
      → State
      → Result EngineError (Unit {0}) × State
  stored level fp (err e, db) s = (err (database e), record s { db = db })
  stored level fp (ok x, db) s = (
    ok tt,
    if is_blocked level
        then lose_found (find_peer fp s.peers) (record s { db = db })
        else record s { db = db },
  )

  -- `format!("{:?}", p.platform)` is an argument.
  unfoldable pub set_peer_trust :
      (Platform → String) → String → TrustLevel → State → Result EngineError (Unit {0}) × State
  set_peer_trust debug fp level s =
      let name : String = elim (find_peer fp s.peers) [
        | none ↦ "Unknown"
        | some (id, p) ↦ p.name
      ] in
      let platform : String = elim (find_peer fp s.peers) [
        | none ↦ "Unknown"
        | some (id, p) ↦ debug p.platform
      ] in
      stored level fp (set_trust S fp name platform level s.db) s

  -- The fresh UUID and the time are arguments.
  unfoldable pub send_files : ℕ → ℕ → String → List String → State → Result EngineError ℕ × State
  send_files uuid now id paths s = elim (get_peer s.peers id) [
    | none ↦ (err (peer_not_found id), s)
    | some p ↦
        let fp : String = elim p.fingerprint [ none ↦ "" | some f ↦ f ] in
        (
          ok uuid,
          record s { sessions = put_session uuid (new_send uuid now fp p.name paths) s.sessions },
        )
  ]

  -- Nothing is sent yet: the code has a TODO.
  unfoldable pub accept_transfer : ℕ → State → Result EngineError (Unit {0}) × State
  accept_transfer id s = elim (get_session s.sessions id) [
    | none ↦ (err (session_not_found id), s)
    | some x ↦ (ok tt, s)
  ]

  unfoldable pub reject_transfer : ℕ → ℕ → String → State → Result EngineError (Unit {0}) × State
  unfolding emit
  reject_transfer now id reason s = elim (get_session s.sessions id) [
    | none ↦ (err (session_not_found id), s)
    | some x ↦ (
      ok tt,
      emit (transfer_cancelled id reason)
          (record s { sessions = put_session id (cancel now x) s.sessions }),
    )
  ]

  unfoldable pub cancel_transfer : ℕ → ℕ → State → Result EngineError (Unit {0}) × State
  unfolding emit
  cancel_transfer now id s = elim (get_session s.sessions id) [
    | none ↦ (err (session_not_found id), s)
    | some x ↦ (
      ok tt,
      emit (transfer_cancelled id "user cancelled")
          (record s { sessions = put_session id (cancel now x) s.sessions }),
    )
  ]

  unfoldable pub active_transfer_count : State → ℕ
  active_transfer_count s = count_active s.sessions

  unfoldable pub stop : ℕ → State → State
  unfolding emit
  stop now s =
      if s.running
      then emit stopped (record s { running = false; sessions = cancel_all now s.sessions })
      else s
