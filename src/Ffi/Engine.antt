-- ===== src/Ffi/Engine.antt =====
-- `JustDropEngine` of crates/justdrop-ffi/src/lib.rs: the engine as the application calls it. Texts of
-- UUIDs are an argument; `start_discovery` and `stop_discovery` do nothing yet.
pub mod Cancelled
use just_drop.Base.{
  ℕ, ◌%◌, String, Bool, List, [], Option, none, some, Result, ok, err, map, u32_mod,
}
use just_drop.Core.Types.{Platform}
use just_drop.Core.Config.{Config, ConfigError, default_config}
use just_drop.Core.Database.{Sqlite}
use just_drop.Engine
use just_drop.Engine.{EngineError, State}
use just_drop.Ffi.Types.{
  PeerInfo, peer_info, TrustLevel, core_trust, JustDropError, init_failed, invalid_argument,
  error_of,
}

module _ (S : Sqlite) (to_text : ℕ → String) (parse_str : String → Option ℕ) where
  -- A call, with what it changes
  abbrev pub Call : Type 0 → Type 0
  Call A = State S → Result JustDropError A × State S

  -- `?` on a call of the engine
  abbrev pub calls :
      {A B : Type 0} → (A → B) → Result EngineError A × State S → Result JustDropError B × State S
  calls f (ok a, s) = (ok (f a), s)
  calls f (err e, s) = (err (error_of e), s)

  -- `Uuid::parse_str(&transfer_id).map_err(|_| InvalidArgument)?`
  abbrev pub with_id : {A : Type 0} → Option ℕ → (ℕ → Call A) → Call A
  with_id none f s = (err invalid_argument, s)
  with_id (some id) f s = f id s

  abbrev pub config_of :
      (String → Result ConfigError Config) → Option String → Result JustDropError Config
  config_of load none = ok default_config
  config_of load (some path) = elim (load path) [ ok c ↦ ok c | err e ↦ err init_failed ]

  abbrev pub engine_of :
      (Config → Result EngineError (State S))
      → Result JustDropError Config
      → Result JustDropError (State S)
  engine_of open_engine (err e) = err e
  engine_of open_engine (ok config) = elim (open_engine config) [
    | ok s ↦ ok s
    | err e ↦ err (error_of e)
  ]

  -- `Config::load` and `Engine::new` are arguments.
  unfoldable pub new :
      (String → Result ConfigError Config)
      → (Config → Result EngineError (State S))
      → Option String
      → Result JustDropError (State S)
  new load open_engine config_path = engine_of open_engine (config_of load config_path)

  unfoldable pub start_discovery : Call (Unit {0})
  start_discovery s = (ok tt, s)

  unfoldable pub visible_peers : State S → List PeerInfo
  unfolding peer_info
  visible_peers s = map peer_info (Engine.visible_peers S s)

  -- `as u32`
  unfoldable pub peer_count : State S → ℕ
  peer_count s = Engine.peer_count S s % u32_mod

  unfoldable pub set_peer_trust : (Platform → String) → String → TrustLevel → Call (Unit {0})
  unfolding core_trust error_of
  set_peer_trust debug fingerprint level s =
      calls (λ x. x) (Engine.set_peer_trust S debug fingerprint (core_trust level) s)

  unfoldable pub send_files : ℕ → ℕ → String → List String → Call String
  unfolding error_of
  send_files uuid now device_id file_paths s =
      calls to_text (Engine.send_files S uuid now device_id file_paths s)

  unfoldable pub accept_transfer : String → Call (Unit {0})
  unfolding error_of
  accept_transfer transfer_id =
      with_id (parse_str transfer_id) (λ id s. calls (λ x. x) (Engine.accept_transfer S id s))

  unfoldable pub reject_transfer : ℕ → String → String → Call (Unit {0})
  unfolding error_of
  reject_transfer now transfer_id reason =
      with_id (parse_str transfer_id)
        (λ id s. calls (λ x. x) (Engine.reject_transfer S now id reason s))

  unfoldable pub cancel_transfer : ℕ → String → Call (Unit {0})
  unfolding error_of
  cancel_transfer now transfer_id =
      with_id (parse_str transfer_id) (λ id s. calls (λ x. x) (Engine.cancel_transfer S now id s))

  unfoldable pub active_transfer_count : State S → ℕ
  active_transfer_count s = Engine.active_transfer_count S s % u32_mod

  unfoldable pub is_running : State S → Bool
  is_running s = s.running

  unfoldable pub stop : ℕ → State S → State S
  stop now s = Engine.stop S now s
