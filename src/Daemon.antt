-- ===== src/Daemon.antt =====
-- crates/justdrop-daemon/src/main.rs: the command line program, without its texts. The steps that can
-- fail have their outcomes as an argument; the loops that only log are left out.
pub mod Decisions
use just_drop.Base.{
  ℕ, String, Bool, ◌||◌, not, List, [], ◌∷◌, Option, none, some, Result, ok, err, if◌then◌else◌,
}
use just_drop.Core.Config.{Config}
use just_drop.Discovery.Browser.{Text, DeviceInfo, ServiceBrowser, contains_text}
use just_drop.Discovery.Browser
use just_drop.Protocol.Receive.{IncomingTransferDecision, accept}

-- The context of an error
pub data DaemonError : Type 0 where
  load_config : DaemonError
  create_data_dir : DaemonError
  load_identity : DaemonError
  create_registrar : DaemonError
  register_service : DaemonError
  start_browsing : DaemonError
  bind_listener : DaemonError
  peer_not_found : DaemonError
  transfer : DaemonError

-- What the calls of the other crates meet; `found` are the devices that the browser knows after it
-- slept.
pub record Outcomes (Identity : Type 0) : Type 0 where
  pub load : String → Option Config
  pub creates_data_dir : Bool
  pub identity : Option Identity
  pub new_registrar : Bool
  pub registers : Bool
  pub browses : Bool
  pub binds : Bool
  pub found : List (Text × DeviceInfo)
  pub sends : DeviceInfo → List String → Option ℕ

pub data Command : Type 0 where
  daemon : Command
  send : Text → List String → Command
  peers : Command
  identity : Command
  status : Command

-- What a run ends with, or goes on with: a listening daemon with its browser, the transfer that was
-- sent, the devices that were listed, or a text.
pub data Run : Type 0 where
  listening : ServiceBrowser → Run
  sent : ℕ → Run
  listed : List DeviceInfo → Run
  printed : Run

abbrev pub require : {A : Type 0} → Bool → DaemonError → Result DaemonError A → Result DaemonError A
require b e rest = if not b then err e else rest

abbrev pub required :
    {A B : Type 0} → Option A → DaemonError → (A → Result DaemonError B) → Result DaemonError B
required none e f = err e
required (some a) e f = f a

module _ {Identity : Type 0} (o : Outcomes Identity) where
  -- Registering and browsing, which three commands begin with
  abbrev pub discovering : {A : Type 0} → Result DaemonError A → Result DaemonError A
  discovering rest =
      require o.new_registrar create_registrar
        (require o.registers register_service (require o.browses start_browsing rest))

  -- The browser is not told the fingerprint of this device.
  unfoldable pub run_daemon : Config → Result DaemonError Run
  run_daemon config =
      discovering
        (require o.binds bind_listener (ok (listening (Browser.new config.discovery.service_type))))

  -- The first device whose name or id contains the text
  unfoldable pub find_peer : Text → List DeviceInfo → Option DeviceInfo
  find_peer peer_name [] = none
  find_peer peer_name (p ∷ rest) =
      if contains_text p.name peer_name || contains_text p.id peer_name
      then some p
      else find_peer peer_name rest

  abbrev pub known : Config → ServiceBrowser
  known config = record (Browser.new config.discovery.service_type) { peers = o.found }

  unfoldable pub run_send : Config → Text → List String → Result DaemonError Run
  unfolding find_peer
  run_send config peer_name files = discovering (
      required (find_peer peer_name (Browser.peers (known config))) peer_not_found
        λ peer. required (o.sends peer files) transfer λ id. ok (sent id))

  unfoldable pub run_peers : Config → Result DaemonError Run
  run_peers config = discovering (ok (listed (Browser.peers (known config))))

  abbrev pub run_command : Command → Config → Result DaemonError Run
  run_command daemon config = run_daemon config
  run_command (send peer files) config = run_send config peer files
  run_command peers config = run_peers config
  run_command identity config = ok printed
  run_command status config = ok printed

  unfoldable pub main : String → Command → Result DaemonError Run
  unfolding run_daemon run_send run_peers
  main config_path command = required (o.load config_path) load_config λ config.
      require o.creates_data_dir create_data_dir
        (required o.identity load_identity (λ i. run_command command config))

-- What the accept loop of the daemon offers to `RecvTransfer::handle_incoming`: a decision, or a
-- channel that is closed
unfoldable pub offered : Config → Option IncomingTransferDecision
offered config = if config.security.auto_accept_all then some accept else none
