-- ===== src/Core/Config.antt =====
-- crates/justdrop-core/src/config.rs: the settings, their defaults, and what is accepted of a file.
pub mod Checked
use just_drop.Base.{
  ℕ, ◌*◌, String, str_eq, Bool, true, false, Option, none, some, Result, ok, err, if◌then◌else◌,
  ltb, ◌==◌,
}

-- `ConfigError`, with the code of a parser's error
pub data ConfigError : Type 0 where
  not_found : String → ConfigError
  parse : ℕ → ConfigError
  -- the field, its value, and why it is refused
  invalid_value : String → ℕ → String → ConfigError

pub record GeneralConfig : Type 0 where
  pub device_name : String
  pub download_dir : String
  pub log_level : String

pub record NetworkConfig : Type 0 where
  pub listen_port : ℕ
  pub connect_timeout_secs : ℕ
  pub send_buffer_size : ℕ
  pub recv_buffer_size : ℕ
  pub tcp_nodelay : Bool

pub record TransferConfig : Type 0 where
  pub chunk_size : ℕ
  pub large_file_threshold : ℕ
  pub max_concurrent_transfers : ℕ
  pub pipeline_depth : ℕ

pub record SecurityConfig : Type 0 where
  pub encrypt_data : Bool
  pub auto_accept_known : Bool
  pub auto_accept_all : Bool

pub record DiscoveryConfig : Type 0 where
  pub service_type : String
  pub announce_interval_secs : ℕ
  pub peer_timeout_secs : ℕ

pub record Config : Type 0 where
  pub general : GeneralConfig
  pub network : NetworkConfig
  pub transfer : TransferConfig
  pub security : SecurityConfig
  pub discovery : DiscoveryConfig

unfoldable pub default_general : GeneralConfig
default_general = record { device_name = ""; download_dir = ""; log_level = "info" }

unfoldable pub default_network : NetworkConfig
default_network = record {
  listen_port = 42420;
  connect_timeout_secs = 10;
  send_buffer_size = 2 * 1024 * 1024;
  recv_buffer_size = 2 * 1024 * 1024;
  tcp_nodelay = true;
}

unfoldable pub default_transfer : TransferConfig
default_transfer = record {
  chunk_size = 256 * 1024;
  large_file_threshold = 1024 * 1024 * 1024;
  max_concurrent_transfers = 4;
  pipeline_depth = 8;
}

unfoldable pub default_security : SecurityConfig
default_security = record {
  encrypt_data = true;
  auto_accept_known = false;
  auto_accept_all = false;
}

unfoldable pub default_discovery : DiscoveryConfig
default_discovery = record {
  service_type = "_justdrop._tcp.local.";
  announce_interval_secs = 60;
  peer_timeout_secs = 180;
}

-- `Config::default`
unfoldable pub default_config : Config
default_config = record {
  general = default_general;
  network = default_network;
  transfer = default_transfer;
  security = default_security;
  discovery = default_discovery;
}

unfoldable pub validate : Config → Result ConfigError (Unit {0})
validate self =
    if self.network.listen_port == 0
    then err (invalid_value "network.listen_port" 0 "port must be > 0")
    else if ltb self.transfer.chunk_size 4096
    then err (
        invalid_value "transfer.chunk_size" self.transfer.chunk_size
          "chunk size must be >= 4096 bytes")
    else if self.transfer.pipeline_depth == 0
    then err (invalid_value "transfer.pipeline_depth" 0 "pipeline depth must be > 0")
    else ok tt

-- What is used of the system: files, `toml`, and `dirs`
pub record System : Type 0 where
  pub exists : String → Bool
  -- none when the file cannot be read
  pub read_to_string : String → Option String
  pub from_str : String → Result ℕ Config
  pub home_dir : Option String
  pub user_config_dir : Option String
  pub user_data_dir : Option String
  pub join : String → String → String
  pub hostname : String

module _ (Y : System) where
  abbrev pub checked : Config → Result ConfigError (Unit {0}) → Result ConfigError Config
  checked config (ok x) = ok config
  checked config (err e) = err e

  abbrev pub parsed : Result ℕ Config → Result ConfigError Config
  parsed (err e) = err (parse e)
  parsed (ok config) = checked config (validate config)

  abbrev pub contents : String → Option String → Result ConfigError Config
  contents path none = err (not_found path)
  contents path (some content) = parsed (Y.from_str content)

  unfoldable pub load : String → Result ConfigError Config
  load path = if Y.exists path then contents path (Y.read_to_string path) else ok default_config

  abbrev under : Option String → String → String → String
  under none name otherwise = otherwise
  under (some dir) name otherwise = Y.join dir name

  unfoldable pub download_dir : Config → String
  download_dir self =
      if str_eq self.general.download_dir ""
      then under Y.home_dir "JustDrop" "JustDrop"
      else self.general.download_dir

  unfoldable pub device_name : Config → String
  device_name self =
      if str_eq self.general.device_name "" then Y.hostname else self.general.device_name

  unfoldable pub config_dir : String
  config_dir = under Y.user_config_dir "justdrop" ".justdrop"

  unfoldable pub data_dir : String
  data_dir = under Y.user_data_dir "justdrop" ".justdrop"
