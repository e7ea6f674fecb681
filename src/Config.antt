-- ===== src/Config.antt =====
-- server/internal/config/config.go and defaults.go: what the server can be told, and what holds when
-- it is told nothing. A duration is in nanoseconds.
pub mod Fields
pub mod File
pub mod Env
pub mod Flags
pub mod Validate
pub mod Load
pub mod Layers
mod Tests
use remote_app_start_my_linu.Prelude.{ℕ, ◌*◌, ◌^◌, Bytes, codes, Bool, true, [], ℤ, pos}

pub record ServerConfig : Type 0 where
  pub listen_addr : Bytes
  pub read_header_timeout : ℤ
  pub read_timeout : ℤ
  pub write_timeout : ℤ
  pub idle_timeout : ℤ
  pub shutdown_grace : ℤ

pub record LauncherConfig : Type 0 where
  pub cleanup_period : ℤ
  pub default_terminal : Bytes

pub record AuthConfig : Type 0 where
  pub pin_ttl : ℤ
  pub rate_limit_per_ip : ℤ
  pub rate_limit_global : ℤ
  pub rate_limit_window : ℤ

pub record WebConfig : Type 0 where
  pub enabled : Bool
  pub listen_addr : Bytes

pub record PathsConfig : Type 0 where
  pub cert_dir : Bytes
  pub config_file : Bytes

pub record LoggingConfig : Type 0 where
  pub level : Bytes
  pub format : Bytes

pub record Config : Type 0 where
  pub server : ServerConfig
  pub launcher : LauncherConfig
  pub auth : AuthConfig
  pub web : WebConfig
  pub paths : PathsConfig
  pub logging : LoggingConfig
  pub icon_theme : Bytes

abbrev pub seconds : ℕ → ℤ
seconds n = pos (n * 10 ^ 9)

-- `Defaults`
abbrev pub defaults : Config
defaults = record {
  server = record {
    listen_addr = codes ":8443";
    read_header_timeout = seconds 5;
    read_timeout = seconds 30;
    write_timeout = seconds 30;
    idle_timeout = seconds 120;
    shutdown_grace = seconds 10;
  };
  launcher = record { cleanup_period = seconds 5; default_terminal = [] };
  auth = record {
    pin_ttl = seconds 600;
    rate_limit_per_ip = pos 5;
    rate_limit_global = pos 20;
    rate_limit_window = seconds 600;
  };
  web = record { enabled = true; listen_addr = codes "127.0.0.1:17843" };
  paths = record { cert_dir = []; config_file = [] };
  logging = record { level = codes "info"; format = codes "text" };
  icon_theme = [];
}
