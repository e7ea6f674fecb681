-- ===== src/Config/File.antt =====
-- server/internal/config/file.go: the layer of the TOML file. What the decoder finds is an Option
-- for each key. After an error the code has changed some of the fields; `Load` drops them.
use remote_app_start_my_linu.Prelude.{
  Bytes, codes, is_empty, Bool, if◌then◌else◌, Option, none, some, ℤ, Result, ok, err, ◌>>=◌,
}
use remote_app_start_my_linu.Config.{
  ServerConfig, LauncherConfig, AuthConfig, WebConfig, PathsConfig, LoggingConfig, Config,
}
use remote_app_start_my_linu.Config.Fields.{
  ConfigError, read_failed, parse_failed, set_duration, set_field,
}

pub record RawServer : Type 0 where
  pub listen_addr : Option Bytes
  pub read_header_timeout : Option Bytes
  pub read_timeout : Option Bytes
  pub write_timeout : Option Bytes
  pub idle_timeout : Option Bytes
  pub shutdown_grace : Option Bytes

pub record RawLauncher : Type 0 where
  pub cleanup_period : Option Bytes
  pub default_terminal : Option Bytes

pub record RawAuth : Type 0 where
  pub pin_ttl : Option Bytes
  pub rate_limit_per_ip : Option ℤ
  pub rate_limit_global : Option ℤ
  pub rate_limit_window : Option Bytes

pub record RawWeb : Type 0 where
  pub enabled : Option Bool
  pub listen_addr : Option Bytes

pub record RawPaths : Type 0 where
  pub cert_dir : Option Bytes

pub record RawLogging : Type 0 where
  pub level : Option Bytes
  pub format : Option Bytes

pub record RawConfig : Type 0 where
  pub server : Option RawServer
  pub launcher : Option RawLauncher
  pub auth : Option RawAuth
  pub web : Option RawWeb
  pub paths : Option RawPaths
  pub logging : Option RawLogging
  pub icon_theme : Option Bytes

-- A table that the file may lack.
abbrev pub with_table :
    {R C : Type 0} → (R → C → Result ConfigError C) → Option R → C → Result ConfigError C
with_table apply none c = ok c
with_table apply (some r) c = apply r c

unfoldable pub apply_web : RawWeb → WebConfig → Result ConfigError WebConfig
apply_web r c = ok (record {
  enabled = set_field c.enabled r.enabled;
  listen_addr = set_field c.listen_addr r.listen_addr;
})

unfoldable pub apply_paths : RawPaths → PathsConfig → Result ConfigError PathsConfig
apply_paths r c =
    ok (record { cert_dir = set_field c.cert_dir r.cert_dir; config_file = c.config_file })

unfoldable pub apply_logging : RawLogging → LoggingConfig → Result ConfigError LoggingConfig
apply_logging r c =
    ok (record { level = set_field c.level r.level; format = set_field c.format r.format })

-- What reading the file yields.
pub data FileRead : Type 0 where
  not_exist unreadable : FileRead
  data_read : Bytes → FileRead

module _ (parse_duration : Bytes → Option ℤ) where
  unfoldable pub apply_server : RawServer → ServerConfig → Result ConfigError ServerConfig
  unfolding set_duration
  apply_server r c = do
    header ←
        set_duration parse_duration c.read_header_timeout r.read_header_timeout
          (codes "server.read_header_timeout")
    read ← set_duration parse_duration c.read_timeout r.read_timeout (codes "server.read_timeout")
    write ←
        set_duration parse_duration c.write_timeout r.write_timeout (codes "server.write_timeout")
    idle ← set_duration parse_duration c.idle_timeout r.idle_timeout (codes "server.idle_timeout")
    grace ←
        set_duration parse_duration c.shutdown_grace r.shutdown_grace
          (codes "server.shutdown_grace")
    ok (record {
      listen_addr = set_field c.listen_addr r.listen_addr;
      read_header_timeout = header;
      read_timeout = read;
      write_timeout = write;
      idle_timeout = idle;
      shutdown_grace = grace;
    })

  unfoldable pub apply_launcher : RawLauncher → LauncherConfig → Result ConfigError LauncherConfig
  unfolding set_duration
  apply_launcher r c = do
    period ←
        set_duration parse_duration c.cleanup_period r.cleanup_period
          (codes "launcher.cleanup_period")
    ok (record {
      cleanup_period = period;
      default_terminal = set_field c.default_terminal r.default_terminal;
    })

  unfoldable pub apply_auth : RawAuth → AuthConfig → Result ConfigError AuthConfig
  unfolding set_duration
  apply_auth r c = do
    ttl ← set_duration parse_duration c.pin_ttl r.pin_ttl (codes "auth.pin_ttl")
    window ←
        set_duration parse_duration c.rate_limit_window r.rate_limit_window
          (codes "auth.rate_limit_window")
    ok (record {
      pin_ttl = ttl;
      rate_limit_per_ip = set_field c.rate_limit_per_ip r.rate_limit_per_ip;
      rate_limit_global = set_field c.rate_limit_global r.rate_limit_global;
      rate_limit_window = window;
    })

  -- `applyTo` of the whole file.
  unfoldable pub apply_to : RawConfig → Config → Result ConfigError Config
  unfolding apply_server apply_launcher apply_auth apply_web apply_paths apply_logging
  apply_to r c = do
    server ← with_table apply_server r.server c.server
    launcher ← with_table apply_launcher r.launcher c.launcher
    auth ← with_table apply_auth r.auth c.auth
    web ← with_table apply_web r.web c.web
    paths ← with_table apply_paths r.paths c.paths
    logging ← with_table apply_logging r.logging c.logging
    ok (record {
      server = server;
      launcher = launcher;
      auth = auth;
      web = web;
      paths = paths;
      logging = logging;
      icon_theme = set_field c.icon_theme r.icon_theme;
    })

  abbrev with_config_file : Bytes → Config → Config
  with_config_file path c = record c { paths = record c.paths { config_file = path } }

  -- The file once it is decoded.
  unfoldable pub apply_decoded : Bytes → Option RawConfig → Config → Result ConfigError Config
  unfolding apply_to
  apply_decoded path none c = err parse_failed
  apply_decoded path (some raw) c = do d ← apply_to raw c; ok (with_config_file path d)

  module _ (read_file : Bytes → FileRead) (unmarshal : Bytes → Option RawConfig) where
    unfoldable pub apply_read : Bytes → FileRead → Config → Result ConfigError Config
    unfolding apply_decoded
    apply_read path not_exist c = ok c
    apply_read path unreadable c = err read_failed
    apply_read path (data_read bytes) c = apply_decoded path (unmarshal bytes) c

    -- `LoadFile`
    unfoldable pub load_file : Config → Bytes → Result ConfigError Config
    unfolding apply_read
    load_file c path = if is_empty path then ok c else apply_read path (read_file path) c
