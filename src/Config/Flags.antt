-- ===== src/Config/Flags.antt =====
-- server/internal/config/flags.go: the layer of the command line. `flag.Parse` is given by the flags
-- that it has set, with their values, in the order in which `Visit` takes them.
use remote_app_start_my_linu.Prelude.{
  Bytes, Bool, List, [], ◌∷◌, Option, none, some, ℤ, Result, ok, err,
}
use remote_app_start_my_linu.Config.{
  ServerConfig, LauncherConfig, AuthConfig, WebConfig, PathsConfig, LoggingConfig, Config,
}
use remote_app_start_my_linu.Config.Fields.{ConfigError, flags_failed, set_field}

-- A flag that is set.
pub data SetFlag : Type 0 where
  flag_config_path : Bytes → SetFlag
  flag_listen_addr : Bytes → SetFlag
  flag_read_header_timeout : ℤ → SetFlag
  flag_read_timeout : ℤ → SetFlag
  flag_write_timeout : ℤ → SetFlag
  flag_idle_timeout : ℤ → SetFlag
  flag_shutdown_grace : ℤ → SetFlag
  flag_cleanup_period : ℤ → SetFlag
  flag_pin_ttl : ℤ → SetFlag
  flag_rate_limit_per_ip : ℤ → SetFlag
  flag_rate_limit_global : ℤ → SetFlag
  flag_rate_limit_window : ℤ → SetFlag
  flag_cert_dir : Bytes → SetFlag
  flag_icon_theme : Bytes → SetFlag
  flag_log_level : Bytes → SetFlag
  flag_log_format : Bytes → SetFlag
  flag_web_enabled : Bool → SetFlag
  flag_web_listen_addr : Bytes → SetFlag

-- `flagOverrides`
pub record FlagOverrides : Type 0 where
  pub config_path : Option Bytes
  pub listen_addr : Option Bytes
  pub read_header_timeout : Option ℤ
  pub read_timeout : Option ℤ
  pub write_timeout : Option ℤ
  pub idle_timeout : Option ℤ
  pub shutdown_grace : Option ℤ
  pub cleanup_period : Option ℤ
  pub pin_ttl : Option ℤ
  pub rate_limit_per_ip : Option ℤ
  pub rate_limit_global : Option ℤ
  pub rate_limit_window : Option ℤ
  pub cert_dir : Option Bytes
  pub icon_theme : Option Bytes
  pub log_level : Option Bytes
  pub log_format : Option Bytes
  pub web_enabled : Option Bool
  pub web_listen_addr : Option Bytes

abbrev pub no_overrides : FlagOverrides
no_overrides = record {
  config_path = none;
  listen_addr = none;
  read_header_timeout = none;
  read_timeout = none;
  write_timeout = none;
  idle_timeout = none;
  shutdown_grace = none;
  cleanup_period = none;
  pin_ttl = none;
  rate_limit_per_ip = none;
  rate_limit_global = none;
  rate_limit_window = none;
  cert_dir = none;
  icon_theme = none;
  log_level = none;
  log_format = none;
  web_enabled = none;
  web_listen_addr = none;
}

-- The callback of `Visit`.
unfoldable pub visit_flag : FlagOverrides → SetFlag → FlagOverrides
visit_flag o (flag_config_path v) = record o { config_path = some v }
visit_flag o (flag_listen_addr v) = record o { listen_addr = some v }
visit_flag o (flag_read_header_timeout v) = record o { read_header_timeout = some v }
visit_flag o (flag_read_timeout v) = record o { read_timeout = some v }
visit_flag o (flag_write_timeout v) = record o { write_timeout = some v }
visit_flag o (flag_idle_timeout v) = record o { idle_timeout = some v }
visit_flag o (flag_shutdown_grace v) = record o { shutdown_grace = some v }
visit_flag o (flag_cleanup_period v) = record o { cleanup_period = some v }
visit_flag o (flag_pin_ttl v) = record o { pin_ttl = some v }
visit_flag o (flag_rate_limit_per_ip v) = record o { rate_limit_per_ip = some v }
visit_flag o (flag_rate_limit_global v) = record o { rate_limit_global = some v }
visit_flag o (flag_rate_limit_window v) = record o { rate_limit_window = some v }
visit_flag o (flag_cert_dir v) = record o { cert_dir = some v }
visit_flag o (flag_icon_theme v) = record o { icon_theme = some v }
visit_flag o (flag_log_level v) = record o { log_level = some v }
visit_flag o (flag_log_format v) = record o { log_format = some v }
visit_flag o (flag_web_enabled v) = record o { web_enabled = some v }
visit_flag o (flag_web_listen_addr v) = record o { web_listen_addr = some v }

unfoldable pub visit_flags : FlagOverrides → List SetFlag → FlagOverrides
unfolding visit_flag
visit_flags o [] = o
visit_flags o (f ∷ fs) = visit_flags (visit_flag o f) fs

-- `parseFlags`; `none` is a command line that `flag.Parse` refuses.
unfoldable pub parse_flags : Option (List SetFlag) → Result ConfigError FlagOverrides
unfolding visit_flags
parse_flags none = err flags_failed
parse_flags (some fs) = ok (visit_flags no_overrides fs)

abbrev pub override_server : FlagOverrides → ServerConfig → ServerConfig
override_server o c = record {
  listen_addr = set_field c.listen_addr o.listen_addr;
  read_header_timeout = set_field c.read_header_timeout o.read_header_timeout;
  read_timeout = set_field c.read_timeout o.read_timeout;
  write_timeout = set_field c.write_timeout o.write_timeout;
  idle_timeout = set_field c.idle_timeout o.idle_timeout;
  shutdown_grace = set_field c.shutdown_grace o.shutdown_grace;
}

abbrev pub override_launcher : FlagOverrides → LauncherConfig → LauncherConfig
override_launcher o c = record {
  cleanup_period = set_field c.cleanup_period o.cleanup_period;
  default_terminal = c.default_terminal;
}

abbrev pub override_auth : FlagOverrides → AuthConfig → AuthConfig
override_auth o c = record {
  pin_ttl = set_field c.pin_ttl o.pin_ttl;
  rate_limit_per_ip = set_field c.rate_limit_per_ip o.rate_limit_per_ip;
  rate_limit_global = set_field c.rate_limit_global o.rate_limit_global;
  rate_limit_window = set_field c.rate_limit_window o.rate_limit_window;
}

abbrev pub override_web : FlagOverrides → WebConfig → WebConfig
override_web o c = record {
  enabled = set_field c.enabled o.web_enabled;
  listen_addr = set_field c.listen_addr o.web_listen_addr;
}

abbrev pub override_paths : FlagOverrides → PathsConfig → PathsConfig
override_paths o c = record {
  cert_dir = set_field c.cert_dir o.cert_dir;
  config_file = c.config_file;
}

abbrev pub override_logging : FlagOverrides → LoggingConfig → LoggingConfig
override_logging o c = record {
  level = set_field c.level o.log_level;
  format = set_field c.format o.log_format;
}

-- `applyFlagOverrides`
unfoldable pub apply_flag_overrides : Config → FlagOverrides → Config
apply_flag_overrides c o = record {
  server = override_server o c.server;
  launcher = override_launcher o c.launcher;
  auth = override_auth o c.auth;
  web = override_web o c.web;
  paths = override_paths o c.paths;
  logging = override_logging o c.logging;
  icon_theme = set_field c.icon_theme o.icon_theme;
}
