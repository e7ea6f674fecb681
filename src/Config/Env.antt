-- ===== src/Config/Env.antt =====
-- server/internal/config/env.go: the layer of the environment. `look` is `os.LookupEnv`. The code
-- writes the fields one by one, in the order of these functions and of their lines.
use remote_app_start_my_linu.Prelude.{Bytes, codes, Option, ℤ, Result, ok, ◌>>=◌}
use remote_app_start_my_linu.Config.{
  ServerConfig, LauncherConfig, AuthConfig, WebConfig, PathsConfig, LoggingConfig, Config,
}
use remote_app_start_my_linu.Config.Fields.{
  ConfigError, env_string, env_duration, env_int, env_bool,
}

module _ (parse_duration : Bytes → Option ℤ) (look : Bytes → Option Bytes) where
  unfoldable pub env_server : ServerConfig → Result ConfigError ServerConfig
  unfolding env_string env_duration
  env_server c = do
    new_listen_addr ← env_string look (codes "REMOTELAUNCHER_LISTEN_ADDR") c.listen_addr
    new_read_header_timeout ←
        env_duration look parse_duration (codes "REMOTELAUNCHER_READ_HEADER_TIMEOUT")
          c.read_header_timeout
    new_read_timeout ←
        env_duration look parse_duration (codes "REMOTELAUNCHER_READ_TIMEOUT") c.read_timeout
    new_write_timeout ←
        env_duration look parse_duration (codes "REMOTELAUNCHER_WRITE_TIMEOUT") c.write_timeout
    new_idle_timeout ←
        env_duration look parse_duration (codes "REMOTELAUNCHER_IDLE_TIMEOUT") c.idle_timeout
    new_shutdown_grace ←
        env_duration look parse_duration (codes "REMOTELAUNCHER_SHUTDOWN_GRACE") c.shutdown_grace
    ok (record {
      listen_addr = new_listen_addr;
      read_header_timeout = new_read_header_timeout;
      read_timeout = new_read_timeout;
      write_timeout = new_write_timeout;
      idle_timeout = new_idle_timeout;
      shutdown_grace = new_shutdown_grace;
    })

  unfoldable pub env_launcher : LauncherConfig → Result ConfigError LauncherConfig
  unfolding env_string env_duration
  env_launcher c = do
    new_cleanup_period ←
        env_duration look parse_duration (codes "REMOTELAUNCHER_CLEANUP_PERIOD") c.cleanup_period
    new_default_terminal ←
        env_string look (codes "REMOTELAUNCHER_DEFAULT_TERMINAL") c.default_terminal
    ok (record { cleanup_period = new_cleanup_period; default_terminal = new_default_terminal })

  unfoldable pub env_auth : AuthConfig → Result ConfigError AuthConfig
  unfolding env_duration env_int
  env_auth c = do
    new_pin_ttl ← env_duration look parse_duration (codes "REMOTELAUNCHER_PIN_TTL") c.pin_ttl
    new_rate_limit_per_ip ←
        env_int look (codes "REMOTELAUNCHER_PAIR_RATE_PER_IP") c.rate_limit_per_ip
    new_rate_limit_global ←
        env_int look (codes "REMOTELAUNCHER_PAIR_RATE_GLOBAL") c.rate_limit_global
    new_rate_limit_window ←
        env_duration look parse_duration (codes "REMOTELAUNCHER_PAIR_RATE_WINDOW")
          c.rate_limit_window
    ok (record {
      pin_ttl = new_pin_ttl;
      rate_limit_per_ip = new_rate_limit_per_ip;
      rate_limit_global = new_rate_limit_global;
      rate_limit_window = new_rate_limit_window;
    })

  unfoldable pub env_web : WebConfig → Result ConfigError WebConfig
  unfolding env_string env_bool
  env_web c = do
    new_enabled ← env_bool look (codes "REMOTELAUNCHER_WEB_ENABLED") c.enabled
    new_listen_addr ← env_string look (codes "REMOTELAUNCHER_WEB_LISTEN_ADDR") c.listen_addr
    ok (record { enabled = new_enabled; listen_addr = new_listen_addr })

  unfoldable pub env_paths : PathsConfig → Result ConfigError PathsConfig
  unfolding env_string
  env_paths c = do
    new_cert_dir ← env_string look (codes "REMOTELAUNCHER_CERT_DIR") c.cert_dir
    ok (record { cert_dir = new_cert_dir; config_file = c.config_file })

  unfoldable pub env_logging : LoggingConfig → Result ConfigError LoggingConfig
  unfolding env_string
  env_logging c = do
    new_level ← env_string look (codes "REMOTELAUNCHER_LOG_LEVEL") c.level
    new_format ← env_string look (codes "REMOTELAUNCHER_LOG_FORMAT") c.format
    ok (record { level = new_level; format = new_format })

  -- `ApplyEnv`
  unfoldable pub apply_env : Config → Result ConfigError Config
  unfolding env_server env_launcher env_auth env_web env_paths env_logging env_string
  apply_env c = do
    server ← env_server c.server
    launcher ← env_launcher c.launcher
    auth ← env_auth c.auth
    web ← env_web c.web
    paths ← env_paths c.paths
    icon_theme ← env_string look (codes "REMOTELAUNCHER_ICON_THEME") c.icon_theme
    logging ← env_logging c.logging
    ok (record {
      server = server;
      launcher = launcher;
      auth = auth;
      web = web;
      paths = paths;
      logging = logging;
      icon_theme = icon_theme;
    })
