-- ===== src/Config/Validate.antt =====
-- server/internal/config/validate.go: what a configuration must satisfy. `to_lower` is
-- `strings.ToLower`, `split_host_port` is `net.SplitHostPort`, and `loopback` is `net.ParseIP` with
-- `IsLoopback`.
pub mod Valid
use remote_app_start_my_linu.Prelude.{
  Bytes, codes, eq_bytes, trim_space, is_empty, Bool, true, false, not, ◌||◌, if◌then◌else◌, Option,
  none, some, ℤ, pos, is_positive, ltb_ℤ, Result, ok, err, ◌>>=◌,
}
use remote_app_start_my_linu.Desktop.Scan.{fold_case}
use remote_app_start_my_linu.Config.{ServerConfig, AuthConfig, WebConfig, LoggingConfig, Config}
use remote_app_start_my_linu.Config.Fields.{
  ConfigError, not_positive, empty_listen_addr, global_below_per_ip, bad_log_level, bad_log_format,
  empty_web_addr, bad_web_addr, empty_web_port, not_loopback,
}

-- A check: an error unless the test holds.
abbrev pub require : Bool → ConfigError → Result ConfigError Unit
require true e = ok tt
require false e = err e

-- `positiveDuration`
abbrev positive_duration : Bytes → ℤ → Result ConfigError Unit
positive_duration key v = require (is_positive v) (not_positive key)

abbrev pub is_blank : Bytes → Bool
is_blank s = is_empty (trim_space s)

unfoldable pub validate_limits : AuthConfig → Result ConfigError Unit
validate_limits c = do
  _ ← require (is_positive c.rate_limit_per_ip) (not_positive (codes "auth.rate_limit_per_ip"))
  _ ← require (is_positive c.rate_limit_global) (not_positive (codes "auth.rate_limit_global"))
  require (not (ltb_ℤ c.rate_limit_global c.rate_limit_per_ip)) global_below_per_ip

unfoldable pub validate_server : ServerConfig → Result ConfigError Unit
validate_server c = do
  _ ← require (not (is_blank c.listen_addr)) empty_listen_addr
  _ ← positive_duration (codes "server.read_header_timeout") c.read_header_timeout
  _ ← positive_duration (codes "server.read_timeout") c.read_timeout
  _ ← positive_duration (codes "server.write_timeout") c.write_timeout
  _ ← positive_duration (codes "server.idle_timeout") c.idle_timeout
  positive_duration (codes "server.shutdown_grace") c.shutdown_grace

module _ (to_lower : Bytes → Bytes) where
  abbrev pub is_log_level : Bytes → Bool
  is_log_level s =
      eq_bytes s (codes "debug")
      || eq_bytes s (codes "info")
      || eq_bytes s (codes "warn")
      || eq_bytes s (codes "error")

  -- `validateLogLevel` and `validateLogFormat`
  unfoldable pub validate_log_level : Bytes → Result ConfigError Unit
  validate_log_level level = require (is_log_level (to_lower (trim_space level))) bad_log_level

  abbrev pub is_log_format : Bytes → Bool
  is_log_format s = eq_bytes s (codes "text") || eq_bytes s (codes "json")

  unfoldable pub validate_log_format : Bytes → Result ConfigError Unit
  validate_log_format format = require (is_log_format (to_lower (trim_space format))) bad_log_format

module _ (split_host_port : Bytes → Option (Bytes × Bytes)) (loopback : Bytes → Option Bool) where
  abbrev is_loopback : Option Bool → Bool
  is_loopback none = false
  is_loopback (some b) = b

  unfoldable pub validate_host : Bytes → Result ConfigError Unit
  validate_host host =
      if is_empty host
      then err not_loopback
      else if eq_bytes (fold_case host) (codes "localhost")
      then ok tt
      else require (is_loopback (loopback host)) not_loopback

  unfoldable pub validate_host_port : Option (Bytes × Bytes) → Result ConfigError Unit
  unfolding validate_host
  validate_host_port none = err bad_web_addr
  validate_host_port (some (host, port)) =
      if is_blank port then err empty_web_port else validate_host host

  -- `validateWebListenAddr`
  unfoldable pub validate_web_listen_addr : Bytes → Result ConfigError Unit
  unfolding validate_host_port
  validate_web_listen_addr addr =
      if is_blank addr then err empty_web_addr else validate_host_port (split_host_port addr)

  unfoldable pub validate_web : WebConfig → Result ConfigError Unit
  unfolding validate_web_listen_addr
  validate_web c = if c.enabled then validate_web_listen_addr c.listen_addr else ok tt

-- `Validate`
unfoldable pub validate :
    (Bytes → Bytes)
    → (Bytes → Option (Bytes × Bytes))
    → (Bytes → Option Bool)
    → Config
    → Result ConfigError Unit
unfolding validate_server validate_limits validate_log_level validate_log_format validate_web
validate to_lower split_host_port loopback c = do
  _ ← validate_server c.server
  _ ← positive_duration (codes "launcher.cleanup_period") c.launcher.cleanup_period
  _ ← positive_duration (codes "auth.pin_ttl") c.auth.pin_ttl
  _ ← positive_duration (codes "auth.rate_limit_window") c.auth.rate_limit_window
  _ ← validate_limits c.auth
  _ ← validate_log_level to_lower c.logging.level
  _ ← validate_log_format to_lower c.logging.format
  validate_web split_host_port loopback c.web
