-- ===== src/Config/Layers/CommandLine.antt =====
-- server/internal/config/flags.go: what a command line gives, field by field, and that the callback of
-- `Visit` collects just that.
use remote_app_start_my_linu.Prelude.{
  Bytes, Bool, List, [], ◌∷◌, Option, none, some, ℤ, ok, ◌≡◌, refl, sym, ap, ◌∙◌,
}
use remote_app_start_my_linu.Config.Flags.{
  SetFlag, FlagOverrides, no_overrides, visit_flag, visit_flags, parse_flags, flag_config_path,
  flag_listen_addr, flag_read_header_timeout, flag_read_timeout, flag_write_timeout,
  flag_idle_timeout, flag_shutdown_grace, flag_cleanup_period, flag_pin_ttl, flag_rate_limit_per_ip,
  flag_rate_limit_global, flag_rate_limit_window, flag_cert_dir, flag_icon_theme, flag_log_level,
  flag_log_format, flag_web_enabled, flag_web_listen_addr,
}
use remote_app_start_my_linu.Config.Layers.{ok_injective}

-- The value that a flag gives to the field of its name.
abbrev pub config_path_of : SetFlag → Option Bytes
config_path_of (flag_config_path v) = some v
config_path_of f = none

abbrev pub listen_addr_of : SetFlag → Option Bytes
listen_addr_of (flag_listen_addr v) = some v
listen_addr_of f = none

abbrev pub read_header_timeout_of : SetFlag → Option ℤ
read_header_timeout_of (flag_read_header_timeout v) = some v
read_header_timeout_of f = none

abbrev pub read_timeout_of : SetFlag → Option ℤ
read_timeout_of (flag_read_timeout v) = some v
read_timeout_of f = none

abbrev pub write_timeout_of : SetFlag → Option ℤ
write_timeout_of (flag_write_timeout v) = some v
write_timeout_of f = none

abbrev pub idle_timeout_of : SetFlag → Option ℤ
idle_timeout_of (flag_idle_timeout v) = some v
idle_timeout_of f = none

abbrev pub shutdown_grace_of : SetFlag → Option ℤ
shutdown_grace_of (flag_shutdown_grace v) = some v
shutdown_grace_of f = none

abbrev pub cleanup_period_of : SetFlag → Option ℤ
cleanup_period_of (flag_cleanup_period v) = some v
cleanup_period_of f = none

abbrev pub pin_ttl_of : SetFlag → Option ℤ
pin_ttl_of (flag_pin_ttl v) = some v
pin_ttl_of f = none

abbrev pub rate_limit_per_ip_of : SetFlag → Option ℤ
rate_limit_per_ip_of (flag_rate_limit_per_ip v) = some v
rate_limit_per_ip_of f = none

abbrev pub rate_limit_global_of : SetFlag → Option ℤ
rate_limit_global_of (flag_rate_limit_global v) = some v
rate_limit_global_of f = none

abbrev pub rate_limit_window_of : SetFlag → Option ℤ
rate_limit_window_of (flag_rate_limit_window v) = some v
rate_limit_window_of f = none

abbrev pub cert_dir_of : SetFlag → Option Bytes
cert_dir_of (flag_cert_dir v) = some v
cert_dir_of f = none

abbrev pub icon_theme_of : SetFlag → Option Bytes
icon_theme_of (flag_icon_theme v) = some v
icon_theme_of f = none

abbrev pub log_level_of : SetFlag → Option Bytes
log_level_of (flag_log_level v) = some v
log_level_of f = none

abbrev pub log_format_of : SetFlag → Option Bytes
log_format_of (flag_log_format v) = some v
log_format_of f = none

abbrev pub web_enabled_of : SetFlag → Option Bool
web_enabled_of (flag_web_enabled v) = some v
web_enabled_of f = none

abbrev pub web_listen_addr_of : SetFlag → Option Bytes
web_listen_addr_of (flag_web_listen_addr v) = some v
web_listen_addr_of f = none

abbrev or_before : {A : Type 0} → Option A → Option A → Option A
or_before none before = before
or_before (some v) before = some v

-- The value of the last flag that gives one, and what was there before where none does.
abbrev pub last_given : {A : Type 0} → (SetFlag → Option A) → List SetFlag → Option A → Option A
last_given give [] before = before
last_given give (f ∷ fs) before = last_given give fs (or_before (give f) before)

abbrev given_over : FlagOverrides → List SetFlag → FlagOverrides
given_over o fs = record {
  config_path = last_given config_path_of fs o.config_path;
  listen_addr = last_given listen_addr_of fs o.listen_addr;
  read_header_timeout = last_given read_header_timeout_of fs o.read_header_timeout;
  read_timeout = last_given read_timeout_of fs o.read_timeout;
  write_timeout = last_given write_timeout_of fs o.write_timeout;
  idle_timeout = last_given idle_timeout_of fs o.idle_timeout;
  shutdown_grace = last_given shutdown_grace_of fs o.shutdown_grace;
  cleanup_period = last_given cleanup_period_of fs o.cleanup_period;
  pin_ttl = last_given pin_ttl_of fs o.pin_ttl;
  rate_limit_per_ip = last_given rate_limit_per_ip_of fs o.rate_limit_per_ip;
  rate_limit_global = last_given rate_limit_global_of fs o.rate_limit_global;
  rate_limit_window = last_given rate_limit_window_of fs o.rate_limit_window;
  cert_dir = last_given cert_dir_of fs o.cert_dir;
  icon_theme = last_given icon_theme_of fs o.icon_theme;
  log_level = last_given log_level_of fs o.log_level;
  log_format = last_given log_format_of fs o.log_format;
  web_enabled = last_given web_enabled_of fs o.web_enabled;
  web_listen_addr = last_given web_listen_addr_of fs o.web_listen_addr;
}

-- What a command line gives to each field.
abbrev pub command_line : List SetFlag → FlagOverrides
command_line fs = record {
  config_path = last_given config_path_of fs none;
  listen_addr = last_given listen_addr_of fs none;
  read_header_timeout = last_given read_header_timeout_of fs none;
  read_timeout = last_given read_timeout_of fs none;
  write_timeout = last_given write_timeout_of fs none;
  idle_timeout = last_given idle_timeout_of fs none;
  shutdown_grace = last_given shutdown_grace_of fs none;
  cleanup_period = last_given cleanup_period_of fs none;
  pin_ttl = last_given pin_ttl_of fs none;
  rate_limit_per_ip = last_given rate_limit_per_ip_of fs none;
  rate_limit_global = last_given rate_limit_global_of fs none;
  rate_limit_window = last_given rate_limit_window_of fs none;
  cert_dir = last_given cert_dir_of fs none;
  icon_theme = last_given icon_theme_of fs none;
  log_level = last_given log_level_of fs none;
  log_format = last_given log_format_of fs none;
  web_enabled = last_given web_enabled_of fs none;
  web_listen_addr = last_given web_listen_addr_of fs none;
}

visit_flag-given : (o : FlagOverrides) (f : SetFlag) → visit_flag o f ≡ given_over o (f ∷ [])
unfolding visit_flag
visit_flag-given o (flag_config_path v) = refl
visit_flag-given o (flag_listen_addr v) = refl
visit_flag-given o (flag_read_header_timeout v) = refl
visit_flag-given o (flag_read_timeout v) = refl
visit_flag-given o (flag_write_timeout v) = refl
visit_flag-given o (flag_idle_timeout v) = refl
visit_flag-given o (flag_shutdown_grace v) = refl
visit_flag-given o (flag_cleanup_period v) = refl
visit_flag-given o (flag_pin_ttl v) = refl
visit_flag-given o (flag_rate_limit_per_ip v) = refl
visit_flag-given o (flag_rate_limit_global v) = refl
visit_flag-given o (flag_rate_limit_window v) = refl
visit_flag-given o (flag_cert_dir v) = refl
visit_flag-given o (flag_icon_theme v) = refl
visit_flag-given o (flag_log_level v) = refl
visit_flag-given o (flag_log_format v) = refl
visit_flag-given o (flag_web_enabled v) = refl
visit_flag-given o (flag_web_listen_addr v) = refl

visit_flags-given : (fs : List SetFlag) (o : FlagOverrides) → visit_flags o fs ≡ given_over o fs
unfolding visit_flags
visit_flags-given [] o = refl
visit_flags-given (f ∷ fs) o =
    visit_flags-given fs (visit_flag o f) ∙ ap (λ z. given_over z fs) (visit_flag-given o f)

-- Flags that are parsed are those of a command line that the package takes.
pub parse_flags-command_line :
    (args : Option (List SetFlag)) (o : FlagOverrides)
    → parse_flags args ≡ ok o
    → (fs : List SetFlag) × (args ≡ some fs) × (o ≡ command_line fs)
unfolding parse_flags
parse_flags-command_line none o h = absurd (cc h)
parse_flags-command_line (some fs) o h =
    (fs, refl, sym (ok_injective _ o h) ∙ visit_flags-given fs no_overrides)
