-- ===== src/Config/Fields.antt =====
-- server/internal/config: what one layer does to one field, `setDuration` of file.go and the
-- `env...` functions of env.go; and the errors.
use remote_app_start_my_linu.Prelude.{
  Bytes, codes, eq_bytes, Bool, true, false, ◌||◌, if◌then◌else◌, Option, none, some, ℤ, Result, ok,
  err,
}
use remote_app_start_my_linu.Icons.Size.{atoi}

-- The errors, with the key or the variable where they name one.
pub data ConfigError : Type 0 where
  bad_duration bad_int bad_bool not_positive : Bytes → ConfigError
  flags_failed read_failed parse_failed : ConfigError
  empty_listen_addr global_below_per_ip bad_log_level bad_log_format : ConfigError
  empty_web_addr bad_web_addr empty_web_port not_loopback : ConfigError

-- `strconv.ParseBool`
unfoldable pub parse_bool : Bytes → Option Bool
parse_bool s =
    if eq_bytes s (codes "1")
      || eq_bytes s (codes "t")
      || eq_bytes s (codes "T")
      || eq_bytes s (codes "TRUE")
      || eq_bytes s (codes "true")
      || eq_bytes s (codes "True")
    then some true
    else if eq_bytes s (codes "0")
        || eq_bytes s (codes "f")
        || eq_bytes s (codes "F")
        || eq_bytes s (codes "FALSE")
        || eq_bytes s (codes "false")
        || eq_bytes s (codes "False")
    then some false
    else none

-- A value that was read, or an error.
abbrev pub parsed : {A : Type 0} → ConfigError → Option A → Result ConfigError A
parsed e none = err e
parsed e (some v) = ok v

-- A text that is parsed when the layer has it, and the value that the field keeps otherwise.
abbrev pub converted :
    {A : Type 0} → ConfigError → (Bytes → Option A) → Option Bytes → A → Result ConfigError A
converted e parse none dst = ok dst
converted e parse (some s) dst = parsed e (parse s)

-- `setDuration`
unfoldable pub set_duration : (Bytes → Option ℤ) → ℤ → Option Bytes → Bytes → Result ConfigError ℤ
set_duration parse_duration dst s key = converted (bad_duration key) parse_duration s dst

-- A field that is overwritten when the layer has it.
abbrev pub set_field : {A : Type 0} → A → Option A → A
set_field dst none = dst
set_field dst (some v) = v

module _ (look : Bytes → Option Bytes) where
  unfoldable pub env_string : Bytes → Bytes → Result ConfigError Bytes
  env_string key dst = ok (set_field dst (look key))

  unfoldable pub env_duration : (Bytes → Option ℤ) → Bytes → ℤ → Result ConfigError ℤ
  env_duration parse_duration key dst = converted (bad_duration key) parse_duration (look key) dst

  unfoldable pub env_int : Bytes → ℤ → Result ConfigError ℤ
  unfolding atoi
  env_int key dst = converted (bad_int key) atoi (look key) dst

  unfoldable pub env_bool : Bytes → Bool → Result ConfigError Bool
  unfolding parse_bool
  env_bool key dst = converted (bad_bool key) parse_bool (look key) dst
