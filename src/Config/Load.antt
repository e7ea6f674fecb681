-- ===== src/Config/Load.antt =====
-- server/internal/config/load.go: the layers in their order. What the program finds outside is a
-- record: the environment, the file system, the parsers of the libraries.
pub mod Steps
pub mod Layered
use remote_app_start_my_linu.Prelude.{
  Bytes, codes, is_empty, Bool, if◌then◌else◌, List, Option, none, some, ℤ, Result, ok, err, ◌>>=◌,
}
use remote_app_start_my_linu.Config.{Config, defaults}
use remote_app_start_my_linu.Config.Fields.{ConfigError, set_field}
use remote_app_start_my_linu.Config.File.{RawConfig, FileRead, load_file}
use remote_app_start_my_linu.Config.Env.{apply_env}
use remote_app_start_my_linu.Config.Flags.{SetFlag, parse_flags, apply_flag_overrides}
use remote_app_start_my_linu.Config.Validate.{validate}

pub record World : Type 0 where
  -- `filepath.Join`, `os.Getenv`, `os.LookupEnv`, `os.UserHomeDir`, `os.ReadFile`
  pub join : Bytes → Bytes → Bytes
  pub getenv : Bytes → Bytes
  pub look : Bytes → Option Bytes
  pub user_home : Option Bytes
  pub read_file : Bytes → FileRead
  -- `toml.Unmarshal`, `time.ParseDuration`, `strings.ToLower`, `net.SplitHostPort`, and
  -- `net.ParseIP` with `IsLoopback`
  pub unmarshal : Bytes → Option RawConfig
  pub parse_duration : Bytes → Option ℤ
  pub to_lower : Bytes → Bytes
  pub split_host_port : Bytes → Option (Bytes × Bytes)
  pub loopback : Bytes → Option Bool

module _ (w : World) where
  abbrev config_in : Bytes → Bytes
  config_in base = w.join (w.join base (codes "remotelauncher")) (codes "config.toml")

  abbrev config_below_home : Option Bytes → Bytes
  config_below_home none = codes ""
  config_below_home (some home) = config_in (w.join home (codes ".config"))

  -- `DefaultConfigPath`
  unfoldable pub default_config_path : Bytes
  default_config_path =
      if is_empty (w.getenv (codes "XDG_CONFIG_HOME"))
      then config_below_home w.user_home
      else config_in (w.getenv (codes "XDG_CONFIG_HOME"))

  abbrev pub checked : Config → Result ConfigError Config
  checked c = do _ ← validate w.to_lower w.split_host_port w.loopback c; ok c

  -- `Load`
  unfoldable pub load : Option (List SetFlag) → Result ConfigError Config
  unfolding parse_flags load_file apply_env apply_flag_overrides validate
  load args = do
    o ← parse_flags args
    from_file ←
        load_file w.parse_duration w.read_file w.unmarshal defaults
          (set_field default_config_path o.config_path)
    from_env ← apply_env w.parse_duration w.look from_file
    checked (apply_flag_overrides from_env o)
