-- ===== src/Config/Tests.antt =====
-- The configuration of server/internal/config from a concrete environment and command line.
use remote_app_start_my_linu.Prelude.{
  codes, eq_bytes, true, List, [], ◌∷◌, ◌++◌, Option, none, some, ok, if◌then◌else◌, ◌≡◌, ◌↔◌,
}
use remote_app_start_my_linu.Config.{Config, defaults}
use remote_app_start_my_linu.Config.File.{not_exist}
use remote_app_start_my_linu.Config.Flags.{SetFlag, flag_listen_addr, flag_config_path}
use remote_app_start_my_linu.Config.Validate.{validate}
use remote_app_start_my_linu.Config.Validate.Valid.{IsValid, validate-IsValid}
use remote_app_start_my_linu.Config.Load.{World}

-- One variable is set, and there is no file.
abbrev world : World
world = record {
  join = λ a b. a ++ (b'/' ∷ b);
  getenv = λ key. [];
  look =
      λ key. if eq_bytes key (codes "REMOTELAUNCHER_LOG_LEVEL") then some (codes "debug") else none;
  user_home = some (codes "/home/a");
  read_file = λ path. not_exist;
  unmarshal = λ bytes. none;
  parse_duration = λ s. none;
  to_lower = λ s. s;
  split_host_port = λ addr. some (codes "127.0.0.1", codes "17843");
  loopback = λ host. some true;
}

abbrev args : Option (List SetFlag)
args = some (flag_config_path (codes "/c") ∷ flag_listen_addr (codes ":9000") ∷ [])

abbrev expected : Config
expected = record defaults {
  server = record defaults.server { listen_addr = codes ":9000" };
  logging = record defaults.logging { level = codes "debug" };
}

validate-IsValid_example :
    (validate world.to_lower world.split_host_port world.loopback defaults ≡ ok tt)
    ↔ IsValid world.to_lower world.split_host_port world.loopback defaults
validate-IsValid_example =
    validate-IsValid world.to_lower world.split_host_port world.loopback defaults
