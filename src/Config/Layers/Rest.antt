-- ===== src/Config/Layers/Rest.antt =====
-- Where the values of the web, paths and logging sections come from.
use remote_app_start_my_linu.Prelude.{
  Bytes, codes, Bool, Option, none, some, ℤ, ok, bind-eq-ok, ◌≡◌, refl, subst,
}
use remote_app_start_my_linu.Config.{WebConfig, PathsConfig, LoggingConfig}
use remote_app_start_my_linu.Config.Fields.{parse_bool}
use remote_app_start_my_linu.Config.File.{
  RawWeb, RawPaths, RawLogging, with_table, apply_web, apply_paths, apply_logging,
}
use remote_app_start_my_linu.Config.Env.{env_web, env_paths, env_logging}
use remote_app_start_my_linu.Config.Flags.{
  FlagOverrides, override_web, override_paths, override_logging,
}
use remote_app_start_my_linu.Config.Layers.{
  From, Comes, given, as_is, comes, ok_injective, set_field-From, env_bool-From,
}

-- What one layer gives for the fields.
pub record WebSource : Type 0 where
  pub enabled : Option (Option Bool)
  pub listen_addr : Option (Option Bytes)

abbrev FromWeb : WebSource → WebConfig → WebConfig → Type 0
FromWeb src c d =
    From src.enabled c.enabled d.enabled × From src.listen_addr c.listen_addr d.listen_addr

abbrev pub WebComes : FlagOverrides → WebSource → WebSource → WebConfig → WebConfig → Type 0
WebComes o env file c d =
    Comes o.web_enabled env.enabled file.enabled c.enabled d.enabled
    × Comes o.web_listen_addr env.listen_addr file.listen_addr c.listen_addr d.listen_addr

web_comes :
    (o : FlagOverrides) (env file : WebSource) (c d e : WebConfig)
    → FromWeb file c d
    → FromWeb env d e
    → WebComes o env file c (override_web o e)
web_comes o env file c d e h k = (
  comes o.web_enabled env.enabled file.enabled c.enabled d.enabled e.enabled h.0 k.0,
  comes o.web_listen_addr env.listen_addr file.listen_addr c.listen_addr d.listen_addr e.listen_addr
      h.1 k.1,
)

module _ (parse_duration : Bytes → Option ℤ) where
  abbrev pub web_in_file : Option RawWeb → WebSource
  web_in_file none = record { enabled = none; listen_addr = none }
  web_in_file (some r) = record { enabled = as_is r.enabled; listen_addr = as_is r.listen_addr }

  web_file-From :
      (r : Option RawWeb) (c d : WebConfig)
      → with_table (apply_web) r c ≡ ok d
      → FromWeb (web_in_file r) c d
  unfolding apply_web
  web_file-From none c d h = subst (FromWeb (web_in_file none) c) (ok_injective c d h) (refl, refl)
  web_file-From (some r) c d h =
      subst (FromWeb (web_in_file (some r)) c) (ok_injective _ d h)
        (set_field-From c.enabled r.enabled, set_field-From c.listen_addr r.listen_addr)

  module _ (look : Bytes → Option Bytes) where
    abbrev pub web_in_env : WebSource
    web_in_env = record {
      enabled = given parse_bool (look (codes "REMOTELAUNCHER_WEB_ENABLED"));
      listen_addr = as_is (look (codes "REMOTELAUNCHER_WEB_LISTEN_ADDR"));
    }

    web_env-From : (c d : WebConfig) → env_web parse_duration look c ≡ ok d → FromWeb web_in_env c d
    unfolding env_web
    web_env-From c d h =
        let (v1, e1, h1) = bind-eq-ok _ _ h in
        subst (FromWeb web_in_env c) (ok_injective _ d h1) (
          env_bool-From look _ c.enabled v1 e1,
          set_field-From c.listen_addr (look (codes "REMOTELAUNCHER_WEB_LISTEN_ADDR")),
        )

    pub web-Comes :
        (r : Option RawWeb) (o : FlagOverrides) (c d e : WebConfig)
        → with_table (apply_web) r c ≡ ok d
        → env_web parse_duration look d ≡ ok e
        → WebComes o web_in_env (web_in_file r) c (override_web o e)
    web-Comes r o c d e h k =
        web_comes o web_in_env (web_in_file r) c d e (web_file-From r c d h) (web_env-From d e k)

-- What one layer gives for the fields.
pub record PathsSource : Type 0 where
  pub cert_dir : Option (Option Bytes)

abbrev pub FromPaths : PathsSource → PathsConfig → PathsConfig → Type 0
FromPaths src c d = From src.cert_dir c.cert_dir d.cert_dir

abbrev pub PathsComes :
    FlagOverrides → PathsSource → PathsSource → PathsConfig → PathsConfig → Type 0
PathsComes o env file c d = Comes o.cert_dir env.cert_dir file.cert_dir c.cert_dir d.cert_dir

pub paths_comes :
    (o : FlagOverrides) (env file : PathsSource) (c d e : PathsConfig)
    → FromPaths file c d
    → FromPaths env d e
    → PathsComes o env file c (override_paths o e)
paths_comes o env file c d e h k =
    comes o.cert_dir env.cert_dir file.cert_dir c.cert_dir d.cert_dir e.cert_dir h k

module _ (parse_duration : Bytes → Option ℤ) where
  abbrev pub paths_in_file : Option RawPaths → PathsSource
  paths_in_file none = record { cert_dir = none }
  paths_in_file (some r) = record { cert_dir = as_is r.cert_dir }

  pub paths_file-From :
      (r : Option RawPaths) (c d : PathsConfig)
      → with_table (apply_paths) r c ≡ ok d
      → FromPaths (paths_in_file r) c d
  unfolding apply_paths
  paths_file-From none c d h = subst (FromPaths (paths_in_file none) c) (ok_injective c d h) refl
  paths_file-From (some r) c d h =
      subst (FromPaths (paths_in_file (some r)) c) (ok_injective _ d h)
        (set_field-From c.cert_dir r.cert_dir)

  module _ (look : Bytes → Option Bytes) where
    abbrev pub paths_in_env : PathsSource
    paths_in_env = record { cert_dir = as_is (look (codes "REMOTELAUNCHER_CERT_DIR")) }

    pub paths_env-From :
        (c d : PathsConfig) → env_paths parse_duration look c ≡ ok d → FromPaths paths_in_env c d
    unfolding env_paths
    paths_env-From c d h =
        subst (FromPaths paths_in_env c) (ok_injective _ d h)
          (set_field-From c.cert_dir (look (codes "REMOTELAUNCHER_CERT_DIR")))

    paths-Comes :
        (r : Option RawPaths) (o : FlagOverrides) (c d e : PathsConfig)
        → with_table (apply_paths) r c ≡ ok d
        → env_paths parse_duration look d ≡ ok e
        → PathsComes o paths_in_env (paths_in_file r) c (override_paths o e)
    paths-Comes r o c d e h k =
        paths_comes o paths_in_env (paths_in_file r) c d e (paths_file-From r c d h)
          (paths_env-From d e k)

-- What one layer gives for the fields.
pub record LoggingSource : Type 0 where
  pub level : Option (Option Bytes)
  pub format : Option (Option Bytes)

abbrev FromLogging : LoggingSource → LoggingConfig → LoggingConfig → Type 0
FromLogging src c d = From src.level c.level d.level × From src.format c.format d.format

abbrev pub LoggingComes :
    FlagOverrides → LoggingSource → LoggingSource → LoggingConfig → LoggingConfig → Type 0
LoggingComes o env file c d =
    Comes o.log_level env.level file.level c.level d.level
    × Comes o.log_format env.format file.format c.format d.format

logging_comes :
    (o : FlagOverrides) (env file : LoggingSource) (c d e : LoggingConfig)
    → FromLogging file c d
    → FromLogging env d e
    → LoggingComes o env file c (override_logging o e)
logging_comes o env file c d e h k = (
  comes o.log_level env.level file.level c.level d.level e.level h.0 k.0,
  comes o.log_format env.format file.format c.format d.format e.format h.1 k.1,
)

module _ (parse_duration : Bytes → Option ℤ) where
  abbrev pub logging_in_file : Option RawLogging → LoggingSource
  logging_in_file none = record { level = none; format = none }
  logging_in_file (some r) = record { level = as_is r.level; format = as_is r.format }

  logging_file-From :
      (r : Option RawLogging) (c d : LoggingConfig)
      → with_table (apply_logging) r c ≡ ok d
      → FromLogging (logging_in_file r) c d
  unfolding apply_logging
  logging_file-From none c d h =
      subst (FromLogging (logging_in_file none) c) (ok_injective c d h) (refl, refl)
  logging_file-From (some r) c d h =
      subst (FromLogging (logging_in_file (some r)) c) (ok_injective _ d h)
        (set_field-From c.level r.level, set_field-From c.format r.format)

  module _ (look : Bytes → Option Bytes) where
    abbrev pub logging_in_env : LoggingSource
    logging_in_env = record {
      level = as_is (look (codes "REMOTELAUNCHER_LOG_LEVEL"));
      format = as_is (look (codes "REMOTELAUNCHER_LOG_FORMAT"));
    }

    logging_env-From :
        (c d : LoggingConfig)
        → env_logging parse_duration look c ≡ ok d
        → FromLogging logging_in_env c d
    unfolding env_logging
    logging_env-From c d h = subst (FromLogging logging_in_env c) (ok_injective _ d h) (
      set_field-From c.level (look (codes "REMOTELAUNCHER_LOG_LEVEL")),
      set_field-From c.format (look (codes "REMOTELAUNCHER_LOG_FORMAT")),
    )

    pub logging-Comes :
        (r : Option RawLogging) (o : FlagOverrides) (c d e : LoggingConfig)
        → with_table (apply_logging) r c ≡ ok d
        → env_logging parse_duration look d ≡ ok e
        → LoggingComes o logging_in_env (logging_in_file r) c (override_logging o e)
    logging-Comes r o c d e h k =
        logging_comes o logging_in_env (logging_in_file r) c d e (logging_file-From r c d h)
          (logging_env-From d e k)
