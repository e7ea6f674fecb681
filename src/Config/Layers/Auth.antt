-- ===== src/Config/Layers/Auth.antt =====
-- Where the values of the launcher and pairing sections come from.
use remote_app_start_my_linu.Prelude.{
  Bytes, codes, Option, none, some, ℤ, ok, bind-eq-ok, ◌≡◌, refl, subst,
}
use remote_app_start_my_linu.Icons.Size.{atoi}
use remote_app_start_my_linu.Config.{LauncherConfig, AuthConfig}
use remote_app_start_my_linu.Config.File.{
  RawLauncher, RawAuth, with_table, apply_launcher, apply_auth,
}
use remote_app_start_my_linu.Config.Env.{env_launcher, env_auth}
use remote_app_start_my_linu.Config.Flags.{FlagOverrides, override_launcher, override_auth}
use remote_app_start_my_linu.Config.Layers.{
  From, Comes, given, as_is, comes, ok_injective, set_field-From, set_duration-From,
  env_duration-From, env_int-From,
}

-- What one layer gives for the fields.
pub record LauncherSource : Type 0 where
  pub cleanup_period : Option (Option ℤ)
  pub default_terminal : Option (Option Bytes)

abbrev FromLauncher : LauncherSource → LauncherConfig → LauncherConfig → Type 0
FromLauncher src c d =
    From src.cleanup_period c.cleanup_period d.cleanup_period
    × From src.default_terminal c.default_terminal d.default_terminal

abbrev pub LauncherComes :
    FlagOverrides → LauncherSource → LauncherSource → LauncherConfig → LauncherConfig → Type 0
LauncherComes o env file c d =
    Comes o.cleanup_period env.cleanup_period file.cleanup_period c.cleanup_period d.cleanup_period
    × Comes none env.default_terminal file.default_terminal c.default_terminal d.default_terminal

launcher_comes :
    (o : FlagOverrides) (env file : LauncherSource) (c d e : LauncherConfig)
    → FromLauncher file c d
    → FromLauncher env d e
    → LauncherComes o env file c (override_launcher o e)
launcher_comes o env file c d e h k = (
  comes o.cleanup_period env.cleanup_period file.cleanup_period c.cleanup_period d.cleanup_period
      e.cleanup_period h.0 k.0,
  comes none env.default_terminal file.default_terminal c.default_terminal d.default_terminal
      e.default_terminal h.1 k.1,
)

module _ (parse_duration : Bytes → Option ℤ) where
  abbrev pub launcher_in_file : Option RawLauncher → LauncherSource
  launcher_in_file none = record { cleanup_period = none; default_terminal = none }
  launcher_in_file (some r) = record {
    cleanup_period = given parse_duration r.cleanup_period;
    default_terminal = as_is r.default_terminal;
  }

  launcher_file-From :
      (r : Option RawLauncher) (c d : LauncherConfig)
      → with_table (apply_launcher parse_duration) r c ≡ ok d
      → FromLauncher (launcher_in_file r) c d
  unfolding apply_launcher
  launcher_file-From none c d h =
      subst (FromLauncher (launcher_in_file none) c) (ok_injective c d h) (refl, refl)
  launcher_file-From (some r) c d h =
      let (v1, e1, h1) = bind-eq-ok _ _ h in
      subst (FromLauncher (launcher_in_file (some r)) c) (ok_injective _ d h1) (
        set_duration-From parse_duration c.cleanup_period r.cleanup_period _ v1 e1,
        set_field-From c.default_terminal r.default_terminal,
      )

  module _ (look : Bytes → Option Bytes) where
    abbrev pub launcher_in_env : LauncherSource
    launcher_in_env = record {
      cleanup_period = given parse_duration (look (codes "REMOTELAUNCHER_CLEANUP_PERIOD"));
      default_terminal = as_is (look (codes "REMOTELAUNCHER_DEFAULT_TERMINAL"));
    }

    launcher_env-From :
        (c d : LauncherConfig)
        → env_launcher parse_duration look c ≡ ok d
        → FromLauncher launcher_in_env c d
    unfolding env_launcher
    launcher_env-From c d h =
        let (v1, e1, h1) = bind-eq-ok _ _ h in
        subst (FromLauncher launcher_in_env c) (ok_injective _ d h1) (
          env_duration-From look parse_duration _ c.cleanup_period v1 e1,
          set_field-From c.default_terminal (look (codes "REMOTELAUNCHER_DEFAULT_TERMINAL")),
        )

    pub launcher-Comes :
        (r : Option RawLauncher) (o : FlagOverrides) (c d e : LauncherConfig)
        → with_table (apply_launcher parse_duration) r c ≡ ok d
        → env_launcher parse_duration look d ≡ ok e
        → LauncherComes o launcher_in_env (launcher_in_file r) c (override_launcher o e)
    launcher-Comes r o c d e h k =
        launcher_comes o launcher_in_env (launcher_in_file r) c d e (launcher_file-From r c d h)
          (launcher_env-From d e k)

-- What one layer gives for the fields.
pub record AuthSource : Type 0 where
  pub pin_ttl : Option (Option ℤ)
  pub rate_limit_per_ip : Option (Option ℤ)
  pub rate_limit_global : Option (Option ℤ)
  pub rate_limit_window : Option (Option ℤ)

abbrev FromAuth : AuthSource → AuthConfig → AuthConfig → Type 0
FromAuth src c d =
    From src.pin_ttl c.pin_ttl d.pin_ttl
    × From src.rate_limit_per_ip c.rate_limit_per_ip d.rate_limit_per_ip
    × From src.rate_limit_global c.rate_limit_global d.rate_limit_global
    × From src.rate_limit_window c.rate_limit_window d.rate_limit_window

abbrev pub AuthComes : FlagOverrides → AuthSource → AuthSource → AuthConfig → AuthConfig → Type 0
AuthComes o env file c d =
    Comes o.pin_ttl env.pin_ttl file.pin_ttl c.pin_ttl d.pin_ttl
    × Comes o.rate_limit_per_ip env.rate_limit_per_ip file.rate_limit_per_ip c.rate_limit_per_ip
        d.rate_limit_per_ip
    × Comes o.rate_limit_global env.rate_limit_global file.rate_limit_global c.rate_limit_global
        d.rate_limit_global
    × Comes o.rate_limit_window env.rate_limit_window file.rate_limit_window c.rate_limit_window
        d.rate_limit_window

auth_comes :
    (o : FlagOverrides) (env file : AuthSource) (c d e : AuthConfig)
    → FromAuth file c d
    → FromAuth env d e
    → AuthComes o env file c (override_auth o e)
auth_comes o env file c d e h k = (
  comes o.pin_ttl env.pin_ttl file.pin_ttl c.pin_ttl d.pin_ttl e.pin_ttl h.0 k.0,
  comes o.rate_limit_per_ip env.rate_limit_per_ip file.rate_limit_per_ip c.rate_limit_per_ip
      d.rate_limit_per_ip e.rate_limit_per_ip h.1 k.1,
  comes o.rate_limit_global env.rate_limit_global file.rate_limit_global c.rate_limit_global
      d.rate_limit_global e.rate_limit_global h.2 k.2,
  comes o.rate_limit_window env.rate_limit_window file.rate_limit_window c.rate_limit_window
      d.rate_limit_window e.rate_limit_window h.3 k.3,
)

module _ (parse_duration : Bytes → Option ℤ) where
  abbrev pub auth_in_file : Option RawAuth → AuthSource
  auth_in_file none = record {
    pin_ttl = none;
    rate_limit_per_ip = none;
    rate_limit_global = none;
    rate_limit_window = none;
  }
  auth_in_file (some r) = record {
    pin_ttl = given parse_duration r.pin_ttl;
    rate_limit_per_ip = as_is r.rate_limit_per_ip;
    rate_limit_global = as_is r.rate_limit_global;
    rate_limit_window = given parse_duration r.rate_limit_window;
  }

  auth_file-From :
      (r : Option RawAuth) (c d : AuthConfig)
      → with_table (apply_auth parse_duration) r c ≡ ok d
      → FromAuth (auth_in_file r) c d
  unfolding apply_auth
  auth_file-From none c d h =
      subst (FromAuth (auth_in_file none) c) (ok_injective c d h) (refl, refl, refl, refl)
  auth_file-From (some r) c d h =
      let (v1, e1, h1) = bind-eq-ok _ _ h in
      let (v2, e2, h2) = bind-eq-ok _ _ h1 in
      subst (FromAuth (auth_in_file (some r)) c) (ok_injective _ d h2) (
        set_duration-From parse_duration c.pin_ttl r.pin_ttl _ v1 e1,
        set_field-From c.rate_limit_per_ip r.rate_limit_per_ip,
        set_field-From c.rate_limit_global r.rate_limit_global,
        set_duration-From parse_duration c.rate_limit_window r.rate_limit_window _ v2 e2,
      )

  module _ (look : Bytes → Option Bytes) where
    abbrev pub auth_in_env : AuthSource
    auth_in_env = record {
      pin_ttl = given parse_duration (look (codes "REMOTELAUNCHER_PIN_TTL"));
      rate_limit_per_ip = given atoi (look (codes "REMOTELAUNCHER_PAIR_RATE_PER_IP"));
      rate_limit_global = given atoi (look (codes "REMOTELAUNCHER_PAIR_RATE_GLOBAL"));
      rate_limit_window = given parse_duration (look (codes "REMOTELAUNCHER_PAIR_RATE_WINDOW"));
    }

    auth_env-From :
        (c d : AuthConfig) → env_auth parse_duration look c ≡ ok d → FromAuth auth_in_env c d
    unfolding env_auth
    auth_env-From c d h =
        let (v1, e1, h1) = bind-eq-ok _ _ h in
        let (v2, e2, h2) = bind-eq-ok _ _ h1 in
        let (v3, e3, h3) = bind-eq-ok _ _ h2 in
        let (v4, e4, h4) = bind-eq-ok _ _ h3 in
        subst (FromAuth auth_in_env c) (ok_injective _ d h4) (
          env_duration-From look parse_duration _ c.pin_ttl v1 e1,
          env_int-From look _ c.rate_limit_per_ip v2 e2,
          env_int-From look _ c.rate_limit_global v3 e3,
          env_duration-From look parse_duration _ c.rate_limit_window v4 e4,
        )

    pub auth-Comes :
        (r : Option RawAuth) (o : FlagOverrides) (c d e : AuthConfig)
        → with_table (apply_auth parse_duration) r c ≡ ok d
        → env_auth parse_duration look d ≡ ok e
        → AuthComes o auth_in_env (auth_in_file r) c (override_auth o e)
    auth-Comes r o c d e h k =
        auth_comes o auth_in_env (auth_in_file r) c d e (auth_file-From r c d h)
          (auth_env-From d e k)
