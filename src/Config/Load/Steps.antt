-- ===== src/Config/Load/Steps.antt =====
-- `Load`: what the layers of the file and of the environment do to each section.
use remote_app_start_my_linu.Prelude.{
  Bytes, codes, none, some, Result, ok, bind-eq-ok, ◌≡◌, ◌≢◌, refl, subst, arith,
}
use remote_app_start_my_linu.Config.{Config}
use remote_app_start_my_linu.Config.Fields.{ConfigError, set_field, env_string}
use remote_app_start_my_linu.Config.File.{
  with_table, apply_server, apply_launcher, apply_auth, apply_web, apply_paths, apply_logging,
  RawConfig, apply_to, apply_decoded,
}
use remote_app_start_my_linu.Config.Env.{
  apply_env, env_server, env_launcher, env_auth, env_web, env_paths, env_logging,
}
use remote_app_start_my_linu.Config.Layers.{ok_injective}
use remote_app_start_my_linu.Config.Layers.Rest.{FromPaths, paths_in_file, paths_file-From}
use remote_app_start_my_linu.Config.Load.{World}

-- A file in which no key is set.
abbrev pub no_file : RawConfig
no_file = record {
  server = none;
  launcher = none;
  auth = none;
  web = none;
  paths = none;
  logging = none;
  icon_theme = none;
}

module _ (w : World) where
  -- What the file layer does to each section.
  pub record FileSteps (raw : RawConfig) (c d : Config) : Type 0 where
    pub server : with_table (apply_server w.parse_duration) raw.server c.server ≡ ok d.server
    pub launcher :
        with_table (apply_launcher w.parse_duration) raw.launcher c.launcher ≡ ok d.launcher
    pub auth : with_table (apply_auth w.parse_duration) raw.auth c.auth ≡ ok d.auth
    pub web : with_table (apply_web) raw.web c.web ≡ ok d.web
    pub paths : FromPaths (paths_in_file w.parse_duration raw.paths) c.paths d.paths
    pub logging : with_table (apply_logging) raw.logging c.logging ≡ ok d.logging
    pub icon_theme : d.icon_theme ≡ set_field c.icon_theme raw.icon_theme

  -- What the layer of the environment does to each section.
  pub record EnvSteps (c d : Config) : Type 0 where
    pub server : env_server w.parse_duration w.look c.server ≡ ok d.server
    pub launcher : env_launcher w.parse_duration w.look c.launcher ≡ ok d.launcher
    pub auth : env_auth w.parse_duration w.look c.auth ≡ ok d.auth
    pub web : env_web w.parse_duration w.look c.web ≡ ok d.web
    pub paths : env_paths w.parse_duration w.look c.paths ≡ ok d.paths
    pub logging : env_logging w.parse_duration w.look c.logging ≡ ok d.logging
    pub icon_theme :
        d.icon_theme ≡ set_field c.icon_theme (w.look (codes "REMOTELAUNCHER_ICON_THEME"))

  file_steps :
      (raw : RawConfig) (c d : Config) → apply_to w.parse_duration raw c ≡ ok d → FileSteps raw c d
  unfolding apply_to
  file_steps raw c d h =
      let (se1, see, seh) =
        bind-eq-ok (with_table (apply_server w.parse_duration) raw.server c.server) _ h in
      let (la1, lae, lah) =
        bind-eq-ok (with_table (apply_launcher w.parse_duration) raw.launcher c.launcher) _ seh in
      let (au1, aue, auh) =
        bind-eq-ok (with_table (apply_auth w.parse_duration) raw.auth c.auth) _ lah in
      let (we1, wee, weh) = bind-eq-ok (with_table (apply_web) raw.web c.web) _ auh in
      let (pa1, pae, pah) = bind-eq-ok (with_table (apply_paths) raw.paths c.paths) _ weh in
      let (lo1, loe, loh) = bind-eq-ok (with_table (apply_logging) raw.logging c.logging) _ pah in
      subst (FileSteps raw c) (ok_injective _ d loh) (record {
        server = see;
        launcher = lae;
        auth = aue;
        web = wee;
        paths = paths_file-From w.parse_duration raw.paths c.paths pa1 pae;
        logging = loe;
        icon_theme = refl;
      })

  pub env_steps : (c d : Config) → apply_env w.parse_duration w.look c ≡ ok d → EnvSteps c d
  unfolding apply_env env_string env_paths env_logging
  env_steps c d h =
      let (se1, see, seh) = bind-eq-ok (env_server w.parse_duration w.look c.server) _ h in
      let (la1, lae, lah) = bind-eq-ok (env_launcher w.parse_duration w.look c.launcher) _ seh in
      let (au1, aue, auh) = bind-eq-ok (env_auth w.parse_duration w.look c.auth) _ lah in
      let (we1, wee, weh) = bind-eq-ok (env_web w.parse_duration w.look c.web) _ auh in
      subst (EnvSteps c) (ok_injective _ d weh) (record {
        server = see;
        launcher = lae;
        auth = aue;
        web = wee;
        paths = refl;
        logging = refl;
        icon_theme = refl;
      })

  pub decoded_steps :
      (path : Bytes) (raw : RawConfig) (c d : Config)
      → apply_decoded w.parse_duration path (some raw) c ≡ ok d
      → FileSteps raw c d
  unfolding apply_decoded
  decoded_steps path raw c d h =
      let (m, me, mh) = bind-eq-ok (apply_to w.parse_duration raw c) _ h in
      let f = file_steps raw c m me in
      subst (FileSteps raw c) (ok_injective _ d mh) (record {
        server = f.server;
        launcher = f.launcher;
        auth = f.auth;
        web = f.web;
        paths = f.paths;
        logging = f.logging;
        icon_theme = f.icon_theme;
      })

  pub untouched :
      (c d : Config) → Path (Result ConfigError Config) (ok c) (ok d) → FileSteps no_file c d
  untouched c d h = subst (FileSteps no_file c) (ok_injective c d h) (record {
    server = refl;
    launcher = refl;
    auth = refl;
    web = refl;
    paths = refl;
    logging = refl;
    icon_theme = refl;
  })

  pub refused : (path : Bytes) (c d : Config) → apply_decoded w.parse_duration path none c ≢ ok d
  unfolding apply_decoded
  refused path c d h = ground arith
