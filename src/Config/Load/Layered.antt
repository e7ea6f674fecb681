-- ===== src/Config/Load/Layered.antt =====
-- `Load`: which layer each value comes from, and that what it returns is valid.
use remote_app_start_my_linu.Prelude.{Bytes, codes, [], some, ◌≡◌, ◌⊎◌}
use remote_app_start_my_linu.Config.{Config}
use remote_app_start_my_linu.Config.File.{RawConfig, not_exist, data_read}
use remote_app_start_my_linu.Config.Flags.{FlagOverrides}
use remote_app_start_my_linu.Config.Layers.{Comes, as_is}
use remote_app_start_my_linu.Config.Layers.Server.{ServerComes, server_in_file, server_in_env}
use remote_app_start_my_linu.Config.Layers.Auth.{
  LauncherComes, launcher_in_file, launcher_in_env, AuthComes, auth_in_file, auth_in_env,
}
use remote_app_start_my_linu.Config.Layers.Rest.{
  WebComes, web_in_file, web_in_env, PathsComes, paths_in_file, paths_in_env, LoggingComes,
  logging_in_file, logging_in_env,
}
use remote_app_start_my_linu.Config.Load.{World}
use remote_app_start_my_linu.Config.Load.Steps.{no_file, FileSteps}

module _ (w : World) where
  -- The keys that the file layer has: those of the file at the path, and none if there is none.
  abbrev pub IsFile : Bytes → RawConfig → Type 0
  IsFile path raw =
      (((path ≡ []) ⊎ (w.read_file path ≡ not_exist)) × (raw ≡ no_file))
      ⊎ ((bytes : Bytes) × (w.read_file path ≡ data_read bytes) × (w.unmarshal bytes ≡ some raw))

  -- Where every value of a configuration comes from.
  pub record IsLayered (o : FlagOverrides) (raw : RawConfig) (start c : Config) : Type 0 where
    pub server :
        ServerComes o
          (server_in_env w.parse_duration w.look)
          (server_in_file w.parse_duration raw.server)
          start.server
          c.server
    pub launcher :
        LauncherComes o
          (launcher_in_env w.parse_duration w.look)
          (launcher_in_file w.parse_duration raw.launcher)
          start.launcher
          c.launcher
    pub auth :
        AuthComes o
          (auth_in_env w.parse_duration w.look)
          (auth_in_file w.parse_duration raw.auth)
          start.auth
          c.auth
    pub web :
        WebComes o
          (web_in_env w.parse_duration w.look)
          (web_in_file w.parse_duration raw.web)
          start.web
          c.web
    pub paths :
        PathsComes o
          (paths_in_env w.parse_duration w.look)
          (paths_in_file w.parse_duration raw.paths)
          start.paths
          c.paths
    pub logging :
        LoggingComes o
          (logging_in_env w.parse_duration w.look)
          (logging_in_file w.parse_duration raw.logging)
          start.logging
          c.logging
    pub icon_theme :
        Comes o.icon_theme
          (as_is (w.look (codes "REMOTELAUNCHER_ICON_THEME")))
          (as_is raw.icon_theme)
          start.icon_theme
          c.icon_theme

  -- What a path that holds a file, or none, has done to the defaults.
  abbrev FromFile : Bytes → Config → Config → Type 0
  FromFile path c d = (raw : RawConfig) × IsFile path raw × FileSteps w raw c d
