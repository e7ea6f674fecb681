-- ===== src/Config/Layers/Server.antt =====
-- Where the values of the server section come from.
use remote_app_start_my_linu.Prelude.{
  Bytes, codes, Option, none, some, ℤ, ok, bind-eq-ok, ◌≡◌, refl, subst,
}
use remote_app_start_my_linu.Config.{ServerConfig}
use remote_app_start_my_linu.Config.File.{RawServer, with_table, apply_server}
use remote_app_start_my_linu.Config.Env.{env_server}
use remote_app_start_my_linu.Config.Flags.{FlagOverrides, override_server}
use remote_app_start_my_linu.Config.Layers.{
  From, Comes, given, as_is, comes, ok_injective, set_field-From, set_duration-From,
  env_duration-From,
}

-- What one layer gives for the fields.
pub record ServerSource : Type 0 where
  pub listen_addr : Option (Option Bytes)
  pub read_header_timeout : Option (Option ℤ)
  pub read_timeout : Option (Option ℤ)
  pub write_timeout : Option (Option ℤ)
  pub idle_timeout : Option (Option ℤ)
  pub shutdown_grace : Option (Option ℤ)

abbrev FromServer : ServerSource → ServerConfig → ServerConfig → Type 0
FromServer src c d =
    From src.listen_addr c.listen_addr d.listen_addr
    × From src.read_header_timeout c.read_header_timeout d.read_header_timeout
    × From src.read_timeout c.read_timeout d.read_timeout
    × From src.write_timeout c.write_timeout d.write_timeout
    × From src.idle_timeout c.idle_timeout d.idle_timeout
    × From src.shutdown_grace c.shutdown_grace d.shutdown_grace

abbrev pub ServerComes :
    FlagOverrides → ServerSource → ServerSource → ServerConfig → ServerConfig → Type 0
ServerComes o env file c d =
    Comes o.listen_addr env.listen_addr file.listen_addr c.listen_addr d.listen_addr
    × Comes o.read_header_timeout env.read_header_timeout file.read_header_timeout
        c.read_header_timeout d.read_header_timeout
    × Comes o.read_timeout env.read_timeout file.read_timeout c.read_timeout d.read_timeout
    × Comes o.write_timeout env.write_timeout file.write_timeout c.write_timeout d.write_timeout
    × Comes o.idle_timeout env.idle_timeout file.idle_timeout c.idle_timeout d.idle_timeout
    × Comes o.shutdown_grace env.shutdown_grace file.shutdown_grace c.shutdown_grace
        d.shutdown_grace

server_comes :
    (o : FlagOverrides) (env file : ServerSource) (c d e : ServerConfig)
    → FromServer file c d
    → FromServer env d e
    → ServerComes o env file c (override_server o e)
server_comes o env file c d e h k = (
  comes o.listen_addr env.listen_addr file.listen_addr c.listen_addr d.listen_addr e.listen_addr h.0
      k.0,
  comes o.read_header_timeout env.read_header_timeout file.read_header_timeout c.read_header_timeout
      d.read_header_timeout e.read_header_timeout h.1 k.1,
  comes o.read_timeout env.read_timeout file.read_timeout c.read_timeout d.read_timeout
      e.read_timeout h.2 k.2,
  comes o.write_timeout env.write_timeout file.write_timeout c.write_timeout d.write_timeout
      e.write_timeout h.3 k.3,
  comes o.idle_timeout env.idle_timeout file.idle_timeout c.idle_timeout d.idle_timeout
      e.idle_timeout h.4 k.4,
  comes o.shutdown_grace env.shutdown_grace file.shutdown_grace c.shutdown_grace d.shutdown_grace
      e.shutdown_grace h.5 k.5,
)

module _ (parse_duration : Bytes → Option ℤ) where
  abbrev pub server_in_file : Option RawServer → ServerSource
  server_in_file none = record {
    listen_addr = none;
    read_header_timeout = none;
    read_timeout = none;
    write_timeout = none;
    idle_timeout = none;
    shutdown_grace = none;
  }
  server_in_file (some r) = record {
    listen_addr = as_is r.listen_addr;
    read_header_timeout = given parse_duration r.read_header_timeout;
    read_timeout = given parse_duration r.read_timeout;
    write_timeout = given parse_duration r.write_timeout;
    idle_timeout = given parse_duration r.idle_timeout;
    shutdown_grace = given parse_duration r.shutdown_grace;
  }

  server_file-From :
      (r : Option RawServer) (c d : ServerConfig)
      → with_table (apply_server parse_duration) r c ≡ ok d
      → FromServer (server_in_file r) c d
  unfolding apply_server
  server_file-From none c d h =
      subst (FromServer (server_in_file none) c) (ok_injective c d h)
        (refl, refl, refl, refl, refl, refl)
  server_file-From (some r) c d h =
      let (v1, e1, h1) = bind-eq-ok _ _ h in
      let (v2, e2, h2) = bind-eq-ok _ _ h1 in
      let (v3, e3, h3) = bind-eq-ok _ _ h2 in
      let (v4, e4, h4) = bind-eq-ok _ _ h3 in
      let (v5, e5, h5) = bind-eq-ok _ _ h4 in
      subst (FromServer (server_in_file (some r)) c) (ok_injective _ d h5) (
        set_field-From c.listen_addr r.listen_addr,
        set_duration-From parse_duration c.read_header_timeout r.read_header_timeout _ v1 e1,
        set_duration-From parse_duration c.read_timeout r.read_timeout _ v2 e2,
        set_duration-From parse_duration c.write_timeout r.write_timeout _ v3 e3,
        set_duration-From parse_duration c.idle_timeout r.idle_timeout _ v4 e4,
        set_duration-From parse_duration c.shutdown_grace r.shutdown_grace _ v5 e5,
      )

  module _ (look : Bytes → Option Bytes) where
    abbrev pub server_in_env : ServerSource
    server_in_env = record {
      listen_addr = as_is (look (codes "REMOTELAUNCHER_LISTEN_ADDR"));
      read_header_timeout =
          given parse_duration (look (codes "REMOTELAUNCHER_READ_HEADER_TIMEOUT"));
      read_timeout = given parse_duration (look (codes "REMOTELAUNCHER_READ_TIMEOUT"));
      write_timeout = given parse_duration (look (codes "REMOTELAUNCHER_WRITE_TIMEOUT"));
      idle_timeout = given parse_duration (look (codes "REMOTELAUNCHER_IDLE_TIMEOUT"));
      shutdown_grace = given parse_duration (look (codes "REMOTELAUNCHER_SHUTDOWN_GRACE"));
    }

    server_env-From :
        (c d : ServerConfig)
        → env_server parse_duration look c ≡ ok d
        → FromServer server_in_env c d
    unfolding env_server
    server_env-From c d h =
        let (v2, e2, h2) = bind-eq-ok _ _ h in
        let (v3, e3, h3) = bind-eq-ok _ _ h2 in
        let (v4, e4, h4) = bind-eq-ok _ _ h3 in
        let (v5, e5, h5) = bind-eq-ok _ _ h4 in
        let (v6, e6, h6) = bind-eq-ok _ _ h5 in
        subst (FromServer server_in_env c) (ok_injective _ d h6) (
          set_field-From c.listen_addr (look (codes "REMOTELAUNCHER_LISTEN_ADDR")),
          env_duration-From look parse_duration _ c.read_header_timeout v2 e2,
          env_duration-From look parse_duration _ c.read_timeout v3 e3,
          env_duration-From look parse_duration _ c.write_timeout v4 e4,
          env_duration-From look parse_duration _ c.idle_timeout v5 e5,
          env_duration-From look parse_duration _ c.shutdown_grace v6 e6,
        )

    pub server-Comes :
        (r : Option RawServer) (o : FlagOverrides) (c d e : ServerConfig)
        → with_table (apply_server parse_duration) r c ≡ ok d
        → env_server parse_duration look d ≡ ok e
        → ServerComes o server_in_env (server_in_file r) c (override_server o e)
    server-Comes r o c d e h k =
        server_comes o server_in_env (server_in_file r) c d e (server_file-From r c d h)
          (server_env-From d e k)
