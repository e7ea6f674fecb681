-- ===== src/Config/Validate/Valid.antt =====
-- `Validate` against the conditions that it stands for.
use remote_app_start_my_linu.Prelude.{
  Bytes, codes, eq_bytes, trim_space, is_empty, Bool, true, false, Option, none, some, is_positive,
  ltb_ℤ, Result, ok, err, ◌>>=◌, ◌≡◌, ◌↔◌, ◌⊎◌, inl, inr, refl, arith, Bool-cases, Option-cases,
}
use remote_app_start_my_linu.Desktop.Scan.{fold_case}
use remote_app_start_my_linu.Config.{ServerConfig, AuthConfig, WebConfig, Config}
use remote_app_start_my_linu.Config.Fields.{ConfigError}
use remote_app_start_my_linu.Config.Validate.{
  require, is_blank, is_log_level, is_log_format, validate_limits, validate_server,
  validate_log_level, validate_log_format, validate_host, validate_host_port,
  validate_web_listen_addr, validate_web, validate,
}

-- A check in front of others.
require_bind :
    (b : Bool) (e : ConfigError) (rest : Result ConfigError Unit)
    → ((require b e >>= λ _. rest) ≡ ok tt) ↔ ((b ≡ true) × (rest ≡ ok tt))
require_bind true e rest = ground arith
require_bind false e rest = ground arith

require_ok : (b : Bool) (e : ConfigError) → (require b e ≡ ok tt) ↔ (b ≡ true)
require_ok true e = ground arith
require_ok false e = ground arith

then_ok :
    (r rest : Result ConfigError Unit)
    → ((r >>= λ _. rest) ≡ ok tt) ↔ ((r ≡ ok tt) × (rest ≡ ok tt))
then_ok (ok tt) rest = ground arith
then_ok (err e) rest = ground arith

pub record ServerIsValid (c : ServerConfig) : Type 0 where
  pub addressed : is_blank c.listen_addr ≡ false
  pub header : is_positive c.read_header_timeout ≡ true
  pub read : is_positive c.read_timeout ≡ true
  pub write : is_positive c.write_timeout ≡ true
  pub idle : is_positive c.idle_timeout ≡ true
  pub grace : is_positive c.shutdown_grace ≡ true

validate_server_iff : (c : ServerConfig) → (validate_server c ≡ ok tt) ↔ ServerIsValid c
unfolding validate_server
validate_server_iff c = ground arith

pub record LimitsAreValid (c : AuthConfig) : Type 0 where
  pub per_ip : is_positive c.rate_limit_per_ip ≡ true
  pub global : is_positive c.rate_limit_global ≡ true
  pub ordered : ltb_ℤ c.rate_limit_global c.rate_limit_per_ip ≡ false

validate_limits_iff : (c : AuthConfig) → (validate_limits c ≡ ok tt) ↔ LimitsAreValid c
unfolding validate_limits
validate_limits_iff c = ground arith

module _ (split_host_port : Bytes → Option (Bytes × Bytes)) (loopback : Bytes → Option Bool) where
  -- An address of this machine only: its host is `localhost` or a loopback address.
  pub record IsLocal (addr : Bytes) : Type 0 where
    pub host : Bytes
    pub port : Bytes
    pub splits : split_host_port addr ≡ some (host, port)
    pub has_port : is_blank port ≡ false
    pub has_host : is_empty host ≡ false
    pub local : (eq_bytes (fold_case host) (codes "localhost") ≡ true) ⊎ (loopback host ≡ some true)

  validate_host_iff :
      (host : Bytes)
      → (validate_host split_host_port loopback host ≡ ok tt) ↔ (
          (is_empty host ≡ false)
          × ((eq_bytes (fold_case host) (codes "localhost") ≡ true) ⊎ (loopback host ≡ some true)))
  unfolding validate_host
  validate_host_iff host = elim (Option-cases (loopback host)) [
    | inl e ↦ rw e (ground arith)
    | inr (b, e) ↦ rw e (ground arith)
  ]

  host_port-IsLocal :
      (addr : Bytes) (o : Option (Bytes × Bytes))
      → split_host_port addr ≡ o
      → (validate_host_port split_host_port loopback o ≡ ok tt)
      → IsLocal addr
  unfolding validate_host_port
  host_port-IsLocal addr none e h = absurd (ground arith)
  host_port-IsLocal addr (some (host, port)) e h = elim (Bool-cases (is_blank port)) [
    | inl k ↦ absurd (ground arith)
    | inr k ↦
        let (a, b) = (validate_host_iff host).0 (ground arith) in
        record { host = host; port = port; splits = e; has_port = k; has_host = a; local = b }
  ]

  local_host_port :
      (addr : Bytes)
      → IsLocal addr
      → validate_host_port split_host_port loopback (split_host_port addr) ≡ ok tt
  unfolding validate_host_port
  local_host_port addr v =
      rw v.splits (ground (arith, v.has_port, (validate_host_iff v.host).1 (v.has_host, v.local)))

  validate_web_iff :
      (c : WebConfig)
      → (validate_web split_host_port loopback c ≡ ok tt)
        ↔ (c.enabled ≡ true → (is_blank c.listen_addr ≡ false) × IsLocal c.listen_addr)
  unfolding validate_web validate_web_listen_addr
  validate_web_iff c = (
    λ h e. (ground arith, host_port-IsLocal c.listen_addr _ refl (ground arith)),
    λ h. elim (Bool-cases c.enabled) [
      | inl e ↦ let v = h e in ground (arith, local_host_port c.listen_addr v.1)
      | inr e ↦ ground arith
    ],
  )

module _ (to_lower : Bytes → Bytes) (split_host_port : Bytes → Option (Bytes × Bytes))
    (loopback : Bytes → Option Bool) where
  -- What a configuration must satisfy.
  pub record IsValid (c : Config) : Type 0 where
    pub server : ServerIsValid c.server
    pub cleanup : is_positive c.launcher.cleanup_period ≡ true
    pub pin_ttl : is_positive c.auth.pin_ttl ≡ true
    pub window : is_positive c.auth.rate_limit_window ≡ true
    pub limits : LimitsAreValid c.auth
    pub level : is_log_level to_lower (to_lower (trim_space c.logging.level)) ≡ true
    pub format : is_log_format to_lower (to_lower (trim_space c.logging.format)) ≡ true
    pub web :
        c.web.enabled ≡ true
        → (is_blank c.web.listen_addr ≡ false) × IsLocal split_host_port loopback c.web.listen_addr

  -- The validation accepts a configuration exactly when the listen address is not blank, every
  -- timeout and period is positive, both rate limits are positive and the global one is not below
  -- that per address, the log level and format are known names, and the web listener, if it is
  -- enabled, has a port and a host that is `localhost` or a loopback address.
  pub validate-IsValid :
      (c : Config) → (validate to_lower split_host_port loopback c ≡ ok tt) ↔ IsValid c
  unfolding validate validate_log_level validate_log_format
  validate-IsValid c = ground (
    arith,
    validate_server_iff c.server,
    validate_limits_iff c.auth,
    validate_web_iff split_host_port loopback c.web,
    then_ok (validate_server c.server),
    then_ok (validate_limits c.auth),
  )
