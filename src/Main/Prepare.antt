-- ===== src/Main/Prepare.antt =====
-- server/cmd/remotelauncher/main.go, `run` up to the start of the servers: what it loads in which
-- order, and the state that the handlers share. Logging is left out.
use remote_app_start_my_linu.Prelude.{
  ℕ, Bytes, codes, Bool, List, [], Option, none, some, ℤ, pos, negsuc, Result, ok, err, ◌>>=◌,
  map_err,
}
use remote_app_start_my_linu.Auth.Pin.{PinSession, new_pin_session}
use remote_app_start_my_linu.Auth.RateLimit.{RateLimiter, new_rate_limiter}
use remote_app_start_my_linu.Auth.Store
use remote_app_start_my_linu.Auth.Store.{TokenInfo, new_store, set_persist_path}
use remote_app_start_my_linu.Catalog.{Catalog, reload}
use remote_app_start_my_linu.Config.{Config}
use remote_app_start_my_linu.Config.Fields.{ConfigError}
use remote_app_start_my_linu.Config.Flags.{SetFlag}
use remote_app_start_my_linu.Config.Load.{World, load}
use remote_app_start_my_linu.Desktop.FileTree.{Root}
use remote_app_start_my_linu.Desktop.Scan.{default_paths}
use remote_app_start_my_linu.Icons.Finder.{Finder, default_base_dirs, new_finder}
use remote_app_start_my_linu.Launcher.Tracker.{new_tracker}
use remote_app_start_my_linu.Main.{resolve_cert_dir}
use remote_app_start_my_linu.Routes.Site.{Site}
use remote_app_start_my_linu.Shortcuts
use remote_app_start_my_linu.Shortcuts.{Shortcut}
use remote_app_start_my_linu.Storage.{Disk}
use remote_app_start_my_linu.Tlsutil.Addresses.{Net}
use remote_app_start_my_linu.Tlsutil.Cert.{Files, Crypto, Chance, CertError, ensure_cert}
use remote_app_start_my_linu.Tlsutil.Fingerprint.{FingerprintError, fingerprint}
use remote_app_start_my_linu.Visibility

-- What the program finds when it starts: the configuration's world, the directories of applications,
-- the libraries of the certificate, the files of the stores and whether they can be read, the home
-- directory, random numbers and the clock.
pub record Boot (Ip : Type 0) : Type 0 where
  pub flags : Option (List SetFlag)
  pub config_world : World
  pub stat_root : Bytes → Root
  pub user_home : Result Bytes Bytes
  pub net : Net Ip
  pub crypto : Crypto Ip
  pub chance : Chance Ip
  pub decode_pem : Bytes → Option (Bytes × Bytes)
  pub parse_certificate : Bytes → Option Bytes
  pub sha256 : Bytes → Bytes
  pub hidden_disk : Disk (List Bytes)
  pub shortcut_disk : Disk (List Shortcut)
  pub token_disk : Disk (List TokenInfo)
  pub readable : Bytes → Bool
  pub random_pin : Option ℕ
  pub version : Bytes
  pub started_at : ℕ
  pub pin_made_at : ℕ

pub data BootError : Type 0 where
  load_config : ConfigError → BootError
  locate_cert_dir : Bytes → BootError
  ensure_tls_cert : CertError → BootError
  compute_fingerprint : FingerprintError → BootError
  load_visibility : Visibility.LoadError → BootError
  load_shortcuts : Shortcuts.LoadError → BootError
  create_pin_session : BootError
  load_tokens : Store.LoadError → BootError

-- A duration or a count of the configuration, which is positive.
abbrev nat_of : ℤ → ℕ
nat_of (pos n) = n
nat_of (negsuc _) = 0

-- The store behind a load, or the error.
abbrev pub loaded : {S E : Type 0} → (E → BootError) → S × Result E (Unit {0}) → Result BootError S
loaded f (s, ok _) = ok s
loaded f (s, err e) = err (f e)

abbrev pub or_no_session : Option PinSession → Result BootError PinSession
or_no_session none = err create_pin_session
or_no_session (some s) = ok s

module _ {Ip : Type 0} (b : Boot Ip) where
  abbrev pub file_in : Bytes → Bytes → Bytes
  file_in dir name = b.config_world.join dir name

  unfoldable pub new_catalog : Catalog
  new_catalog =
      let w = b.config_world in
      let paths =
        default_paths w.join (w.getenv (codes "XDG_DATA_DIRS")) (w.getenv (codes "XDG_DATA_HOME"))
          (w.getenv (codes "HOME")) in
      (reload w.to_lower b.stat_root paths (record { paths = []; by_id = []; list = [] })).0

  unfoldable pub finder_for : Config → Finder
  finder_for c =
      let w = b.config_world in
      new_finder
        (default_base_dirs w.join (w.getenv (codes "HOME")) (w.getenv (codes "XDG_DATA_HOME"))
          (w.getenv (codes "XDG_DATA_DIRS")))
        [] c.icon_theme

  unfoldable pub limiter_for : Config → RateLimiter
  limiter_for c =
      new_rate_limiter (nat_of c.auth.rate_limit_per_ip) (nat_of c.auth.rate_limit_global)
        (nat_of c.auth.rate_limit_window)

  -- The token store with its file, and the callback for errors.
  unfoldable pub load_tokens_in : Bytes → Result BootError Store.Server
  load_tokens_in dir =
      let path = file_in dir (codes "tokens.json") in
      let empty : Store.Server = record { store = new_store; disk = b.token_disk; logged = [] } in
      do
        v ← map_err load_tokens (Store.load (b.readable path) empty path)
        ok (set_persist_path v path)

  unfoldable pub visibility_in : Bytes → Result BootError Visibility.Store
  visibility_in dir =
      let path = file_in dir (codes "visibility.json") in
      loaded load_visibility
        (Visibility.load (b.readable path) b.hidden_disk Visibility.new_store path)

  unfoldable pub shortcuts_in : Bytes → Result BootError Shortcuts.Store
  shortcuts_in dir =
      let path = file_in dir (codes "shortcuts.json") in
      loaded load_shortcuts
        (Shortcuts.load (b.readable path) b.shortcut_disk Shortcuts.new_store path)

  -- From the certificate on: the loads in their order.
  unfoldable pub site_of : Config → Bytes → Files → Bytes → Result BootError Site
  unfolding visibility_in shortcuts_in load_tokens_in
  site_of c dir fs cert_path = do
    pin ←
        map_err compute_fingerprint (
          fingerprint b.decode_pem b.parse_certificate b.sha256 (b.readable cert_path) fs cert_path)
    visibility ← visibility_in dir
    shortcuts ← shortcuts_in dir
    session ← or_no_session (new_pin_session b.random_pin c.auth.pin_ttl b.pin_made_at)
    server ← load_tokens_in dir
    ok (record {
      pairing = record { limiter = limiter_for c; session = session; server = server };
      catalog = new_catalog;
      finder = finder_for c;
      tracker = new_tracker;
      visibility = visibility;
      hidden_disk = b.hidden_disk;
      shortcuts = shortcuts;
      shortcut_disk = b.shortcut_disk;
      default_terminal = c.launcher.default_terminal;
      version = b.version;
      started_at = b.started_at;
      fingerprint = pin;
    })

  -- The certificate, and what follows it.
  unfoldable pub prepare_in : Config → Files → Bytes → Files × Result BootError Site
  unfolding site_of
  prepare_in c fs dir =
      let (fs', made) = ensure_cert b.net b.crypto b.chance fs dir in
      (
        fs',
        elim made [
          | err e ↦ err (ensure_tls_cert e)
          | ok (cert_path, key_path) ↦ site_of c dir fs' cert_path
        ],
      )

  abbrev pub cert_dir_of : Config → Result BootError Bytes
  cert_dir_of c =
      map_err locate_cert_dir
        (resolve_cert_dir b.config_world.join b.config_world.getenv b.user_home c.paths.cert_dir)

  -- `run` up to the servers, with the files that it leaves.
  unfoldable pub prepare : Files → Files × Result BootError Site
  unfolding prepare_in
  prepare fs = elim (load b.config_world b.flags) [
    | err e ↦ (fs, err (load_config e))
    | ok c ↦ elim (cert_dir_of c) [ err e ↦ (fs, err e) | ok dir ↦ prepare_in c fs dir ]
  ]
