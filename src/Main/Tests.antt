-- ===== src/Main/Tests.antt =====
-- server/cmd/remotelauncher/main.go: a start from concrete files, and the `select` after concrete
-- events.
use remote_app_start_my_linu.Prelude.{
  Bytes, codes, eq_bytes, has_prefix, trim_space, true, false, ◌||◌, [], ◌∷◌, ◌++◌, List, any_of,
  All, some, none, ok, ◌≡◌, refl, arith,
}
use remote_app_start_my_linu.Prelude.Assoc.{lookup, insert, delete, values}
use remote_app_start_my_linu.Auth.Pin.{format_pin, new_pin_session}
use remote_app_start_my_linu.Auth.Store
use remote_app_start_my_linu.Auth.Store.{Write, TokenInfo, new_store, save_to, validate}
use remote_app_start_my_linu.Auth.Store.Tokens.{IsValid}
use remote_app_start_my_linu.Config.{defaults}
use remote_app_start_my_linu.Config.File.{not_exist}
use remote_app_start_my_linu.Config.Load.{World, default_config_path, load}
use remote_app_start_my_linu.Desktop.FileTree.{missing}
use remote_app_start_my_linu.Desktop.Scan.{fold_case}
use remote_app_start_my_linu.Storage.{Disk, json, write_tokens_file}
use remote_app_start_my_linu.Shortcuts
use remote_app_start_my_linu.Visibility
use remote_app_start_my_linu.Routes.Answer.{is_granted}
use remote_app_start_my_linu.Routes.Newcomers.{SameBut}
use remote_app_start_my_linu.Auth.Middleware.{require_token, check_token}
use remote_app_start_my_linu.Httpapi.Icons.{open_failed}
use remote_app_start_my_linu.Icons.Finder.{stat_error}
use remote_app_start_my_linu.Icons.ThemeIndex.{absent}
use remote_app_start_my_linu.Routes.Mux.{
  route, first_match, is_path, match_pattern, match_parts, allows,
}
use remote_app_start_my_linu.Routes.Tables.{api_table, top_table}
use remote_app_start_my_linu.Routes.Serve.{serve_all, serve, serve_top, serve_api, with_token}
use remote_app_start_my_linu.Routes.Site.{Site, Request, is_public, tokens_of}
use remote_app_start_my_linu.Tlsutil.Cert.{Files, Writing, ensure_cert}
use remote_app_start_my_linu.Tlsutil.Fingerprint.{fingerprint_text, fingerprint}
use remote_app_start_my_linu.Main.{
  Event, signal, start, after, from_web, from_signal, can_select, ending, resolve_cert_dir,
}
use remote_app_start_my_linu.Main.Prepare.{
  Boot, new_catalog, finder_for, limiter_for, load_tokens_in, visibility_in, shortcuts_in, prepare,
}
use remote_app_start_my_linu.Main.Restart.{prepare-tokens, prepare-newcomers}
use remote_app_start_my_linu.Main.Select.{is_cause, at_once, outcome, idle, select_ready}

abbrev one_signal : List Event
one_signal = signal ∷ []

-- Without the web server its case can be taken before anything has happened.
disabled_goes_on : can_select from_web (after (start false) []) ≡ true
unfolding can_select after start
disabled_goes_on = refl

select_ready_example :
    (can_select from_signal (after (start true) one_signal)
      ≡ (at_once true from_signal || any_of (is_cause from_signal) one_signal))
    × (ending from_signal (after (start true) one_signal)
        ≡ outcome from_signal one_signal (idle from_signal))
select_ready_example = select_ready true one_signal from_signal

abbrev world : World
world = record {
  join = λ a b. a ++ (b'/' ∷ b);
  getenv = λ key. [];
  look = λ key. none;
  user_home = some (codes "/a");
  read_file = λ path. not_exist;
  unmarshal = λ bytes. none;
  parse_duration = λ s. none;
  to_lower = λ s. s;
  split_host_port = λ addr. some (codes "127.0.0.1", codes "17843");
  loopback = λ host. some true;
}

abbrev in_dir : Bytes → Bytes
in_dir name = codes "/a/.config/remotelauncher/" ++ name

-- A certificate and a key are there.
abbrev files : Files
files =
    (in_dir (codes "cert.pem"), record { content = codes "c"; perm = 420 })
    ∷ (in_dir (codes "key.pem"), record { content = codes "k"; perm = 384 })
    ∷ []

abbrev writing : Writing
writing = record { masked = λ n. n; writes = true; chmods = true; left = none }

abbrev boot : Disk (List TokenInfo) → Boot Bytes
boot tokens = record {
  flags = some [];
  config_world = world;
  stat_root = λ path. missing;
  user_home = ok (codes "/a");
  net = record {
    text = λ ip. ip;
    is_loopback = λ ip. false;
    is_global_unicast = λ ip. true;
    loopback_v4 = codes "127.0.0.1";
    loopback_v6 = codes "::1";
  };
  crypto = record {
    join = λ a b. a ++ (b'/' ∷ b);
    create_certificate = λ t k. some k;
    marshal_key = λ k. some k;
    encode_pem = λ kind der. kind ++ der;
    loads = λ cert key. true;
  };
  chance = record {
    mkdirs = true;
    readable = true;
    private_key = some (codes "p");
    serial = λ n. some 1;
    now = 5;
    interfaces = none;
    cert_writing = writing;
    key_writing = writing;
  };
  decode_pem = λ content. some (codes "CERTIFICATE", content);
  parse_certificate = λ der. some der;
  sha256 = λ bytes. bytes;
  hidden_disk = [];
  shortcut_disk = [];
  token_disk = tokens;
  readable = λ path. true;
  random_pin = some 123456;
  version = codes "dev";
  started_at = 1;
  pin_made_at = 2;
}

-- The state of the first start, with the tokens of the file if there is one.
abbrev ready : Disk (List TokenInfo) → List (Bytes × TokenInfo) → Site
ready disk tokens = record {
  pairing = record {
    limiter = limiter_for (boot disk) defaults;
    session = record { pin = format_pin 123456; consumed = false; expires_at = 600_000_000_002 };
    server = record {
      store = record { tokens = tokens; persist_path = in_dir (codes "tokens.json") };
      disk = disk;
      logged = [];
    };
  };
  catalog = new_catalog (boot disk);
  finder = finder_for (boot disk) defaults;
  tracker = [];
  visibility = record { hidden = []; path = in_dir (codes "visibility.json") };
  hidden_disk = [];
  shortcuts = record { items = []; order = []; path = in_dir (codes "shortcuts.json") };
  shortcut_disk = [];
  default_terminal = [];
  version = codes "dev";
  started_at = 1;
  fingerprint = fingerprint_text (codes "c");
}

first-start : prepare (boot []) files ≡ (files, ok (ready [] []))
unfolding prepare load eq_bytes trim_space fold_case resolve_cert_dir ensure_cert fingerprint
    visibility_in shortcuts_in load_tokens_in lookup new_pin_session Store.load Visibility.load
    Shortcuts.load default_config_path Store.set_persist_path
first-start = refl

abbrev granted : Write
granted = record {
  grants = record {
    mkdirs = true;
    marshals = true;
    creates = true;
    writes = true;
    chmods = true;
    syncs = true;
    closes = true;
    renames = true;
    removes = true;
  };
  tmp = codes "t.tmp";
}

-- The list of applications, asked for with a token that the server has never issued.
abbrev stranger : Request
stranger = record {
  method = codes "GET";
  path = codes "/api/apps";
  is_clean = true;
  segments = codes "api" ∷ codes "apps" ∷ [];
  authorization = codes "Bearer x";
  cookie = none;
  token_param = [];
  size_param = [];
  remote_host = codes "a";
  forwarded_for = [];
  pair_body = none;
  ids_body = ok [];
  shortcuts_body = ok [];
  now = 10;
  answered = 11;
  random = none;
  random_pin = none;
  write = granted;
  world = record {
    alive = λ pid. true;
    look_path = λ name. none;
    start = λ argv dir. none;
    quote = λ s. s;
    text = λ e. [];
    join = λ a b. a ++ b;
    stat = λ path. stat_error;
    stat_root = λ path. missing;
    read_dir = λ path. none;
    open_index = λ path. absent;
    open_file = λ path. open_failed;
    whole_seconds = λ n. n;
  };
}

abbrev marked : Bytes → Bytes
marked t = b'#' ∷ t

refused-stranger : any_of is_granted (serve_all marked (ready [] []) (stranger ∷ [])).1 ≡ false
unfolding serve_all serve serve_top serve_api route first_match is_path match_pattern match_parts
    allows top_table api_table eq_bytes with_token require_token has_prefix check_token validate
    lookup
refused-stranger = refl

prepare-newcomers_example :
    SameBut (ready [] []) (serve_all marked (ready [] []) (stranger ∷ [])).0
    × All (λ reply. is_public reply ≡ true) (serve_all marked (ready [] []) (stranger ∷ [])).1
unfolding lookup
prepare-newcomers_example =
    prepare-newcomers (boot []) marked files files (ready [] []) (stranger ∷ []) refl first-start
      refused-stranger

-- The token of the last run, and its file.
abbrev kept : TokenInfo
kept = record { hash = codes "#t"; device_label = codes "phone"; created_at = 1; last_seen = 1 }

abbrev tokens_path : Bytes
tokens_path = in_dir (codes "tokens.json")

abbrev kept_disk : Disk (List TokenInfo)
kept_disk = (tokens_path, json (kept ∷ [])) ∷ []

abbrev last_run : Disk (List TokenInfo) → Store.Server
last_run disk = record {
  store = record { tokens = (codes "#t", kept) ∷ []; persist_path = tokens_path };
  disk = disk;
  logged = [];
}

last_run-saved : save_to granted (last_run []) tokens_path ≡ (last_run kept_disk, ok tt)
unfolding save_to write_tokens_file values insert delete eq_bytes
last_run-saved = refl

last_run-IsValid : IsValid (last_run []).store
unfolding lookup
last_run-IsValid = record {
  distinct = (refl, tt);
  keyed = ((refl, λ e. absurd (ground arith)), tt);
}

second-start :
    prepare (boot kept_disk) files ≡ (files, ok (ready kept_disk ((codes "#t", kept) ∷ [])))
unfolding prepare load eq_bytes trim_space fold_case resolve_cert_dir ensure_cert fingerprint
    visibility_in shortcuts_in load_tokens_in lookup new_pin_session Store.load Visibility.load
    Shortcuts.load default_config_path Store.set_persist_path insert
second-start = refl

prepare-tokens_example :
    (tokens_of (ready kept_disk ((codes "#t", kept) ∷ []))).tokens ≡ (last_run []).store.tokens
unfolding lookup
prepare-tokens_example =
    prepare-tokens (boot kept_disk) files files (ready kept_disk ((codes "#t", kept) ∷ [])) granted
      (last_run []) (last_run kept_disk) last_run-IsValid (λ e. absurd (ground arith)) refl
      last_run-saved refl refl second-start
