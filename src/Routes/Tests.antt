-- ===== src/Routes/Tests.antt =====
-- The TLS server at concrete requests.
use remote_app_start_my_linu.Prelude.{
  ◌≤◌, Bytes, codes, eq_bytes, has_prefix, trim_space, leb, true, false, not, if◌then◌else◌, List,
  [], ◌∷◌, ◌++◌, map, keep_if, none, some, ok, pos, ◌≡◌, ◌⊎◌, refl,
}
use remote_app_start_my_linu.Prelude.Assoc.{lookup}
use remote_app_start_my_linu.Auth.Middleware.{require_token, check_token, is_admitted}
use remote_app_start_my_linu.Auth.RateLimit.{new_rate_limiter}
use remote_app_start_my_linu.Auth.Store.{Write, TokenInfo, new_store, validate}
use remote_app_start_my_linu.Catalog.{AppInfo}
use remote_app_start_my_linu.Desktop.FileTree.{missing}
use remote_app_start_my_linu.Httpapi.Apps.{merged}
use remote_app_start_my_linu.Httpapi.Apps.Shown.{with_state}
use remote_app_start_my_linu.Httpapi.Icons.{open_failed}
use remote_app_start_my_linu.Httpapi.Launch.{
  handle_launch, launch_shortcut, find_shortcut, shortcut_answer,
}
use remote_app_start_my_linu.Httpapi.Response.{success}
use remote_app_start_my_linu.Icons.Finder.{stat_error}
use remote_app_start_my_linu.Icons.ThemeIndex.{absent}
use remote_app_start_my_linu.Launcher.Launch.{launch_command}
use remote_app_start_my_linu.Shortcuts.{Shortcut, normalize_id, get}
use remote_app_start_my_linu.Visibility
use remote_app_start_my_linu.Web.Toggles.{asked}
use remote_app_start_my_linu.Routes.Mux.{
  route, first_match, is_path, match_pattern, match_parts, allows,
}
use remote_app_start_my_linu.Routes.Tables.{api_table, top_table}
use remote_app_start_my_linu.Routes.Site.{World, Request, Site, launched, is_public, apps_are}
use remote_app_start_my_linu.Routes.Serve.{
  serve, serve_all, serve_top, serve_api, with_token, serve_launch, serve_pair, serve_local,
}
use remote_app_start_my_linu.Routes.Guarded.{serve-refused}
use remote_app_start_my_linu.Routes.Newcomers.{grants_in, serve_all-grants_le}
use remote_app_start_my_linu.Routes.Launches.{IsLaunch, serve-IsLaunch}
use remote_app_start_my_linu.Routes.Toggled.{visibility_path, apps_path, serve-hidden}

abbrev marked : Bytes → Bytes
marked s = b'#' ∷ s

abbrev granted : Write
granted = record {
  grants = record {
    mkdirs = true;
    marshals = true;
    creates = true;
    writes = true;
    chmods = true;
    syncs = true;
    closes = true;
    renames = true;
    removes = true;
  };
  tmp = codes "t.tmp";
}

-- A desktop with kitty and no icons.
abbrev desktop : World
desktop = record {
  alive = λ pid. leb 10 pid;
  look_path = λ name. if eq_bytes name (codes "kitty") then some (codes "/usr/bin/kitty") else none;
  start = λ argv dir. some 42;
  quote = marked;
  text = λ e. codes "bad shortcut";
  join = λ a b. a ++ b'/' ∷ b;
  stat = λ path. stat_error;
  stat_root = λ path. missing;
  read_dir = λ path. none;
  open_index = λ path. absent;
  open_file = λ path. open_failed;
  whole_seconds = λ n. n;
}

abbrev ask : Bytes → List Bytes → Bytes → Request
ask method segments authorization = record {
  method = method;
  path = codes "/";
  is_clean = true;
  segments = segments;
  authorization = authorization;
  cookie = none;
  token_param = [];
  size_param = [];
  remote_host = codes "a";
  forwarded_for = [];
  pair_body = none;
  ids_body = ok (codes "ed" ∷ []);
  shortcuts_body = ok [];
  now = 10;
  answered = 11;
  random = some (codes "token");
  random_pin = some 7;
  write = granted;
  world = desktop;
}

abbrev app : Bytes → AppInfo
app id = record {
  id = id;
  name = id;
  comment = [];
  icon = [];
  categories = [];
  running = false;
  no_display = false;
}

abbrev make : Shortcut
make = record {
  id = codes "m";
  name = codes "Make";
  command = codes "make";
  cwd = codes "/src";
  terminal = codes "kitty";
  icon = [];
}

-- A site with two applications and a shortcut, and the tokens given.
abbrev site : List (Bytes × TokenInfo) → Site
site tokens = record {
  pairing = record {
    limiter = new_rate_limiter 5 20 60;
    session = record { pin = codes "123456"; consumed = false; expires_at = 100 };
    server = record { store = record new_store { tokens = tokens }; disk = []; logged = [] };
  };
  catalog = record { paths = []; by_id = []; list = app (codes "vi") ∷ app (codes "ed") ∷ [] };
  finder = record { base_dirs = []; theme = codes "hicolor"; themes = none };
  tracker = (codes "vi", 11 ∷ []) ∷ [];
  visibility = Visibility.new_store;
  hidden_disk = [];
  shortcuts = record { items = (codes "m", make) ∷ []; order = codes "m" ∷ []; path = [] };
  shortcut_disk = [];
  default_terminal = [];
  version = codes "dev";
  started_at = 1;
  fingerprint = [];
}

abbrev phone_token : List (Bytes × TokenInfo)
phone_token =
    (
      marked (codes "t"),
      record {
        hash = marked (codes "t");
        device_label = codes "phone";
        created_at = 1;
        last_seen = 1;
      },
    )
    ∷ []

-- The list of applications, asked for with a wrong token and with the right one.
abbrev stranger : Request
stranger = ask (codes "GET") apps_path (codes "Bearer x")

abbrev phone : Request
phone = ask (codes "GET") apps_path (codes "Bearer t")

serve-refused_example :
    (serve marked (site phone_token) stranger ≡ serve_pair marked (site phone_token) stranger)
    ⊎ (((serve marked (site phone_token) stranger).0 ≡ site phone_token)
        × (is_public (serve marked (site phone_token) stranger).1 ≡ true))
unfolding lookup has_prefix eq_bytes
serve-refused_example = serve-refused marked (site phone_token) stranger refl

-- The right PIN.
abbrev pairs : Request
pairs = record (ask (codes "POST") (codes "api" ∷ codes "pair" ∷ []) []) {
  pair_body = some (record { pin = codes "123456"; device_label = codes "phone" });
}

serve_all-grants_le_example :
    grants_in (serve_all marked (site []) (stranger ∷ pairs ∷ pairs ∷ [])).1 ≤ 1
serve_all-grants_le_example = serve_all-grants_le marked (stranger ∷ pairs ∷ pairs ∷ []) (site [])

abbrev launch_path : List Bytes
launch_path = codes "api" ∷ codes "apps" ∷ codes "custom:m" ∷ codes "launch" ∷ []

abbrev launches : Request
launches = ask (codes "POST") launch_path (codes "Bearer t")

launches-starts : (serve marked (site phone_token) launches).1 ≡ launched (success 42)
unfolding serve serve_top serve_api route first_match is_path match_pattern match_parts allows
    top_table api_table eq_bytes with_token require_token has_prefix check_token validate lookup
    serve_launch handle_launch normalize_id launch_shortcut find_shortcut get shortcut_answer
    launch_command trim_space
launches-starts = refl

serve-IsLaunch_example : IsLaunch marked (site phone_token) launches 42
serve-IsLaunch_example = serve-IsLaunch marked (site phone_token) launches 42 launches-starts

-- The operator hides one of the applications.
abbrev hides : Request
hides = ask (codes "PUT") visibility_path []

phone-admitted :
    is_admitted
      (require_token marked (site phone_token).pairing.server.store (codes "Bearer t") 10).1
    ≡ true
unfolding require_token has_prefix check_token validate lookup eq_bytes
phone-admitted = refl

serve-hidden_example :
    (serve marked (serve_local (pos 600) (site phone_token) hides).0 phone).1
    ≡ apps_are (
        map (with_state desktop.alive (site phone_token).tracker) (
          keep_if
            (λ a. not (asked (codes "ed" ∷ []) a.id))
            (merged (site phone_token).catalog (some (site phone_token).shortcuts))))
serve-hidden_example =
    serve-hidden marked (pos 600) (site phone_token) hides phone (codes "ed" ∷ [])
      (record { by = refl; clean = refl; at = refl }) refl
      (record { by = refl; clean = refl; at = refl }) phone-admitted
