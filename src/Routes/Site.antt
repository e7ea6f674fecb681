-- ===== src/Routes/Site.antt =====
-- What the handlers of both servers share (RouterDeps of server/internal/httpapi/router.go, Deps of
-- server/internal/admin/admin.go and server/internal/web/web.go), a request, and what answers it.
use remote_app_start_my_linu.Prelude.{ℕ, Bytes, Bool, true, false, List, Option, some, Result, ℤ}
use remote_app_start_my_linu.Auth.Store.{Store, Write}
use remote_app_start_my_linu.Catalog.{AppInfo, Catalog}
use remote_app_start_my_linu.Desktop.FileTree.{Root}
use remote_app_start_my_linu.Httpapi.Icons.{OpenedFile, IconReply}
use remote_app_start_my_linu.Httpapi.Launch.{LaunchDeps}
use remote_app_start_my_linu.Httpapi.Pair.{PairRequest, Arrival, Pairing}
use remote_app_start_my_linu.Httpapi.Response.{Response}
use remote_app_start_my_linu.Httpapi.Status.{StatusResponse}
use remote_app_start_my_linu.Icons.Chain.{DirEntry}
use remote_app_start_my_linu.Icons.Finder.{Finder, Found, Stat, find}
use remote_app_start_my_linu.Icons.ThemeIndex.{IndexFile}
use remote_app_start_my_linu.Launcher.Tracker.{Tracker}
use remote_app_start_my_linu.Shortcuts
use remote_app_start_my_linu.Shortcuts.{Shortcut, ReplaceError}
use remote_app_start_my_linu.Storage.{Disk}
use remote_app_start_my_linu.Visibility
use remote_app_start_my_linu.Web.{AppDto, HiddenAnswer, ShortcutsAnswer, ShortcutsPage, PinResponse}

-- The state: `pairing` has the limiter, the PIN session and the token store with its file.
pub record Site : Type 0 where
  pub pairing : Pairing
  pub catalog : Catalog
  pub finder : Finder
  pub tracker : Tracker
  pub visibility : Visibility.Store
  pub hidden_disk : Disk (List Bytes)
  pub shortcuts : Shortcuts.Store
  pub shortcut_disk : Disk (List Shortcut)
  pub default_terminal : Bytes
  pub version : Bytes
  pub started_at : ℕ
  pub fingerprint : Bytes

-- What the handlers find outside while they serve a request: processes, the programs of the desktop,
-- the files of the icons, and the texts of errors.
pub record World : Type 0 where
  pub alive : ℕ → Bool
  pub look_path : Bytes → Option Bytes
  pub start : List Bytes → Bytes → Option ℕ
  pub quote : Bytes → Bytes
  pub text : ReplaceError → Bytes
  pub join : Bytes → Bytes → Bytes
  pub stat : Bytes → Stat
  pub stat_root : Bytes → Root
  pub read_dir : Bytes → Option (List DirEntry)
  pub open_index : Bytes → IndexFile
  pub open_file : Bytes → OpenedFile
  pub whole_seconds : ℕ → ℕ

-- A request as net/http hands it over, with the bodies as the JSON decoder yields them, and with
-- what it meets: the time, random bytes and numbers, and the fate of the files it has written.
pub record Request : Type 0 where
  pub method : Bytes
  pub path : Bytes
  pub is_clean : Bool
  pub segments : List Bytes
  pub authorization : Bytes
  pub cookie : Option Bytes
  pub token_param : Bytes
  pub size_param : Bytes
  pub remote_host : Bytes
  pub forwarded_for : Bytes
  pub pair_body : Option PairRequest
  pub ids_body : Result Bytes (List Bytes)
  pub shortcuts_body : Result Bytes (List Shortcut)
  pub now : ℕ
  pub answered : ℕ
  pub random : Option Bytes
  pub random_pin : Option ℕ
  pub write : Write
  pub world : World

pub data Reply : Type 0 where
  moved_permanently method_not_allowed : Reply
  no_route : Bytes → Reply
  refused refused_text : Bytes → Reply
  status_is : StatusResponse → Reply
  paired : Response Bytes → Option ℕ → Reply
  apps_are : List AppInfo → Reply
  icon_is : Response IconReply → Reply
  launched : Response ℕ → Reply
  all_apps_are : List AppDto → Reply
  shortcuts_are : Response ShortcutsPage → Reply
  shortcuts_set : Response ShortcutsAnswer → Reply
  hidden_set : Response HiddenAnswer → Reply
  admin_page terminal_page terminal_socket file_served : Reply
  pin_is : PinResponse → Reply
  pin_failed : Reply
  -- An answer behind `RequireTokenOrCookie`, which sets the cookie to the token.
  with_cookie : Bytes → Reply → Reply

-- The answers that anyone may get.
abbrev pub is_public : Reply → Bool
is_public moved_permanently = true
is_public method_not_allowed = true
is_public (no_route _) = true
is_public (refused _) = true
is_public (refused_text _) = true
is_public (status_is _) = true
is_public (paired _ _) = true
is_public _ = false

abbrev pub tokens_of : Site → Store
tokens_of s = s.pairing.server.store

-- The site with a store that `Validate` has left.
abbrev pub set_tokens : Site → Store → Site
set_tokens s tokens = record s {
  pairing = record s.pairing { server = record s.pairing.server { store = tokens } };
}

abbrev pub arrival_of : Request → Arrival
arrival_of r = record {
  remote_host = r.remote_host;
  forwarded_for = r.forwarded_for;
  body = r.pair_body;
  now = r.now;
  random = r.random;
  write = r.write;
}

abbrev pub launch_deps : Site → LaunchDeps
launch_deps s = record {
  catalog = s.catalog;
  provider = some s.shortcuts;
  default_terminal = s.default_terminal;
}

-- The search of the finder in the world of a request.
abbrev pub find_in : World → Finder → Bytes → ℤ → Found × Finder
find_in w = find w.join w.stat w.stat_root w.read_dir w.open_index
