-- ===== src/Httpapi/Apps.antt =====
-- server/internal/httpapi/apps.go: GET /api/apps. A collaborator that may be nil is an `Option`.
pub mod Shown
use remote_app_start_my_linu.Prelude.{
  ℕ, Bytes, Bool, true, false, not, List, [], ◌∷◌, ◌++◌, map, Option, none, some, keep_if,
}
use remote_app_start_my_linu.Catalog.{AppInfo, Catalog}
use remote_app_start_my_linu.Launcher.Tracker.{Tracker, check_alive}
use remote_app_start_my_linu.Shortcuts
use remote_app_start_my_linu.Shortcuts.{Shortcut, prefixed_id}
use remote_app_start_my_linu.Visibility
use remote_app_start_my_linu.Visibility.{is_hidden}

-- A shortcut in the list of applications.
unfoldable pub shortcut_info : Shortcut → AppInfo
unfolding prefixed_id
shortcut_info sc = record {
  id = prefixed_id sc.id;
  name = sc.name;
  comment = sc.command;
  icon = [];
  categories = [];
  running = false;
  no_display = false;
}

-- The catalog's list and the shortcuts behind it.
unfoldable pub merged : Catalog → Option Shortcuts.Store → List AppInfo
unfolding shortcut_info
merged c none = c.list
merged c (some s) = c.list ++ map shortcut_info (Shortcuts.list s)

-- The applications that the operator does not hide.
unfoldable pub visible : Option Visibility.Store → List AppInfo → List AppInfo
visible none apps = apps
visible (some v) apps = keep_if (λ a. not (is_hidden v a.id)) apps

module _ (alive : ℕ → Bool) where
  -- The loop that asks the tracker of each application; `Alive` may clean up the id on the way.
  unfoldable pub stamp : Tracker → List AppInfo → Tracker × List AppInfo
  stamp t [] = (t, [])
  stamp t (a ∷ apps) =
      let (t', running) = check_alive alive t a.id in
      let (t'', rest) = stamp t' apps in (t'', record a { running = running } ∷ rest)

  -- `NewAppsHandler`, with a tracker: the tracker behind the call and the list that is sent.
  unfoldable pub handle_apps :
      Catalog → Option Visibility.Store → Option Shortcuts.Store → Tracker → Tracker × List AppInfo
  unfolding stamp merged visible
  handle_apps c visibility provider t = stamp t (visible visibility (merged c provider))
