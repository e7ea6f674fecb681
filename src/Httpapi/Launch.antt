-- ===== src/Httpapi/Launch.antt =====
-- server/internal/httpapi/launch.go behind `auth.RequireToken`, as server/internal/httpapi/router.go
-- puts it: POST /api/apps/{id}/launch. `quote` is the `%q` of `fmt`, in the text of one error.
pub mod Starts
use remote_app_start_my_linu.Prelude.{
  ℕ, Bytes, codes, is_empty, Bool, true, false, if◌then◌else◌, [], ◌∷◌, ◌++◌, List, Option, none,
  some, Result, ok, err,
}
use remote_app_start_my_linu.Auth.Middleware.{Verdict, denied, admitted, require_token}
use remote_app_start_my_linu.Auth.Store.{Store}
use remote_app_start_my_linu.Catalog.{Catalog, get}
use remote_app_start_my_linu.Desktop.Entry.{Entry}
use remote_app_start_my_linu.Httpapi.Response.{Response, failure, success}
use remote_app_start_my_linu.Launcher.Launch.{
  LaunchError, empty_exec, no_terminal_emulator, start_failed, split_failed, unknown_terminal,
  terminal_not_found, launch, launch_command,
}
use remote_app_start_my_linu.Launcher.Tracker.{Tracker}
use remote_app_start_my_linu.Shortcuts
use remote_app_start_my_linu.Shortcuts.{Shortcut, normalize_id}

abbrev pub not_found : Bytes → Response ℕ
not_found message = failure 404 (codes "not_found") message

abbrev bad_request : Bytes → Response ℕ
bad_request message = failure 400 (codes "bad_request") message

abbrev internal_error : Response ℕ
internal_error = failure 500 (codes "internal_error") (codes "internal error")

-- The answer to a failed start of a shortcut; the success carries the pid.
unfoldable pub shortcut_answer : (Bytes → Bytes) → Result LaunchError ℕ → Response ℕ
shortcut_answer quote (ok pid) = success pid
shortcut_answer quote (err empty_exec) = bad_request (codes "shortcut has no command")
shortcut_answer quote (err no_terminal_emulator) = bad_request (codes "no terminal emulator found")
shortcut_answer quote (err (unknown_terminal term)) =
    bad_request (codes "unknown terminal emulator: " ++ quote term)
shortcut_answer quote (err _) = internal_error

-- The answer to a start of an application.
unfoldable pub app_answer : Result LaunchError ℕ → Response ℕ
app_answer (ok pid) = success pid
app_answer (err empty_exec) = bad_request (codes "app has no exec command")
app_answer (err no_terminal_emulator) = bad_request (codes "no terminal emulator available")
app_answer (err _) = internal_error

-- What the handler reads: the catalog, the shortcuts if the feature is on, the default terminal.
pub record LaunchDeps : Type 0 where
  pub catalog : Catalog
  pub provider : Option Shortcuts.Store
  pub default_terminal : Bytes

-- `provider.Get`, for a provider that may be nil.
unfoldable pub find_shortcut : Option Shortcuts.Store → Bytes → Option Shortcut
find_shortcut none bare = none
find_shortcut (some s) bare = Shortcuts.get s bare

module _ (quote : Bytes → Bytes) (look_path : Bytes → Option Bytes)
    (start : List Bytes → Bytes → Option ℕ) where
  unfoldable pub launch_shortcut : LaunchDeps → Tracker → Bytes → Bytes → Tracker × Response ℕ
  launch_shortcut d t id bare = elim (find_shortcut d.provider bare) [
    | none ↦ (t, not_found (codes "shortcut not found"))
    | some sc ↦
        let (t', result) =
          launch_command look_path start t id sc.terminal d.default_terminal sc.cwd sc.command in
        (t', shortcut_answer quote result)
  ]

  unfoldable pub launch_app : LaunchDeps → Tracker → Bytes → Tracker × Response ℕ
  launch_app d t id = elim (get d.catalog id) [
    | none ↦ (t, not_found (codes "app not found"))
    | some entry ↦
        if is_empty entry.exec
        then (t, bad_request (codes "app has no exec command"))
        else (let (t', result) = launch look_path start t entry in (t', app_answer result))
  ]

  -- `NewLaunchHandler`
  unfoldable pub handle_launch : LaunchDeps → Tracker → Bytes → Tracker × Response ℕ
  handle_launch d t id =
      let (bare, is_custom) = normalize_id id in
      if is_custom then launch_shortcut d t id bare else launch_app d t id

  -- The route: a request with an Authorization header at a time.
  unfoldable pub post_launch :
      (Bytes → Bytes)
      → LaunchDeps
      → Store
      → Tracker
      → Bytes
      → ℕ
      → Bytes
      → Store × Tracker × Response ℕ
  post_launch hash d tokens t header now id =
      let (tokens', verdict) = require_token hash tokens header now in
      elim verdict [
        | denied message ↦ (tokens', t, failure 401 (codes "unauthorized") message)
        | admitted plaintext info ↦ let (t', answer) = handle_launch d t id in (tokens', t', answer)
      ]
