-- ===== src/Httpapi/Apps/Shown.antt =====
-- What the list of applications shows.
use remote_app_start_my_linu.Prelude.{
  ℕ, Bytes, Bool, List, [], ◌∷◌, map, Option, keep_if, any_of, ◌≡◌, refl, arith,
}
use remote_app_start_my_linu.Catalog.{AppInfo, Catalog}
use remote_app_start_my_linu.Launcher.Tracker.{Tracker, pids_of, is_alive, check_alive}
use remote_app_start_my_linu.Launcher.Tracker.Members.{pids_of-cleanup_locked}
use remote_app_start_my_linu.Launcher.Tracker.Live.{check_alive-any_of}
use remote_app_start_my_linu.Shortcuts
use remote_app_start_my_linu.Visibility
use remote_app_start_my_linu.Httpapi.Apps.{merged, visible, stamp, handle_apps}

any_of-keep_if : (p : ℕ → Bool) (xs : List ℕ) → any_of p (keep_if p xs) ≡ any_of p xs
any_of-keep_if p [] = refl
any_of-keep_if p (x ∷ xs) = ground (arith, any_of-keep_if p xs)

module _ (alive : ℕ → Bool) where
  -- An application with the state of its processes.
  abbrev pub with_state : Tracker → AppInfo → AppInfo
  with_state t a = record a { running = any_of (is_alive alive) (pids_of a.id t) }

  any_of-check_alive :
      (t : Tracker) (id k : Bytes)
      → any_of (is_alive alive) (pids_of k (check_alive alive t id).0)
        ≡ any_of (is_alive alive) (pids_of k t)
  unfolding check_alive
  any_of-check_alive t id k =
      ground
        (arith, pids_of-cleanup_locked alive t id k, any_of-keep_if (is_alive alive) (pids_of k t))

  map-with_state :
      (t u : Tracker) (apps : List AppInfo)
      → ((k : Bytes)
          → any_of (is_alive alive) (pids_of k t) ≡ any_of (is_alive alive) (pids_of k u))
      → map (with_state t) apps ≡ map (with_state u) apps
  map-with_state t u [] same = refl
  map-with_state t u (a ∷ apps) same = rw (same a.id, map-with_state t u apps same) refl

  stamp-map : (t : Tracker) (apps : List AppInfo) → (stamp alive t apps).1 ≡ map (with_state t) apps
  unfolding stamp
  stamp-map t [] = refl
  stamp-map t (a ∷ apps) =
      let t' = (check_alive alive t a.id).0 in
      rw
        (
          check_alive-any_of alive t a.id,
          stamp-map t' apps,
          map-with_state t' t apps (any_of-check_alive t a.id),
        )
        refl

  -- The list has the applications of the catalog, in its order, and behind them the shortcuts, each
  -- under its prefixed id, without those that the operator hides; each is marked as running exactly
  -- if one of the processes registered under its id is alive.
  pub handle_apps-map :
      (c : Catalog) (visibility : Option Visibility.Store) (provider : Option Shortcuts.Store)
      (t : Tracker)
      → (handle_apps alive c visibility provider t).1
        ≡ map (with_state t) (visible visibility (merged c provider))
  unfolding handle_apps
  handle_apps-map c visibility provider t = stamp-map t (visible visibility (merged c provider))
