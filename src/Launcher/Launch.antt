-- ===== src/Launcher/Launch.antt =====
-- server/internal/launcher/launcher.go and `LaunchCommand` of shortcuts.go. `look_path` is `exec.LookPath`, `start`
-- what `cmd.Start` makes of the arguments and the working directory: the pid of the new process, or none.
pub mod Argv
use remote_app_start_my_linu.Prelude.{
  ℕ, Bytes, codes, eq_bytes, trim_space, is_empty, Bool, true, false, not, if◌then◌else◌, List, [],
  ◌∷◌, ◌++◌, Option, none, some, Result, ok, err, ◌>>=◌, map_err,
}
use remote_app_start_my_linu.Prelude.Assoc.{lookup}
use remote_app_start_my_linu.Desktop.Entry.{Entry}
use remote_app_start_my_linu.Desktop.Exec.{SplitError, split_exec}
use remote_app_start_my_linu.Desktop.Expand.{expand}
use remote_app_start_my_linu.Launcher.Shell.{build_payload}
use remote_app_start_my_linu.Launcher.Tracker.{Tracker, register, forget}

pub data LaunchError : Type 0 where
  empty_exec no_terminal_emulator start_failed : LaunchError
  split_failed : SplitError → LaunchError
  unknown_terminal terminal_not_found : Bytes → LaunchError

-- `terminalCandidates`
abbrev pub terminal_candidates : List Bytes
terminal_candidates =
    codes "x-terminal-emulator"
    ∷ codes "kitty"
    ∷ codes "alacritty"
    ∷ codes "gnome-terminal"
    ∷ codes "konsole"
    ∷ codes "xterm"
    ∷ []

-- `supportedTerminals`, each with its `execFlag`.
abbrev pub supported_terminals : List (Bytes × Bytes)
supported_terminals =
    (codes "kitty", [])
    ∷ (codes "ghostty", codes "-e")
    ∷ (codes "alacritty", codes "-e")
    ∷ (codes "foot", [])
    ∷ (codes "konsole", codes "-e")
    ∷ (codes "gnome-terminal", codes "--")
    ∷ (codes "xfce4-terminal", codes "-e")
    ∷ (codes "xterm", codes "-e")
    ∷ []

-- `if len(args) == 0`
abbrev nonempty_args : List Bytes → Result LaunchError (List Bytes)
nonempty_args [] = err empty_exec
nonempty_args (a ∷ as') = ok (a ∷ as')

-- The terminal of a shortcut: its own, or the default one.
unfoldable pub chosen_terminal : Bytes → Bytes → Bytes
chosen_terminal terminal default_terminal =
    if is_empty (trim_space terminal) then trim_space default_terminal else trim_space terminal

module _ (look_path : Bytes → Option Bytes) where
  unfoldable pub first_found : List Bytes → Result LaunchError Bytes
  first_found [] = err no_terminal_emulator
  first_found (name ∷ names) = elim (look_path name) [
    | some path ↦ ok path
    | none ↦ first_found names
  ]

  unfoldable pub find_terminal : Result LaunchError Bytes
  unfolding first_found
  find_terminal = first_found terminal_candidates

  -- The arguments that `Launch` starts, up to `exec.Command`.
  unfoldable pub in_terminal : Bool → List Bytes → Result LaunchError (List Bytes)
  in_terminal true args = do term ← find_terminal; ok (term ∷ codes "-e" ∷ args)
  in_terminal false args = ok args

  unfoldable pub launch_argv : Entry → Result LaunchError (List Bytes)
  launch_argv entry = if is_empty entry.exec then err empty_exec else do
    tokens ← map_err split_failed (split_exec entry.exec)
    args ← nonempty_args (expand tokens (some entry) [])
    in_terminal entry.terminal args

  unfoldable pub command_argv : Bytes → Bytes → Bytes → Bytes → Result LaunchError (List Bytes)
  command_argv terminal default_terminal cwd command =
      let term = chosen_terminal terminal default_terminal in
      let shell = codes "sh" ∷ codes "-c" ∷ build_payload cwd command ∷ [] in
      if is_empty (trim_space command)
      then err empty_exec
      else if is_empty term
      then (do path ← find_terminal; ok (path ∷ codes "-e" ∷ shell))
      else elim (lookup term supported_terminals) [
        | none ↦ err (unknown_terminal term)
        | some flag ↦ elim (look_path term) [
          | none ↦ err (terminal_not_found term)
          | some path ↦ ok (path ∷ ((if is_empty flag then [] else flag ∷ []) ++ shell))
        ]
      ]

  module _ (start : List Bytes → Bytes → Option ℕ) where
    -- The process is started, and its pid registered under the id.
    unfoldable pub spawn : Tracker → Bytes → List Bytes → Bytes → Tracker × Result LaunchError ℕ
    spawn t id argv dir = elim (start argv dir) [
      | none ↦ (t, err start_failed)
      | some pid ↦ (register t id pid, ok pid)
    ]

    unfoldable pub launch : Tracker → Entry → Tracker × Result LaunchError ℕ
    unfolding spawn launch_argv in_terminal find_terminal
    launch t entry = elim (launch_argv entry) [
      | err e ↦ (t, err e)
      | ok argv ↦ spawn t entry.id argv entry.path
    ]

    unfoldable pub launch_command :
        Tracker → Bytes → Bytes → Bytes → Bytes → Bytes → Tracker × Result LaunchError ℕ
    unfolding spawn command_argv chosen_terminal find_terminal
    launch_command t id terminal default_terminal cwd command =
        elim (command_argv terminal default_terminal cwd command) [
          | err e ↦ (t, err e)
          | ok argv ↦ spawn t id argv []
        ]
