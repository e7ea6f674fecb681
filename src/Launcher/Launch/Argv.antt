-- ===== src/Launcher/Launch/Argv.antt =====
-- Which arguments are started.
use remote_app_start_my_linu.Prelude.{
  ℕ, Bytes, codes, trim_space, is_empty, if◌then◌else◌, List, [], ◌∷◌, ◌++◌, Option, some, Result,
  ok, err, map, ◌≡◌, refl, arith, inl, inr, Bool-cases, Option-cases, Result-cases, ◌∙◌, ap, In,
  ◌⊎◌,
}
use remote_app_start_my_linu.Prelude.Assoc.{lookup}
use remote_app_start_my_linu.Desktop.Entry.{Entry}
use remote_app_start_my_linu.Desktop.Exec.RoundTrip.{quote_args, split_exec-quote_args}
use remote_app_start_my_linu.Desktop.Exec.{split_exec}
use remote_app_start_my_linu.Desktop.Expand.Literal.{escape_percent, expand-escape_percent}
use remote_app_start_my_linu.Launcher.Shell.{build_payload}
use remote_app_start_my_linu.Launcher.Tracker.{Tracker, register}
use remote_app_start_my_linu.Launcher.Launch.{
  LaunchError, terminal_candidates, supported_terminals, first_found, find_terminal, in_terminal,
  launch_argv, chosen_terminal, command_argv, spawn, launch, launch_command,
}

-- An Exec line that means `argv` by the rules of the Desktop Entry specification: every argument
-- quoted, every percent sign doubled.
abbrev exec_line : List Bytes → Bytes
exec_line argv = quote_args (map escape_percent argv)

module _ (look_path : Bytes → Option Bytes) where
  -- Every nonempty list of arguments can be written on an Exec line from which `Launch` takes exactly
  -- these arguments; for an entry that wants a terminal, behind the first terminal found and `-e`.
  launch_argv-exec_line :
      (entry : Entry) (a : Bytes) (as' : List Bytes)
      → entry.exec ≡ exec_line (a ∷ as')
      → launch_argv look_path entry ≡ in_terminal look_path entry.terminal (a ∷ as')
  unfolding launch_argv
  launch_argv-exec_line entry a as' e = rw (
    ap is_empty e,
    ap split_exec e ∙ split_exec-quote_args (map escape_percent (a ∷ as')),
    expand-escape_percent (a ∷ as') (some entry) [],
  )

  first_found-In :
      (names : List Bytes) (path : Bytes)
      → first_found look_path names ≡ ok path
      → (name : Bytes) × In name names × (look_path name ≡ some path)
  unfolding first_found
  first_found-In [] path h = absurd (cc h)
  first_found-In (n ∷ names) path h = elim (Option-cases (look_path n)) [
    | inr (p, e) ↦ (n, inl refl, ground arith)
    | inl e ↦
        let (name, there, found) = first_found-In names path (rw (e, first_found) at h) in
        (name, inr there, found)
  ]

  -- The program that a shortcut starts, with the name under which it was found.
  pub record Whitelisted (program : Bytes) : Type 0 where
    pub name : Bytes
    pub known :
        In name terminal_candidates
        ⊎ ((flag : Bytes) × (lookup name supported_terminals ≡ some flag))
    pub found : look_path name ≡ some program

  found_candidate : (path : Bytes) → find_terminal look_path ≡ ok path → Whitelisted path
  unfolding find_terminal
  found_candidate path e =
      let (name, there, found) = first_found-In terminal_candidates path e in
      record { name = name; known = inl there; found = found }

  -- Whatever terminal a shortcut asks for and whatever the default, the program that is started is
  -- one that the search path finds under a name of the two fixed lists, and its last arguments are
  -- `sh -c` with the payload.
  pub command_argv-Whitelisted :
      (terminal default_terminal cwd command : Bytes) (argv : List Bytes)
      → command_argv look_path terminal default_terminal cwd command ≡ ok argv
      → (program : Bytes) × (flags : List Bytes) × (argv
          ≡ program ∷ (flags ++ codes "sh" ∷ codes "-c" ∷ build_payload cwd command ∷ []))
        × Whitelisted program
  unfolding command_argv
  command_argv-Whitelisted terminal default_terminal cwd command argv h =
      let term = chosen_terminal terminal default_terminal in
      elim (Bool-cases (is_empty (trim_space command))) [
        | inl blank ↦ absurd (ground arith)
        | inr real ↦ elim (Bool-cases (is_empty term)) [
          | inl unset ↦ elim (Result-cases (find_terminal look_path)) [
            | inr (x, e) ↦ absurd (ground arith)
            | inl (path, e) ↦ (path, codes "-e" ∷ [], ground arith, found_candidate path e)
          ]
          | inr set ↦ elim (Option-cases (lookup term supported_terminals)) [
            | inl unknown ↦ absurd (ground arith)
            | inr (flag, known) ↦ elim (Option-cases (look_path term)) [
              | inl missing ↦ absurd (ground arith)
              | inr (path, found) ↦ (
                path,
                (if is_empty flag then [] else flag ∷ []),
                ground arith,
                record { name = term; known = inr (flag, known); found = found },
              )
            ]
          ]
        ]
      ]

  module _ (start : List Bytes → Bytes → Option ℕ) where
    -- What a start leaves in the tracker: the pid behind those of the id if it succeeded, and else
    -- no change.
    abbrev Tracked : Tracker → Bytes → Tracker × Result LaunchError ℕ → Type 0
    Tracked t id (t', ok pid) = t' ≡ register t id pid
    Tracked t id (t', err e) = t' ≡ t

    spawn-Tracked :
        (t : Tracker) (id : Bytes) (argv : List Bytes) (dir : Bytes)
        → Tracked t id (spawn look_path start t id argv dir)
    unfolding spawn
    spawn-Tracked t id argv dir = ground arith

    -- A start by `Launch` that succeeds registers its pid under the id of the entry; one that fails
    -- leaves the tracker as it was.
    launch-Tracked :
        (t : Tracker) (entry : Entry) → Tracked t entry.id (launch look_path start t entry)
    unfolding launch
    launch-Tracked t entry = elim (Result-cases (launch_argv look_path entry)) [
      | inr (x, e) ↦ rw (e, launch) refl
      | inl (argv, e) ↦ rw (e, launch) (spawn-Tracked t entry.id argv entry.path)
    ]

    -- A start by `LaunchCommand` that succeeds registers its pid under the id of the call; one that
    -- fails leaves the tracker as it was.
    launch_command-Tracked :
        (t : Tracker) (id terminal default_terminal cwd command : Bytes)
        → Tracked t id (launch_command look_path start t id terminal default_terminal cwd command)
    unfolding launch_command
    launch_command-Tracked t id terminal default_terminal cwd command =
        elim (Result-cases (command_argv look_path terminal default_terminal cwd command)) [
          | inr (x, e) ↦ rw (e, launch_command) refl
          | inl (argv, e) ↦ rw (e, launch_command) (spawn-Tracked t id argv [])
        ]
