-- ===== src/Httpapi/Launch/Starts.antt =====
-- Which requests start a process.
use remote_app_start_my_linu.Prelude.{
  ℕ, Bytes, codes, is_empty, true, false, List, [], ◌++◌, Option, some, Result, ok, err, ◌≡◌, ◌≢◌,
  refl, ap, arith, inl, inr, Bool-cases, Option-cases,
}
use remote_app_start_my_linu.Prelude.Assoc.{has}
use remote_app_start_my_linu.Auth.Middleware.{bearer_prefix, is_admitted, require_token}
use remote_app_start_my_linu.Auth.Middleware.Guard.{require_token_iff, Verdict-cases}
use remote_app_start_my_linu.Auth.Store.{Store}
use remote_app_start_my_linu.Catalog.{get}
use remote_app_start_my_linu.Desktop.Entry.{Entry}
use remote_app_start_my_linu.Httpapi.Response.{failure, success}
use remote_app_start_my_linu.Httpapi.Launch.{
  LaunchDeps, shortcut_answer, app_answer, find_shortcut, launch_shortcut, launch_app,
  handle_launch, post_launch,
}
use remote_app_start_my_linu.Launcher.Launch.{
  LaunchError, launch_argv, command_argv, spawn, launch, launch_command,
}
use remote_app_start_my_linu.Launcher.Tracker.{Tracker, register}
use remote_app_start_my_linu.Shortcuts.{Shortcut, normalize_id}

shortcut_answer-success :
    (quote : Bytes → Bytes) (r : Result LaunchError ℕ) (pid : ℕ)
    → shortcut_answer quote r ≡ success pid
    → r ≡ ok pid
unfolding shortcut_answer
shortcut_answer-success quote (ok p) pid h = ground arith
shortcut_answer-success quote (err e) pid h = ground arith

app_answer-success : (r : Result LaunchError ℕ) (pid : ℕ) → app_answer r ≡ success pid → r ≡ ok pid
unfolding app_answer
app_answer-success (ok p) pid h = ground arith
app_answer-success (err e) pid h = ground arith

module _ (quote : Bytes → Bytes) (look_path : Bytes → Option Bytes)
    (start : List Bytes → Bytes → Option ℕ) where
  -- A process that was started in a directory from the arguments of a result, under an id.
  pub record Spawned (t t' : Tracker) (id : Bytes) (argv : Result LaunchError (List Bytes))
      (dir : Bytes) (pid : ℕ) : Type 0 where
    pub arguments : List Bytes
    pub taken : argv ≡ ok arguments
    pub started : start arguments dir ≡ some pid
    pub registered : t' ≡ register t id pid

  spawn-Spawned :
      (t : Tracker) (id : Bytes) (argv : List Bytes) (dir : Bytes) (pid : ℕ)
      → (spawn look_path start t id argv dir).1 ≡ ok pid
      → Spawned t (spawn look_path start t id argv dir).0 id (ok argv) dir pid
  unfolding spawn
  spawn-Spawned t id argv dir pid h = elim (Option-cases (start argv dir)) [
    | inl e ↦ absurd (ground arith)
    | inr (p, e) ↦ record {
      arguments = argv;
      taken = refl;
      started = ground arith;
      registered = ground arith;
    }
  ]

  -- The start behind any result of arguments.
  abbrev start_from :
      Tracker → Bytes → Result LaunchError (List Bytes) → Bytes → Tracker × Result LaunchError ℕ
  start_from t id argv dir = elim argv [
    | err e ↦ (t, err e)
    | ok arguments ↦ spawn look_path start t id arguments dir
  ]

  start_from-Spawned :
      (t : Tracker) (id : Bytes) (argv : Result LaunchError (List Bytes)) (dir : Bytes) (pid : ℕ)
      → (start_from t id argv dir).1 ≡ ok pid
      → Spawned t (start_from t id argv dir).0 id argv dir pid
  start_from-Spawned t id (err e) dir pid h = absurd (ground arith)
  start_from-Spawned t id (ok arguments) dir pid h = spawn-Spawned t id arguments dir pid h

  launch-Spawned :
      (t : Tracker) (entry : Entry) (pid : ℕ)
      → (launch look_path start t entry).1 ≡ ok pid
      → Spawned t
          (launch look_path start t entry).0
          entry.id
          (launch_argv look_path entry)
          entry.path
          pid
  unfolding launch
  launch-Spawned t entry pid h =
      start_from-Spawned t entry.id (launch_argv look_path entry) entry.path pid h

  launch_command-Spawned :
      (t : Tracker) (id terminal default_terminal cwd command : Bytes) (pid : ℕ)
      → (launch_command look_path start t id terminal default_terminal cwd command).1 ≡ ok pid
      → Spawned t
          (launch_command look_path start t id terminal default_terminal cwd command).0
          id
          (command_argv look_path terminal default_terminal cwd command)
          []
          pid
  unfolding launch_command
  launch_command-Spawned t id terminal default_terminal cwd command pid h =
      start_from-Spawned t id (command_argv look_path terminal default_terminal cwd command) [] pid
        h

  -- What a successful answer to a launch of `id` was: the start of a shortcut under the whole id, or
  -- of the catalog's entry under the id of the entry.
  pub data Launched (d : LaunchDeps) (t t' : Tracker) (id : Bytes) (pid : ℕ) : Type 0 where
    shortcut :
        (bare : Bytes) (sc : Shortcut)
        → normalize_id id ≡ (bare, true)
        → find_shortcut d.provider bare ≡ some sc
        → Spawned t t' id
            (command_argv look_path sc.terminal d.default_terminal sc.cwd sc.command)
            []
            pid
        → Launched d t t' id pid
    application :
        (entry : Entry)
        → get d.catalog id ≡ some entry
        → Spawned t t' entry.id (launch_argv look_path entry) entry.path pid
        → Launched d t t' id pid

  launch_shortcut-Launched :
      (d : LaunchDeps) (t : Tracker) (id bare : Bytes) (pid : ℕ)
      → normalize_id id ≡ (bare, true)
      → (launch_shortcut quote look_path start d t id bare).1 ≡ success pid
      → Launched d t (launch_shortcut quote look_path start d t id bare).0 id pid
  unfolding launch_shortcut
  launch_shortcut-Launched d t id bare pid custom h =
      elim (Option-cases (find_shortcut d.provider bare)) [
        | inl e ↦ absurd (ground arith)
        | inr (sc, e) ↦
            rw (e, launch_shortcut)
              (shortcut bare sc custom e (
                launch_command-Spawned t id sc.terminal d.default_terminal sc.cwd sc.command pid
                  (shortcut_answer-success quote _ pid (ground arith))))
      ]

  launch_app-Launched :
      (d : LaunchDeps) (t : Tracker) (id : Bytes) (pid : ℕ)
      → (launch_app quote look_path start d t id).1 ≡ success pid
      → Launched d t (launch_app quote look_path start d t id).0 id pid
  unfolding launch_app
  launch_app-Launched d t id pid h = elim (Option-cases (get d.catalog id)) [
    | inl e ↦ absurd (ground arith)
    | inr (entry, e) ↦ elim (Bool-cases (is_empty entry.exec)) [
      | inl empty ↦ absurd (ground arith)
      | inr exec ↦
          rw (e, exec, launch_app)
            (application entry e
              (launch-Spawned t entry pid (app_answer-success _ pid (ground arith))))
    ]
  ]

  pub handle_launch-Launched :
      (d : LaunchDeps) (t : Tracker) (id : Bytes) (pid : ℕ)
      → (handle_launch quote look_path start d t id).1 ≡ success pid
      → Launched d t (handle_launch quote look_path start d t id).0 id pid
  unfolding handle_launch
  handle_launch-Launched d t id pid h = elim (Bool-cases (normalize_id id).1) [
    | inl custom ↦
        rw (custom, handle_launch)
          (launch_shortcut-Launched d t id (normalize_id id).0 pid
            (ap (λ b. ((normalize_id id).0, b)) custom) (ground arith))
    | inr plain ↦ rw (plain, handle_launch) (launch_app-Launched d t id pid (ground arith))
  ]

  -- If a launch request is answered with a pid, its Authorization header held a token of the store, a
  -- process of that pid was started from the arguments of the shortcut or of the catalog's entry that
  -- the id names, and this pid is now registered with the tracker.
  post_launch-Launched :
      (hash : Bytes → Bytes) (d : LaunchDeps) (tokens : Store) (t : Tracker) (header : Bytes)
      (now : ℕ) (id : Bytes) (pid : ℕ)
      → (post_launch quote look_path start hash d tokens t header now id).2 ≡ success pid
      → ((plaintext : Bytes) × (header ≡ bearer_prefix ++ plaintext)
          × (plaintext ≢ [])
          × (has (hash plaintext) tokens.tokens ≡ true))
        × Launched d t (post_launch quote look_path start hash d tokens t header now id).1 id pid
  unfolding post_launch
  post_launch-Launched hash d tokens t header now id pid h =
      elim (Verdict-cases (require_token hash tokens header now).1) [
        | inl (message, e) ↦ absurd (ground arith)
        | inr (plaintext, info, e) ↦ (
          (require_token_iff hash tokens header now).0 (ap is_admitted e),
          rw (e, post_launch) (handle_launch-Launched d t id pid (ground arith)),
        )
      ]

  -- Without a token of the store in its Authorization header, a launch request leaves the tracker
  -- as it is and is answered with 401.
  post_launch-denied :
      (hash : Bytes → Bytes) (d : LaunchDeps) (tokens : Store) (t : Tracker) (header : Bytes)
      (now : ℕ) (id : Bytes)
      → ((plaintext : Bytes)
          → header ≡ bearer_prefix ++ plaintext
          → plaintext ≢ []
          → has (hash plaintext) tokens.tokens ≡ false)
      → ((post_launch quote look_path start hash d tokens t header now id).1 ≡ t)
        × ((message : Bytes) × ((post_launch quote look_path start hash d tokens t header now id).2
              ≡ failure 401 (codes "unauthorized") message))
  unfolding post_launch
  post_launch-denied hash d tokens t header now id none_valid =
      elim (Verdict-cases (require_token hash tokens header now).1) [
        | inl (message, e) ↦ (ground arith, (message, ground arith))
        | inr (plaintext, info, e) ↦
            let (token, is_header, real, held) =
              (require_token_iff hash tokens header now).0 (ap is_admitted e) in
            absurd (ground (arith, none_valid token is_header real))
      ]
