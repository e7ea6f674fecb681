-- ===== src/Launcher/Tests.antt =====
-- The properties of server/internal/launcher at concrete inputs.
use remote_app_start_my_linu.Prelude.{
  ℕ, Bytes, codes, eq_bytes, Bool, false, if◌then◌else◌, leb, List, [], ◌∷◌, ◌++◌, Option, none,
  some, ok, trim_space, ◌≡◌, ◌⊎◌, refl,
}
use remote_app_start_my_linu.Prelude.Assoc.{lookup}
use remote_app_start_my_linu.Launcher.Tracker.{
  Tracker, Event, registers, forgets, checks, cleans, run,
}
use remote_app_start_my_linu.Launcher.Tracker.Live.{table, after_events, run-table}
use remote_app_start_my_linu.Launcher.Shell.{build_payload}
use remote_app_start_my_linu.Launcher.Shell.Quoting.{shell_word, build_payload-word}
use remote_app_start_my_linu.Launcher.Launch.{chosen_terminal, command_argv}
use remote_app_start_my_linu.Launcher.Launch.Argv.{Whitelisted, command_argv-Whitelisted}

-- Pids from 10 on are alive.
abbrev from_ten : ℕ → Bool
from_ten pid = leb 10 pid

abbrev two_apps : Tracker
two_apps = (codes "vi", 7 ∷ 11 ∷ []) ∷ (codes "ed", 12 ∷ []) ∷ []

abbrev events : List Event
events =
    registers (codes "vi") 13
    ∷ forgets (codes "ed") 12
    ∷ checks from_ten (codes "vi")
    ∷ cleans from_ten
    ∷ []

run-table_example : table (run two_apps events) ≡ after_events (table two_apps) events
run-table_example = run-table events two_apps

abbrev tricky : Bytes
tricky = codes "it's $HOME; rm \\ *"

build_payload-word_example :
    ((trim_space tricky ≡ [])
      × (build_payload tricky (codes "make") ≡ codes "exec " ++ trim_space (codes "make")))
    ⊎ ((word : Bytes) × (build_payload tricky (codes "make") ≡ codes "cd " ++ word)
        × (shell_word false [] word
            ≡ some (trim_space tricky, codes " && exec " ++ trim_space (codes "make"))))
build_payload-word_example = build_payload-word tricky (codes "make")

-- Only kitty is installed.
abbrev only_kitty : Bytes → Option Bytes
only_kitty name = if eq_bytes name (codes "kitty") then some (codes "/usr/bin/kitty") else none

abbrev kitty_argv : List Bytes
kitty_argv =
    codes "/usr/bin/kitty"
    ∷ codes "sh"
    ∷ codes "-c"
    ∷ build_payload (codes "/src") (codes "make")
    ∷ []

kitty_runs :
    command_argv only_kitty (codes " kitty") [] (codes "/src") (codes "make") ≡ ok kitty_argv
unfolding command_argv chosen_terminal trim_space lookup eq_bytes
kitty_runs = refl

command_argv-Whitelisted_example :
    (program : Bytes) × (flags : List Bytes) × (kitty_argv
      ≡ program
        ∷ (flags ++ codes "sh" ∷ codes "-c" ∷ build_payload (codes "/src") (codes "make") ∷ []))
    × Whitelisted only_kitty program
command_argv-Whitelisted_example =
    command_argv-Whitelisted only_kitty (codes " kitty") [] (codes "/src") (codes "make") kitty_argv
      kitty_runs
