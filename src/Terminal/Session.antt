-- ===== src/Terminal/Session.antt =====
-- server/internal/terminal/session.go: the shell on a pseudo-terminal. `start` is `pty.Start` of a
-- command line in a new session. A call of `Setsize` on an open master says whether it succeeds, and a
-- call of `Write` after how many bytes it fails, if it does; on a closed master both fail.
use remote_app_start_my_linu.Prelude.{
  ℕ, zero, suc, ◌&&◌, not, Bytes, codes, is_empty, Bool, true, false, if◌then◌else◌, List, [], ◌∷◌,
  ◌++◌, Option, none, some,
}

pub record Winsize : Type 0 where
  pub rows : ℕ
  pub cols : ℕ

-- The process, the size and the input of the terminal, and what `Close` has done: how often it has
-- sent SIGHUP to the group, closed the master and waited for the process.
pub record Session : Type 0 where
  pub pid : ℕ
  pub size : Winsize
  pub typed : Bytes
  pub is_done : Bool
  pub hangups : ℕ
  pub closes : ℕ
  pub waits : ℕ

abbrev pub login_shell : Bytes → Bytes
login_shell shell = if is_empty shell then codes "/bin/bash" else shell

-- The first bytes of a text.
unfoldable pub take : ℕ → Bytes → Bytes
take zero s = []
take (suc n) [] = []
take (suc n) (c ∷ cs) = c ∷ take n cs

-- `Resize`; the size stays where `Setsize` fails.
unfoldable pub resize : Bool → Session → ℕ → ℕ → Session
resize works s cols rows =
    if works && not s.is_done then record s { size = record { rows = rows; cols = cols } } else s

-- `NewSession`, with the value of SHELL; the size of a terminal without one is 0.
unfoldable pub new_session : Bytes → (List Bytes → Option ℕ) → Bool → Option Session
unfolding resize
new_session shell start sized = elim (start (login_shell shell ∷ codes "-l" ∷ [])) [
  | none ↦ none
  | some pid ↦ some (
      resize sized
        (record {
          pid = pid;
          size = record { rows = 0; cols = 0 };
          typed = [];
          is_done = false;
          hangups = 0;
          closes = 0;
          waits = 0;
        })
        80 24)
]

-- `Write`, and whether it returns without an error: the terminal gets all bytes then, and those in front
-- of the error otherwise.
unfoldable pub write : Option ℕ → Session → Bytes → Session × Bool
unfolding take
write none s bytes = if s.is_done then (s, false) else (record s { typed = s.typed ++ bytes }, true)
write (some n) s bytes =
    if s.is_done then (s, false) else (record s { typed = s.typed ++ take n bytes }, false)

-- `Close`: the first call does it all, by the `sync.Once`.
unfoldable pub close : Session → Session
close s = if s.is_done then s else record s {
  is_done = true;
  hangups = suc s.hangups;
  closes = suc s.closes;
  waits = suc s.waits;
}
