-- ===== src/Terminal/Relay.antt =====
-- server/internal/terminal/handler.go, NewWSHandler behind the upgrade: two goroutines between the
-- terminal and the web socket, and the handler that waits for the first of them to end.
use remote_app_start_my_linu.Prelude.{
  ℕ, Bytes, codes, eq_bytes, Bool, true, false, ◌&&◌, ltb, if◌then◌else◌, List, [], ◌∷◌, ◌++◌,
  Option, none, some, ◌≡◌,
}
use remote_app_start_my_linu.Terminal.Session.{Session, resize, write, close}

-- `resizeMsg`
pub record ResizeMsg : Type 0 where
  pub kind : Bytes
  pub cols : ℕ
  pub rows : ℕ

-- A message of the client; `none` is a text that does not decode.
pub data Message : Type 0 where
  text : Option ResizeMsg → Message
  binary : Bytes → Message

-- `produced` and `received` are all that the shell has written and the client has sent so far, of
-- which `output` and `inbox` are still to be read; `held` is the buffer that is read and not yet sent,
-- `pending` the message that is read and not yet handled, or whose write has failed.
pub record Relay : Type 0 where
  pub session : Session
  pub produced : List Bytes
  pub output : List Bytes
  pub held : List Bytes
  pub sent : List Bytes
  pub received : List Message
  pub inbox : List Message
  pub pending : List Message
  pub handled : List Message
  pub output_done : Bool
  pub input_done : Bool
  pub cancelled : Bool
  pub returned : Bool

-- The state in which the goroutines start.
abbrev start_relay : Session → Relay
start_relay s = record {
  session = s;
  produced = [];
  output = [];
  held = [];
  sent = [];
  received = [];
  inbox = [];
  pending = [];
  handled = [];
  output_done = false;
  input_done = false;
  cancelled = false;
  returned = false;
}

-- A command is a resize to a size with no 0, and any other text is passed over.
unfoldable pub on_text : Bool → Session → Option ResizeMsg → Session
unfolding resize
on_text works s none = s
on_text works s (some m) =
    if eq_bytes m.kind (codes "resize") && (ltb 0 m.cols && ltb 0 m.rows)
    then resize works s m.cols m.rows
    else s

-- The body of the loop from the web socket to the terminal, behind its read, and whether the loop goes
-- on: it ends where the write fails.
unfoldable pub on_message : Bool → Option ℕ → Session → Message → Session × Bool
unfolding on_text write
on_message works failed s (text m) = (on_text works s m, true)
on_message works failed s (binary bytes) = write failed s bytes

-- One step of the shell, of the client, of a goroutine or of the handler.
pub data Step : Relay → Relay → Type 0 where
  -- The shell writes what one read will find.
  shell_writes :
      {r : Relay} (chunk : Bytes)
      → Step r (record r { produced = r.produced ++ chunk ∷ []; output = r.output ++ chunk ∷ [] })
  client_sends :
      {r : Relay} (m : Message)
      → Step r (record r { received = r.received ++ m ∷ []; inbox = r.inbox ++ m ∷ [] })
  -- `sess.Read`, from a terminal that is not closed.
  output_reads :
      {r : Relay} (chunk : Bytes) (output : List Bytes)
      → r.output_done ≡ false
      → r.session.is_done ≡ false
      → r.held ≡ []
      → r.output ≡ chunk ∷ output
      → Step r (record r { held = chunk ∷ []; output = output })
  -- `conn.Write`, in a context that is not cancelled.
  output_writes :
      {r : Relay} (chunk : Bytes)
      → r.output_done ≡ false
      → r.cancelled ≡ false
      → r.held ≡ chunk ∷ []
      → Step r (record r { sent = r.sent ++ chunk ∷ []; held = [] })
  -- A read or a write fails, and the goroutine cancels the context.
  output_ends : {r : Relay} → Step r (record r { output_done = true; cancelled = true })
  -- `conn.Read`, and where it fails.
  input_reads :
      {r : Relay} (m : Message) (inbox : List Message)
      → r.input_done ≡ false
      → r.cancelled ≡ false
      → r.pending ≡ []
      → r.inbox ≡ m ∷ inbox
      → Step r (record r { inbox = inbox; pending = m ∷ [] })
  input_ends :
      {r : Relay} → r.pending ≡ [] → Step r (record r { input_done = true; cancelled = true })
  -- The work on the message; the terminal may have been closed since it was read.
  input_handles :
      {r : Relay} (works : Bool) (failed : Option ℕ) (m : Message)
      → r.input_done ≡ false
      → r.pending ≡ m ∷ []
      → (on_message works failed r.session m).1 ≡ true
      → Step r (record r {
        session = (on_message works failed r.session m).0;
        pending = [];
        handled = r.handled ++ m ∷ [];
      })
  -- `sess.Write` fails, having typed a part of the message or nothing.
  input_fails :
      {r : Relay} (works : Bool) (failed : Option ℕ) (m : Message)
      → r.input_done ≡ false
      → r.pending ≡ m ∷ []
      → (on_message works failed r.session m).1 ≡ false
      → Step r (record r {
        session = (on_message works failed r.session m).0;
        input_done = true;
        cancelled = true;
      })
  -- The context of the request ends.
  request_ends : {r : Relay} → Step r (record r { cancelled = true })
  -- `<-ctx.Done()`, and the deferred `Close`.
  handler_returns :
      {r : Relay}
      → r.returned ≡ false
      → r.cancelled ≡ true
      → Step r (record r { session = close r.session; returned = true })

-- What can come of a session.
pub data Reach (s : Session) : Relay → Type 0 where
  started : Reach s (start_relay s)
  later : {r t : Relay} → Reach s r → Step r t → Reach s t
