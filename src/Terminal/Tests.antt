-- ===== src/Terminal/Tests.antt =====
-- A terminal of server/internal/terminal from its start to its end.
use remote_app_start_my_linu.Prelude.{
  Bytes, codes, eq_bytes, true, false, [], ◌∷◌, some, none, ◌≡◌, refl,
}
use remote_app_start_my_linu.Terminal.Session.{Session, new_session, resize, write}
use remote_app_start_my_linu.Terminal.Relay.{
  text, binary, Relay, on_message, on_text, shell_writes, client_sends, output_reads, output_writes,
  input_reads, input_handles, input_fails, Message, Reach, started, later,
}
use remote_app_start_my_linu.Terminal.Faithful.{IsFaithful, new_session-IsFresh, Reach-IsFaithful}

abbrev shell : Session
shell = record {
  pid = 42;
  size = record { rows = 24; cols = 80 };
  typed = [];
  is_done = false;
  hangups = 0;
  closes = 0;
  waits = 0;
}

shell-starts : new_session [] (λ argv. some 42) true ≡ some shell
unfolding new_session
shell-starts = refl

-- The shell prompts, the prompt is sent, the client types, resizes and types again; the terminal takes the
-- first of two bytes.
abbrev prompt : Bytes
prompt = codes "$ "

abbrev ended : Relay
ended = record {
  session = record shell { size = record { rows = 10; cols = 20 }; typed = codes "lsp" };
  produced = prompt ∷ [];
  output = [];
  held = [];
  sent = prompt ∷ [];
  received =
      binary (codes "ls")
      ∷ text (some (record { kind = codes "resize"; cols = 20; rows = 10 }))
      ∷ binary (codes "ps")
      ∷ [];
  inbox = [];
  pending = binary (codes "ps") ∷ [];
  handled =
      binary (codes "ls")
      ∷ text (some (record { kind = codes "resize"; cols = 20; rows = 10 }))
      ∷ [];
  output_done = false;
  input_done = true;
  cancelled = true;
  returned = false;
}

abbrev to_ten : Message
to_ten = text (some (record { kind = codes "resize"; cols = 20; rows = 10 }))

abbrev resized : Relay
resized = record ended {
  session = record shell { size = record { rows = 10; cols = 20 }; typed = codes "ls" };
  received = binary (codes "ls") ∷ to_ten ∷ [];
  pending = [];
  input_done = false;
  cancelled = false;
}

typed-reached : Reach shell (record resized {
  session = record shell { typed = codes "ls" };
  received = binary (codes "ls") ∷ [];
  handled = binary (codes "ls") ∷ [];
})
unfolding on_message on_text resize write eq_bytes
typed-reached =
    later
      (later
        (later
          (later
            (later (later started (shell_writes prompt))
              (output_reads prompt [] refl refl refl refl))
            (output_writes prompt refl refl refl))
          (client_sends (binary (codes "ls"))))
        (input_reads (binary (codes "ls")) [] refl refl refl refl))
      (input_handles true none (binary (codes "ls")) refl refl refl)

resized-reached : Reach shell resized
unfolding on_message on_text resize write eq_bytes
resized-reached =
    later
      (later (later typed-reached (client_sends to_ten))
        (input_reads to_ten [] refl refl refl refl))
      (input_handles true none to_ten refl refl refl)

ended-reached : Reach shell ended
unfolding on_message on_text resize write eq_bytes
ended-reached =
    later
      (later (later resized-reached (client_sends (binary (codes "ps"))))
        (input_reads (binary (codes "ps")) [] refl refl refl refl))
      (input_fails true (some 1) (binary (codes "ps")) refl refl refl)

Reach-IsFaithful_example : IsFaithful ended
Reach-IsFaithful_example =
    Reach-IsFaithful shell (new_session-IsFresh [] (λ argv. some 42) shell shell-starts)
      ended-reached
