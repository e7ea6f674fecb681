-- ===== src/Main/Select.antt =====
-- When `run` goes past its `select`.
use remote_app_start_my_linu.Prelude.{
  Bool, true, false, ◌||◌, List, [], ◌∷◌, ◌≡◌, arith, any_of, not, refl, ap, ◌∙◌, none, some,
}
use remote_app_start_my_linu.Main.{
  Running, start, Event, server_returns, web_returns, signal, on_event, after, Case, from_server,
  from_web, from_signal, can_select, Ending, returned, shut_down, ending,
}

-- The event that a case waits for.
abbrev pub is_cause : Case → Event → Bool
is_cause from_server (server_returns e) = true
is_cause from_server (web_returns e) = false
is_cause from_server signal = false
is_cause from_web (server_returns e) = false
is_cause from_web (web_returns e) = true
is_cause from_web signal = false
is_cause from_signal (server_returns e) = false
is_cause from_signal (web_returns e) = false
is_cause from_signal signal = true

one_ready :
    (k : Case) (s : Running) (e : Event)
    → can_select k (on_event s e) ≡ (can_select k s || is_cause k e)
unfolding on_event can_select
one_ready from_server s (server_returns e) = ground arith
one_ready from_server s (web_returns e) = ground arith
one_ready from_server s signal = ground arith
one_ready from_web s (server_returns e) = ground arith
one_ready from_web s (web_returns e) = ground arith
one_ready from_web s signal = ground arith
one_ready from_signal s (server_returns e) = ground arith
one_ready from_signal s (web_returns e) = ground arith
one_ready from_signal s signal = ground arith

after_ready :
    (k : Case) (s : Running) (es : List Event)
    → can_select k (after s es) ≡ (can_select k s || any_of (is_cause k) es)
unfolding after
after_ready k s [] = ground arith
after_ready k s (e ∷ es) = ground (arith, after_ready k (on_event s e) es, one_ready k s e)

-- The case of the web server when there is none.
abbrev pub at_once : Bool → Case → Bool
at_once web_enabled from_server = false
at_once web_enabled from_web = not web_enabled
at_once web_enabled from_signal = false

start_ready :
    (web_enabled : Bool) (k : Case) → can_select k (start web_enabled) ≡ at_once web_enabled k
unfolding start can_select
start_ready true from_server = refl
start_ready true from_web = refl
start_ready true from_signal = refl
start_ready false from_server = refl
start_ready false from_web = refl
start_ready false from_signal = refl

-- How the program ends for a case, from the event that the case waits for.
abbrev ends_with : Case → Event → Ending → Ending
ends_with from_server (server_returns e) before = returned e
ends_with from_web (web_returns none) before = shut_down
ends_with from_web (web_returns (some e)) before = returned (some e)
ends_with k e before = before

-- The last such event decides; the case of a disabled web server leads to the shutdown, as a signal does.
abbrev pub outcome : Case → List Event → Ending → Ending
outcome k [] before = before
outcome k (e ∷ es) before = outcome k es (ends_with k e before)

abbrev pub idle : Case → Ending
idle from_server = returned none
idle from_web = shut_down
idle from_signal = shut_down

ending-on_event :
    (k : Case) (s : Running) (e : Event) → ending k (on_event s e) ≡ ends_with k e (ending k s)
unfolding on_event ending
ending-on_event from_server s (server_returns e) = refl
ending-on_event from_server s (web_returns e) = refl
ending-on_event from_server s signal = refl
ending-on_event from_web s (server_returns e) = refl
ending-on_event from_web s (web_returns none) = refl
ending-on_event from_web s (web_returns (some e)) = refl
ending-on_event from_web s signal = refl
ending-on_event from_signal s (server_returns e) = refl
ending-on_event from_signal s (web_returns e) = refl
ending-on_event from_signal s signal = refl

ending-after :
    (k : Case) (s : Running) (es : List Event) → ending k (after s es) ≡ outcome k es (ending k s)
unfolding after
ending-after k s [] = refl
ending-after k s (e ∷ es) =
    ending-after k (on_event s e) es ∙ ap (outcome k es) (ending-on_event k s e)

ending-start : (web_enabled : Bool) (k : Case) → ending k (start web_enabled) ≡ idle k
unfolding ending start
ending-start true from_server = refl
ending-start true from_web = refl
ending-start true from_signal = refl
ending-start false from_server = refl
ending-start false from_web = refl
ending-start false from_signal = refl

-- After any events, the `select` can take a case exactly when the event that the case waits for is
-- among them, or it is the case of the web server and the web server is disabled. What the program does behind a
-- case is told by the last event that the case waits for: it returns the error of the server, or
-- that of the web server if it has one, and shuts down if the web server returned without an error or none
-- of its events has come, and on a signal. So with the web server disabled the program can go on to
-- shut down although nothing has happened.
pub select_ready :
    (web_enabled : Bool) (es : List Event) (k : Case)
    → (can_select k (after (start web_enabled) es)
        ≡ (at_once web_enabled k || any_of (is_cause k) es))
      × (ending k (after (start web_enabled) es) ≡ outcome k es (idle k))
select_ready web_enabled es k = (
  ground (arith, after_ready k (start web_enabled) es, start_ready web_enabled k),
  ending-after k (start web_enabled) es ∙ ap (outcome k es) (ending-start web_enabled k),
)
