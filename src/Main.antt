-- ===== src/Main.antt =====
-- server/cmd/remotelauncher/main.go, the end of `run`, with `resolveCertDir`; and logging.go. The
-- two servers and the signal are events; the channels are as the events leave them.
pub mod Select
pub mod Prepare
pub mod Restart
mod Tests
use remote_app_start_my_linu.Prelude.{
  Bytes, codes, eq_bytes, is_empty, trim_space, Bool, true, false, ◌||◌, if◌then◌else◌, List, [],
  ◌∷◌, Option, none, some, Result, ok, err,
}

-- A channel of errors with room for one.
pub record Channel : Type 0 where
  pub pending : Option Bytes
  pub closed : Bool

abbrev is_some : {A : Type 0} → Option A → Bool
is_some none = false
is_some (some a) = true

-- A receive does not block.
abbrev is_ready : Channel → Bool
is_ready c = is_some c.pending || c.closed

pub record Running : Type 0 where
  pub server_err : Channel
  pub web_err : Channel
  pub done : Bool

abbrev empty_channel : Channel
empty_channel = record { pending = none; closed = false }

-- The state in front of the `select`: without the web server, its channel is closed there.
unfoldable pub start : Bool → Running
start web_enabled = record {
  server_err = empty_channel;
  web_err = if web_enabled then empty_channel else record { pending = none; closed = true };
  done = false;
}

-- What happens meanwhile: a server returns, with an error other than `ErrServerClosed` or without;
-- a signal arrives.
pub data Event : Type 0 where
  server_returns web_returns : Option Bytes → Event
  signal : Event

-- A goroutine sends the error, if there is one, and closes its channel.
abbrev send_and_close : Option Bytes → Channel
send_and_close e = record { pending = e; closed = true }

unfoldable pub on_event : Running → Event → Running
on_event s (server_returns e) = record s { server_err = send_and_close e }
on_event s (web_returns e) = record s { web_err = send_and_close e }
on_event s signal = record s { done = true }

unfoldable pub after : Running → List Event → Running
unfolding on_event
after s [] = s
after s (e ∷ es) = after (on_event s e) es

-- The cases of the `select`.
pub data Case : Type 0 where
  from_server from_web from_signal : Case

unfoldable pub can_select : Case → Running → Bool
can_select from_server s = is_ready s.server_err
can_select from_web s = is_ready s.web_err
can_select from_signal s = s.done

-- What `run` does after the `select`: it returns at once, or shuts the servers down.
pub data Ending : Type 0 where
  returned : Option Bytes → Ending
  shut_down : Ending

unfoldable web_ending : Option Bytes → Ending
web_ending none = shut_down
web_ending (some e) = returned (some e)

unfoldable pub ending : Case → Running → Ending
unfolding web_ending
ending from_server s = returned s.server_err.pending
ending from_web s = web_ending s.web_err.pending
ending from_signal s = shut_down

-- The shutdown, from the errors of the two servers' `Shutdown`: the error that `run` returns, and
-- whether the web server was told to stop. An error of the web server is only logged.
unfoldable shutdown : Bool → Option Bytes → Option Bytes × Bool
shutdown web_enabled (some e) = (some e, false)
shutdown web_enabled none = (none, web_enabled)

-- `resolveCertDir`, with `filepath.Join`, the environment and `os.UserHomeDir`.
unfoldable pub resolve_cert_dir :
    (Bytes → Bytes → Bytes) → (Bytes → Bytes) → Result Bytes Bytes → Bytes → Result Bytes Bytes
resolve_cert_dir join getenv user_home override =
    let below : Bytes → Bytes = λ base. join base (codes "remotelauncher") in
    if is_empty override
    then (if is_empty (getenv (codes "XDG_CONFIG_HOME"))
        then elim user_home [ err e ↦ err e | ok home ↦ ok (below (join home (codes ".config"))) ]
        else ok (below (getenv (codes "XDG_CONFIG_HOME"))))
    else ok override

data Level : Type 0 where
  level_debug level_info level_warn level_error : Level

data Handler : Type 0 where
  json_handler text_handler : Level → Handler

-- `parseLogLevel`; `to_lower` is `strings.ToLower`.
unfoldable parse_log_level : (Bytes → Bytes) → Bytes → Level
parse_log_level to_lower level =
    let name = to_lower (trim_space level) in
    if eq_bytes name (codes "debug")
    then level_debug
    else if eq_bytes name (codes "warn")
    then level_warn
    else if eq_bytes name (codes "error")
    then level_error
    else level_info

-- `buildLogger`
unfoldable build_logger : (Bytes → Bytes) → Bytes → Bytes → Handler
unfolding parse_log_level
build_logger to_lower level format =
    if eq_bytes (to_lower (trim_space format)) (codes "json")
    then json_handler (parse_log_level to_lower level)
    else text_handler (parse_log_level to_lower level)
