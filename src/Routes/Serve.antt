-- ===== src/Routes/Serve.antt =====
-- The handlers behind their routes: NewRouter of server/internal/httpapi/router.go, NewHandler of
-- server/internal/admin/admin.go and of server/internal/web/web.go, NewWSHandler of
-- server/internal/terminal/handler.go up to the upgrade, and the routes of run in
-- server/cmd/remotelauncher/main.go. `hash` is `HashToken`.
use remote_app_start_my_linu.Prelude.{
  Bytes, codes, is_empty, true, head_or, if◌then◌else◌, List, [], ◌∷◌, Option, none, some, ℤ,
}
use remote_app_start_my_linu.Auth.Middleware.{
  denied, admitted, require_token, require_token_or_cookie,
}
use remote_app_start_my_linu.Auth.Store.{validate}
use remote_app_start_my_linu.Httpapi.Apps.{handle_apps}
use remote_app_start_my_linu.Httpapi.Icons.{get_icon}
use remote_app_start_my_linu.Httpapi.Launch.{handle_launch}
use remote_app_start_my_linu.Httpapi.Pair.{pair_limited}
use remote_app_start_my_linu.Httpapi.Status.{status_of}
use remote_app_start_my_linu.Shortcuts
use remote_app_start_my_linu.Visibility
use remote_app_start_my_linu.Web.{
  list_apps, put_visibility, put_shortcuts, get_shortcuts, pin_json, post_pin,
}
use remote_app_start_my_linu.Routes.Mux.{Routed, moved, wrong_method, unknown, to, route}
use remote_app_start_my_linu.Routes.Tables.{
  ApiRoute, get_status, post_pair, get_apps, get_app_icon, post_app_launch, api_table, SharedRoute,
  list_all, icon_of, read_shortcuts, write_shortcuts, write_visibility, AdminRoute, spa, guarded,
  admin_table, LocalRoute, static_file, read_pin, renew_pin, open_to_all, local_table, TopRoute,
  to_admin, to_terminal_socket, to_terminal_page, to_api, top_table,
}
use remote_app_start_my_linu.Routes.Site.{
  Site, Request, Reply, moved_permanently, method_not_allowed, no_route, refused, refused_text,
  status_is, paired, apps_are, icon_is, launched, all_apps_are, shortcuts_are, shortcuts_set,
  hidden_set, admin_page, terminal_page, terminal_socket, file_served, pin_is, pin_failed,
  with_cookie, tokens_of, set_tokens, arrival_of, launch_deps, find_in,
}

abbrev pub id_of : List Bytes → Bytes
id_of values = head_or [] values

-- `HandlerFunc`s over the state.
abbrev pub Handler : Type 0
Handler = Site → Request → Site × Reply

unfoldable pub serve_apps : Handler
serve_apps s r =
    let (t, apps) =
      handle_apps r.world.alive s.catalog (some s.visibility) (some s.shortcuts) s.tracker in
    (record s { tracker = t }, apps_are apps)

unfoldable pub serve_icon : Bytes → Handler
serve_icon id s r =
    let (answer, finder) =
      get_icon (find_in r.world) r.world.open_file s.catalog s.finder id r.size_param in
    (record s { finder = finder }, icon_is answer)

unfoldable pub serve_launch : Bytes → Handler
serve_launch id s r =
    let (t, answer) =
      handle_launch r.world.quote r.world.look_path r.world.start (launch_deps s) s.tracker id in
    (record s { tracker = t }, launched answer)

abbrev pub kept_visibility : Site → Option Visibility.Store → Site
kept_visibility s none = s
kept_visibility s (some v) = record s { visibility = v }

abbrev pub kept_shortcuts : Site → Option Shortcuts.Store → Site
kept_shortcuts s none = s
kept_shortcuts s (some scs) = record s { shortcuts = scs }

-- The endpoints of both admin servers.
unfoldable pub serve_shared : SharedRoute → List Bytes → Handler
unfolding serve_icon
serve_shared list_all values s r =
    (s, all_apps_are (list_apps s.catalog (some s.visibility) (some s.shortcuts)))
serve_shared icon_of values s r = serve_icon (id_of values) s r
serve_shared read_shortcuts values s r =
    (s, shortcuts_are (get_shortcuts (some s.shortcuts) s.default_terminal))
serve_shared write_shortcuts values s r =
    let (scs, disk, answer) =
      put_shortcuts r.world.text r.write.grants r.write.tmp s.shortcut_disk (some s.shortcuts)
        r.shortcuts_body in
    (record (kept_shortcuts s scs) { shortcut_disk = disk }, shortcuts_set answer)
serve_shared write_visibility values s r =
    let (v, disk, answer) =
      put_visibility r.write.grants r.write.tmp s.hidden_disk (some s.visibility) r.ids_body in
    (record (kept_visibility s v) { hidden_disk = disk }, hidden_set answer)

-- The pages.
unfoldable pub serve_spa : Handler
serve_spa s r = (s, admin_page)

unfoldable pub serve_terminal_page : Handler
serve_terminal_page s r = (s, terminal_page)

-- The token of the web socket's request.
unfoldable pub socket_token : Request → Bytes
socket_token r =
    if is_empty r.token_param
    then (elim r.cookie [ none ↦ [] | some value ↦ value ])
    else r.token_param

module _ (hash : Bytes → Bytes) where
  -- The handler behind `RequireToken`, and behind `RequireTokenOrCookie` with the cookie rl_session.
  unfoldable pub with_token : Handler → Handler
  with_token next s r =
      let (tokens, verdict) = require_token hash (tokens_of s) r.authorization r.now in
      elim verdict [
        | denied message ↦ (set_tokens s tokens, refused message)
        | admitted plaintext info ↦ next (set_tokens s tokens) r
      ]

  unfoldable pub with_token_or_cookie : Handler → Handler
  with_token_or_cookie next s r =
      let (tokens, verdict) =
        require_token_or_cookie hash (tokens_of s) r.authorization r.cookie r.now in
      elim verdict [
        | denied message ↦ (set_tokens s tokens, refused message)
        | admitted plaintext info ↦
            let (s', reply) = next (set_tokens s tokens) r in (s', with_cookie plaintext reply)
      ]

  -- The start of `NewWSHandler`.
  unfoldable pub serve_socket : Handler
  unfolding socket_token
  serve_socket s r =
      if is_empty (socket_token r)
      then (s, refused_text (codes "missing token"))
      else (let (tokens, found) = validate hash (tokens_of s) (socket_token r) r.now in
          elim found [
            | none ↦ (set_tokens s tokens, refused_text (codes "invalid token"))
            | some info ↦ (set_tokens s tokens, terminal_socket)
          ])

  unfoldable pub serve_pair : Handler
  serve_pair s r =
      let (pairing, answer, wait) = pair_limited hash s.pairing (arrival_of r) in
      (record s { pairing = pairing }, paired answer wait)

  -- `NewRouter`, from the route on.
  unfoldable pub serve_api : Routed ApiRoute → Handler
  unfolding serve_pair serve_apps serve_icon serve_launch with_token
  serve_api moved s r = (s, moved_permanently)
  serve_api wrong_method s r = (s, method_not_allowed)
  serve_api unknown s r = (s, no_route r.path)
  serve_api (to get_status values) s r = (
    s,
    status_is
        (status_of r.world.whole_seconds s.version s.started_at s.catalog s.fingerprint r.now),
  )
  serve_api (to post_pair values) s r = serve_pair s r
  serve_api (to get_apps values) s r = with_token serve_apps s r
  serve_api (to get_app_icon values) s r = with_token (serve_icon (id_of values)) s r
  serve_api (to post_app_launch values) s r = with_token (serve_launch (id_of values)) s r

  -- `NewHandler` of the admin UI on the public port.
  unfoldable pub serve_admin : Routed AdminRoute → Handler
  unfolding serve_spa serve_shared with_token_or_cookie
  serve_admin moved s r = (s, moved_permanently)
  serve_admin wrong_method s r = (s, method_not_allowed)
  serve_admin unknown s r = (s, no_route r.path)
  serve_admin (to spa values) s r = with_token_or_cookie serve_spa s r
  serve_admin (to (guarded shared) values) s r =
      with_token_or_cookie (serve_shared shared values) s r

  unfoldable pub serve_top : Routed TopRoute → Handler
  unfolding serve_admin serve_api serve_socket serve_terminal_page with_token_or_cookie
  serve_top moved s r = (s, moved_permanently)
  serve_top wrong_method s r = (s, method_not_allowed)
  serve_top unknown s r = (s, no_route r.path)
  serve_top (to to_admin values) s r =
      serve_admin (route admin_table r.method r.is_clean r.segments) s r
  serve_top (to to_terminal_socket values) s r = serve_socket s r
  serve_top (to to_terminal_page values) s r = with_token_or_cookie serve_terminal_page s r
  serve_top (to to_api values) s r = serve_api (route api_table r.method r.is_clean r.segments) s r

  -- A request to the TLS server.
  unfoldable pub serve : Handler
  unfolding serve_top
  serve s r = serve_top (route top_table r.method r.is_clean r.segments) s r

  -- The requests to the TLS server in the order in which they take effect.
  unfoldable pub serve_all : Site → List Request → Site × List Reply
  unfolding serve
  serve_all s [] = (s, [])
  serve_all s (r ∷ rs) =
      let (s', reply) = serve s r in let (end, replies) = serve_all s' rs in (end, reply ∷ replies)

-- `NewHandler` of the loopback server, with a PIN session as run wires it.
unfoldable pub serve_local_route : ℤ → Routed LocalRoute → Handler
unfolding serve_shared
serve_local_route ttl moved s r = (s, moved_permanently)
serve_local_route ttl wrong_method s r = (s, method_not_allowed)
serve_local_route ttl unknown s r = (s, no_route r.path)
serve_local_route ttl (to static_file values) s r = (s, file_served)
serve_local_route ttl (to read_pin values) s r = (s, pin_is (pin_json s.pairing.session r.answered))
serve_local_route ttl (to renew_pin values) s r =
    let (session, renewed) = post_pin s.pairing.session r.random_pin ttl r.now r.answered in
    (
      record s { pairing = record s.pairing { session = session } },
      elim renewed [ none ↦ pin_failed | some p ↦ pin_is p ],
    )
serve_local_route ttl (to (open_to_all shared) values) s r = serve_shared shared values s r

unfoldable pub serve_local : ℤ → Handler
unfolding serve_local_route
serve_local ttl s r =
    serve_local_route ttl (route (local_table true) r.method r.is_clean r.segments) s r
