-- ===== src/Routes/Answer.antt =====
-- Every answer of the TLS server is one of five kinds, whatever the path of the request.
use remote_app_start_my_linu.Prelude.{Bytes, Bool, true, false, List, Option, none, some, ◌≡◌, refl}
use remote_app_start_my_linu.Httpapi.Response.{is_success}
use remote_app_start_my_linu.Shortcuts
use remote_app_start_my_linu.Visibility
use remote_app_start_my_linu.Routes.Mux.{Routed, moved, wrong_method, unknown, to, route}
use remote_app_start_my_linu.Routes.Tables.{
  ApiRoute, get_status, post_pair, get_apps, get_app_icon, post_app_launch, SharedRoute, list_all,
  icon_of, read_shortcuts, write_shortcuts, write_visibility, AdminRoute, spa, guarded, TopRoute,
  to_admin, to_terminal_socket, to_terminal_page, to_api, api_table, admin_table, top_table,
}
use remote_app_start_my_linu.Routes.Site.{
  Site, Request, Reply, moved_permanently, method_not_allowed, no_route, status_is, paired,
  is_public,
}
use remote_app_start_my_linu.Routes.Serve.{
  Handler, id_of, serve_apps, serve_icon, serve_launch, serve_shared, kept_shortcuts,
  kept_visibility, with_token, with_token_or_cookie, serve_socket, serve_pair, serve_spa,
  serve_terminal_page, serve_api, serve_admin, serve_top, serve,
}

-- An answer that hands out a token.
abbrev pub is_granted : Reply → Bool
is_granted (paired answer wait) = is_success answer
is_granted _ = false

-- The handlers that stand behind a token.
pub data Inner : Handler → Type 0 where
  for_apps : Inner serve_apps
  for_icon : (id : Bytes) → Inner (serve_icon id)
  for_launch : (id : Bytes) → Inner (serve_launch id)
  for_shared : (shared : SharedRoute) (values : List Bytes) → Inner (serve_shared shared values)
  for_spa : Inner serve_spa
  for_terminal : Inner serve_terminal_page

module _ (hash : Bytes → Bytes) (s : Site) (r : Request) where
  pub data Answer : Site × Reply → Type 0 where
    to_anyone :
        (reply : Reply) → is_public reply ≡ true → is_granted reply ≡ false → Answer (s, reply)
    by_pairing : Answer (serve_pair hash s r)
    by_token : (next : Handler) → Inner next → Answer (with_token hash next s r)
    by_cookie : (next : Handler) → Inner next → Answer (with_token_or_cookie hash next s r)
    by_socket : Answer (serve_socket hash s r)

  serve_api-Answer : (x : Routed ApiRoute) → Answer (serve_api hash x s r)
  unfolding serve_api
  serve_api-Answer moved = to_anyone moved_permanently refl refl
  serve_api-Answer wrong_method = to_anyone method_not_allowed refl refl
  serve_api-Answer unknown = to_anyone (no_route r.path) refl refl
  serve_api-Answer (to get_status values) = to_anyone (status_is _) refl refl
  serve_api-Answer (to post_pair values) = by_pairing
  serve_api-Answer (to get_apps values) = by_token serve_apps for_apps
  serve_api-Answer (to get_app_icon values) =
      by_token (serve_icon (id_of values)) (for_icon (id_of values))
  serve_api-Answer (to post_app_launch values) =
      by_token (serve_launch (id_of values)) (for_launch (id_of values))

  serve_admin-Answer : (x : Routed AdminRoute) → Answer (serve_admin hash x s r)
  unfolding serve_admin
  serve_admin-Answer moved = to_anyone moved_permanently refl refl
  serve_admin-Answer wrong_method = to_anyone method_not_allowed refl refl
  serve_admin-Answer unknown = to_anyone (no_route r.path) refl refl
  serve_admin-Answer (to spa values) = by_cookie serve_spa for_spa
  serve_admin-Answer (to (guarded shared) values) =
      by_cookie (serve_shared shared values) (for_shared shared values)

  serve_top-Answer : (x : Routed TopRoute) → Answer (serve_top hash x s r)
  unfolding serve_top
  serve_top-Answer moved = to_anyone moved_permanently refl refl
  serve_top-Answer wrong_method = to_anyone method_not_allowed refl refl
  serve_top-Answer unknown = to_anyone (no_route r.path) refl refl
  serve_top-Answer (to to_admin values) =
      serve_admin-Answer (route admin_table r.method r.is_clean r.segments)
  serve_top-Answer (to to_terminal_socket values) = by_socket
  serve_top-Answer (to to_terminal_page values) = by_cookie serve_terminal_page for_terminal
  serve_top-Answer (to to_api values) =
      serve_api-Answer (route api_table r.method r.is_clean r.segments)

  pub serve-Answer : Answer (serve hash s r)
  unfolding serve
  serve-Answer = serve_top-Answer (route top_table r.method r.is_clean r.segments)

kept_shortcuts-pairing :
    (s : Site) (o : Option Shortcuts.Store) → (kept_shortcuts s o).pairing ≡ s.pairing
kept_shortcuts-pairing s none = refl
kept_shortcuts-pairing s (some scs) = refl

kept_visibility-pairing :
    (s : Site) (o : Option Visibility.Store) → (kept_visibility s o).pairing ≡ s.pairing
kept_visibility-pairing s none = refl
kept_visibility-pairing s (some v) = refl

-- A handler behind a token leaves all that belongs to the pairing alone, and pairs no device.
pub Inner-pairing :
    (next : Handler)
    → Inner next
    → (s : Site) (r : Request)
    → ((next s r).0.pairing ≡ s.pairing) × (is_granted (next s r).1 ≡ false)
unfolding serve_apps serve_icon serve_launch serve_shared serve_spa serve_terminal_page
Inner-pairing next for_apps s r = (refl, refl)
Inner-pairing next (for_icon id) s r = (refl, refl)
Inner-pairing next (for_launch id) s r = (refl, refl)
Inner-pairing next (for_shared list_all values) s r = (refl, refl)
Inner-pairing next (for_shared icon_of values) s r = (refl, refl)
Inner-pairing next (for_shared read_shortcuts values) s r = (refl, refl)
Inner-pairing next (for_shared write_shortcuts values) s r = (kept_shortcuts-pairing s _, refl)
Inner-pairing next (for_shared write_visibility values) s r = (kept_visibility-pairing s _, refl)
Inner-pairing next for_spa s r = (refl, refl)
Inner-pairing next for_terminal s r = (refl, refl)
