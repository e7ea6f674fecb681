-- ===== src/Routes/Launches.antt =====
-- Which requests to the TLS server start a process.
use remote_app_start_my_linu.Prelude.{
  ℕ, Bytes, codes, eq_bytes, eq_bytes_iff, Bool, true, false, List, [], ◌∷◌, ◌++◌, ◌≡◌, ◌≢◌, refl,
  sym, subst, ◌∙◌, arith, inl, inr, ap, In, Option-cases,
}
use remote_app_start_my_linu.Routes.Mux.{
  Pattern, allows, Routed, moved, wrong_method, unknown, to, route,
}
use remote_app_start_my_linu.Routes.Tables.{
  ApiRoute, get_status, post_pair, get_apps, get_app_icon, post_app_launch, launch_pattern,
  api_table,
}
use remote_app_start_my_linu.Prelude.Assoc.{has}
use remote_app_start_my_linu.Auth.Middleware.{
  bearer_prefix, is_admitted, require_token, require_token_or_cookie,
}
use remote_app_start_my_linu.Auth.Middleware.Guard.{Verdict-cases, require_token_iff}
use remote_app_start_my_linu.Auth.Store.{validate}
use remote_app_start_my_linu.Httpapi.Launch.Starts.{Launched, handle_launch-Launched}
use remote_app_start_my_linu.Httpapi.Response.{success}
use remote_app_start_my_linu.Launcher.Tracker.{Tracker}
use remote_app_start_my_linu.Routes.Site.{
  Site, Request, Reply, launched, tokens_of, set_tokens, launch_deps,
}
use remote_app_start_my_linu.Routes.Serve.{
  Handler, id_of, serve_apps, serve_icon, serve_launch, serve_shared, serve_spa,
  serve_terminal_page, socket_token, with_token, with_token_or_cookie, serve_socket, serve_pair,
  serve_api, serve_admin, serve_top, serve,
}
use remote_app_start_my_linu.Routes.Tables.{
  AdminRoute, spa, guarded, TopRoute, to_admin, to_terminal_socket, to_terminal_page, to_api,
  top_table,
}
use remote_app_start_my_linu.Routes.Paths.{Begins, route-IsRouted}

-- The pattern of the route to launch is the last one of the table.
launch_pattern-listed :
    (p : Pattern ApiRoute) → In p api_table → p.target ≡ post_app_launch → p ≡ launch_pattern
unfolding api_table
launch_pattern-listed p (inl e) h = absurd (cc (ap (λ q. q.target) (sym e) ∙ h))
launch_pattern-listed p (inr (inl e)) h = absurd (cc (ap (λ q. q.target) (sym e) ∙ h))
launch_pattern-listed p (inr (inr (inl e))) h = absurd (cc (ap (λ q. q.target) (sym e) ∙ h))
launch_pattern-listed p (inr (inr (inr (inl e)))) h = absurd (cc (ap (λ q. q.target) (sym e) ∙ h))
launch_pattern-listed p (inr (inr (inr (inr (inl e))))) h = e
launch_pattern-listed p (inr (inr (inr (inr (inr m))))) h = elim m [ ]

post_not_get : eq_bytes (codes "POST") (codes "GET") ≡ false
unfolding eq_bytes
post_not_get = refl

allows-post : (method : Bytes) → allows (codes "POST") method ≡ true → method ≡ codes "POST"
unfolding allows
allows-post method h = sym ((eq_bytes_iff (codes "POST") method).0 (ground (arith, post_not_get)))

-- The route to launch gets the requests POST /api/apps/{id}/launch and no other.
launch_route :
    (method : Bytes) (is_clean : Bool) (path values : List Bytes)
    → route api_table method is_clean path ≡ to post_app_launch values
    → (method ≡ codes "POST")
      × ((id : Bytes) × (id ≢ [])
          × (path ≡ codes "api" ∷ codes "apps" ∷ id ∷ codes "launch" ∷ [])
          × (values ≡ id ∷ []))
launch_route method is_clean path values h =
    let x = route-IsRouted api_table method is_clean path post_app_launch values h in
    let is_it = launch_pattern-listed x.pattern x.listed x.aimed in
    let fits : Begins launch_pattern.path path values x.rest =
      subst (λ p. Begins p.path path values x.rest) is_it x.begins in
    let (path1, e1, (path2, e2, (id, path3, values', real, e3, e4, (path4, e5, (e6, e7))))) =
      fits in
    let last : x.rest ≡ [] = elim x.ended [ inr e ↦ e | inl e ↦ absurd (cc (is_it, e)) ] in
    (
      allows-post method (subst (λ p. allows p.method method ≡ true) is_it x.allowed),
      (id, real, ground arith, ground arith),
    )

-- The answer is a launch with a pid.
abbrev IsStart : Site × Reply → ℕ → Type 0
IsStart x pid = x.1 ≡ launched (success pid)

module _ (hash : Bytes → Bytes) (s : Site) (r : Request) (pid : ℕ) where
  with_cookie-no_start : (next : Handler) → IsStart (with_token_or_cookie hash next s r) pid → ⊥
  unfolding with_token_or_cookie
  with_cookie-no_start next h =
      elim (Verdict-cases
        (require_token_or_cookie hash (tokens_of s) r.authorization r.cookie r.now).1) [
          | inl (message, e) ↦ absurd (ground arith)
          | inr (plaintext, info, e) ↦ absurd (ground arith)
        ]

  with_token-no_start :
      (next : Handler)
      → ((t : Site) → IsStart (next t r) pid → ⊥)
      → IsStart (with_token hash next s r) pid
      → ⊥
  unfolding with_token
  with_token-no_start next other h =
      let x = require_token hash (tokens_of s) r.authorization r.now in
      elim (Verdict-cases x.1) [
        | inl (message, e) ↦ absurd (ground arith)
        | inr (plaintext, info, e) ↦ other (set_tokens s x.0) (ground arith)
      ]

  serve_api-IsStart :
      (x : Routed ApiRoute)
      → IsStart (serve_api hash x s r) pid
      → (values : List Bytes) × (x ≡ to post_app_launch values)
        × IsStart (with_token hash (serve_launch (id_of values)) s r) pid
  unfolding serve_api serve_pair serve_apps serve_icon
  serve_api-IsStart moved h = absurd (cc h)
  serve_api-IsStart wrong_method h = absurd (cc h)
  serve_api-IsStart unknown h = absurd (cc h)
  serve_api-IsStart (to get_status values) h = absurd (cc h)
  serve_api-IsStart (to post_pair values) h = absurd (cc h)
  serve_api-IsStart (to get_apps values) h = absurd (with_token-no_start serve_apps (λ t k. cc k) h)
  serve_api-IsStart (to get_app_icon values) h =
      absurd (with_token-no_start (serve_icon (id_of values)) (λ t k. cc k) h)
  serve_api-IsStart (to post_app_launch values) h = (values, refl, h)

  serve_admin-no_start : (x : Routed AdminRoute) → IsStart (serve_admin hash x s r) pid → ⊥
  unfolding serve_admin
  serve_admin-no_start moved h = absurd (cc h)
  serve_admin-no_start wrong_method h = absurd (cc h)
  serve_admin-no_start unknown h = absurd (cc h)
  serve_admin-no_start (to spa values) h = with_cookie-no_start serve_spa h
  serve_admin-no_start (to (guarded shared) values) h =
      with_cookie-no_start (serve_shared shared values) h

  serve_socket-no_start : IsStart (serve_socket hash s r) pid → ⊥
  unfolding serve_socket
  serve_socket-no_start h =
      elim (Option-cases (validate hash (tokens_of s) (socket_token r) r.now).1) [
        | inl e ↦ absurd (ground arith)
        | inr (i, e) ↦ absurd (ground arith)
      ]

  serve_top-IsStart :
      (x : Routed TopRoute)
      → IsStart (serve_top hash x s r) pid
      → IsStart (serve_api hash (route api_table r.method r.is_clean r.segments) s r) pid
        × (serve_top hash x s r
            ≡ serve_api hash (route api_table r.method r.is_clean r.segments) s r)
  unfolding serve_top
  serve_top-IsStart moved h = absurd (cc h)
  serve_top-IsStart wrong_method h = absurd (cc h)
  serve_top-IsStart unknown h = absurd (cc h)
  serve_top-IsStart (to to_admin values) h = absurd (serve_admin-no_start _ h)
  serve_top-IsStart (to to_terminal_socket values) h = absurd (serve_socket-no_start h)
  serve_top-IsStart (to to_terminal_page values) h =
      absurd (with_cookie-no_start serve_terminal_page h)
  serve_top-IsStart (to to_api values) h = (h, refl)

  -- A token in the Authorization header that the store holds.
  abbrev CarriesToken : Type 0
  CarriesToken =
      (plaintext : Bytes) × (r.authorization ≡ bearer_prefix ++ plaintext)
      × (plaintext ≢ [])
      × (has (hash plaintext) (tokens_of s).tokens ≡ true)

  -- The start of what the id names, which leaves a tracker.
  abbrev StartedBy : Tracker → Bytes → Type 0
  StartedBy t id =
      Launched r.world.quote r.world.look_path r.world.start (launch_deps s) s.tracker t id pid

  with_token-start :
      (id : Bytes)
      → IsStart (with_token hash (serve_launch id) s r) pid
      → CarriesToken × StartedBy (with_token hash (serve_launch id) s r).0.tracker id
  unfolding with_token serve_launch
  with_token-start id h =
      let x = require_token hash (tokens_of s) r.authorization r.now in
      elim (Verdict-cases x.1) [
        | inl (message, e) ↦ absurd (ground arith)
        | inr (plaintext, info, e) ↦ (
          (require_token_iff hash (tokens_of s) r.authorization r.now).0 (ap is_admitted e),
          rw (e, with_token)
              (handle_launch-Launched r.world.quote r.world.look_path r.world.start (launch_deps s)
                s.tracker id pid (ground arith)),
        )
      ]

  -- What is behind an answer with a pid: the method, the path, the token and the process.
  pub record IsLaunch : Type 0 where
    pub id : Bytes
    pub posted : r.method ≡ codes "POST"
    pub path : r.segments ≡ codes "api" ∷ codes "apps" ∷ id ∷ codes "launch" ∷ []
    pub token : CarriesToken
    pub process : StartedBy (serve hash s r).0.tracker id

  -- If the TLS server answers a request with the pid of a started process, then the request was
  -- POST /api/apps/{id}/launch, its Authorization header held a token of the store, and a process of
  -- that pid was started from the arguments of the shortcut or of the catalog's entry that the id
  -- names and is now registered with the tracker.
  pub serve-IsLaunch : (serve hash s r).1 ≡ launched (success pid) → IsLaunch
  unfolding serve serve_api
  serve-IsLaunch h =
      let (h', same) = serve_top-IsStart (route top_table r.method r.is_clean r.segments) h in
      let routed = route api_table r.method r.is_clean r.segments in
      let (values, e, started) = serve_api-IsStart routed h' in
      let (posted, (id, real, path, is_id)) =
        launch_route r.method r.is_clean r.segments values e in
      let (token, process) =
        with_token-start id
          (subst (λ z. IsStart (with_token hash (serve_launch (id_of z)) s r) pid) is_id started) in
      let all : serve hash s r ≡ with_token hash (serve_launch id) s r =
        same
        ∙ (ap (λ x. serve_api hash x s r) e
            ∙ ap (λ z. with_token hash (serve_launch (id_of z)) s r) is_id) in
      record {
        id = id;
        posted = posted;
        path = path;
        token = token;
        process =
            subst (λ t. StartedBy t id) (sym (ap (λ (x : Site × Reply). x.0.tracker) all)) process;
      }
