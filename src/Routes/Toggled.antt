-- ===== src/Routes/Toggled.antt =====
-- What the operator hides at the loopback server is what the phone no longer sees at the other one.
use remote_app_start_my_linu.Prelude.{
  Bytes, codes, eq_bytes, true, not, List, [], ◌∷◌, map, keep_if, some, ok, ℤ, ◌≡◌, refl, ap, ◌∙◌,
  arith, inl, inr,
}
use remote_app_start_my_linu.Auth.Middleware.{is_admitted, require_token}
use remote_app_start_my_linu.Auth.Middleware.Guard.{Verdict-cases}
use remote_app_start_my_linu.Httpapi.Apps.{merged, handle_apps}
use remote_app_start_my_linu.Httpapi.Apps.Shown.{with_state, handle_apps-map}
use remote_app_start_my_linu.Web.{put_visibility}
use remote_app_start_my_linu.Web.Toggles.{asked, put_visibility-visible}
use remote_app_start_my_linu.Routes.Mux.{
  Pattern, Routed, to, route, first_match, is_path, match_pattern, match_parts, allows,
}
use remote_app_start_my_linu.Routes.Tables.{
  write_visibility, open_to_all, local_table, get_apps, api_table, to_api, top_table,
}
use remote_app_start_my_linu.Routes.Site.{Site, Request, apps_are, tokens_of}
use remote_app_start_my_linu.Routes.Serve.{
  serve_apps, serve_shared, with_token, serve_api, serve_top, serve, serve_local_route, serve_local,
}

-- A request for a method and a path that is clean.
pub record Asks (r : Request) (method : Bytes) (path : List Bytes) : Type 0 where
  pub by : r.method ≡ method
  pub clean : r.is_clean ≡ true
  pub at : r.segments ≡ path

abbrev pub visibility_path : List Bytes
visibility_path = codes "api" ∷ codes "visibility" ∷ []

abbrev pub apps_path : List Bytes
apps_path = codes "api" ∷ codes "apps" ∷ []

visibility_route :
    route (local_table true) (codes "PUT") true visibility_path
    ≡ to (open_to_all write_visibility) []
unfolding route first_match is_path match_pattern match_parts allows local_table eq_bytes
visibility_route = refl

apps_top_route : route top_table (codes "GET") true apps_path ≡ to to_api []
unfolding route first_match is_path match_pattern match_parts allows top_table eq_bytes
apps_top_route = refl

apps_route : route api_table (codes "GET") true apps_path ≡ to get_apps []
unfolding route first_match is_path match_pattern match_parts allows api_table eq_bytes
apps_route = refl

asked_route :
    {A : Type 0} (ps : List (Pattern A)) (r : Request) (method : Bytes) (path : List Bytes)
    (x : Routed A)
    → Asks r method path
    → route ps method true path ≡ x
    → route ps r.method r.is_clean r.segments ≡ x
asked_route ps r method path x h e = rw (h.by, h.clean, h.at) e

serve_local-visibility :
    (ttl : ℤ) (s : Site) (r : Request)
    → Asks r (codes "PUT") visibility_path
    → serve_local ttl s r ≡ serve_shared write_visibility [] s r
unfolding serve_local serve_local_route
serve_local-visibility ttl s r h =
    ap (λ x. serve_local_route ttl x s r)
      (asked_route (local_table true) r _ _ _ h visibility_route)

module _ (hash : Bytes → Bytes) where
  serve-apps :
      (s : Site) (r : Request)
      → Asks r (codes "GET") apps_path
      → serve hash s r ≡ with_token hash serve_apps s r
  unfolding serve serve_top serve_api
  serve-apps s r h =
      ap (λ x. serve_top hash x s r) (asked_route top_table r _ _ _ h apps_top_route)
      ∙ ap (λ x. serve_api hash x s r) (asked_route api_table r _ _ _ h apps_route)

  with_token-apps :
      (s : Site) (r : Request)
      → is_admitted (require_token hash (tokens_of s) r.authorization r.now).1 ≡ true
      → (with_token hash serve_apps s r).1
        ≡ apps_are
            (handle_apps r.world.alive s.catalog (some s.visibility) (some s.shortcuts) s.tracker).1
  unfolding with_token serve_apps
  with_token-apps s r h =
      elim (Verdict-cases (require_token hash (tokens_of s) r.authorization r.now).1) [
        | inl (message, e) ↦ absurd (ground arith)
        | inr (plaintext, info, e) ↦ rw (e, with_token) refl
      ]

  -- When the operator has sent a list of ids to hide to the loopback server, then, whatever has become
  -- of the file, the next list of applications that a phone with a valid token gets from the TLS
  -- server has the applications and shortcuts whose ids are not in the list, in their order, each
  -- marked as running exactly if a process registered under its id is alive.
  pub serve-hidden :
      (ttl : ℤ) (s : Site) (operator phone : Request) (ids : List Bytes)
      → Asks operator (codes "PUT") visibility_path
      → operator.ids_body ≡ ok ids
      → Asks phone (codes "GET") apps_path
      → is_admitted (require_token hash (tokens_of s) phone.authorization phone.now).1 ≡ true
      → (serve hash (serve_local ttl s operator).0 phone).1
        ≡ apps_are (
            map
              (with_state phone.world.alive s.tracker)
              (keep_if (λ a. not (asked ids a.id)) (merged s.catalog (some s.shortcuts))))
  unfolding serve_shared put_visibility
  serve-hidden ttl s operator phone ids put body get admitted =
      let g = operator.write.grants in
      let tmp = operator.write.tmp in
      let s' = (serve_shared write_visibility [] s operator).0 in
      let shown =
        (put_visibility-visible g tmp s.hidden_disk s.visibility ids s.catalog
          (some s.shortcuts)).0 in
      let sent =
        handle_apps-map phone.world.alive s.catalog
          (put_visibility g tmp s.hidden_disk (some s.visibility) (ok ids)).0 (some s.shortcuts)
          s.tracker in
      rw (serve_local-visibility ttl s operator put, serve-apps s' phone get)
        (with_token-apps s' phone (rw body admitted)
          ∙ rw body (ap apps_are (sent ∙ ap (map (with_state phone.world.alive s.tracker)) shown)))
