-- ===== src/Httpapi/NotFound/Transparent.antt =====
-- What the interceptor changes and what it leaves.
use remote_app_start_my_linu.Prelude.{
  ℕ, Bytes, codes, Bool, true, false, not, ◌&&◌, ◌==◌, List, [], ◌∷◌, ◌++◌, none, some, ◌≡◌, refl,
  sym, ap, ◌∙◌, arith,
}
use remote_app_start_my_linu.Prelude.Assoc.{insert}
use remote_app_start_my_linu.Httpapi.NotFound.{
  Headers, Writer, Action, set_header, write_header, write, send, append, act, act_all, json_type,
  write_json, is_json, Interceptor, write_not_found, intercept, intercept_all, wrap_not_found_json,
}

-- The status 404 is never given without a JSON content type.
abbrev is_foreign : Writer → Action → Bool
is_foreign w (write_header code) = code == 404 && not (is_json w.header)
is_foreign w _ = false

abbrev pub own_only : Writer → List Action → Bool
own_only w [] = true
own_only w (a ∷ as') = not (is_foreign w a) && own_only (act w a) as'

-- No further status 404.
abbrev no_404 : List Action → Bool
no_404 [] = true
no_404 (write_header code ∷ as') = not (code == 404) && no_404 as'
no_404 (_ ∷ as') = no_404 as'

-- Headers only, as a handler sets them before it sends a status.
abbrev sets_only : List Action → Bool
sets_only [] = true
sets_only (set_header k v ∷ as') = sets_only as'
sets_only (_ ∷ as') = false

module _ (encode : Bytes → Bytes → Bytes) (path : Bytes) where
  intercept-act :
      (w : Writer) (a : Action)
      → is_foreign w a ≡ false
      → intercept encode path (record { writer = w; intercepted = false }) a
        ≡ record { writer = act w a; intercepted = false }
  unfolding intercept act
  intercept-act w (set_header k v) h = refl
  intercept-act w (write_header code) h = rw h refl
  intercept-act w (write b) h = refl

  -- A handler that gives the status 404 only with a JSON content type is passed on as it is: every
  -- status, header and byte is what it would be without the interceptor.
  pub wrap_not_found_json-act_all :
      (as' : List Action) (w : Writer)
      → own_only w as' ≡ true
      → wrap_not_found_json encode path w as' ≡ act_all w as'
  unfolding wrap_not_found_json intercept_all act_all
  wrap_not_found_json-act_all [] w h = refl
  wrap_not_found_json-act_all (a ∷ as') w h =
      rw (intercept-act w a (ground arith), wrap_not_found_json)
        (wrap_not_found_json-act_all as' (act w a) (ground arith))

  -- The interceptor behind its error.
  abbrev behind : Writer → Interceptor
  behind w = record { writer = w; intercepted = true }

  kept_status :
      (w : Writer) (code : ℕ) (s : ℕ × Headers)
      → w.sent ≡ some s
      → (code == 404) ≡ false
      → intercept encode path (behind w) (write_header code) ≡ behind w
  unfolding intercept send
  kept_status w code s k other = ground arith

  -- Once intercepted, and without another 404, the sent part stays as it is.
  intercepted_kept :
      (as' : List Action) (w : Writer) (s : ℕ × Headers)
      → w.sent ≡ some s
      → no_404 as' ≡ true
      → ((intercept_all encode path (behind w) as').writer.sent ≡ some s)
        × ((intercept_all encode path (behind w) as').writer.body ≡ w.body)
  unfolding intercept_all intercept act send
  intercepted_kept [] w s k q = (k, refl)
  intercepted_kept (set_header x v ∷ as') w s k q = intercepted_kept as' _ s k q
  intercepted_kept (write b ∷ as') w s k q = intercepted_kept as' w s k q
  intercepted_kept (write_header code ∷ as') w s k q =
      rw (kept_status w code s k (ground arith), intercept_all)
        (intercepted_kept as' w s k (ground arith))

  -- Headers in front of the status change neither what was sent nor the body.
  set_only :
      (front : List Action) (w : Writer)
      → sets_only front ≡ true
      → (h : Headers) × (act_all w front ≡ record w { header = h }) × (own_only w front ≡ true)
  unfolding act_all act
  set_only [] w q = (w.header, refl, refl)
  set_only (set_header k v ∷ front) w q =
      set_only front (record w { header = insert k v w.header }) q
  set_only (write_header code ∷ front) w q = absurd (cc q)
  set_only (write b ∷ front) w q = absurd (cc q)

  intercept_all-append :
      (front rest : List Action) (w : Writer)
      → own_only w front ≡ true
      → wrap_not_found_json encode path w (front ++ rest)
        ≡ wrap_not_found_json encode path (act_all w front) rest
  unfolding wrap_not_found_json intercept_all act_all
  intercept_all-append [] rest w h = refl
  intercept_all-append (a ∷ front) rest w h =
      rw (intercept-act w a (ground arith), wrap_not_found_json)
        (intercept_all-append front rest (act w a) (ground arith))

  -- What the client gets for a route that is not there.
  abbrev pub not_found_body : Bytes
  not_found_body = encode (codes "not_found") (codes "route not found: " ++ path)

  abbrev pub not_found_headers : Headers
  not_found_headers =
      insert (codes "Cache-Control") (codes "no-store") (insert (codes "Content-Type") json_type [])

  write_not_found-sent :
      (w : Writer)
      → w.sent ≡ none
      → w.body ≡ []
      → ((write_not_found encode path w).sent ≡ some (404, not_found_headers))
        × ((write_not_found encode path w).body ≡ not_found_body)
  unfolding write_not_found write_json append send
  write_not_found-sent w unsent blank = rw (unsent, blank, write_not_found) (refl, refl)

  intercept-foreign :
      (w : Writer)
      → is_json w.header ≡ false
      → intercept encode path (record { writer = w; intercepted = false }) (write_header 404)
        ≡ behind (write_not_found encode path w)
  unfolding intercept
  intercept-foreign w foreign = rw (foreign, intercept) refl

  -- On a writer to which nothing was sent, a handler that sets headers, not to a JSON content type,
  -- gives the status 404 and then does whatever it does without another 404, as net/http does for a
  -- path that no route has, is answered by the JSON error of the package and its headers and by
  -- nothing else.
  pub wrap_not_found_json-not_found :
      (front rest : List Action) (w : Writer)
      → w.sent ≡ none
      → w.body ≡ []
      → sets_only front ≡ true
      → is_json (act_all w front).header ≡ false
      → no_404 rest ≡ true
      → ((wrap_not_found_json encode path w (front ++ write_header 404 ∷ rest)).sent
          ≡ some (404, not_found_headers))
        × ((wrap_not_found_json encode path w (front ++ write_header 404 ∷ rest)).body
            ≡ not_found_body)
  unfolding wrap_not_found_json
  wrap_not_found_json-not_found front rest w unsent blank sets foreign no_more =
      let (h, set, own) = set_only front w sets in
      let w' : Writer = record w { header = h } in
      let foreign' : is_json h ≡ false = ap (λ z. is_json z.header) (sym set) ∙ foreign in
      let (sent, body) = write_not_found-sent w' unsent blank in
      let (kept_sent, kept_body) =
        intercepted_kept rest (write_not_found encode path w') (404, not_found_headers) sent
          no_more in
      rw
        (
          intercept_all-append front (write_header 404 ∷ rest) w own,
          set,
          wrap_not_found_json,
          intercept_all,
          intercept-foreign w' foreign',
        )
        (kept_sent, kept_body ∙ body)
