-- ===== src/Routes/Newcomers.antt =====
-- How a device comes to be served, over all that the TLS server is asked.
use remote_app_start_my_linu.Prelude.{
  ℕ, ◌≤◌, Bytes, is_empty, true, false, List, [], ◌∷◌, ◌≡◌, ◌⊎◌, refl, sym, arith, inl, inr,
  Option-cases, Bool-cases, ap, ◌∙◌, length, keep_if, any_of, All,
}
use remote_app_start_my_linu.Prelude.Assoc.{lookup}
use remote_app_start_my_linu.Auth.Middleware.{require_token, require_token_or_cookie}
use remote_app_start_my_linu.Auth.Middleware.Guard.{Verdict-cases}
use remote_app_start_my_linu.Auth.Store.{issue_token, issue, validate}
use remote_app_start_my_linu.Auth.Pin.{consume}
use remote_app_start_my_linu.Httpapi.Response.{is_success}
use remote_app_start_my_linu.Httpapi.Pair.{Arrival, Pairing, pair_device, pair, pair_limited}
use remote_app_start_my_linu.Httpapi.Pair.OneShot.{pair_limited-used, used_after}
use remote_app_start_my_linu.Routes.Site.{
  Site, Request, Reply, is_public, tokens_of, set_tokens, arrival_of,
}
use remote_app_start_my_linu.Routes.Serve.{
  Handler, socket_token, with_token, with_token_or_cookie, serve_socket, serve_pair, serve,
  serve_all,
}
use remote_app_start_my_linu.Routes.Answer.{
  Answer, Inner, Inner-pairing, is_granted, to_anyone, by_pairing, by_token, by_cookie, by_socket,
  serve-Answer,
}
use remote_app_start_my_linu.Routes.Guarded.{is_known, serve-refused}

-- How many of the answers hand out a token.
abbrev pub grants_in : List Reply → ℕ
grants_in replies = length (keep_if is_granted replies)

-- Nothing but the rate limiter and the PIN session has changed.
abbrev pub SameBut : Site → Site → Type 0
SameBut s t = (t ≡ record s { pairing = t.pairing }) × (t.pairing.server ≡ s.pairing.server)

module _ (hash : Bytes → Bytes) where
  -- The PIN session is as before, and no token was handed out.
  abbrev IsQuiet : Site → Site × Reply → Type 0
  IsQuiet s x = (x.0.pairing.session ≡ s.pairing.session) × (is_granted x.1 ≡ false)

  with_token-IsQuiet :
      (next : Handler)
      → Inner next
      → (s : Site) (r : Request) → IsQuiet s (with_token hash next s r)
  unfolding with_token
  with_token-IsQuiet next inner s r =
      let x = require_token hash (tokens_of s) r.authorization r.now in
      elim (Verdict-cases x.1) [
        | inl (message, e) ↦ rw (e, with_token) (refl, refl)
        | inr (plaintext, info, e) ↦
            let (same, ungranted) = Inner-pairing next inner (set_tokens s x.0) r in
            rw (e, with_token) (ap (λ p. p.session) same, ungranted)
      ]

  with_token_or_cookie-IsQuiet :
      (next : Handler)
      → Inner next
      → (s : Site) (r : Request) → IsQuiet s (with_token_or_cookie hash next s r)
  unfolding with_token_or_cookie
  with_token_or_cookie-IsQuiet next inner s r =
      let x = require_token_or_cookie hash (tokens_of s) r.authorization r.cookie r.now in
      elim (Verdict-cases x.1) [
        | inl (message, e) ↦ rw (e, with_token_or_cookie) (refl, refl)
        | inr (plaintext, info, e) ↦
            let (same, ungranted) = Inner-pairing next inner (set_tokens s x.0) r in
            rw (e, with_token_or_cookie) (ap (λ p. p.session) same, refl)
      ]

  serve_socket-IsQuiet : (s : Site) (r : Request) → IsQuiet s (serve_socket hash s r)
  unfolding serve_socket
  serve_socket-IsQuiet s r = elim (Bool-cases (is_empty (socket_token r))) [
    | inl blank ↦ rw (blank, serve_socket) (refl, refl)
    | inr real ↦ elim (Option-cases (validate hash (tokens_of s) (socket_token r) r.now).1) [
      | inl e ↦ rw (real, e, serve_socket) (refl, refl)
      | inr (i, e) ↦ rw (real, e, serve_socket) (refl, refl)
    ]
  ]

  Answer-IsQuiet :
      (s : Site) (r : Request) (x : Site × Reply)
      → Answer hash s r x
      → (x ≡ serve_pair hash s r) ⊎ IsQuiet s x
  Answer-IsQuiet s r x (to_anyone reply public ungranted) = inr (refl, ungranted)
  Answer-IsQuiet s r x by_pairing = inl refl
  Answer-IsQuiet s r x (by_token next inner) = inr (with_token-IsQuiet next inner s r)
  Answer-IsQuiet s r x (by_cookie next inner) = inr (with_token_or_cookie-IsQuiet next inner s r)
  Answer-IsQuiet s r x by_socket = inr (serve_socket-IsQuiet s r)

  pair_limited-server :
      (p : Pairing) (a : Arrival)
      → is_success (pair_limited hash p a).1 ≡ false
      → (pair_limited hash p a).0.server ≡ p.server
  unfolding pair_limited pair pair_device consume issue issue_token
  pair_limited-server p a h = elim (Option-cases a.body) [
    | inl e ↦ ground arith
    | inr (r, e) ↦ elim (Option-cases a.random) [
      | inl none' ↦ ground arith
      | inr (t, some') ↦ ground arith
    ]
  ]

  serve-IsQuiet :
      (s : Site) (r : Request) → (serve hash s r ≡ serve_pair hash s r) ⊎ IsQuiet s (serve hash s r)
  serve-IsQuiet s r = Answer-IsQuiet s r (serve hash s r) (serve-Answer hash s r)

  -- Once the PIN is used, it stays used, and no request gets a token.
  serve-used :
      (s : Site) (r : Request)
      → s.pairing.session.consumed ≡ true
      → ((serve hash s r).0.pairing.session.consumed ≡ true)
        × (is_granted (serve hash s r).1 ≡ false)
  unfolding serve_pair
  serve-used s r h = elim (serve-IsQuiet s r) [
    | inr (same, ungranted) ↦ (ap (λ z. z.consumed) same ∙ h, ungranted)
    | inl e ↦
        let (same, refused) = pair_limited-used hash s.pairing (arrival_of r) h in
        rw e (ap (λ z. z.consumed) same ∙ h, refused)
  ]

  serve-granted :
      (s : Site) (r : Request)
      → is_granted (serve hash s r).1 ≡ true
      → (serve hash s r).0.pairing.session.consumed ≡ true
  unfolding serve_pair
  serve-granted s r h = elim (serve-IsQuiet s r) [
    | inr (same, ungranted) ↦ absurd (ground arith)
    | inl e ↦ rw e (used_after hash s.pairing (arrival_of r) (ap (λ x. is_granted x.1) (sym e) ∙ h))
  ]

  serve_all-used :
      (rs : List Request) (s : Site)
      → s.pairing.session.consumed ≡ true
      → grants_in (serve_all hash s rs).1 ≡ 0
  unfolding serve_all
  serve_all-used [] s h = refl
  serve_all-used (r ∷ rs) s h =
      let (used, ungranted) = serve-used s r h in
      rw ungranted (serve_all-used rs (serve hash s r).0 used)

  -- Whatever the TLS server is asked, with whatever tokens and PINs and on whatever routes, at most one
  -- answer hands out a token as long as the operator makes no new PIN.
  pub serve_all-grants_le : (rs : List Request) (s : Site) → grants_in (serve_all hash s rs).1 ≤ 1
  unfolding serve_all
  serve_all-grants_le [] s = omega arith
  serve_all-grants_le (r ∷ rs) s = elim (Bool-cases (is_granted (serve hash s r).1)) [
    | inr ungranted ↦ rw ungranted (serve_all-grants_le rs (serve hash s r).0)
    | inl given ↦
        rw given (omega (arith, serve_all-used rs (serve hash s r).0 (serve-granted s r given)))
  ]

  no_tokens-unknown :
      (s : Site) (r : Request) → (tokens_of s).tokens ≡ [] → is_known hash s r ≡ false
  unfolding lookup
  no_tokens-unknown s r h = rw h (ground arith)

  serve-newcomer :
      (s : Site) (r : Request)
      → (tokens_of s).tokens ≡ []
      → is_granted (serve hash s r).1 ≡ false
      → SameBut s (serve hash s r).0 × (is_public (serve hash s r).1 ≡ true)
  unfolding serve_pair
  serve-newcomer s r h ungranted = elim (serve-refused hash s r (no_tokens-unknown s r h)) [
    | inr (same, public) ↦ ((rw same refl, ap (λ z. z.pairing.server) same), public)
    | inl e ↦ rw e (
      (
        refl,
        pair_limited-server s.pairing (arrival_of r) (ap (λ x. is_granted x.1) (sym e) ∙ ungranted),
      ),
      refl,
    )
  ]

  -- As long as the server has no token and hands none out, every request, with whatever it claims to
  -- be authorised by, is answered by what anyone may get, and at the end nothing has changed but the
  -- rate limiter and the PIN session.
  pub serve_all-newcomers :
      (rs : List Request) (s : Site)
      → (tokens_of s).tokens ≡ []
      → any_of is_granted (serve_all hash s rs).1 ≡ false
      → SameBut s (serve_all hash s rs).0
        × All (λ reply. is_public reply ≡ true) (serve_all hash s rs).1
  unfolding serve_all
  serve_all-newcomers [] s h ungranted = ((refl, refl), tt)
  serve_all-newcomers (r ∷ rs) s h ungranted =
      let x = serve hash s r in
      let ((same, server), public) = serve-newcomer s r h (ground arith) in
      let ((same', server'), rest) =
        serve_all-newcomers rs x.0 (ap (λ z. z.store.tokens) server ∙ h) (ground arith) in
      let with_end : Site → Site = λ z. record z { pairing = (serve_all hash x.0 rs).0.pairing } in
      ((same' ∙ ap with_end same, server' ∙ server), (public, rest))
