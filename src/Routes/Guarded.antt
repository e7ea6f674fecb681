-- ===== src/Routes/Guarded.antt =====
-- What a request without a valid token can do.
use remote_app_start_my_linu.Prelude.{
  ℕ, Bytes, codes, has_prefix, drop, length, is_empty, Bool, true, false, not, ◌&&◌, ◌||◌,
  if◌then◌else◌, [], ◌∷◌, Option, none, some, ◌≡◌, ◌⊎◌, refl, arith, inl, inr, Option-cases,
  Bool-cases, ap,
}
use remote_app_start_my_linu.Prelude.Assoc.{lookup, has}
use remote_app_start_my_linu.Auth.Middleware.{
  bearer_prefix, Verdict, denied, offered_token, check_token, require_token,
  require_token_or_cookie,
}
use remote_app_start_my_linu.Auth.Store.{TokenInfo, Store, validate}
use remote_app_start_my_linu.Routes.Site.{Site, Request, Reply, is_public, tokens_of, set_tokens}
use remote_app_start_my_linu.Routes.Serve.{
  Handler, socket_token, with_token, with_token_or_cookie, serve_socket, serve_pair, serve,
}
use remote_app_start_my_linu.Routes.Answer.{
  Answer, to_anyone, by_pairing, by_token, by_cookie, by_socket, serve-Answer,
}

abbrev bearer_of : Bytes → Bytes
bearer_of header =
    if has_prefix header bearer_prefix then drop (length bearer_prefix) header else []

abbrev cookie_of : Option Bytes → Bytes
cookie_of none = []
cookie_of (some value) = value

module _ (hash : Bytes → Bytes) where
  -- A token that is there and that the store holds.
  abbrev is_live : Store → Bytes → Bool
  is_live tokens plaintext = not (is_empty plaintext) && has (hash plaintext) tokens.tokens

  -- The request carries a valid token: in its header, in its cookie or in its query.
  abbrev pub is_known : Site → Request → Bool
  is_known s r =
      is_live (tokens_of s) (bearer_of r.authorization)
      || (is_live (tokens_of s) (cookie_of r.cookie) || is_live (tokens_of s) r.token_param)

  validate-unknown :
      (tokens : Store) (plaintext : Bytes) (now : ℕ)
      → has (hash plaintext) tokens.tokens ≡ false
      → validate hash tokens plaintext now ≡ (tokens, none)
  unfolding validate
  validate-unknown tokens plaintext now h =
      elim (Option-cases (lookup (hash plaintext) tokens.tokens)) [
        | inl e ↦ rw (e, validate) refl
        | inr (i, e) ↦ absurd (ground arith)
      ]

  -- The middleware refuses a request and leaves the store as it is.
  abbrev Refuses : Store → Store × Verdict → Type 0
  Refuses tokens x = (message : Bytes) × (x ≡ (tokens, denied message))

  check_token-Refuses :
      (tokens : Store) (plaintext : Bytes) (now : ℕ)
      → has (hash plaintext) tokens.tokens ≡ false
      → Refuses tokens (check_token hash tokens plaintext now)
  unfolding check_token
  check_token-Refuses tokens plaintext now h =
      (codes "invalid token", rw (validate-unknown tokens plaintext now h) refl)

  require_token-Refuses :
      (tokens : Store) (header : Bytes) (now : ℕ)
      → is_live tokens (bearer_of header) ≡ false
      → Refuses tokens (require_token hash tokens header now)
  unfolding require_token
  require_token-Refuses tokens [] now h = (codes "missing bearer token", refl)
  require_token-Refuses tokens (c ∷ header) now h =
      elim (Bool-cases (has_prefix (c ∷ header) bearer_prefix)) [
        | inr e ↦ (codes "invalid authorization header", ground arith)
        | inl e ↦ elim (Bool-cases (is_empty (drop 6 header))) [
          | inl blank ↦ (codes "invalid authorization header", ground arith)
          | inr real ↦
              let (message, refused_by) =
                check_token-Refuses tokens (drop 6 header) now (ground arith) in
              (message, ground arith)
        ]
      ]

  offered_token-dead :
      (tokens : Store) (header : Bytes) (cookie : Option Bytes)
      → is_live tokens (bearer_of header) ≡ false
      → is_live tokens (cookie_of cookie) ≡ false
      → is_live tokens (offered_token header cookie) ≡ false
  unfolding offered_token
  offered_token-dead tokens header none h k = elim (Bool-cases (is_empty (bearer_of header))) [
    | inl e ↦ rw (e, offered_token) refl
    | inr e ↦ rw (e, offered_token) h
  ]
  offered_token-dead tokens header (some c) h k = elim (Bool-cases (is_empty (bearer_of header))) [
    | inl e ↦ rw (e, offered_token) k
    | inr e ↦ rw (e, offered_token) h
  ]

  require_token_or_cookie-Refuses :
      (tokens : Store) (header : Bytes) (cookie : Option Bytes) (now : ℕ)
      → is_live tokens (bearer_of header) ≡ false
      → is_live tokens (cookie_of cookie) ≡ false
      → Refuses tokens (require_token_or_cookie hash tokens header cookie now)
  unfolding require_token_or_cookie
  require_token_or_cookie-Refuses tokens header cookie now h k =
      elim (Bool-cases (is_empty (offered_token header cookie))) [
        | inl blank ↦ (codes "missing bearer token or session cookie", ground arith)
        | inr real ↦
            let dead = offered_token-dead tokens header cookie h k in
            let (message, refused_by) =
              check_token-Refuses tokens (offered_token header cookie) now (ground arith) in
            (message, ground arith)
      ]

  -- Nothing has changed, and the answer is one that anyone may get.
  abbrev IsRefused : Site → Site × Reply → Type 0
  IsRefused s x = (x.0 ≡ s) × (is_public x.1 ≡ true)

  with_token-IsRefused :
      (next : Handler) (s : Site) (r : Request)
      → is_live (tokens_of s) (bearer_of r.authorization) ≡ false
      → IsRefused s (with_token hash next s r)
  unfolding with_token
  with_token-IsRefused next s r h =
      let (message, e) = require_token-Refuses (tokens_of s) r.authorization r.now h in
      rw (e, with_token) (ap (λ (x : Store × Verdict). set_tokens s x.0) e, refl)

  with_token_or_cookie-IsRefused :
      (next : Handler) (s : Site) (r : Request)
      → is_live (tokens_of s) (bearer_of r.authorization) ≡ false
      → is_live (tokens_of s) (cookie_of r.cookie) ≡ false
      → IsRefused s (with_token_or_cookie hash next s r)
  unfolding with_token_or_cookie
  with_token_or_cookie-IsRefused next s r h k =
      let (message, e) =
        require_token_or_cookie-Refuses (tokens_of s) r.authorization r.cookie r.now h k in
      rw (e, with_token_or_cookie) (ap (λ (x : Store × Verdict). set_tokens s x.0) e, refl)

  socket_token-dead :
      (s : Site) (r : Request)
      → is_live (tokens_of s) (cookie_of r.cookie) ≡ false
      → is_live (tokens_of s) r.token_param ≡ false
      → is_live (tokens_of s) (socket_token r) ≡ false
  unfolding socket_token
  socket_token-dead s r h k = elim (Option-cases r.cookie) [
    | inl e ↦ ground arith
    | inr (c, e) ↦ ground arith
  ]

  serve_socket-IsRefused :
      (s : Site) (r : Request)
      → is_live (tokens_of s) (cookie_of r.cookie) ≡ false
      → is_live (tokens_of s) r.token_param ≡ false
      → IsRefused s (serve_socket hash s r)
  unfolding serve_socket
  serve_socket-IsRefused s r h k = elim (Bool-cases (is_empty (socket_token r))) [
    | inl blank ↦ rw (blank, serve_socket) (refl, refl)
    | inr real ↦
        let dead = socket_token-dead s r h k in
        let e = validate-unknown (tokens_of s) (socket_token r) r.now (ground arith) in
        rw (real, e, serve_socket) (ap (λ (x : Store × Option TokenInfo). set_tokens s x.0) e, refl)
  ]

  Answer-IsRefused :
      (s : Site) (r : Request) (x : Site × Reply)
      → Answer hash s r x
      → is_known s r ≡ false
      → (x ≡ serve_pair hash s r) ⊎ IsRefused s x
  Answer-IsRefused s r x (to_anyone reply public ungranted) h = inr (refl, public)
  Answer-IsRefused s r x by_pairing h = inl refl
  Answer-IsRefused s r x (by_token next inner) h =
      inr (with_token-IsRefused next s r (ground arith))
  Answer-IsRefused s r x (by_cookie next inner) h =
      inr (with_token_or_cookie-IsRefused next s r (ground arith) (ground arith))
  Answer-IsRefused s r x by_socket h =
      inr (serve_socket-IsRefused s r (ground arith) (ground arith))

  -- A request to the TLS server that carries no token of the store, neither in its Authorization
  -- header nor in the cookie nor in the query, is either served as a request to pair, or it changes
  -- nothing and is answered by the status, a redirection, 401, 404 or 405.
  pub serve-refused :
      (s : Site) (r : Request)
      → is_known s r ≡ false
      → (serve hash s r ≡ serve_pair hash s r)
        ⊎ (((serve hash s r).0 ≡ s) × (is_public (serve hash s r).1 ≡ true))
  serve-refused s r h = Answer-IsRefused s r (serve hash s r) (serve-Answer hash s r) h
