-- ===== src/Auth/Middleware.antt =====
-- server/internal/auth/middleware.go: who is let through to a handler. A header that is not there is
-- empty; `cookie` is the value of the named cookie, if the request has it.
pub mod Guard
use remote_app_start_my_linu.Prelude.{
  ℕ, Bytes, codes, has_prefix, drop, length, is_empty, Bool, true, false, not, [], if◌then◌else◌,
  Option, none, some,
}
use remote_app_start_my_linu.Auth.Store.{TokenInfo, Store, validate}

abbrev pub bearer_prefix : Bytes
bearer_prefix = codes "Bearer "

-- What becomes of a request: a 401 with its message, or the call of the handler, with the token that
-- was accepted and its data. `RequireTokenOrCookie` sets the cookie to that token.
pub data Verdict : Type 0 where
  denied : Bytes → Verdict
  admitted : Bytes → TokenInfo → Verdict

abbrev pub is_admitted : Verdict → Bool
is_admitted (denied _) = false
is_admitted (admitted _ _) = true

abbrev verdict_on : Bytes → Option TokenInfo → Verdict
verdict_on plaintext none = denied (codes "invalid token")
verdict_on plaintext (some info) = admitted plaintext info

-- The token of the header, or else of the cookie.
unfoldable pub offered_token : Bytes → Option Bytes → Bytes
offered_token header cookie =
    let bearer =
      if has_prefix header bearer_prefix then drop (length bearer_prefix) header else [] in
    if is_empty bearer then (elim cookie [ none ↦ [] | some value ↦ value ]) else bearer

module _ (hash : Bytes → Bytes) where
  unfoldable pub check_token : Store → Bytes → ℕ → Store × Verdict
  check_token s plaintext now =
      let (t, found) = validate hash s plaintext now in (t, verdict_on plaintext found)

  -- `RequireToken`
  unfoldable pub require_token : Store → Bytes → ℕ → Store × Verdict
  require_token s header now =
      if is_empty header
      then (s, denied (codes "missing bearer token"))
      else if not (has_prefix header bearer_prefix)
      then (s, denied (codes "invalid authorization header"))
      else (let plaintext = drop (length bearer_prefix) header in
          if is_empty plaintext
          then (s, denied (codes "invalid authorization header"))
          else check_token s plaintext now)

  -- `RequireTokenOrCookie`
  unfoldable pub require_token_or_cookie : Store → Bytes → Option Bytes → ℕ → Store × Verdict
  require_token_or_cookie s header cookie now =
      let plaintext = offered_token header cookie in
      if is_empty plaintext
      then (s, denied (codes "missing bearer token or session cookie"))
      else check_token s plaintext now
