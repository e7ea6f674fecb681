-- ===== src/Httpapi/Pair.antt =====
-- server/internal/httpapi/pair.go and ratelimit.go: POST /api/pair behind its rate limit. A request
-- comes with what the handler reads of the world: the time, the random bytes of a new token and the
-- fate of the token file.
pub mod OneShot
pub mod Guessing
use remote_app_start_my_linu.Prelude.{
  ℕ, ◌+◌, ◌-◌, ◌/◌, Bytes, codes, eq_bytes, trim_space, is_empty, Bool, true, false, not, ◌||◌,
  ◌==◌, ltb, if◌then◌else◌, List, [], ◌∷◌, Option, none, some, ℤ,
}
use remote_app_start_my_linu.Auth.Pin.{PinSession, current, consume, regenerate}
use remote_app_start_my_linu.Auth.RateLimit.{RateLimiter, allow}
use remote_app_start_my_linu.Auth.Store.{Server, Write, issue}
use remote_app_start_my_linu.Httpapi.Response.{Response, failure, success}

pub record PairRequest : Type 0 where
  pub pin : Bytes
  pub device_label : Bytes

-- `body` is the decoded request, `none` where it is no JSON of that shape.
pub record Arrival : Type 0 where
  pub remote_host : Bytes
  pub forwarded_for : Bytes
  pub body : Option PairRequest
  pub now : ℕ
  pub random : Option Bytes
  pub write : Write

pub record Pairing : Type 0 where
  pub limiter : RateLimiter
  pub session : PinSession
  pub server : Server

unfoldable before_comma : Bytes → Bytes
before_comma [] = []
before_comma (c ∷ cs) = if c == b',' then [] else c ∷ before_comma cs

-- `clientIP`; `remote_host` is the host of `RemoteAddr`, or all of it where it has no port.
unfoldable pub client_ip : Arrival → Bytes
unfolding before_comma
client_ip a =
    if is_empty a.forwarded_for
    then a.remote_host
    else (let first = trim_space (before_comma a.forwarded_for) in
        if is_empty first then a.remote_host else first)

-- `Retry-After`: the wait in seconds, rounded up, at least 1.
unfoldable retry_after : ℕ → ℕ
retry_after wait =
    let seconds = (wait + 999_999_999) / 1_000_000_000 in if ltb seconds 1 then 1 else seconds

module _ (hash : Bytes → Bytes) where
  -- A request whose PIN is the current one.
  unfoldable pub pair_device : Pairing → Arrival → PairRequest → Pairing × Response Bytes
  pair_device p a r =
      let (session, fresh) = consume p.session a.now in
      if fresh
      then (let (server, issued) = issue hash a.write p.server a.random r.device_label a.now in
          elim issued [
            | none ↦ (
              record p { session = session; server = server },
              failure 500 (codes "internal_error") (codes "internal error"),
            )
            | some token ↦ (record p { session = session; server = server }, success token)
          ])
      else (
        record p { session = session },
        failure 401 (codes "unauthorized") (codes "pin no longer valid"),
      )

  -- `NewPairHandler`
  unfoldable pub pair : Pairing → Arrival → Pairing × Response Bytes
  unfolding pair_device
  pair p a = elim a.body [
    | none ↦ (p, failure 400 (codes "bad_request") (codes "invalid json"))
    | some r ↦
        if is_empty r.pin || is_empty r.device_label
        then (p, failure 400 (codes "bad_request") (codes "pin and device_label required"))
        else if not (eq_bytes r.pin (current p.session))
        then (p, failure 401 (codes "unauthorized") (codes "invalid pin"))
        else pair_device p a r
  ]

  -- `NewRateLimitMiddleware` around it: the answer with the `Retry-After` header of a refusal.
  unfoldable pub pair_limited : Pairing → Arrival → Pairing × Response Bytes × Option ℕ
  unfolding client_ip retry_after
  pair_limited p a =
      let (limiter, verdict, wait) = allow p.limiter (client_ip a) a.now in
      if verdict
      then (let (q, answer) = pair (record p { limiter = limiter }) a in (q, answer, none))
      else (
        record p { limiter = limiter },
        failure 429 (codes "rate_limited") (codes "too many requests"),
        some (retry_after wait),
      )

  -- The answers to a sequence of requests, each answered before the next.
  unfoldable pub answers : Pairing → List Arrival → List (Response Bytes)
  answers p [] = []
  answers p (a ∷ as') = let (q, answer, wait) = pair_limited p a in answer ∷ answers q as'
