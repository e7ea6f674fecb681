-- ===== src/Httpapi/Pair/Guessing.antt =====
-- How often the PIN can be guessed.
use remote_app_start_my_linu.Prelude.{
  ℕ, ◌+◌, ◌*◌, ◌≤◌, ◌<◌, Bytes, Bool, true, false, not, ◌==◌, if◌then◌else◌, List, [], ◌∷◌, ◌≡◌,
  refl, arith, length, keep_if, map, All, Option-cases, Bool-cases, inl, inr, ◌∙◌, Option, some, ap,
  sym, codes, ◌⊎◌,
}
use remote_app_start_my_linu.Auth.RateLimit.{RateLimiter, allow, allowed, as_count}
use remote_app_start_my_linu.Auth.RateLimit.Budget.{WithinBudget, allowed-global_max}
use remote_app_start_my_linu.Httpapi.Response.{Response, failure, success}
use remote_app_start_my_linu.Httpapi.Pair.{
  PairRequest, Arrival, Pairing, client_ip, retry_after, pair_device, pair, pair_limited, answers,
}

-- Any answer but that of the limiter: the handler has looked at the request.
abbrev pub is_looked_at : Response Bytes → Bool
is_looked_at (failure status code message) = not (status == 429)
is_looked_at (success token) = true

length_if :
    (b : Bool) (x : Response Bytes) (xs : List (Response Bytes))
    → length (if b then x ∷ xs else xs) ≡ as_count b + length xs
length_if true x xs = omega arith
length_if false x xs = omega arith

-- What the limiter sees of a request.
abbrev call_of : Arrival → Bytes × ℕ
call_of a = (client_ip a, a.now)

-- A request is refused with a wait.
abbrev refusal : Pairing → RateLimiter × Bool × ℕ → Pairing × Response Bytes × Option ℕ
refusal p (limiter, verdict, wait) = (
  record p { limiter = limiter },
  failure 429 (codes "rate_limited") (codes "too many requests"),
  some (retry_after wait),
)

module _ (hash : Bytes → Bytes) where
  pair_device-looked_at :
      (p : Pairing) (a : Arrival) (r : PairRequest)
      → ((pair_device hash p a r).0.limiter ≡ p.limiter)
        × (is_looked_at (pair_device hash p a r).1 ≡ true)
  unfolding pair_device
  pair_device-looked_at p a r = ground arith

  pair-looked_at :
      (p : Pairing) (a : Arrival)
      → ((pair hash p a).0.limiter ≡ p.limiter) × (is_looked_at (pair hash p a).1 ≡ true)
  unfolding pair
  pair-looked_at p a = elim (Option-cases a.body) [
    | inl e ↦ ground arith
    | inr (r, e) ↦ ground (arith, pair_device-looked_at p a r)
  ]

  pair_limited-looked_at :
      (p : Pairing) (a : Arrival)
      → ((pair_limited hash p a).0.limiter ≡ (allow p.limiter (client_ip a) a.now).0)
        × (is_looked_at (pair_limited hash p a).1 ≡ (allow p.limiter (client_ip a) a.now).1)
  unfolding pair_limited
  pair_limited-looked_at p a =
      ground
        (arith, pair-looked_at (record p { limiter = (allow p.limiter (client_ip a) a.now).0 }) a)

  looked_at-allowed :
      (as' : List Arrival) (p : Pairing)
      → length (keep_if is_looked_at (answers hash p as')) ≡ allowed p.limiter (map call_of as')
  unfolding answers allowed
  looked_at-allowed [] p = refl
  looked_at-allowed (a ∷ as') p =
      let (same, verdict) = pair_limited-looked_at p a in
      let later = rw same at (looked_at-allowed as' (pair_limited hash p a).0) in
      length_if (is_looked_at (pair_limited hash p a).1) _ _ ∙ rw (verdict, later)

  -- The answer is not that of the limiter; or it is, whatever the body of the request, its PIN
  -- included, and the session, the tokens and the files are as they were.
  abbrev pub IsUnread : Pairing → Arrival → Type 0
  IsUnread p a =
      (is_looked_at (pair_limited hash p a).1 ≡ false)
      × ((pair_limited hash p a).0.session ≡ p.session)
      × ((pair_limited hash p a).0.server ≡ p.server)
      × ((body : Option PairRequest)
          → pair_limited hash p (record a { body = body }) ≡ pair_limited hash p a)

  -- Along a sequence of requests, each is looked at or stays unread.
  abbrev pub RefusedUnread : Pairing → List Arrival → Type 0
  RefusedUnread p [] = Unit
  RefusedUnread p (a ∷ as') =
      ((is_looked_at (pair_limited hash p a).1 ≡ true) ⊎ IsUnread p a)
      × RefusedUnread (pair_limited hash p a).0 as'

  client_ip-body :
      (a : Arrival) (body : Option PairRequest) → client_ip (record a { body = body }) ≡ client_ip a
  unfolding client_ip
  client_ip-body a body = refl

  pair_limited-refused :
      (p : Pairing) (a : Arrival)
      → (allow p.limiter (client_ip a) a.now).1 ≡ false
      → pair_limited hash p a ≡ refusal p (allow p.limiter (client_ip a) a.now)
  unfolding pair_limited
  pair_limited-refused p a e = rw (e, pair_limited) refl

  pair_limited-IsUnread :
      (p : Pairing) (a : Arrival) → (allow p.limiter (client_ip a) a.now).1 ≡ false → IsUnread p a
  pair_limited-IsUnread p a e =
      let same = pair_limited-refused p a e in
      (
        (pair_limited-looked_at p a).1 ∙ e,
        ap (λ z. z.0.session) same,
        ap (λ z. z.0.server) same,
        λ body.
            pair_limited-refused p (record a { body = body })
              (ap (λ ip. (allow p.limiter ip a.now).1) (client_ip-body a body) ∙ e)
            ∙ (ap (λ ip. refusal p (allow p.limiter ip a.now)) (client_ip-body a body) ∙ sym same),
      )

  run-RefusedUnread : (as' : List Arrival) (p : Pairing) → RefusedUnread p as'
  run-RefusedUnread [] p = tt
  run-RefusedUnread (a ∷ as') p = (
    elim (Bool-cases (allow p.limiter (client_ip a) a.now).1) [
      | inl e ↦ inl ((pair_limited-looked_at p a).1 ∙ e)
      | inr e ↦ inr (pair_limited-IsUnread p a e)
    ],
    run-RefusedUnread as' (pair_limited hash p a).0,
  )

  -- In any stretch of time no longer than the window the handler looks at no more than twice the
  -- global budget of requests, from however many addresses they come; each other request gets the
  -- answer of the limiter, which would be the same with any other PIN or body, and changes neither the
  -- session of the PIN nor the tokens. So many PINs can be tried.
  pub looked_at-le :
      (as' : List Arrival) (p : Pairing) (start : ℕ)
      → WithinBudget p.limiter
      → All (λ c. (start ≤ c.1) × (c.1 < start + p.limiter.window)) (map call_of as')
      → (length (keep_if is_looked_at (answers hash p as')) ≤ 2 * p.limiter.global_max)
        × RefusedUnread p as'
  looked_at-le as' p start w a = (
    rw (looked_at-allowed as' p) (allowed-global_max (map call_of as') p.limiter start w a),
    run-RefusedUnread as' p,
  )
