-- ===== src/Httpapi/Pair/OneShot.antt =====
-- A PIN pairs one device.
use remote_app_start_my_linu.Prelude.{
  ℕ, ◌≤◌, Bytes, eq_bytes, eq_bytes_iff, eq_bytes_refl, is_empty, true, false, List, [], ◌∷◌,
  Option, some, ◌≡◌, ◌≢◌, refl, arith, length, ap, ◌∙◌, keep_if, Bool-cases, Option-cases, inl, inr,
}
use remote_app_start_my_linu.Prelude.Assoc.{has}
use remote_app_start_my_linu.Auth.Pin.{current, is_expired, consume}
use remote_app_start_my_linu.Auth.RateLimit.{allow}
use remote_app_start_my_linu.Auth.Store.{TokenInfo, issue_token, issue}
use remote_app_start_my_linu.Auth.Store.Tokens.{add-holds}
use remote_app_start_my_linu.Httpapi.Response.{Response, failure, success, is_success}
use remote_app_start_my_linu.Httpapi.Pair.{
  PairRequest, Arrival, Pairing, client_ip, pair_device, pair, pair_limited, answers,
}

-- How many of the answers hand out a token.
abbrev tokens_given : List (Response Bytes) → ℕ
tokens_given rs = length (keep_if is_success rs)

-- What is behind an answer that hands out `token`: the request passed the limiter and named a device
-- and the PIN of the session, which was neither used nor expired; the PIN is used now, and the store
-- holds the hash of the token.
pub record Paired (hash : Bytes → Bytes) (p : Pairing) (a : Arrival) (q : Pairing) (token : Bytes)
    : Type 0 where
  pub within_limit : (allow p.limiter (client_ip a) a.now).1 ≡ true
  pub request : PairRequest
  pub decoded : a.body ≡ some request
  pub same_pin : request.pin ≡ p.session.pin
  pub named : request.device_label ≢ []
  pub unused : p.session.consumed ≡ false
  pub in_time : is_expired p.session a.now ≡ false
  pub used_up : q.session ≡ record p.session { consumed = true }
  pub minted : a.random ≡ some token
  pub stored : has (hash token) q.server.store.tokens ≡ true

success_of : (r : Response Bytes) → is_success r ≡ true → (token : Bytes) × (r ≡ success token)
success_of (failure s c m) h = absurd (cc h)
success_of (success token) h = (token, refl)

module _ (hash : Bytes → Bytes) where
  issue-stored :
      (p : Pairing) (a : Arrival) (r : PairRequest) (token : Bytes)
      → a.random ≡ some token
      → has (hash token) (issue hash a.write p.server a.random r.device_label a.now).0.store.tokens
        ≡ true
  unfolding issue issue_token
  issue-stored p a r token e =
      let info : TokenInfo = record {
        hash = hash token;
        device_label = r.device_label;
        created_at = a.now;
        last_seen = a.now;
      } in
      rw (e, issue, issue_token)
        (rw (add-holds a.write p.server info (hash token)) (rw (eq_bytes_refl (hash token))))

  pair_device-success :
      (p : Pairing) (a : Arrival) (r : PairRequest) (q : Pairing) (token : Bytes)
      → pair_device hash p a r ≡ (q, success token)
      → (p.session.consumed ≡ false)
        × (is_expired p.session a.now ≡ false)
        × (q.session ≡ record p.session { consumed = true })
        × (a.random ≡ some token)
        × (q.server ≡ (issue hash a.write p.server a.random r.device_label a.now).0)
  unfolding pair_device consume issue issue_token
  pair_device-success p a r q token e = elim (Option-cases a.random) [
    | inl none' ↦ ground arith
    | inr (t, some') ↦ ground arith
  ]

  -- Once the PIN is used, no request changes the session or gets a token.
  pub pair_limited-used :
      (p : Pairing) (a : Arrival)
      → p.session.consumed ≡ true
      → ((pair_limited hash p a).0.session ≡ p.session)
        × (is_success (pair_limited hash p a).1 ≡ false)
  unfolding pair_limited pair pair_device consume
  pair_limited-used p a h = elim (Option-cases a.body) [
    | inl e ↦ ground arith
    | inr (r, e) ↦ ground arith
  ]

  past_tests :
      (p : Pairing) (a : Arrival) (r : PairRequest) (q : Pairing) (token : Bytes) (w : Option ℕ)
      → a.body ≡ some r
      → pair_limited hash p a ≡ (q, success token, w)
      → ((allow p.limiter (client_ip a) a.now).1 ≡ true)
        × (is_empty r.device_label ≡ false)
        × (eq_bytes r.pin p.session.pin ≡ true)
        × (pair_device hash (record p { limiter = (allow p.limiter (client_ip a) a.now).0 }) a r
            ≡ (q, success token))
  unfolding pair_limited pair current
  past_tests p a r q token w e h = ground arith

  -- If a request gets a token, it passed the limiter, it named a device and the PIN of the session,
  -- which was neither used nor expired; afterwards the PIN is used and the store holds the hash of
  -- the token.
  pub pair_limited-Paired :
      (p : Pairing) (a : Arrival) (q : Pairing) (token : Bytes) (w : Option ℕ)
      → pair_limited hash p a ≡ (q, success token, w)
      → Paired hash p a q token
  pair_limited-Paired p a q token w h = elim (Option-cases a.body) [
    | inl e ↦ absurd (unfold pair_limited pair in ground arith)
    | inr (r, e) ↦
        let (passed, labelled, equal, rest) = past_tests p a r q token w e h in
        let before = record p { limiter = (allow p.limiter (client_ip a) a.now).0 } in
        let (fresh, alive, used, coined, kept) = pair_device-success before a r q token rest in
        record {
          within_limit = passed;
          request = r;
          decoded = e;
          same_pin = (eq_bytes_iff r.pin p.session.pin).0 equal;
          named = λ blank. absurd (ground arith);
          unused = fresh;
          in_time = alive;
          used_up = used;
          minted = coined;
          stored = rw kept (issue-stored before a r token coined);
        }
  ]

  pub used_after :
      (p : Pairing) (a : Arrival)
      → is_success (pair_limited hash p a).1 ≡ true
      → (pair_limited hash p a).0.session.consumed ≡ true
  used_after p a h =
      let x = pair_limited hash p a in
      let (token, e) = success_of x.1 h in
      ap (λ s. s.consumed) (pair_limited-Paired p a x.0 token x.2 (λ i. (x.0, e i, x.2))).used_up

  tokens_given-used :
      (as' : List Arrival) (p : Pairing)
      → p.session.consumed ≡ true
      → tokens_given (answers hash p as') ≡ 0
  unfolding answers
  tokens_given-used [] p h = refl
  tokens_given-used (a ∷ as') p h =
      let (same, refused) = pair_limited-used p a h in
      rw refused (tokens_given-used as' (pair_limited hash p a).0 (ap (λ s. s.consumed) same ∙ h))

  -- Of any requests, from whatever addresses and at whatever times, at most one gets a token as long
  -- as the operator makes no new PIN.
  tokens_given-le : (as' : List Arrival) (p : Pairing) → tokens_given (answers hash p as') ≤ 1
  unfolding answers
  tokens_given-le [] p = omega arith
  tokens_given-le (a ∷ as') p = elim (Bool-cases (is_success (pair_limited hash p a).1)) [
    | inr refused ↦ rw refused (tokens_given-le as' (pair_limited hash p a).0)
    | inl given ↦
        rw given
          (omega (arith, tokens_given-used as' (pair_limited hash p a).0 (used_after p a given)))
  ]
