-- ===== src/Auth/RateLimit/PerAddress.antt =====
-- How many calls of one address the limiter lets through.
use remote_app_start_my_linu.Prelude.{
  ℕ, ◌+◌, ◌*◌, ◌≤◌, ◌<◌, Bytes, eq_bytes, eq_bytes_iff, true, false, if◌then◌else◌, List, [], ◌∷◌,
  ◌≡◌, refl, arith, All, All-weaken, Bool-cases, inl, inr, dec_lt,
}
use remote_app_start_my_linu.Prelude.Assoc.{lookup}
use remote_app_start_my_linu.Auth.RateLimit.{
  Bucket, RateLimiter, bucket_of, roll, count_up, as_count, allow, allowed_for, new_rate_limiter,
}
use remote_app_start_my_linu.Auth.RateLimit.Budget.{
  WithinBudget, bucket_of-insert, allow-config, allow-global_within,
}

-- The bucket of an address.
abbrev pub own : Bytes → RateLimiter → Bucket
own who r = bucket_of who r.per_ip

-- The bucket of the address behind a call.
abbrev pub after : Bytes → RateLimiter → Bytes → ℕ → Bucket
after who r ip now = own who (allow r ip now).0

-- What a call leaves in the bucket of its address and of any other, with `roll` shut.
after_cases :
    (who : Bytes) (r : RateLimiter) (ip : Bytes) (now : ℕ)
    → after who r ip now ≡ (
        if eq_bytes ip who
        then (if (allow r ip now).1
            then count_up (roll r.window now (own ip r))
            else roll r.window now (own ip r))
        else own who r)
unfolding allow
after_cases who r ip now =
    let b = roll r.window now (own ip r) in
    ground
      (arith, bucket_of-insert ip who b r.per_ip, bucket_of-insert ip who (count_up b) r.per_ip)

allow_room :
    (r : RateLimiter) (ip : Bytes) (now : ℕ)
    → (allow r ip now).1 ≡ true
    → (roll r.window now (own ip r)).count < r.per_ip_max
unfolding allow
allow_room r ip now h = ground arith

after_open :
    (who : Bytes) (r : RateLimiter) (ip : Bytes) (now : ℕ)
    → now < (own who r).window_end
    → ((after who r ip now).window_end ≡ (own who r).window_end)
      × ((after who r ip now).count
          ≡ (if eq_bytes ip who then as_count (allow r ip now).1 else 0) + (own who r).count)
unfolding roll
after_open who r ip now h = ground (arith, after_cases who r ip now, eq_bytes_iff ip who)

after_closed :
    (who : Bytes) (r : RateLimiter) (ip : Bytes) (now : ℕ)
    → eq_bytes ip who ≡ true
    → (own who r).window_end ≤ now
    → ((after who r ip now).window_end ≡ now + r.window)
      × ((after who r ip now).count ≡ as_count (allow r ip now).1)
unfolding roll
after_closed who r ip now same h = ground (arith, after_cases who r ip now, eq_bytes_iff ip who)

after_other :
    (who : Bytes) (r : RateLimiter) (ip : Bytes) (now : ℕ)
    → eq_bytes ip who ≡ false
    → (after who r ip now).count ≡ (own who r).count
after_other who r ip now other = ground (arith, after_cases who r ip now)

after_within :
    (who : Bytes) (r : RateLimiter) (ip : Bytes) (now : ℕ)
    → (own who r).count ≤ r.per_ip_max
    → (after who r ip now).count ≤ r.per_ip_max
unfolding roll
after_within who r ip now h =
    ground (arith, after_cases who r ip now, allow_room r ip now, eq_bytes_iff ip who)

-- The limiter keeps to its budgets.
allow-WithinBudget :
    (r : RateLimiter) (ip : Bytes) (now : ℕ) → WithinBudget r → WithinBudget (allow r ip now).0
allow-WithinBudget r ip now w = record {
  global_within = rw (allow-config r ip now).0 (allow-global_within r ip now w.global_within);
  per_ip_within =
      λ who. rw (allow-config r ip now).1 (after_within who r ip now (w.per_ip_within who));
}

pub new_rate_limiter-WithinBudget :
    (per_ip_max global_max window : ℕ)
    → WithinBudget (new_rate_limiter per_ip_max global_max window)
unfolding new_rate_limiter bucket_of lookup
new_rate_limiter-WithinBudget p g w = record {
  global_within = omega arith;
  per_ip_within = λ who. omega arith;
}

allowed_for-open :
    (who : Bytes) (calls : List (Bytes × ℕ)) (r : RateLimiter) (close budget : ℕ)
    → (own who r).window_end ≡ close
    → r.per_ip_max ≡ budget
    → (own who r).count ≤ budget
    → All (λ c. c.1 < close) calls
    → allowed_for who r calls + (own who r).count ≤ budget
unfolding allowed_for
allowed_for-open who [] r close budget e m h a = omega arith
allowed_for-open who ((ip, now) ∷ calls) r close budget e m h (first, later) =
    let step = after_open who r ip now (omega arith) in
    omega (
      arith,
      step,
      allowed_for-open who calls (allow r ip now).0 close budget (omega (arith, step))
          (omega (arith, allow-config r ip now)) (omega (arith, after_within who r ip now)) later,
    )

allowed_for-stretch :
    (who : Bytes) (calls : List (Bytes × ℕ)) (r : RateLimiter) (start span budget : ℕ)
    → r.window ≡ span
    → r.per_ip_max ≡ budget
    → (own who r).count ≤ budget
    → All (λ c. (start ≤ c.1) × (c.1 < start + span)) calls
    → allowed_for who r calls + (own who r).count ≤ 2 * budget
unfolding allowed_for
allowed_for-stretch who [] r start span budget e m h a = omega arith
allowed_for-stretch who ((ip, now) ∷ calls) r start span budget e m h (first, later) =
    let r' = (allow r ip now).0 in
    let span' : r'.window ≡ span = omega (arith, allow-config r ip now) in
    let budget' : r'.per_ip_max ≡ budget = omega (arith, allow-config r ip now) in
    let within : (own who r').count ≤ budget = omega (arith, after_within who r ip now) in
    let rest = allowed_for-stretch who calls r' start span budget span' budget' within later in
    elim (dec_lt now (own who r).window_end) [
      | yes still ↦ omega (arith, after_open who r ip now still, rest)
      | no over ↦ elim (Bool-cases (eq_bytes ip who)) [
        | inr other ↦ rw other (omega (arith, after_other who r ip now other, rest))
        | inl same ↦
            let step = after_closed who r ip now same (omega arith) in
            rw same (
              omega (
                arith,
                step,
                allowed_for-open who calls r' (now + span) budget (omega (arith, step)) budget'
                    within (All-weaken _ _ calls (λ c k. omega arith) later),
              ))
      ]
    ]

-- In any stretch of time no longer than the window, from whatever state within its budget, the
-- limiter allows at most twice the budget of one address to that address.
pub allowed_for-per_ip_max :
    (who : Bytes) (calls : List (Bytes × ℕ)) (r : RateLimiter) (start : ℕ)
    → WithinBudget r
    → All (λ c. (start ≤ c.1) × (c.1 < start + r.window)) calls
    → allowed_for who r calls ≤ 2 * r.per_ip_max
allowed_for-per_ip_max who calls r start w a = omega (
  arith,
  allowed_for-stretch who calls r start r.window r.per_ip_max refl refl (w.per_ip_within who) a,
)
