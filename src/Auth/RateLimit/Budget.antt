-- ===== src/Auth/RateLimit/Budget.antt =====
-- How many calls the limiter lets through.
use remote_app_start_my_linu.Prelude.{
  ℕ, ◌+◌, ◌*◌, ◌≤◌, ◌<◌, Bytes, eq_bytes, if◌then◌else◌, List, [], ◌∷◌, ◌≡◌, refl, arith, All,
  All-weaken, dec_lt,
}
use remote_app_start_my_linu.Prelude.Assoc.{insert, lookup-insert}
use remote_app_start_my_linu.Auth.RateLimit.{
  Bucket, RateLimiter, bucket_of, roll, as_count, allow, allowed,
}

-- No bucket has counted more than its budget.
pub record WithinBudget (r : RateLimiter) : Type 0 where
  pub global_within : r.global.count ≤ r.global_max
  pub per_ip_within : (ip : Bytes) → (bucket_of ip r.per_ip).count ≤ r.per_ip_max

pub bucket_of-insert :
    (ip j : Bytes) (b : Bucket) (m : List (Bytes × Bucket))
    → bucket_of j (insert ip b m) ≡ (if eq_bytes ip j then b else bucket_of j m)
unfolding bucket_of
bucket_of-insert ip j b m = ground (arith, lookup-insert ip j b m)

-- A call leaves the configuration alone.
pub allow-config :
    (r : RateLimiter) (ip : Bytes) (now : ℕ)
    → ((allow r ip now).0.global_max ≡ r.global_max)
      × ((allow r ip now).0.per_ip_max ≡ r.per_ip_max)
      × ((allow r ip now).0.window ≡ r.window)
unfolding allow roll
allow-config r ip now = ground arith

-- What a call does to the global bucket while its window is open, and when it is over.
allow-global_open :
    (r : RateLimiter) (ip : Bytes) (now : ℕ)
    → now < r.global.window_end
    → ((allow r ip now).0.global.window_end ≡ r.global.window_end)
      × ((allow r ip now).0.global.count ≡ as_count (allow r ip now).1 + r.global.count)
unfolding allow roll
allow-global_open r ip now h = ground arith

allow-global_closed :
    (r : RateLimiter) (ip : Bytes) (now : ℕ)
    → r.global.window_end ≤ now
    → ((allow r ip now).0.global.window_end ≡ now + r.window)
      × ((allow r ip now).0.global.count ≡ as_count (allow r ip now).1)
unfolding allow roll
allow-global_closed r ip now h = ground arith

pub allow-global_within :
    (r : RateLimiter) (ip : Bytes) (now : ℕ)
    → r.global.count ≤ r.global_max
    → (allow r ip now).0.global.count ≤ r.global_max
unfolding allow roll
allow-global_within r ip now h = ground arith

-- While the global window is open, the calls allowed fill up the budget at most.
allowed-open :
    (calls : List (Bytes × ℕ)) (r : RateLimiter) (close budget : ℕ)
    → r.global.window_end ≡ close
    → r.global_max ≡ budget
    → r.global.count ≤ budget
    → All (λ c. c.1 < close) calls
    → allowed r calls + r.global.count ≤ budget
unfolding allowed
allowed-open [] r close budget e m h a = omega arith
allowed-open ((ip, now) ∷ calls) r close budget e m h (first, later) =
    let r' = (allow r ip now).0 in
    let step = allow-global_open r ip now (omega arith) in
    omega (
      arith,
      allow-config r ip now,
      step,
      allowed-open calls r' close budget (omega (arith, step))
          (omega (arith, allow-config r ip now)) (omega (arith, allow-global_within r ip now))
          later,
    )

allowed-stretch :
    (calls : List (Bytes × ℕ)) (r : RateLimiter) (start span budget : ℕ)
    → r.window ≡ span
    → r.global_max ≡ budget
    → r.global.count ≤ budget
    → All (λ c. (start ≤ c.1) × (c.1 < start + span)) calls
    → allowed r calls + r.global.count ≤ 2 * budget
unfolding allowed
allowed-stretch [] r start span budget e m h a = omega arith
allowed-stretch ((ip, now) ∷ calls) r start span budget e m h (first, later) =
    elim (dec_lt now r.global.window_end) [
      | yes open_still ↦
          let step = allow-global_open r ip now open_still in
          omega (
            arith,
            step,
            allowed-stretch calls (allow r ip now).0 start span budget
                (omega (arith, allow-config r ip now)) (omega (arith, allow-config r ip now))
                (omega (arith, allow-global_within r ip now)) later,
          )
      | no over ↦
          let step = allow-global_closed r ip now (omega arith) in
          omega (
            arith,
            step,
            allowed-open calls (allow r ip now).0 (now + span) budget (omega (arith, step))
                (omega (arith, allow-config r ip now)) (omega (arith, allow-global_within r ip now))
                (All-weaken _ _ calls (λ c k. omega arith) later),
          )
    ]

-- In any stretch of time no longer than the window, from whatever state within its budget, the
-- limiter allows at most twice the global budget of calls, from all addresses together.
pub allowed-global_max :
    (calls : List (Bytes × ℕ)) (r : RateLimiter) (start : ℕ)
    → WithinBudget r
    → All (λ c. (start ≤ c.1) × (c.1 < start + r.window)) calls
    → allowed r calls ≤ 2 * r.global_max
allowed-global_max calls r start w a =
    omega (arith, allowed-stretch calls r start r.window r.global_max refl refl w.global_within a)
