-- ===== src/Auth/RateLimit.antt =====
-- server/internal/auth/ratelimit.go. A time is a number of nanoseconds, 0 the zero `time.Time`; a
-- call is given the clock's reading. The window is positive and the budgets are not negative, as
-- server/internal/config/validate.go sees to, so that both are natural numbers.
pub mod Budget
pub mod PerAddress
pub mod Refusal
use remote_app_start_my_linu.Prelude.{
  ℕ, ◌+◌, ◌-◌, Bytes, eq_bytes, Bool, true, false, ◌||◌, ◌==◌, leb, if◌then◌else◌, List, [], ◌∷◌,
  Option, none, some,
}
use remote_app_start_my_linu.Prelude.Assoc.{lookup, insert}

pub record Bucket : Type 0 where
  pub count : ℕ
  pub window_end : ℕ

pub record RateLimiter : Type 0 where
  pub per_ip : List (Bytes × Bucket)
  pub global : Bucket
  pub per_ip_max : ℕ
  pub global_max : ℕ
  pub window : ℕ

-- `&bucket{}`
abbrev empty_bucket : Bucket
empty_bucket = record { count = 0; window_end = 0 }

unfoldable pub new_rate_limiter : ℕ → ℕ → ℕ → RateLimiter
new_rate_limiter per_ip_max global_max window = record {
  per_ip = [];
  global = empty_bucket;
  per_ip_max = per_ip_max;
  global_max = global_max;
  window = window;
}

-- The bucket of an address, a new one for an address not seen before.
unfoldable pub bucket_of : Bytes → List (Bytes × Bucket) → Bucket
bucket_of ip m = elim (lookup ip m) [ none ↦ empty_bucket | some b ↦ b ]

-- A bucket whose window is over, or has never begun, starts a new one.
unfoldable pub roll : ℕ → ℕ → Bucket → Bucket
roll window now b =
    if b.window_end == 0 || leb b.window_end now
    then record { count = 0; window_end = now + window }
    else b

abbrev pub count_up : Bucket → Bucket
count_up b = record b { count = b.count + 1 }

-- The verdict with the wait of a refusal, and the limiter behind the call.
unfoldable pub allow : RateLimiter → Bytes → ℕ → RateLimiter × Bool × ℕ
allow r ip now =
    let b = roll r.window now (bucket_of ip r.per_ip) in
    let g = roll r.window now r.global in
    if leb r.per_ip_max b.count
    then (record r { per_ip = insert ip b r.per_ip; global = g }, false, b.window_end - now)
    else if leb r.global_max g.count
    then (record r { per_ip = insert ip b r.per_ip; global = g }, false, g.window_end - now)
    else (record r { per_ip = insert ip (count_up b) r.per_ip; global = count_up g }, true, 0)

-- The calls of a run, each an address and a time, and how many of them are allowed.
abbrev pub as_count : Bool → ℕ
as_count true = 1
as_count false = 0

unfoldable pub allowed : RateLimiter → List (Bytes × ℕ) → ℕ
allowed r [] = 0
allowed r ((ip, now) ∷ calls) =
    let (r', verdict, wait) = allow r ip now in as_count verdict + allowed r' calls

-- How many of them are allowed to one address.
unfoldable pub allowed_for : Bytes → RateLimiter → List (Bytes × ℕ) → ℕ
allowed_for who r [] = 0
allowed_for who r ((ip, now) ∷ calls) =
    let (r', verdict, wait) = allow r ip now in
    (if eq_bytes ip who then as_count verdict else 0) + allowed_for who r' calls
