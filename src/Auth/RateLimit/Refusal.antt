-- ===== src/Auth/RateLimit/Refusal.antt =====
-- When the limiter refuses a call, and how long the caller is told to wait.
use remote_app_start_my_linu.Prelude.{
  ℕ, ◌+◌, ◌≤◌, ◌<◌, Bytes, false, ◌≡◌, arith, ◌↔◌, ◌⊎◌, inl, inr,
}
use remote_app_start_my_linu.Auth.RateLimit.{Bucket, RateLimiter, roll, allow}
use remote_app_start_my_linu.Auth.RateLimit.PerAddress.{own}

-- The budget is used up in a window that is still open.
abbrev pub Exhausted : ℕ → ℕ → Bucket → Type 0
Exhausted limit now b = (now < b.window_end) × (limit ≤ b.count)

allow_refused :
    (r : RateLimiter) (ip : Bytes) (now : ℕ)
    → 0 < r.per_ip_max
    → 0 < r.global_max
    → (allow r ip now).1 ≡ false
    → Exhausted r.per_ip_max now (own ip r) ⊎ Exhausted r.global_max now r.global
unfolding allow roll
allow_refused r ip now p g h = ground arith

allow-Exhausted :
    (r : RateLimiter) (ip : Bytes) (now : ℕ)
    → Exhausted r.per_ip_max now (own ip r) ⊎ Exhausted r.global_max now r.global
    → (allow r ip now).1 ≡ false
unfolding allow roll
allow-Exhausted r ip now (inl e) = ground arith
allow-Exhausted r ip now (inr e) = ground arith

-- With positive budgets, a call is refused exactly when the address or the server as a whole has
-- used up its budget in a window that is still open.
allow_refused_iff :
    (r : RateLimiter) (ip : Bytes) (now : ℕ)
    → 0 < r.per_ip_max
    → 0 < r.global_max
    → ((allow r ip now).1 ≡ false)
      ↔ (Exhausted r.per_ip_max now (own ip r) ⊎ Exhausted r.global_max now r.global)
allow_refused_iff r ip now p g = (allow_refused r ip now p g, allow-Exhausted r ip now)

-- With positive budgets, a refused caller is told to wait until the end of the address's window if
-- the address has used up its budget, and otherwise until the end of the global window, however
-- the two windows lie.
pub allow_wait :
    (r : RateLimiter) (ip : Bytes) (now : ℕ)
    → 0 < r.per_ip_max
    → 0 < r.global_max
    → (allow r ip now).1 ≡ false
    → (Exhausted r.per_ip_max now (own ip r) × (now + (allow r ip now).2 ≡ (own ip r).window_end))
      ⊎ ((¬ Exhausted r.per_ip_max now (own ip r))
          × Exhausted r.global_max now r.global
          × (now + (allow r ip now).2 ≡ r.global.window_end))
unfolding allow roll
allow_wait r ip now p g h = ground arith
