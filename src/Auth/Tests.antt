-- ===== src/Auth/Tests.antt =====
-- The properties of server/internal/auth at concrete inputs.
use remote_app_start_my_linu.Prelude.{
  ◌≢◌, ◌++◌, ℕ, ◌+◌, ◌<◌, ◌≤◌, ◌*◌, Bytes, codes, eq_bytes, true, false, List, [], ◌∷◌, some, All,
  ◌≡◌, ◌⊎◌, ◌↔◌, refl, arith,
}
use remote_app_start_my_linu.Prelude.Assoc.{lookup, has, insert, delete, values}
use remote_app_start_my_linu.Storage.{json, write_tokens_file}
use remote_app_start_my_linu.Auth.Middleware.{
  bearer_prefix, is_admitted, require_token, require_token_or_cookie,
}
use remote_app_start_my_linu.Auth.Middleware.Guard.{
  IsHeld, require_token_iff, require_token_or_cookie_iff,
}
use remote_app_start_my_linu.Auth.RateLimit.{
  RateLimiter, new_rate_limiter, roll, bucket_of, allow, allowed, allowed_for,
}
use remote_app_start_my_linu.Auth.RateLimit.Budget.{WithinBudget, allowed-global_max}
use remote_app_start_my_linu.Auth.RateLimit.PerAddress.{
  own, new_rate_limiter-WithinBudget, allowed_for-per_ip_max,
}
use remote_app_start_my_linu.Auth.RateLimit.Refusal.{Exhausted, allow_wait}
use remote_app_start_my_linu.Auth.Store.{
  TokenInfo, Server, Write, Call, adds, revokes, validates, run, add_locked, revoke_locked,
  persist_snapshot, persist_state, snapshot,
}
use remote_app_start_my_linu.Auth.Store.Tokens.{holds, after_calls, run-holds}

-- One call of an address and two of all addresses in a window of ten.
abbrev small : RateLimiter
small = new_rate_limiter 1 2 10

small-WithinBudget : WithinBudget small
small-WithinBudget = new_rate_limiter-WithinBudget 1 2 10

abbrev calls : List (Bytes × ℕ)
calls = (codes "a", 5) ∷ (codes "b", 6) ∷ (codes "a", 14) ∷ (codes "c", 14) ∷ []

calls_in_window : All (λ c. (5 ≤ c.1) × (c.1 < 5 + small.window)) calls
unfolding new_rate_limiter
calls_in_window = (
  (ground arith, ground arith),
  (
    (ground arith, ground arith),
    ((ground arith, ground arith), ((ground arith, ground arith), tt)),
  ),
)

allowed-global_max_example : allowed small calls ≤ 2 * small.global_max
allowed-global_max_example = allowed-global_max calls small 5 small-WithinBudget calls_in_window

allowed_for-per_ip_max_example : allowed_for (codes "a") small calls ≤ 2 * small.per_ip_max
allowed_for-per_ip_max_example =
    allowed_for-per_ip_max (codes "a") calls small 5 small-WithinBudget calls_in_window

-- The address `a` has used up its budget until 15, all addresses theirs until 12.
abbrev spent : RateLimiter
spent = record {
  per_ip = (codes "a", record { count = 1; window_end = 15 }) ∷ [];
  global = record { count = 2; window_end = 12 };
  per_ip_max = 1;
  global_max = 2;
  window = 10;
}

spent-refuses : (allow spent (codes "a") 7).1 ≡ false
unfolding allow lookup eq_bytes roll bucket_of
spent-refuses = refl

allow_wait_example :
    (Exhausted spent.per_ip_max 7 (own (codes "a") spent)
      × (7 + (allow spent (codes "a") 7).2 ≡ (own (codes "a") spent).window_end))
    ⊎ ((¬ Exhausted spent.per_ip_max 7 (own (codes "a") spent))
        × Exhausted spent.global_max 7 spent.global
        × (7 + (allow spent (codes "a") 7).2 ≡ spent.global.window_end))
allow_wait_example = allow_wait spent (codes "a") 7 (ground arith) (ground arith) spent-refuses

-- A concrete function in the place of the hash.
abbrev marked : Bytes → Bytes
marked s = b'#' ∷ s

abbrev info : Bytes → TokenInfo
info label = record { hash = marked label; device_label = label; created_at = 3; last_seen = 3 }

abbrev granted : Write
granted = record {
  grants = record {
    mkdirs = true;
    marshals = true;
    creates = true;
    writes = true;
    chmods = true;
    syncs = true;
    closes = true;
    renames = true;
    removes = true;
  };
  tmp = codes "t.tmp";
}

abbrev one_token : Server
one_token = record {
  store = record { tokens = (marked (codes "x"), info (codes "x")) ∷ []; persist_path = codes "t" };
  disk = [];
  logged = [];
}

-- A token is added and revoked at once, and the write of `Add` comes last: the file keeps the token that
-- the store no longer has.
overtaken :
    let (added, first) = add_locked one_token (info (codes "y")) in
    let (revoked, second) = revoke_locked added (marked (codes "y")) in
    let final = persist_snapshot granted first (persist_snapshot granted second revoked) in
    (has (marked (codes "y")) final.store.tokens ≡ false)
    × (lookup (codes "t") final.disk ≡ some (json (info (codes "x") ∷ info (codes "y") ∷ [])))
unfolding add_locked revoke_locked persist_snapshot persist_state snapshot lookup insert delete
    eq_bytes write_tokens_file values
overtaken = (refl, refl)

abbrev token_calls : List Call
token_calls =
    adds granted (info (codes "y"))
    ∷ validates (codes "x") 9
    ∷ revokes granted (marked (codes "x"))
    ∷ []

run-holds_example :
    holds (run marked one_token token_calls) ≡ after_calls marked (holds one_token) token_calls
run-holds_example = run-holds marked token_calls one_token

require_token_iff_example :
    (is_admitted (require_token marked one_token.store (codes "Bearer x") 9).1 ≡ true) ↔ (
      (plaintext : Bytes) × (codes "Bearer x" ≡ bearer_prefix ++ plaintext)
      × (plaintext ≢ [])
      × (has (marked plaintext) one_token.store.tokens ≡ true))
require_token_iff_example = require_token_iff marked one_token.store (codes "Bearer x") 9

require_token_or_cookie_iff_example :
    (is_admitted (require_token_or_cookie marked one_token.store [] (some (codes "x")) 9).1 ≡ true)
    ↔ (((t : Bytes) × ([] ≡ bearer_prefix ++ t) × IsHeld marked one_token.store t)
        ⊎ (((t : Bytes) → t ≢ [] → [] ≢ bearer_prefix ++ t)
            × ((c : Bytes) × (some (codes "x") ≡ some c) × IsHeld marked one_token.store c)))
require_token_or_cookie_iff_example =
    require_token_or_cookie_iff marked one_token.store [] (some (codes "x")) 9
