-- ===== src/Auth/Pin.antt =====
-- server/internal/auth/pin.go: the six digits and the one-shot session. A time is a number of
-- nanoseconds, 0 the zero `time.Time`; `random` is what `rand.Int` yields below the bound, if anything.
pub mod Digits
use remote_app_start_my_linu.Prelude.{
  ℕ, ◌+◌, ◌/◌, ◌%◌, Bytes, Bool, true, false, not, ◌&&◌, ◌==◌, ltb, if◌then◌else◌, List, [], ◌∷◌,
  Option, none, some, ℤ, pos, negsuc,
}

-- `pinUpperBound`
abbrev pub pin_upper_bound : ℕ
pin_upper_bound = 1_000_000

-- `fmt.Sprintf("%06d", n)` for a number below the bound.
unfoldable pub format_pin : ℕ → Bytes
format_pin n =
    (b'0' + n / 100_000 % 10)
    ∷ (b'0' + n / 10_000 % 10)
    ∷ (b'0' + n / 1_000 % 10)
    ∷ (b'0' + n / 100 % 10)
    ∷ (b'0' + n / 10 % 10)
    ∷ (b'0' + n % 10)
    ∷ []

unfoldable generate_pin : Option ℕ → Option Bytes
generate_pin none = none
generate_pin (some n) = some (format_pin n)

pub record PinSession : Type 0 where
  pub pin : Bytes
  pub consumed : Bool
  pub expires_at : ℕ

-- `now.Add(ttl)` for a positive ttl, and the zero time for any other.
unfoldable expiry : ℤ → ℕ → ℕ
expiry (pos ttl) now = if ltb 0 ttl then now + ttl else 0
expiry (negsuc _) now = 0

unfoldable pub new_pin_session : Option ℕ → ℤ → ℕ → Option PinSession
unfolding generate_pin expiry
new_pin_session random ttl now = elim (generate_pin random) [
  | none ↦ none
  | some p ↦ some (record { pin = p; consumed = false; expires_at = expiry ttl now })
]

unfoldable pub current : PinSession → Bytes
current s = s.pin

-- `!expiresAt.IsZero() && now.After(expiresAt)`
unfoldable pub is_expired : PinSession → ℕ → Bool
is_expired s now = not (s.expires_at == 0) && ltb s.expires_at now

unfoldable pub consume : PinSession → ℕ → PinSession × Bool
unfolding is_expired
consume s now =
    if s.consumed
    then (s, false)
    else if is_expired s now
    then (s, false)
    else (record s { consumed = true }, true)

unfoldable pub status : PinSession → Bytes × ℕ × Bool
status s = (s.pin, s.expires_at, s.consumed)

-- The session behind the call, and whether it succeeded.
unfoldable pub regenerate : PinSession → Option ℕ → ℤ → ℕ → PinSession × Bool
unfolding generate_pin expiry
regenerate s random ttl now = elim (generate_pin random) [
  | none ↦ (s, false)
  | some p ↦ (record { pin = p; consumed = false; expires_at = expiry ttl now }, true)
]
