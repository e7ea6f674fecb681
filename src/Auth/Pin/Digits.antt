-- ===== src/Auth/Pin/Digits.antt =====
-- The text of a PIN.
use remote_app_start_my_linu.Prelude.{
  ℕ, ◌+◌, ◌≤◌, ◌<◌, ◌*◌, ◌-◌, Bytes, [], ◌∷◌, ◌≡◌, refl, arith, length, All,
}
use remote_app_start_my_linu.Auth.Pin.{pin_upper_bound, format_pin}

-- The number that decimal digits stand for.
abbrev decimal : ℕ → Bytes → ℕ
decimal acc [] = acc
decimal acc (d ∷ ds) = decimal (10 * acc + (d - b'0')) ds

decimal-format_pin : (n : ℕ) → n < pin_upper_bound → decimal 0 (format_pin n) ≡ n
unfolding format_pin
decimal-format_pin n h = omega arith

-- Every number below a million is printed as six decimal digits that stand for it.
format_pin_digits :
    (n : ℕ)
    → n < pin_upper_bound
    → (length (format_pin n) ≡ 6)
      × All (λ d. (b'0' ≤ d) × (d ≤ b'9')) (format_pin n)
      × (decimal 0 (format_pin n) ≡ n)
unfolding format_pin
format_pin_digits n h = (refl, omega arith, decimal-format_pin n h)
