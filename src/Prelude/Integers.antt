-- ===== src/Prelude/Integers.antt =====
-- Signed integers over the native numbers, for `time.Duration` and `int`; `negsuc n` is -(n + 1).
use Prim.Native.Nat.{ℕ}
use mathlib.Core.Bool.{Bool, true, false}
use mathlib.Core.Path.{◌≡◌, refl}
use mathlib.Core.Logic.{◌↔◌}
use native.Mathlib.Omega.{arith}
use remote_app_start_my_linu.Prelude.Tests.{ltb, ◌==◌}

pub data ℤ : Type 0 where
  pos : ℕ → ℤ
  negsuc : ℕ → ℤ

-- `0 < a`
abbrev pub is_positive : ℤ → Bool
is_positive (pos n) = ltb 0 n
is_positive (negsuc n) = false

-- `a < b`
abbrev pub ltb_ℤ : ℤ → ℤ → Bool
ltb_ℤ (pos a) (pos b) = ltb a b
ltb_ℤ (pos a) (negsuc b) = false
ltb_ℤ (negsuc a) (pos b) = true
ltb_ℤ (negsuc a) (negsuc b) = ltb b a

abbrev pub eq_ℤ : ℤ → ℤ → Bool
eq_ℤ (pos a) (pos b) = a == b
eq_ℤ (pos a) (negsuc b) = false
eq_ℤ (negsuc a) (pos b) = false
eq_ℤ (negsuc a) (negsuc b) = a == b

pub ltb_ℤ_asymm : (a b : ℤ) → ltb_ℤ a b ≡ true → ltb_ℤ b a ≡ false
ltb_ℤ_asymm (pos a) (pos b) h = ground arith
ltb_ℤ_asymm (pos a) (negsuc b) h = ground arith
ltb_ℤ_asymm (negsuc a) (pos b) h = refl
ltb_ℤ_asymm (negsuc a) (negsuc b) h = ground arith

-- What is not below what is not below a third is not below it.
pub not_below_trans : (a b c : ℤ) → ltb_ℤ b a ≡ false → ltb_ℤ c b ≡ false → ltb_ℤ c a ≡ false
not_below_trans (pos a) (pos b) (pos c) h k = ground arith
not_below_trans (pos a) (pos b) (negsuc c) h k = ground arith
not_below_trans (pos a) (negsuc b) c h k = ground arith
not_below_trans (negsuc a) b (pos c) h k = refl
not_below_trans (negsuc a) (pos b) (negsuc c) h k = ground arith
not_below_trans (negsuc a) (negsuc b) (negsuc c) h k = ground arith

pub eq_ℤ_iff : (a b : ℤ) → (eq_ℤ a b ≡ true) ↔ (a ≡ b)
eq_ℤ_iff (pos a) (pos b) = ground arith
eq_ℤ_iff (pos a) (negsuc b) = ground arith
eq_ℤ_iff (negsuc a) (pos b) = ground arith
eq_ℤ_iff (negsuc a) (negsuc b) = ground arith
