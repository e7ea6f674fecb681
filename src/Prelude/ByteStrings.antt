-- ===== src/Prelude/ByteStrings.antt =====
-- A Go string is a sequence of bytes: literals, equality, prefixes and `strings.TrimSpace`.
use Prim.Native.Char.{code}
use Prim.Native.Nat.{ℕ, zero, suc}
use Prim.Native.String.{String}
use mathlib.Core.Path.{◌≡◌, refl}
use mathlib.Core.Logic.{◌↔◌}
use mathlib.Core.Bool.{Bool, true, false, ◌&&◌, ◌||◌}
use mathlib.Core.List.{List, [], ◌∷◌, reverse}
use native.Mathlib.Omega.{arith}
use remote_app_start_my_linu.Prelude.Tests.{◌==◌, leb, if◌then◌else◌}

abbrev pub Bytes : Type 0
Bytes = List ℕ

-- The bytes of an ASCII literal.
abbrev pub codes : String → Bytes
codes String.[] = []
codes (String.◌∷◌ c s) = code c ∷ codes s

unfoldable pub eq_bytes : Bytes → Bytes → Bool
eq_bytes [] [] = true
eq_bytes (x ∷ xs) (y ∷ ys) = x == y && eq_bytes xs ys
eq_bytes _ _ = false

pub eq_bytes_iff : (a b : Bytes) → (eq_bytes a b ≡ true) ↔ (a ≡ b)
unfolding eq_bytes
eq_bytes_iff (x ∷ a) (y ∷ b) = ground (arith, eq_bytes_iff a b)
eq_bytes_iff _ _ = ground arith

pub eq_bytes_refl : (a : Bytes) → eq_bytes a a ≡ true
eq_bytes_refl a = (eq_bytes_iff a a).1 refl

abbrev pub is_empty : Bytes → Bool
is_empty [] = true
is_empty (c ∷ cs) = false

-- `strings.IndexByte(s, c) >= 0`.
unfoldable pub contains_byte : ℕ → Bytes → Bool
contains_byte b [] = false
contains_byte b (c ∷ cs) = c == b || contains_byte b cs

unfoldable pub has_prefix : Bytes → Bytes → Bool
has_prefix s [] = true
has_prefix [] (p ∷ ps) = false
has_prefix (c ∷ cs) (p ∷ ps) = c == p && has_prefix cs ps

-- The bytes behind a prefix of that length.
abbrev pub drop : ℕ → Bytes → Bytes
drop zero s = s
drop (suc n) [] = []
drop (suc n) (c ∷ cs) = drop n cs

-- How many bytes the space at the front takes: the ASCII spaces and the encodings of the other
-- runes of `unicode.IsSpace`; 0 where no space stands there.
unfoldable pub space_width : Bytes → ℕ
space_width [] = 0
space_width (a ∷ []) = if leb 9 a && leb a 13 || a == 32 then 1 else 0
space_width (a ∷ b ∷ []) =
    if leb 9 a && leb a 13 || a == 32
    then 1
    else if a == 0xC2 && (b == 0x85 || b == 0xA0)
    then 2
    else 0
space_width (a ∷ b ∷ c ∷ _) =
    if leb 9 a && leb a 13 || a == 32
    then 1
    else if a == 0xC2 && (b == 0x85 || b == 0xA0)
    then 2
    else if a == 0xE1 && b == 0x9A && c == 0x80
    then 3
    else if a == 0xE2
        && b == 0x80
        && (leb 0x80 c && leb c 0x8A || c == 0xA8 || c == 0xA9 || c == 0xAF)
    then 3
    else if a == 0xE2 && b == 0x81 && c == 0x9F
    then 3
    else if a == 0xE3 && b == 0x80 && c == 0x80
    then 3
    else 0

-- The same at the end, on the reversed bytes.
unfoldable pub last_space_width : Bytes → ℕ
unfolding space_width
last_space_width [] = 0
last_space_width (a ∷ []) = space_width (a ∷ [])
last_space_width (b ∷ a ∷ []) =
    if space_width (b ∷ []) == 1 then 1 else if space_width (a ∷ b ∷ []) == 2 then 2 else 0
last_space_width (c ∷ b ∷ a ∷ _) =
    if space_width (c ∷ []) == 1
    then 1
    else if space_width (b ∷ c ∷ []) == 2
    then 2
    else if space_width (a ∷ b ∷ c ∷ []) == 3
    then 3
    else 0

-- Drops units as wide as `width` says, as long as it says more than 0; `pending` bytes of the
-- unit at hand are still to go.
trim_units : (Bytes → ℕ) → ℕ → Bytes → Bytes
trim_units width pending [] = []
trim_units width (suc pending) (c ∷ cs) = trim_units width pending cs
trim_units width zero (c ∷ cs) = elim (width (c ∷ cs)) [
  | zero ↦ c ∷ cs
  | suc more ↦ trim_units width more cs
]

unfoldable pub trim_space : Bytes → Bytes
unfolding trim_units space_width last_space_width
trim_space s = reverse (trim_units last_space_width 0 (reverse (trim_units space_width 0 s)))

-- Text that `strings.TrimSpace` leaves alone: no space at either end.
abbrev pub IsTrimmed : Bytes → Type 0
IsTrimmed s = trim_space s ≡ s
