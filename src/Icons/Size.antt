-- ===== src/Icons/Size.antt =====
-- server/internal/icons/finder.go, `sizeFromParts` and `parseSizeDir`: the size that the names of
-- the directories over a file tell. `atoi` is `strconv.Atoi` for an int of 64 bits.
pub mod Forms
use remote_app_start_my_linu.Prelude.{
  ℕ, zero, suc, ◌+◌, ◌*◌, ◌-◌, ◌^◌, Bytes, codes, eq_bytes, is_empty, Bool, true, false, not, ◌&&◌,
  ◌||◌, ◌==◌, ltb, leb, if◌then◌else◌, List, [], ◌∷◌, Option, none, some, ℤ, pos, negsuc,
  is_positive, eq_ℤ,
}
use remote_app_start_my_linu.Desktop.Scan.{contains}
use remote_app_start_my_linu.Icons.Pick.{scalable_size}

abbrev pub is_digit : ℕ → Bool
is_digit c = leb b'0' c && leb c b'9'

-- The value of a row of decimal digits, from the first on.
unfoldable pub digits_from : ℕ → Bytes → Option ℕ
digits_from n [] = some n
digits_from n (c ∷ cs) =
    let rest = digits_from (10 * n + (c - b'0')) cs in if is_digit c then rest else none

-- The sign and the range.
unfoldable pub signed : Bool → Option ℕ → Option ℤ
signed minus none = none
signed false (some n) = if ltb n (2 ^ 63) then some (pos n) else none
signed true (some zero) = some (pos 0)
signed true (some (suc n)) = if ltb n (2 ^ 63) then some (negsuc n) else none

unfoldable pub unsigned : Bytes → Option ℕ
unfolding digits_from
unsigned s = if is_empty s then none else digits_from 0 s

unfoldable pub atoi : Bytes → Option ℤ
unfolding unsigned signed
atoi [] = none
atoi (c ∷ cs) =
    if c == b'-'
    then signed true (unsigned cs)
    else if c == b'+'
    then signed false (unsigned cs)
    else signed false (unsigned (c ∷ cs))

-- What stands before the first byte of a kind and what stands after it.
unfoldable pub cut_byte : ℕ → Bytes → Option (Bytes × Bytes)
cut_byte b [] = none
cut_byte b (c ∷ cs) =
    let rest = cut_byte b cs in
    if c == b
    then some ([], cs)
    else elim rest [ none ↦ none | some (before, after) ↦ some (c ∷ before, after) ]

-- The name without its scale.
abbrev pub before_cut : Bytes → Option (Bytes × Bytes) → Bytes
before_cut name none = name
before_cut name (some (before, _)) = before

unfoldable pub without_scale : Bytes → Bytes
unfolding cut_byte
without_scale name = before_cut name (cut_byte b'@' name)

unfoldable pub positive_or_zero : Option ℤ → ℤ
positive_or_zero none = pos 0
positive_or_zero (some n) = if is_positive n then n else pos 0

-- A pair `a x b`, whose halves must agree.
unfoldable pub pair_size : Option ℤ → Option ℤ → ℤ
pair_size none b = pos 0
pair_size (some a) none = pos 0
pair_size (some a) (some b) =
    if not (is_positive a) then pos 0 else if not (eq_ℤ b a) then pos 0 else a

-- The size of a name from where its first `x` cuts it.
unfoldable pub cut_size : Bytes → Option (Bytes × Bytes) → ℤ
unfolding positive_or_zero pair_size
cut_size name none = positive_or_zero (atoi name)
cut_size name (some ([], _)) = positive_or_zero (atoi name)
cut_size name (some (c ∷ cs, after)) = pair_size (atoi (c ∷ cs)) (atoi after)

unfoldable pub unscaled_size : Bytes → ℤ
unfolding cut_byte cut_size atoi
unscaled_size name = cut_size name (cut_byte b'x' name)

unfoldable pub parse_size_dir : Bytes → ℤ
unfolding without_scale unscaled_size
parse_size_dir name = unscaled_size (without_scale name)

-- The first of the names that is a size.
unfoldable pub first_size : List Bytes → Option ℤ
first_size [] = none
first_size (p ∷ ps) =
    if eq_bytes p (codes "scalable")
    then some scalable_size
    else if is_positive (parse_size_dir p)
    then some (parse_size_dir p)
    else first_size ps

unfoldable pub size_from_parts : List Bytes → Option ℤ
unfolding first_size
size_from_parts parts = if contains (codes "symbolic") parts then none else first_size parts
