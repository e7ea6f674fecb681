-- ===== src/Tlsutil/Pins.antt =====
-- The fingerprint that a phone pins.
use remote_app_start_my_linu.Prelude.{
  ℕ, ◌+◌, ◌-◌, ◌*◌, ◌/◌, ◌%◌, ◌<◌, Bytes, leb, if◌then◌else◌, [], ◌∷◌, ◌≡◌, refl, arith, All,
}
use remote_app_start_my_linu.Tlsutil.Fingerprint.{
  hex_digit, encode_to_string, to_upper_byte, pairs_of, join_colon, fingerprint_text,
}

-- Reading a fingerprint back: two digits for each byte, and a colon between two bytes.
abbrev digit_value : ℕ → ℕ
digit_value c = if leb c b'9' then c - b'0' else c - b'A' + 10

abbrev pub read_fingerprint : Bytes → Bytes
read_fingerprint [] = []
read_fingerprint (h ∷ []) = []
read_fingerprint (h ∷ l ∷ []) = (16 * digit_value h + digit_value l) ∷ []
read_fingerprint (h ∷ l ∷ colon ∷ rest) =
    (16 * digit_value h + digit_value l) ∷ read_fingerprint rest

digit_value-hex_digit : (n : ℕ) → n < 16 → digit_value (to_upper_byte (hex_digit n)) ≡ n
unfolding to_upper_byte hex_digit
digit_value-hex_digit n h = ground arith

byte_back :
    (b : ℕ)
    → b < 256
    → 16 * digit_value (to_upper_byte (hex_digit (b / 16)))
        + digit_value (to_upper_byte (hex_digit (b % 16)))
      ≡ b
byte_back b h = omega (
  arith,
  digit_value-hex_digit (b / 16) (omega arith),
  digit_value-hex_digit (b % 16) (omega arith),
)

-- The fingerprint determines the bytes of the hash: they can be read back from it, two digits for
-- each byte, so that two keys with different hashes have different fingerprints.
pub read_fingerprint-fingerprint_text :
    (sum : Bytes) → All (λ b. b < 256) sum → read_fingerprint (fingerprint_text sum) ≡ sum
unfolding fingerprint_text encode_to_string pairs_of join_colon
read_fingerprint-fingerprint_text [] h = refl
read_fingerprint-fingerprint_text (b ∷ []) h = rw (byte_back b h.0) refl
read_fingerprint-fingerprint_text (b ∷ c ∷ bs) h =
    rw (byte_back b h.0, read_fingerprint-fingerprint_text (c ∷ bs) h.1) refl
