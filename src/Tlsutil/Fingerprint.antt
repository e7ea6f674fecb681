-- ===== src/Tlsutil/Fingerprint.antt =====
-- server/internal/tlsutil/cert.go, Fingerprint: the pin of the certificate's public key. `pem.Decode`,
-- `x509.ParseCertificate` (the part of the public key) and SHA-256 are parameters.
use remote_app_start_my_linu.Prelude.{
  ℕ, ◌+◌, ◌-◌, ◌/◌, ◌%◌, Bytes, codes, eq_bytes, Bool, ◌&&◌, ltb, leb, if◌then◌else◌, List, [], ◌∷◌,
  ◌++◌, Option, none, some, Result, ok, err,
}
use remote_app_start_my_linu.Prelude.Assoc.{lookup}
use remote_app_start_my_linu.Tlsutil.Cert.{Files}

-- A digit of `hex.EncodeToString`.
unfoldable pub hex_digit : ℕ → ℕ
hex_digit n = if ltb n 10 then b'0' + n else b'a' + n - 10

unfoldable pub encode_to_string : Bytes → Bytes
unfolding hex_digit
encode_to_string [] = []
encode_to_string (b ∷ bs) = hex_digit (b / 16) ∷ hex_digit (b % 16) ∷ encode_to_string bs

-- `strings.ToUpper` of ASCII text.
unfoldable pub to_upper_byte : ℕ → ℕ
to_upper_byte c = if leb b'a' c && leb c b'z' then c - 32 else c

-- The loop over the pairs of digits.
unfoldable pub pairs_of : Bytes → List Bytes
unfolding to_upper_byte
pairs_of [] = []
pairs_of (h ∷ []) = []
pairs_of (h ∷ l ∷ rest) = (to_upper_byte h ∷ to_upper_byte l ∷ []) ∷ pairs_of rest

-- `strings.Join` with a colon.
unfoldable pub join_colon : List Bytes → Bytes
join_colon [] = []
join_colon (p ∷ []) = p
join_colon (p ∷ q ∷ ps) = p ++ b':' ∷ join_colon (q ∷ ps)

unfoldable pub fingerprint_text : Bytes → Bytes
unfolding encode_to_string pairs_of join_colon
fingerprint_text sum = join_colon (pairs_of (encode_to_string sum))

pub data FingerprintError : Type 0 where
  read_failed no_certificate_block parse_failed : FingerprintError

module _ (decode_pem : Bytes → Option (Bytes × Bytes)) (parse_certificate : Bytes → Option Bytes)
    (sha256 : Bytes → Bytes) where
  unfoldable fingerprint_of : Bytes → Result FingerprintError Bytes
  fingerprint_of content = elim (decode_pem content) [
    | none ↦ err no_certificate_block
    | some (kind, der) ↦
        if eq_bytes kind (codes "CERTIFICATE")
        then (elim (parse_certificate der) [
          | none ↦ err parse_failed
          | some public_key ↦ ok (fingerprint_text (sha256 public_key))
        ])
        else err no_certificate_block
  ]

  -- `Fingerprint`; `readable` is whether a file that is there can be read.
  unfoldable pub fingerprint : Bool → Files → Bytes → Result FingerprintError Bytes
  unfolding fingerprint_of
  fingerprint readable fs path = elim (lookup path fs) [
    | none ↦ err read_failed
    | some f ↦ if readable then fingerprint_of f.content else err read_failed
  ]
