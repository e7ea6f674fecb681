-- ===== src/Tlsutil/Tests.antt =====
-- The certificate of server/internal/tlsutil at concrete files.
use remote_app_start_my_linu.Prelude.{
  ℕ, Bytes, codes, eq_bytes, eq_bytes_iff, true, ◌++◌, List, [], ◌∷◌, Option, none, some, ok, ◌≡◌,
  ◌≢◌, refl, arith,
}
use remote_app_start_my_linu.Prelude.Assoc.{lookup, insert}
use remote_app_start_my_linu.Tlsutil.Addresses.{Net}
use remote_app_start_my_linu.Tlsutil.Cert.{
  Files, Writing, Crypto, Chance, cert_path, key_path, generate, write_file_with_perm, ensure_cert,
}
use remote_app_start_my_linu.Tlsutil.Fingerprint.{fingerprint_text}
use remote_app_start_my_linu.Tlsutil.Pins.{read_fingerprint, read_fingerprint-fingerprint_text}
use remote_app_start_my_linu.Tlsutil.Reuse.{
  Loads, IsEnsured, ensure_cert-IsEnsured, ensure_cert-again,
}

abbrev sum : Bytes
sum = 0 ∷ 171 ∷ 255 ∷ []

-- The format is that of the documentation.
sum-text : fingerprint_text sum ≡ codes "00:AB:FF"
unfolding fingerprint_text
sum-text = refl

read_fingerprint-fingerprint_text_example : read_fingerprint (fingerprint_text sum) ≡ sum
read_fingerprint-fingerprint_text_example =
    read_fingerprint-fingerprint_text sum (omega arith, (omega arith, (omega arith, tt)))

-- Addresses are their texts.
abbrev net : Net Bytes
net = record {
  text = λ ip. ip;
  is_loopback = λ ip. eq_bytes ip (codes "127.0.0.1");
  is_global_unicast = λ ip. true;
  loopback_v4 = codes "127.0.0.1";
  loopback_v6 = codes "::1";
}

abbrev interfaces : Option (List (Option Bytes))
interfaces =
    some (some (codes "127.0.0.1") ∷ some (codes "10.0.0.2") ∷ none ∷ some (codes "10.0.0.2") ∷ [])

-- A key whose public part is itself.
abbrev lib : Crypto Bytes
lib = record {
  join = λ a b. a ++ (b'/' ∷ b);
  create_certificate = λ t priv. some priv;
  marshal_key = λ priv. some priv;
  encode_pem = λ kind der. der;
  loads = eq_bytes;
}

-- A umask that lets everyone read, and one that lets nobody.
abbrev writing : (ℕ → ℕ) → Writing
writing masked = record { masked = masked; writes = true; chmods = true; left = none }

abbrev chance : Bytes → Chance Bytes
chance priv = record {
  mkdirs = true;
  readable = true;
  private_key = some priv;
  serial = λ n. some 7;
  now = 5;
  interfaces = interfaces;
  cert_writing = writing (λ p. 0);
  key_writing = writing (λ p. 511);
}

abbrev paths : Bytes × Bytes
paths = (codes "d/cert.pem", codes "d/key.pem")

abbrev made : Files
made =
    (codes "d/cert.pem", record { content = codes "p"; perm = 420 })
    ∷ (codes "d/key.pem", record { content = codes "p"; perm = 384 })
    ∷ []

first_call : ensure_cert net lib (chance (codes "p")) [] (codes "d") ≡ (made, ok paths)
unfolding ensure_cert generate write_file_with_perm lookup insert eq_bytes
first_call = refl

paths-differ : cert_path net lib (codes "d") ≢ key_path net lib (codes "d")
paths-differ e = absurd (cc e)

ensure_cert-IsEnsured_example :
    (paths ≡ (cert_path net lib (codes "d"), key_path net lib (codes "d")))
    × IsEnsured net lib (chance (codes "p")) [] made (codes "d")
ensure_cert-IsEnsured_example =
    ensure_cert-IsEnsured net lib (chance (codes "p")) [] made (codes "d") paths paths-differ
      first_call

lib-Loads : Loads net lib
lib-Loads t priv der key_der a b = (eq_bytes_iff der key_der).1 (ground arith)

ensure_cert-again_example :
    ensure_cert net lib (chance (codes "q")) made (codes "d") ≡ (made, ok paths)
ensure_cert-again_example =
    ensure_cert-again net lib (chance (codes "p")) (chance (codes "q")) [] made (codes "d") paths
      paths-differ lib-Loads first_call refl refl
