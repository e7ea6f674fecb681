-- ===== src/Tlsutil/Cert.antt =====
-- server/internal/tlsutil/cert.go: EnsureCert, generateAndWrite and writeFileWithPerm over a map of
-- files. What the libraries of crypto, x509 and pem do is in a record; what one call meets is in another.
use remote_app_start_my_linu.Prelude.{
  ℕ, ◌+◌, ◌*◌, ◌^◌, Bytes, codes, Bool, true, false, not, ◌&&◌, if◌then◌else◌, List, [], ◌∷◌,
  Option, none, some, Result, ok, err, ◌>>=◌,
}
use remote_app_start_my_linu.Prelude.Assoc.{lookup, insert}
use remote_app_start_my_linu.Tlsutil.Addresses.{Net, collect_ips}

abbrev cert_file_name : Bytes
cert_file_name = codes "cert.pem"

abbrev key_file_name : Bytes
key_file_name = codes "key.pem"

-- 0o644 and 0o600
abbrev pub cert_perm : ℕ
cert_perm = 420

abbrev pub key_perm : ℕ
key_perm = 384

-- Ten years in nanoseconds, and the bound of the serial number.
abbrev cert_valid_for : ℕ
cert_valid_for = 10 * 365 * 24 * 3_600_000_000_000

abbrev pub serial_limit : ℕ
serial_limit = 2 ^ 128

pub record File : Type 0 where
  pub content : Bytes
  pub perm : ℕ

abbrev pub Files : Type 0
Files = List (Bytes × File)

-- The fields of the template that are not fixed flags.
pub record Template (Ip : Type 0) : Type 0 where
  pub serial : ℕ
  pub common_name : Bytes
  pub not_before : ℕ
  pub not_after : ℕ
  pub dns_names : List Bytes
  pub ips : List Ip

-- `filepath.Join`, `x509.CreateCertificate` and `x509.MarshalECPrivateKey` with a private key,
-- `pem.EncodeToMemory` of a block, and whether `tls.LoadX509KeyPair` takes two contents.
pub record Crypto (Ip : Type 0) : Type 0 where
  pub join : Bytes → Bytes → Bytes
  pub create_certificate : Template Ip → Bytes → Option Bytes
  pub marshal_key : Bytes → Option Bytes
  pub encode_pem : Bytes → Bytes → Bytes
  pub loads : Bytes → Bytes → Bool

-- What one write meets: the permissions under the umask that a new file gets, whether the write and
-- the chmod succeed, and what a failed write leaves: nothing new where the file cannot be opened.
pub record Writing : Type 0 where
  pub masked : ℕ → ℕ
  pub writes : Bool
  pub chmods : Bool
  pub left : Option Bytes

-- What one call meets: the directory, the reads, random numbers, the clock and the interfaces.
pub record Chance (Ip : Type 0) : Type 0 where
  pub mkdirs : Bool
  pub readable : Bool
  pub private_key : Option Bytes
  pub serial : ℕ → Option ℕ
  pub now : ℕ
  pub interfaces : Option (List (Option Ip))
  pub cert_writing : Writing
  pub key_writing : Writing

pub data CertError : Type 0 where
  mkdir_failed key_failed serial_failed create_failed marshal_failed : CertError
  write_cert_failed write_key_failed : CertError

-- A write keeps the permissions of a file that is there.
abbrev perm_before : Writing → ℕ → Option File → ℕ
perm_before w perm none = w.masked perm
perm_before w perm (some f) = f.perm

-- `writeFileWithPerm`
unfoldable pub write_file_with_perm : Writing → Files → Bytes → Bytes → ℕ → Files × Bool
write_file_with_perm w fs path content perm =
    let before = perm_before w perm (lookup path fs) in
    if not w.writes
    then (
      elim w.left [
        | none ↦ fs
        | some part ↦ insert path (record { content = part; perm = before }) fs
      ],
      false,
    )
    else if not w.chmods
    then (insert path (record { content = content; perm = before }) fs, false)
    else (insert path (record { content = content; perm = perm }) fs, true)

module _ {Ip : Type 0} (net : Net Ip) (lib : Crypto Ip) where
  unfoldable pub template_of : Chance Ip → ℕ → Template Ip
  template_of c serial = record {
    serial = serial;
    common_name = codes "remotelauncher";
    not_before = c.now;
    not_after = c.now + cert_valid_for;
    dns_names = codes "localhost" ∷ [];
    ips = collect_ips net c.interfaces;
  }

  abbrev pub or_fail : {A : Type 0} → CertError → Option A → Result CertError A
  or_fail e none = err e
  or_fail e (some a) = ok a

  -- The two PEM texts.
  unfoldable pub generate : Chance Ip → Result CertError (Bytes × Bytes)
  unfolding template_of
  generate c = do
    priv ← or_fail key_failed c.private_key
    serial ← or_fail serial_failed (c.serial serial_limit)
    der ← or_fail create_failed (lib.create_certificate (template_of c serial) priv)
    key_der ← or_fail marshal_failed (lib.marshal_key priv)
    ok (lib.encode_pem (codes "CERTIFICATE") der, lib.encode_pem (codes "EC PRIVATE KEY") key_der)

  unfoldable pub write_pair :
      Chance Ip → Files → Bytes → Bytes → Bytes → Bytes → Files × Result CertError (Unit {0})
  unfolding write_file_with_perm
  write_pair c fs cert_path key_path cert key =
      let (fs', cert_done) = write_file_with_perm c.cert_writing fs cert_path cert cert_perm in
      if not cert_done
      then (fs', err write_cert_failed)
      else (let (fs'', key_done) = write_file_with_perm c.key_writing fs' key_path key key_perm in
          (fs'', if key_done then ok tt else err write_key_failed))

  -- `generateAndWrite`
  unfoldable pub generate_and_write :
      Chance Ip → Files → Bytes → Bytes → Files × Result CertError (Unit {0})
  unfolding write_pair generate
  generate_and_write c fs cert_path key_path = elim (generate c) [
    | err e ↦ (fs, err e)
    | ok (cert, key) ↦ write_pair c fs cert_path key_path cert key
  ]

  -- Both files are there and `LoadX509KeyPair` reads and takes them.
  unfoldable pub has_pair : Bool → Files → Bytes → Bytes → Bool
  has_pair readable fs cert_path key_path = elim (lookup cert_path fs) [
    | none ↦ false
    | some cert ↦ elim (lookup key_path fs) [
      | none ↦ false
      | some key ↦ readable && lib.loads cert.content key.content
    ]
  ]

  abbrev pub cert_path : Bytes → Bytes
  cert_path dir = lib.join dir cert_file_name

  abbrev pub key_path : Bytes → Bytes
  key_path dir = lib.join dir key_file_name

  abbrev pub finish :
      Bytes → Files × Result CertError (Unit {0}) → Files × Result CertError (Bytes × Bytes)
  finish dir (fs, err e) = (fs, err e)
  finish dir (fs, ok _) = (fs, ok (cert_path dir, key_path dir))

  -- `EnsureCert`
  unfoldable pub ensure_cert : Chance Ip → Files → Bytes → Files × Result CertError (Bytes × Bytes)
  unfolding has_pair generate_and_write
  ensure_cert c fs dir =
      if not c.mkdirs
      then (fs, err mkdir_failed)
      else if has_pair c.readable fs (cert_path dir) (key_path dir)
      then (fs, ok (cert_path dir, key_path dir))
      else finish dir (generate_and_write c fs (cert_path dir) (key_path dir))
