-- ===== src/Tlsutil/Reuse.antt =====
-- The files that EnsureCert leaves, and what a later call makes of them.
use remote_app_start_my_linu.Prelude.{
  ℕ, Bytes, codes, eq_bytes_iff, Bool, true, false, Option, none, some, Result, ok, err, bind-eq-ok,
  Result-cases, ◌≡◌, ◌≢◌, refl, arith, inl, inr, Bool-cases, Option-cases,
}
use remote_app_start_my_linu.Prelude.Assoc.{lookup, insert, lookup-insert, lookup-insert_self}
use remote_app_start_my_linu.Tlsutil.Addresses.{Net}
use remote_app_start_my_linu.Tlsutil.Cert.{
  File, Files, Template, Crypto, Writing, Chance, CertError, key_failed, serial_failed,
  create_failed, marshal_failed, or_fail, finish, serial_limit, cert_perm, key_perm,
  write_file_with_perm, template_of, generate, write_pair, generate_and_write, has_pair, cert_path,
  key_path, ensure_cert,
}

write_file_with_perm-done :
    (w : Writing) (fs : Files) (path content : Bytes) (perm : ℕ)
    → (write_file_with_perm w fs path content perm).1 ≡ true
    → (write_file_with_perm w fs path content perm).0
      ≡ insert path (record { content = content; perm = perm }) fs
unfolding write_file_with_perm
write_file_with_perm-done w fs path content perm h = ground arith

module _ {Ip : Type 0} (net : Net Ip) (lib : Crypto Ip) where
  -- A pair that is there with exactly these contents and permissions.
  abbrev Holds : Files → Bytes → Bytes → Bytes → Type 0
  Holds fs dir cert key =
      (lookup (cert_path net lib dir) fs ≡ some (record { content = cert; perm = cert_perm }))
      × (lookup (key_path net lib dir) fs ≡ some (record { content = key; perm = key_perm }))

  write_pair-Holds :
      (c : Chance Ip) (fs fs' : Files) (dir cert key : Bytes)
      → cert_path net lib dir ≢ key_path net lib dir
      → write_pair net lib c fs (cert_path net lib dir) (key_path net lib dir) cert key
        ≡ (fs', ok tt)
      → Holds fs' dir cert key
  unfolding write_pair
  write_pair-Holds c fs fs' dir cert key apart h =
      let new_cert : File = record { content = cert; perm = cert_perm } in
      let new_key : File = record { content = key; perm = key_perm } in
      let x = write_file_with_perm c.cert_writing fs (cert_path net lib dir) cert cert_perm in
      let y = write_file_with_perm c.key_writing x.0 (key_path net lib dir) key key_perm in
      let a = write_file_with_perm-done c.cert_writing fs (cert_path net lib dir) cert cert_perm in
      let b = write_file_with_perm-done c.key_writing x.0 (key_path net lib dir) key key_perm in
      elim (Bool-cases x.1) [
        | inr e ↦ absurd (ground arith)
        | inl e ↦ elim (Bool-cases y.1) [
          | inr e' ↦ absurd (ground arith)
          | inl e' ↦
              let written : fs' ≡ y.0 = ground arith in
              rw (written, b e', a e)
                (
                  ground (
                    arith,
                    lookup-insert_self (cert_path net lib dir) new_cert fs,
                    lookup-insert (key_path net lib dir) (cert_path net lib dir) new_key
                        (insert (cert_path net lib dir) new_cert fs),
                    eq_bytes_iff (key_path net lib dir) (cert_path net lib dir),
                  ),
                  lookup-insert_self (key_path net lib dir) new_key
                      (insert (cert_path net lib dir) new_cert fs),
                )
        ]
      ]

  -- What a generation that succeeds has made.
  pub record IsMade (c : Chance Ip) (cert key : Bytes) : Type 0 where
    pub template : Template Ip
    pub priv : Bytes
    pub der : Bytes
    pub key_der : Bytes
    pub created : lib.create_certificate template priv ≡ some der
    pub marshalled : lib.marshal_key priv ≡ some key_der
    pub is_cert : cert ≡ lib.encode_pem (codes "CERTIFICATE") der
    pub is_key : key ≡ lib.encode_pem (codes "EC PRIVATE KEY") key_der

  or_fail-ok :
      {A : Type 0} {a : A} (e : CertError) (o : Option A) → or_fail net lib e o ≡ ok a → o ≡ some a
  or_fail-ok e none h = absurd (cc h)
  or_fail-ok e (some a) h = ground arith

  generate-IsMade :
      (c : Chance Ip) (cert key : Bytes) → generate net lib c ≡ ok (cert, key) → IsMade c cert key
  unfolding generate
  generate-IsMade c cert key h =
      let (priv, e1, r1) = bind-eq-ok (or_fail net lib key_failed c.private_key) _ h in
      let (serial, e2, r2) =
        bind-eq-ok (or_fail net lib serial_failed (c.serial serial_limit)) _ r1 in
      let template = template_of net lib c serial in
      let (der, e3, r3) =
        bind-eq-ok (or_fail net lib create_failed (lib.create_certificate template priv)) _ r2 in
      let (key_der, e4, r4) =
        bind-eq-ok (or_fail net lib marshal_failed (lib.marshal_key priv)) _ r3 in
      record {
        template = template;
        priv = priv;
        der = der;
        key_der = key_der;
        created = or_fail-ok create_failed (lib.create_certificate template priv) e3;
        marshalled = or_fail-ok marshal_failed (lib.marshal_key priv) e4;
        is_cert = ground arith;
        is_key = ground arith;
      }

  finish-ok :
      (dir : Bytes) (x : Files × Result CertError (Unit {0})) (fs' : Files) (p : Bytes × Bytes)
      → finish net lib dir x ≡ (fs', ok p)
      → (x ≡ (fs', ok tt)) × (p ≡ (cert_path net lib dir, key_path net lib dir))
  finish-ok dir (fs, err e) fs' p h = absurd (ground arith)
  finish-ok dir (fs, ok tt) fs' p h = (ground arith, ground arith)

  generate_and_write-Holds :
      (c : Chance Ip) (fs fs' : Files) (dir : Bytes)
      → cert_path net lib dir ≢ key_path net lib dir
      → generate_and_write net lib c fs (cert_path net lib dir) (key_path net lib dir)
        ≡ (fs', ok tt)
      → (cert : Bytes) × (key : Bytes) × IsMade c cert key × Holds fs' dir cert key
  unfolding generate_and_write
  generate_and_write-Holds c fs fs' dir apart h = elim (Result-cases (generate net lib c)) [
    | inr (e, failed) ↦ absurd (ground arith)
    | inl ((cert, key), made) ↦ (
      cert,
      key,
      generate-IsMade c cert key made,
      write_pair-Holds c fs fs' dir cert key apart (ground arith),
    )
  ]

  -- What is behind a call of EnsureCert that succeeds: the two paths below the directory, and either
  -- files that were there and load, which stay as they are, or a new pair.
  pub data IsEnsured (c : Chance Ip) (fs fs' : Files) (dir : Bytes) : Type 0 where
    reused :
        has_pair net lib c.readable fs (cert_path net lib dir) (key_path net lib dir) ≡ true
        → fs' ≡ fs
        → IsEnsured c fs fs' dir
    renewed :
        (cert key : Bytes)
        → has_pair net lib c.readable fs (cert_path net lib dir) (key_path net lib dir) ≡ false
        → IsMade c cert key
        → Holds fs' dir cert key
        → IsEnsured c fs fs' dir

  -- If EnsureCert succeeds, where the two paths differ, it returns the paths of the certificate and of
  -- the key below the directory, and either both files were there and loaded, and no file has
  -- changed, or they did not, and there are a new certificate with the permissions 0644 and its key
  -- with 0600, whatever the umask and whatever permissions the files had before.
  pub ensure_cert-IsEnsured :
      (c : Chance Ip) (fs fs' : Files) (dir : Bytes) (p : Bytes × Bytes)
      → cert_path net lib dir ≢ key_path net lib dir
      → ensure_cert net lib c fs dir ≡ (fs', ok p)
      → (p ≡ (cert_path net lib dir, key_path net lib dir)) × IsEnsured c fs fs' dir
  unfolding ensure_cert
  ensure_cert-IsEnsured c fs fs' dir p apart h = elim (Bool-cases c.mkdirs) [
    | inr e ↦ absurd (ground arith)
    | inl e ↦
        elim (Bool-cases
          (has_pair net lib c.readable fs (cert_path net lib dir) (key_path net lib dir))) [
            | inl there ↦ (ground arith, reused there (ground arith))
            | inr missing ↦
                let (done, paths) =
                  finish-ok dir
                    (generate_and_write net lib c fs (cert_path net lib dir) (key_path net lib dir))
                    fs' p (ground arith) in
                let (cert, key, made, held) = generate_and_write-Holds c fs fs' dir apart done in
                (paths, renewed cert key missing made held)
          ]
  ]

  -- A certificate and the key that it was created for load.
  abbrev pub Loads : Type 0
  Loads =
      (template : Template Ip) (priv der key_der : Bytes)
      → lib.create_certificate template priv ≡ some der
      → lib.marshal_key priv ≡ some key_der
      → lib.loads (lib.encode_pem (codes "CERTIFICATE") der)
          (lib.encode_pem (codes "EC PRIVATE KEY") key_der)
        ≡ true

  Holds-has_pair :
      (c : Chance Ip) (fs : Files) (dir cert key : Bytes)
      → Loads
      → IsMade c cert key
      → Holds fs dir cert key
      → has_pair net lib true fs (cert_path net lib dir) (key_path net lib dir) ≡ true
  unfolding has_pair
  Holds-has_pair c fs dir cert key load made (a, b) =
      rw (a, b, made.is_cert, made.is_key, has_pair)
        (load made.template made.priv made.der made.key_der made.created made.marshalled)

  has_pair-readable :
      (readable : Bool) (fs : Files) (dir : Bytes)
      → has_pair net lib readable fs (cert_path net lib dir) (key_path net lib dir) ≡ true
      → has_pair net lib true fs (cert_path net lib dir) (key_path net lib dir) ≡ true
  unfolding has_pair
  has_pair-readable true fs dir h = h
  has_pair-readable false fs dir h = elim (Option-cases (lookup (cert_path net lib dir) fs)) [
    | inl e ↦ absurd (ground arith)
    | inr (cert, e) ↦ elim (Option-cases (lookup (key_path net lib dir) fs)) [
      | inl e' ↦ absurd (ground arith)
      | inr (key, e') ↦ absurd (ground arith)
    ]
  ]

  ensured-has_pair :
      (c : Chance Ip) (fs fs' : Files) (dir : Bytes)
      → Loads
      → IsEnsured c fs fs' dir
      → has_pair net lib true fs' (cert_path net lib dir) (key_path net lib dir) ≡ true
  ensured-has_pair c fs fs' dir load (reused there same) =
      rw same (has_pair-readable c.readable fs dir there)
  ensured-has_pair c fs fs' dir load (renewed cert key missing made held) =
      Holds-has_pair c fs' dir cert key load made held

  -- If a certificate and the key that it was created for load, and the two paths differ, then a call
  -- of EnsureCert behind one that has succeeded, in a directory that is there and with files that can
  -- be read, returns the same paths and changes no file: a server that starts again keeps its
  -- certificate.
  pub ensure_cert-again :
      (c c' : Chance Ip) (fs fs' : Files) (dir : Bytes) (p : Bytes × Bytes)
      → cert_path net lib dir ≢ key_path net lib dir
      → Loads
      → ensure_cert net lib c fs dir ≡ (fs', ok p)
      → c'.mkdirs ≡ true
      → c'.readable ≡ true
      → ensure_cert net lib c' fs' dir ≡ (fs', ok p)
  unfolding ensure_cert
  ensure_cert-again c c' fs fs' dir p apart load h there readable =
      let (paths, ensured) = ensure_cert-IsEnsured c fs fs' dir p apart h in
      rw (there, readable, ensured-has_pair c fs fs' dir load ensured, paths) refl
