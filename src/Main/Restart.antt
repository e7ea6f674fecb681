-- ===== src/Main/Restart.antt =====
-- The state in which the servers start, and what a start makes of the files of the last run.
use remote_app_start_my_linu.Prelude.{
  Bytes, codes, Bool, true, false, List, [], Option, none, some, Result, ok, err, bind-eq-ok,
  map_err, Result-cases, ◌≡◌, ◌≢◌, refl, sym, ap, subst, ◌∙◌, arith, inl, inr, any_of, All,
}
use remote_app_start_my_linu.Prelude.Assoc.{lookup}
use remote_app_start_my_linu.Auth.Pin.{PinSession, new_pin_session}
use remote_app_start_my_linu.Auth.Store
use remote_app_start_my_linu.Auth.Store.{Write, new_store, set_persist_path, save_to}
use remote_app_start_my_linu.Auth.Store.Tokens.{IsValid}
use remote_app_start_my_linu.Auth.Store.Restart.{load-saved}
use remote_app_start_my_linu.Config.{Config}
use remote_app_start_my_linu.Config.Load.{load}
use remote_app_start_my_linu.Main.Prepare.{
  Boot, compute_fingerprint, load_tokens, or_no_session, file_in, limiter_for, load_tokens_in,
  visibility_in, shortcuts_in, site_of, prepare_in, cert_dir_of, prepare,
}
use remote_app_start_my_linu.Routes.Answer.{is_granted}
use remote_app_start_my_linu.Routes.Newcomers.{SameBut, serve_all-newcomers}
use remote_app_start_my_linu.Routes.Serve.{serve_all}
use remote_app_start_my_linu.Routes.Site.{Site, Request, is_public, tokens_of}
use remote_app_start_my_linu.Tlsutil.Cert.{Files, ensure_cert}
use remote_app_start_my_linu.Tlsutil.Fingerprint.{fingerprint}

map_err-ok : {E F A : Type 0} (f : E → F) (r : Result E A) (a : A) → map_err f r ≡ ok a → r ≡ ok a
map_err-ok f (ok b) a h = ground arith
map_err-ok f (err e) a h = absurd (ground arith)

ok-inv : {E A : Type 0} (r : Result E A) {x y : A} → r ≡ ok x → r ≡ ok y → x ≡ y
ok-inv r h k = ground arith

-- A file that is not there leaves the store as it is.
load-missing :
    (readable : Bool) (v : Store.Server) (path : Bytes)
    → lookup path v.disk ≡ none
    → Store.load readable v path ≡ ok v
unfolding Store.load
load-missing readable v path h = rw (h, Store.load) refl

or_no_session-ok : (o : Option PinSession) (s : PinSession) → or_no_session o ≡ ok s → o ≡ some s
or_no_session-ok none s h = absurd (ground arith)
or_no_session-ok (some t) s h = ground arith

module _ {Ip : Type 0} (b : Boot Ip) where
  -- Where the parts of the state come from.
  record IsPrepared (fs fs' : Files) (site : Site) : Type 0 where
    pub config : Config
    pub dir : Bytes
    pub cert_path : Bytes
    pub key_path : Bytes
    pub configured : load b.config_world b.flags ≡ ok config
    pub located : cert_dir_of b config ≡ ok dir
    pub certified : ensure_cert b.net b.crypto b.chance fs dir ≡ (fs', ok (cert_path, key_path))
    pub pinned :
        fingerprint b.decode_pem b.parse_certificate b.sha256 (b.readable cert_path) fs' cert_path
        ≡ ok site.fingerprint
    pub hidden : visibility_in b dir ≡ ok site.visibility
    pub listed : shortcuts_in b dir ≡ ok site.shortcuts
    pub new_session :
        new_pin_session b.random_pin config.auth.pin_ttl b.pin_made_at ≡ some site.pairing.session
    pub tokens : load_tokens_in b dir ≡ ok site.pairing.server
    pub limits : site.pairing.limiter ≡ limiter_for b config
    pub nothing_runs : site.tracker ≡ []

  site_of-IsPrepared :
      (c : Config) (dir : Bytes) (fs fs' : Files) (cert key : Bytes) (site : Site)
      → load b.config_world b.flags ≡ ok c
      → cert_dir_of b c ≡ ok dir
      → ensure_cert b.net b.crypto b.chance fs dir ≡ (fs', ok (cert, key))
      → site_of b c dir fs' cert ≡ ok site
      → IsPrepared fs fs' site
  unfolding site_of
  site_of-IsPrepared c dir fs fs' cert key site configured located certified h =
      let pin_step =
        fingerprint b.decode_pem b.parse_certificate b.sha256 (b.readable cert) fs' cert in
      let (pin, e1, r1) = bind-eq-ok (map_err compute_fingerprint pin_step) _ h in
      let (vis, e2, r2) = bind-eq-ok (visibility_in b dir) _ r1 in
      let (scs, e3, r3) = bind-eq-ok (shortcuts_in b dir) _ r2 in
      let made = new_pin_session b.random_pin c.auth.pin_ttl b.pin_made_at in
      let (session, e4, r4) = bind-eq-ok (or_no_session made) _ r3 in
      let (server, e5, r5) = bind-eq-ok (load_tokens_in b dir) _ r4 in
      let same = ok-inv (ok _) refl r5 in
      record {
        config = c;
        dir = dir;
        cert_path = cert;
        key_path = key;
        configured = configured;
        located = located;
        certified = certified;
        pinned = map_err-ok compute_fingerprint pin_step pin e1 ∙ ap (λ s. ok s.fingerprint) same;
        hidden = e2 ∙ ap (λ s. ok s.visibility) same;
        listed = e3 ∙ ap (λ s. ok s.shortcuts) same;
        new_session = or_no_session-ok made session e4 ∙ ap (λ s. some s.pairing.session) same;
        tokens = e5 ∙ ap (λ s. ok s.pairing.server) same;
        limits = sym (ap (λ s. s.pairing.limiter) same);
        nothing_runs = sym (ap (λ s. s.tracker) same);
      }

  -- If the program comes as far as its servers, then the configuration was loaded and is valid as
  -- `Load` checks it, the certificate is ensured below the directory of the configuration, the
  -- fingerprint is that of the certificate that is there now, the stores are those that their files
  -- give, the PIN session is a new one, the rate limiter has the limits of the configuration, and no
  -- process is registered.
  prepare-IsPrepared :
      (fs fs' : Files) (site : Site) → prepare b fs ≡ (fs', ok site) → IsPrepared fs fs' site
  unfolding prepare prepare_in
  prepare-IsPrepared fs fs' site h = elim (Result-cases (load b.config_world b.flags)) [
    | inr (e, failed) ↦ absurd (ground arith)
    | inl (c, configured) ↦ elim (Result-cases (cert_dir_of b c)) [
      | inr (e, failed) ↦ absurd (ground arith)
      | inl (dir, located) ↦ elim (Result-cases (ensure_cert b.net b.crypto b.chance fs dir).1) [
        | inr (e, failed) ↦ absurd (ground arith)
        | inl ((cert, key), made) ↦
            let files : (ensure_cert b.net b.crypto b.chance fs dir).0 ≡ fs' = ground arith in
            site_of-IsPrepared c dir fs fs' cert key site configured located
              (λ i. (files i, made i))
              (subst (λ f. site_of b c dir f cert ≡ ok site) files (ground arith))
      ]
    ]
  ]

  -- The file of the tokens, and what was read from it.
  abbrev empty_server : Store.Server
  empty_server = record { store = new_store; disk = b.token_disk; logged = [] }

  tokens-loaded :
      (dir : Bytes) (server : Store.Server)
      → load_tokens_in b dir ≡ ok server
      → (v : Store.Server) × (server.store.tokens ≡ v.store.tokens)
        × (Store.load (b.readable server.store.persist_path) empty_server server.store.persist_path
            ≡ ok v)
  unfolding load_tokens_in set_persist_path
  tokens-loaded dir server h =
      let path = file_in b dir (codes "tokens.json") in
      let read = Store.load (b.readable path) empty_server path in
      let (v, e, r) = bind-eq-ok (map_err load_tokens read) _ h in
      let same = ok-inv (ok _) refl r in
      let is_path : path ≡ server.store.persist_path = ap (λ s. s.store.persist_path) same in
      (
        v,
        sym (ap (λ s. s.store.tokens) same),
        subst (λ p. Store.load (b.readable p) empty_server p ≡ ok v) is_path
            (map_err-ok load_tokens read v e),
      )

  -- If the tokens of a well-formed store were saved to the file that the server then loads its tokens
  -- from and can read, through a temporary file with a name of its own, and the program comes as far
  -- as its servers on that disk, then these hold the same tokens with the same data.
  pub prepare-tokens :
      (fs fs' : Files) (site : Site) (w : Write) (v v' : Store.Server)
      → IsValid v.store
      → w.tmp ≢ (tokens_of site).persist_path
      → lookup w.tmp v.disk ≡ none
      → save_to w v (tokens_of site).persist_path ≡ (v', ok tt)
      → b.token_disk ≡ v'.disk
      → b.readable (tokens_of site).persist_path ≡ true
      → prepare b fs ≡ (fs', ok site)
      → (tokens_of site).tokens ≡ v.store.tokens
  prepare-tokens fs fs' site w v v' valid apart unused saved same readable h =
      let prepared = prepare-IsPrepared fs fs' site h in
      let (u, is_u, read) = tokens-loaded prepared.dir site.pairing.server prepared.tokens in
      let path = (tokens_of site).persist_path in
      let again = load-saved w v v' empty_server path valid apart unused saved same in
      is_u
      ∙ ap (λ s. s.store.tokens)
          (ok-inv (Store.load true empty_server path)
            (subst (λ r. Store.load r empty_server path ≡ ok u) readable read) again)

  -- Where there is no file of tokens, the server starts without a token.
  first_start :
      (fs fs' : Files) (site : Site)
      → lookup (tokens_of site).persist_path b.token_disk ≡ none
      → prepare b fs ≡ (fs', ok site)
      → (tokens_of site).tokens ≡ []
  first_start fs fs' site none' h =
      let prepared = prepare-IsPrepared fs fs' site h in
      let (u, is_u, read) = tokens-loaded prepared.dir site.pairing.server prepared.tokens in
      let path = (tokens_of site).persist_path in
      is_u
      ∙ ap (λ s. s.store.tokens)
          (ok-inv (Store.load (b.readable path) empty_server path) read
            (load-missing (b.readable path) empty_server path none'))

  -- From a first start on, where there is no file of tokens, and as long as no answer hands out a
  -- token, every request to the TLS server is answered by what anyone may get, and nothing changes
  -- but the rate limiter and the PIN session.
  pub prepare-newcomers :
      (hash : Bytes → Bytes) (fs fs' : Files) (site : Site) (rs : List Request)
      → lookup (tokens_of site).persist_path b.token_disk ≡ none
      → prepare b fs ≡ (fs', ok site)
      → any_of is_granted (serve_all hash site rs).1 ≡ false
      → SameBut site (serve_all hash site rs).0
        × All (λ reply. is_public reply ≡ true) (serve_all hash site rs).1
  prepare-newcomers hash fs fs' site rs none' h ungranted =
      serve_all-newcomers hash rs site (first_start fs fs' site none' h) ungranted
