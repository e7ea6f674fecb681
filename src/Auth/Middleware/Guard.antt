-- ===== src/Auth/Middleware/Guard.antt =====
-- Which requests the middleware lets through.
use remote_app_start_my_linu.Prelude.{
  ℕ, Bytes, has_prefix, drop, length, is_empty, true, false, not, ◌&&◌, [], ◌∷◌, ◌++◌, Option, ◌≡◌,
  ◌≢◌, ◌↔◌, ap, none, some, Bool-cases, ◌⊎◌, refl, sym, subst, ◌∙◌, arith, inl, inr, Option-cases,
}
use remote_app_start_my_linu.Prelude.Assoc.{lookup, has}
use remote_app_start_my_linu.Auth.Store.{TokenInfo, Store, validate}
use remote_app_start_my_linu.Auth.Middleware.{
  bearer_prefix, Verdict, denied, admitted, is_admitted, check_token, require_token, offered_token,
  require_token_or_cookie,
}

has_prefix-drop : (s p : Bytes) → has_prefix s p ≡ true → s ≡ p ++ drop (length p) s
unfolding has_prefix
has_prefix-drop s [] h = refl
has_prefix-drop (c ∷ s) (d ∷ p) h = ground (arith, has_prefix-drop s p)
has_prefix-drop [] (d ∷ p) h = absurd (ground arith)

has_prefix-append : (p t : Bytes) → has_prefix (p ++ t) p ≡ true
unfolding has_prefix
has_prefix-append [] t = refl
has_prefix-append (c ∷ p) t = ground (arith, has_prefix-append p t)

drop-append : (p t : Bytes) → drop (length p) (p ++ t) ≡ t
drop-append [] t = refl
drop-append (c ∷ p) t = drop-append p t

not_empty : (s : Bytes) → is_empty s ≡ false → s ≢ []
not_empty s h e = absurd (ground arith)

is_empty-cons : (s : Bytes) → s ≢ [] → is_empty s ≡ false
is_empty-cons [] h = absurd (h refl)
is_empty-cons (c ∷ s) h = refl

pub Verdict-cases :
    (v : Verdict)
    → ((message : Bytes) × (v ≡ denied message))
      ⊎ ((plaintext : Bytes) × (info : TokenInfo) × (v ≡ admitted plaintext info))
Verdict-cases (denied message) = inl (message, refl)
Verdict-cases (admitted plaintext info) = inr (plaintext, info, refl)

module _ (hash : Bytes → Bytes) where
  check_token-has :
      (s : Store) (plaintext : Bytes) (now : ℕ)
      → is_admitted (check_token hash s plaintext now).1 ≡ has (hash plaintext) s.tokens
  unfolding check_token validate
  check_token-has s plaintext now = elim (Option-cases (lookup (hash plaintext) s.tokens)) [
    | inl e ↦ ground arith
    | inr (i, e) ↦ ground arith
  ]

  abbrev token_of : Bytes → Bytes
  token_of header = drop (length bearer_prefix) header

  -- The three tests of `RequireToken`.
  require_token-tests :
      (s : Store) (header : Bytes) (now : ℕ)
      → is_admitted (require_token hash s header now).1 ≡ (
          has_prefix header bearer_prefix
          && (not (is_empty (token_of header)) && has (hash (token_of header)) s.tokens))
  unfolding require_token
  require_token-tests s [] now = ground arith
  require_token-tests s (c ∷ header) now = ground (arith, check_token-has s (drop 6 header) now)

  require_token-accepts :
      (s : Store) (plaintext : Bytes) (now : ℕ)
      → plaintext ≢ []
      → has (hash plaintext) s.tokens ≡ true
      → is_admitted (require_token hash s (bearer_prefix ++ plaintext) now).1 ≡ true
  require_token-accepts s plaintext now real held =
      require_token-tests s (bearer_prefix ++ plaintext) now
      ∙ ground (arith, has_prefix-append bearer_prefix plaintext, is_empty-cons plaintext real)

  -- `RequireToken` calls the handler exactly if the header is `Bearer ` and a token, not empty, whose
  -- hash the store holds.
  pub require_token_iff :
      (s : Store) (header : Bytes) (now : ℕ)
      → ((is_admitted (require_token hash s header now).1 ≡ true) ↔ (
          (plaintext : Bytes) × (header ≡ bearer_prefix ++ plaintext)
          × (plaintext ≢ [])
          × (has (hash plaintext) s.tokens ≡ true)))
  require_token_iff s header now = (
    λ h.
        let tests = require_token-tests s header now in
        (
          token_of header,
          has_prefix-drop header bearer_prefix (ground arith),
          not_empty (token_of header) (ground arith),
          ground arith,
        ),
    λ (plaintext, e, real, held).
        subst (λ z. is_admitted (require_token hash s z now).1 ≡ true) (sym e)
          (require_token-accepts s plaintext now real held),
  )

  -- Every header carries a token behind `Bearer `, or none.
  header-cases :
      (header : Bytes)
      → ((t : Bytes) × (header ≡ bearer_prefix ++ t) × (t ≢ []))
        ⊎ ((t : Bytes) → t ≢ [] → header ≢ bearer_prefix ++ t)
  header-cases header = elim (Bool-cases (has_prefix header bearer_prefix)) [
    | inr e ↦ inr (λ t real same. absurd (
        ground (
          arith,
          e,
          subst (λ z. has_prefix z bearer_prefix ≡ true) (sym same)
              (has_prefix-append bearer_prefix t),
        )))
    | inl e ↦ elim (Bool-cases (is_empty (token_of header))) [
      | inr full ↦ inl (
        token_of header,
        has_prefix-drop header bearer_prefix e,
        not_empty (token_of header) full,
      )
      | inl blank ↦ inr (λ t real same. absurd (
          ground
            (arith, blank, is_empty-cons t real, ap token_of same ∙ drop-append bearer_prefix t)))
    ]
  ]

  abbrev value_or_nil : Option Bytes → Bytes
  value_or_nil none = []
  value_or_nil (some value) = value

  offered_token-bearer :
      (t : Bytes) (cookie : Option Bytes) → t ≢ [] → offered_token (bearer_prefix ++ t) cookie ≡ t
  unfolding offered_token
  offered_token-bearer t cookie real =
      rw (has_prefix-append bearer_prefix t, drop-append bearer_prefix t, is_empty-cons t real) refl

  offered_token-cookie :
      (header : Bytes) (cookie : Option Bytes)
      → ((t : Bytes) → t ≢ [] → header ≢ bearer_prefix ++ t)
      → offered_token header cookie ≡ value_or_nil cookie
  unfolding offered_token
  offered_token-cookie header cookie silent = elim (Bool-cases (has_prefix header bearer_prefix)) [
    | inr e ↦ rw e refl
    | inl e ↦ elim (Bool-cases (is_empty (token_of header))) [
      | inl blank ↦ rw (e, blank) refl
      | inr full ↦ absurd (
          silent (token_of header) (not_empty (token_of header) full)
            (has_prefix-drop header bearer_prefix e))
    ]
  ]

  -- A token that is not empty and whose hash the store holds.
  abbrev pub IsHeld : Store → Bytes → Type 0
  IsHeld s t = (t ≢ []) × (has (hash t) s.tokens ≡ true)

  from_cookie :
      (s : Store) (cookie : Option Bytes)
      → IsHeld s (value_or_nil cookie)
      → (c : Bytes) × (cookie ≡ some c) × IsHeld s c
  from_cookie s none h = absurd (h.0 refl)
  from_cookie s (some c) h = (c, refl, h)

  require_token_or_cookie-IsHeld :
      (s : Store) (header : Bytes) (cookie : Option Bytes) (now : ℕ)
      → ((is_admitted (require_token_or_cookie hash s header cookie now).1 ≡ true)
          ↔ IsHeld s (offered_token header cookie))
  unfolding require_token_or_cookie
  require_token_or_cookie-IsHeld s header cookie now = (
    λ h. (
      not_empty (offered_token header cookie) (ground arith),
      ground (arith, check_token-has s (offered_token header cookie) now),
    ),
    λ (real, held). ground (
      arith,
      is_empty-cons (offered_token header cookie) real,
      check_token-has s (offered_token header cookie) now,
    ),
  )

  -- `RequireTokenOrCookie` calls the handler exactly if the header is `Bearer ` and a token, not
  -- empty, whose hash the store holds; or the header is not of this form, whatever the token, and
  -- there is a cookie, not empty, whose hash the store holds.
  pub require_token_or_cookie_iff :
      (s : Store) (header : Bytes) (cookie : Option Bytes) (now : ℕ)
      → ((is_admitted (require_token_or_cookie hash s header cookie now).1 ≡ true) ↔ (
          ((t : Bytes) × (header ≡ bearer_prefix ++ t) × IsHeld s t)
          ⊎ (((t : Bytes) → t ≢ [] → header ≢ bearer_prefix ++ t)
              × ((c : Bytes) × (cookie ≡ some c) × IsHeld s c))))
  require_token_or_cookie_iff s header cookie now =
      let (forth, back) = require_token_or_cookie-IsHeld s header cookie now in
      (
        λ h. elim (header-cases header) [
          | inl (t, e, real) ↦
              let same : offered_token header cookie ≡ t =
                subst (λ z. offered_token z cookie ≡ t) (sym e)
                  (offered_token-bearer t cookie real) in
              inl (t, e, subst (IsHeld s) same (forth h))
          | inr silent ↦ inr (
            silent,
            from_cookie s cookie
                (subst (IsHeld s) (offered_token-cookie header cookie silent) (forth h)),
          )
        ],
        λ h. back (elim h [
          | inl (t, e, held) ↦
              subst (λ z. IsHeld s (offered_token z cookie)) (sym e)
                (subst (IsHeld s) (sym (offered_token-bearer t cookie held.0)) held)
          | inr (silent, (c, e, held)) ↦
              subst (IsHeld s) (sym (offered_token-cookie header cookie silent ∙ ap value_or_nil e))
                held
        ]),
      )
