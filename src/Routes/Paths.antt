-- ===== src/Routes/Paths.antt =====
-- Which requests a route gets.
use remote_app_start_my_linu.Prelude.{
  Bytes, eq_bytes, eq_bytes_iff, Bool, true, false, List, [], ◌∷◌, Option, none, some, ◌≡◌, ◌≢◌,
  ◌⊎◌, refl, sym, arith, inl, inr, Option-cases, Bool-cases, ap, In,
}
use remote_app_start_my_linu.Routes.Mux.{
  Part, literal, wildcard, Pattern, allows, match_parts, fitting, fit, match_pattern, first_match,
  to, route,
}

-- A path that begins as the parts say, with the values of the wildcards and the rest behind.
abbrev pub Begins : List Part → List Bytes → List Bytes → List Bytes → Type 0
Begins [] path values rest = (values ≡ []) × (path ≡ rest)
Begins (literal l ∷ ps) path values rest =
    (path' : List Bytes) × (path ≡ l ∷ path') × Begins ps path' values rest
Begins (wildcard ∷ ps) path values rest =
    (v : Bytes) × (path' : List Bytes) × (values' : List Bytes) × (v ≢ [])
    × (path ≡ v ∷ path')
    × (values ≡ v ∷ values')
    × Begins ps path' values' rest

match_parts-Begins :
    (ps : List Part) (path values rest : List Bytes)
    → match_parts ps path ≡ some (values, rest)
    → Begins ps path values rest
unfolding match_parts
match_parts-Begins [] path values rest h = ground arith
match_parts-Begins (p ∷ ps) [] values rest h = absurd (ground arith)
match_parts-Begins (literal l ∷ ps) (s ∷ path) values rest h = elim (Bool-cases (eq_bytes l s)) [
  | inr e ↦ absurd (ground arith)
  | inl e ↦ (
    path,
    ap (λ z. z ∷ path) (sym ((eq_bytes_iff l s).0 e)),
    match_parts-Begins ps path values rest (ground arith),
  )
]
match_parts-Begins (wildcard ∷ ps) ([] ∷ path) values rest h = absurd (ground arith)
match_parts-Begins (wildcard ∷ ps) ((c ∷ s) ∷ path) values rest h =
    elim (Option-cases (match_parts ps path)) [
      | inl e ↦ absurd (ground arith)
      | inr (m, e) ↦ (
        c ∷ s,
        path,
        m.0,
        λ z. absurd (cc z),
        refl,
        ground arith,
        match_parts-Begins ps path m.0 rest (ground arith),
      )
    ]

-- A fit is of the whole path, but for a subtree.
fit-inv :
    (subtree : Bool) (o : Option (List Bytes × List Bytes)) (values : List Bytes) (exact : Bool)
    → fit subtree o ≡ some (values, exact)
    → (rest : List Bytes) × (o ≡ some (values, rest)) × ((subtree ≡ true) ⊎ (rest ≡ []))
fit-inv subtree none values exact h = absurd (ground arith)
fit-inv true (some (vs, rest)) values exact h = elim (Option-cases (fitting true rest)) [
  | inl e ↦ absurd (ground arith)
  | inr (x, e) ↦ (rest, ground arith, inl refl)
]
fit-inv false (some (vs, [])) values exact h = ([], ground arith, inr refl)
fit-inv false (some (vs, v ∷ rest)) values exact h = absurd (ground arith)

module _ {A : Type 0} where
  -- A pattern that has the method and the path, and whose target is `a`.
  pub record IsRouted (ps : List (Pattern A)) (method : Bytes) (path : List Bytes) (a : A)
      (values : List Bytes) : Type 0 where
    pub pattern : Pattern A
    pub listed : In pattern ps
    pub aimed : pattern.target ≡ a
    pub allowed : allows pattern.method method ≡ true
    pub rest : List Bytes
    pub begins : Begins pattern.path path values rest
    pub ended : (pattern.subtree ≡ true) ⊎ (rest ≡ [])

  later :
      {ps : List (Pattern A)} {method : Bytes} {path : List Bytes} {a : A} {values : List Bytes}
      (p : Pattern A)
      → IsRouted ps method path a values
      → IsRouted (p ∷ ps) method path a values
  later p x = record {
    pattern = x.pattern;
    listed = inr x.listed;
    aimed = x.aimed;
    allowed = x.allowed;
    rest = x.rest;
    begins = x.begins;
    ended = x.ended;
  }

  match_pattern-Begins :
      (p : Pattern A) (path values : List Bytes) (exact : Bool)
      → match_pattern p path ≡ some (values, exact)
      → (rest : List Bytes) × Begins p.path path values rest × ((p.subtree ≡ true) ⊎ (rest ≡ []))
  unfolding match_pattern
  match_pattern-Begins p path values exact h =
      let (rest, e, ended) = fit-inv p.subtree (match_parts p.path path) values exact h in
      (rest, match_parts-Begins p.path path values rest e, ended)

  first_match-IsRouted :
      (ps : List (Pattern A)) (method : Bytes) (path : List Bytes) (a : A) (values : List Bytes)
      (exact : Bool)
      → first_match ps method path ≡ some (a, values, exact)
      → IsRouted ps method path a values
  unfolding first_match
  first_match-IsRouted [] method path a values exact h = absurd (ground arith)
  first_match-IsRouted (p ∷ ps) method path a values exact h =
      elim (Bool-cases (allows p.method method)) [
        | inr e ↦ later p (first_match-IsRouted ps method path a values exact (ground arith))
        | inl e ↦ elim (Option-cases (match_pattern p path)) [
          | inl e' ↦ later p (first_match-IsRouted ps method path a values exact (ground arith))
          | inr (m, e') ↦
              let (rest, begins, ended) = match_pattern-Begins p path values exact (ground arith) in
              record {
                pattern = p;
                listed = inl refl;
                aimed = ground arith;
                allowed = e;
                rest = rest;
                begins = begins;
                ended = ended;
              }
        ]
      ]

  -- If a route gets a request, its pattern has the method of the request and its path: the literals
  -- stand where the pattern has them, the values are the segments at the wildcards and not empty,
  -- and only behind the pattern of a subtree something is left.
  pub route-IsRouted :
      (ps : List (Pattern A)) (method : Bytes) (is_clean : Bool) (path : List Bytes) (a : A)
      (values : List Bytes)
      → route ps method is_clean path ≡ to a values
      → IsRouted ps method path a values
  unfolding route
  route-IsRouted ps method is_clean path a values h =
      elim (Option-cases (first_match ps method path)) [
        | inl e ↦ absurd (ground arith)
        | inr ((b, vs, exact), e) ↦
            first_match-IsRouted ps method path a values exact (ground arith)
      ]
