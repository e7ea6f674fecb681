-- ===== src/Icons/Chain/Correct.antt =====
-- The chain of themes: it is found with the fuel that is given, and holds exactly the right themes.
use remote_app_start_my_linu.Prelude.{
  ℕ, suc, is_empty, Bytes, true, false, List, [], ◌∷◌, ◌++◌, some, length, ◌≡◌, ◌≢◌, ◌↔◌, ◌⊎◌, inl,
  inr, refl, ap, ◌∙◌, arith, Bool-cases,
}
use remote_app_start_my_linu.Desktop.Scan.{contains}
use remote_app_start_my_linu.Icons.Chain.{
  Themes, parents, search_all, dfs, hicolor_theme, with_hicolor, resolve_theme_chain,
}
use remote_app_start_my_linu.Icons.Chain.Reach.{
  Reach, here, step, contains-append, contains_self, contains-singleton, Unique, Unique-append,
  unseen_le_length,
}
use remote_app_start_my_linu.Icons.Chain.Search.{Grows, Found, all_parents, visit-Grows, dfs-Found}

is_empty-cons : (s : Bytes) → s ≢ [] → is_empty s ≡ false
is_empty-cons [] h = absurd (h refl)
is_empty-cons (c ∷ cs) h = refl

module _ (themes : Themes) (start : Bytes) where
  -- A chain of themes for a search that starts at `start`.
  pub record IsChain (chain : List Bytes) : Type 0 where
    pub rest : List Bytes
    pub starts : chain ≡ start ∷ rest
    pub once : Unique chain
    pub holds :
        (k : Bytes) → (contains k chain ≡ true) ↔ (Reach themes start k ⊎ (k ≡ hicolor_theme))

  with_hicolor-contains :
      (order : List Bytes) (k : Bytes)
      → (contains k (with_hicolor order) ≡ true) ↔ ((contains k order ≡ true) ⊎ (k ≡ hicolor_theme))
  unfolding with_hicolor
  with_hicolor-contains order k = ground (
    arith,
    contains-append k order (hicolor_theme ∷ []),
    contains-singleton k hicolor_theme,
    contains_self hicolor_theme,
  )

  with_hicolor-Unique : (order : List Bytes) → Unique order → Unique (with_hicolor order)
  unfolding with_hicolor
  with_hicolor-Unique order u = elim (Bool-cases (contains hicolor_theme order)) [
    | inl old ↦ rw old u
    | inr new ↦ rw new (Unique-append order hicolor_theme u new)
  ]

  -- A list that is closed under parents and has the start has every theme that can be reached.
  complete :
      (order : List Bytes) (k : Bytes)
      → Grows themes start [] order
      → contains start order ≡ true
      → Reach themes start k
      → contains k order ≡ true
  unfolding contains
  complete order k g first (here real) = first
  complete order k g first (step {u} {v} r h real) =
      elim (g.closed u v (complete order u g first r) h real) [
        | inl never ↦ absurd (ground arith)
        | inr there ↦ there
      ]

  -- The whole search, from the empty list.
  whole_search :
      start ≢ []
      → Found themes start
          (search_all (dfs themes (suc (length themes))) (parents themes start) (start ∷ []))
          (start ∷ [])
          (λ k. contains k (parents themes start) ≡ true)
  unfolding contains
  whole_search real =
      all_parents themes start (suc (length themes)) start []
        (omega (arith, unseen_le_length [] themes))
        (record {
          unique = (refl, tt);
          reached = λ k h. rw (contains-singleton k start h) (here real);
        })
        (here real) refl (dfs-Found themes start (suc (length themes)))

  dfs-start :
      (fuel : ℕ)
      → start ≢ []
      → dfs themes (suc fuel) start []
        ≡ search_all (dfs themes fuel) (parents themes start) (start ∷ [])
  unfolding dfs contains
  dfs-start fuel real = ground (arith, is_empty-cons start real)

  resolve_of :
      (order : List Bytes)
      → dfs themes (suc (suc (length themes))) start [] ≡ some order
      → resolve_theme_chain themes start ≡ some (with_hicolor order)
  unfolding resolve_theme_chain
  resolve_of order e = rw (e, resolve_theme_chain) refl

  chain_of :
      (order : List Bytes) (rest : List Bytes)
      → order ≡ start ∷ rest
      → (r : List Bytes) × (with_hicolor order ≡ start ∷ r)
  unfolding with_hicolor
  chain_of order rest e = elim (Bool-cases (contains hicolor_theme order)) [
    | inl old ↦ (rest, rw old e)
    | inr new ↦ (rest ++ hicolor_theme ∷ [], rw new (ap (λ z. z ++ hicolor_theme ∷ []) e))
  ]

  -- From a theme with a name the search returns, however the themes inherit from one another, cycles
  -- included: the chain starts with this theme, has no theme twice, and holds exactly the themes
  -- that are reached over the inheritance, and hicolor.
  pub resolve_theme_chain-IsChain :
      start ≢ []
      → (chain : List Bytes) × (resolve_theme_chain themes start ≡ some chain) × IsChain chain
  resolve_theme_chain-IsChain real =
      let f = whole_search real in
      let g = visit-Grows themes start [] f.order' start f.grows f.met in
      let first : contains start f.order' ≡ true =
        ap (contains start) f.grows.extends
        ∙ ground (arith, contains-append start (start ∷ []) f.grows.rest, contains_self start) in
      let (r, e) = chain_of f.order' f.grows.rest f.grows.extends in
      (
        with_hicolor f.order',
        resolve_of f.order' (dfs-start (suc (length themes)) real ∙ f.returns),
        record {
          rest = r;
          starts = e;
          once = with_hicolor-Unique f.order' f.sound.unique;
          holds = λ k.
              let both = with_hicolor-contains f.order' k in
              (
                λ h. elim (both.0 h) [ inl old ↦ inl (f.sound.reached k old) | inr e ↦ inr e ],
                λ h.
                    both.1 (elim h [ inl r ↦ inl (complete f.order' k g first r) | inr e ↦ inr e ]),
              );
        },
      )
