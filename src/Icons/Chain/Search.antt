-- ===== src/Icons/Chain/Search.antt =====
-- What one search of `dfs` leaves behind, and that its fuel lasts.
use remote_app_start_my_linu.Prelude.{
  ℕ, zero, suc, ◌<◌, ◌≤◌, Bytes, is_empty, true, false, ◌||◌, List, [], ◌∷◌, ◌++◌, Option, none,
  some, ◌≡◌, ◌≢◌, ◌⊎◌, inl, inr, refl, sym, ap, ◌∙◌, subst, arith, Bool-cases, Option-cases,
  append_assoc, append-nil,
}
use remote_app_start_my_linu.Prelude.Assoc.{lookup}
use remote_app_start_my_linu.Desktop.Scan.{contains}
use remote_app_start_my_linu.Icons.Chain.{Themes, parents, search_all, dfs}
use remote_app_start_my_linu.Icons.Chain.Reach.{
  Reach, step, contains-append, contains-cons, contains_self, contains-singleton, Unique,
  Unique-append, unseen, unseen-le, unseen-visit,
}

module _ (themes : Themes) (start : Bytes) where
  -- What holds of the list before and after each search.
  pub record IsSound (order : List Bytes) : Type 0 where
    pub unique : Unique order
    pub reached : (k : Bytes) → contains k order ≡ true → Reach themes start k

  -- What a search adds: names behind the old ones, each new one with all its parents.
  pub record Grows (order order' : List Bytes) : Type 0 where
    pub rest : List Bytes
    pub extends : order' ≡ order ++ rest
    pub closed :
        (u v : Bytes)
        → contains u order' ≡ true
        → contains v (parents themes u) ≡ true
        → v ≢ []
        → (contains u order ≡ true) ⊎ (contains v order' ≡ true)

  Grows-more :
      (order order' : List Bytes) (k : Bytes)
      → Grows order order'
      → contains k order ≡ true
      → contains k order' ≡ true
  Grows-more order order' k g h =
      ap (contains k) g.extends ∙ ground (arith, contains-append k order g.rest)

  Grows-refl : (order : List Bytes) → Grows order order
  Grows-refl order = record {
    rest = [];
    extends = sym (append-nil order);
    closed = λ u v h _ _. inl h;
  }

  Grows-trans : (a b c : List Bytes) → Grows a b → Grows b c → Grows a c
  Grows-trans a b c g h = record {
    rest = g.rest ++ h.rest;
    extends = h.extends ∙ ap (λ z. z ++ h.rest) g.extends ∙ append_assoc a g.rest h.rest;
    closed = λ u v hu hv real. elim (h.closed u v hu hv real) [
      | inr there ↦ inr there
      | inl old ↦ elim (g.closed u v old hv real) [
        | inl older ↦ inl older
        | inr there ↦ inr (Grows-more b c v h there)
      ]
    ];
  }

  -- A search that returns, from a list and from a wish.
  pub record Found (result : Option (List Bytes)) (order : List Bytes) (wanted : Bytes → Type 0)
      : Type 0 where
    pub order' : List Bytes
    pub returns : result ≡ some order'
    pub grows : Grows order order'
    pub sound : IsSound order'
    pub met : (k : Bytes) → wanted k → k ≢ [] → contains k order' ≡ true

  abbrev Searches : ℕ → (Bytes → List Bytes → Option (List Bytes)) → Type 0
  Searches m search =
      (p : Bytes) (order : List Bytes)
      → unseen order themes < m
      → IsSound order
      → (p ≢ [] → Reach themes start p)
      → Found (search p order) order (λ k. k ≡ p)

  search_all-nil :
      (search : Bytes → List Bytes → Option (List Bytes)) (order : List Bytes)
      → IsSound order
      → Found (search_all search [] order) order (λ k. contains k [] ≡ true)
  unfolding search_all contains
  search_all-nil search order s = record {
    order' = order;
    returns = refl;
    grows = Grows-refl order;
    sound = s;
    met = λ k e. absurd (ground arith);
  }

  search_all-Found :
      (m : ℕ) (search : Bytes → List Bytes → Option (List Bytes)) (ps order : List Bytes)
      → Searches m search
      → unseen order themes < m
      → IsSound order
      → ((k : Bytes) → contains k ps ≡ true → k ≢ [] → Reach themes start k)
      → Found (search_all search ps order) order (λ k. contains k ps ≡ true)
  unfolding search_all
  search_all-Found m search [] order one enough s reach = search_all-nil search order s
  search_all-Found m search (p ∷ ps) order one enough s reach =
      let f = one p order enough s (reach p ((contains-cons p p ps).1 (inl refl))) in
      let fewer : unseen f.order' themes ≤ unseen order themes =
        unseen-le order f.order' themes (λ k. Grows-more order f.order' k f.grows) in
      let g =
        search_all-Found m search ps f.order' one (omega arith) f.sound
          (λ k h. reach k ((contains-cons k p ps).1 (inr h))) in
      record {
        order' = g.order';
        returns = rw (f.returns, search_all) g.returns;
        grows = Grows-trans order f.order' g.order' f.grows g.grows;
        sound = g.sound;
        met = λ k h real. elim ((contains-cons k p ps).0 h) [
          | inl first ↦ Grows-more f.order' g.order' k g.grows (f.met k first real)
          | inr later ↦ g.met k later real
        ];
      }

  -- The list with the name that is visited now.
  visit-IsSound :
      (order : List Bytes) (name : Bytes)
      → IsSound order
      → contains name order ≡ false
      → Reach themes start name
      → IsSound (order ++ name ∷ [])
  visit-IsSound order name s new r = record {
    unique = Unique-append order name s.unique new;
    reached = λ k h. elim (Bool-cases (contains k order)) [
      | inl old ↦ s.reached k old
      | inr other ↦
          subst (Reach themes start)
            (sym (contains-singleton k name (ground (arith, contains-append k order (name ∷ [])))))
            r
    ];
  }

  -- Once the parents of a new name are met, the search of the name is done.
  pub visit-Grows :
      (order order' : List Bytes) (name : Bytes)
      → Grows (order ++ name ∷ []) order'
      → ((k : Bytes) → contains k (parents themes name) ≡ true → k ≢ [] → contains k order' ≡ true)
      → Grows order order'
  visit-Grows order order' name g met = record {
    rest = name ∷ g.rest;
    extends = g.extends ∙ append_assoc order (name ∷ []) g.rest;
    closed = λ u v hu hv real. elim (g.closed u v hu hv real) [
      | inr there ↦ inr there
      | inl before ↦ elim (Bool-cases (contains u order)) [
        | inl old ↦ inl old
        | inr other ↦
            let is_name : u ≡ name =
              contains-singleton u name (ground (arith, contains-append u order (name ∷ []))) in
            inr (met v (subst (λ w. contains v (parents themes w) ≡ true) is_name hv) real)
      ]
    ];
  }

  stop-met :
      (name : Bytes) (order : List Bytes)
      → (is_empty name || contains name order) ≡ true
      → name ≢ []
      → contains name order ≡ true
  stop-met [] order h real = absurd (real refl)
  stop-met (c ∷ cs) order h real = h

  go_on :
      (name : Bytes) (order : List Bytes)
      → (is_empty name || contains name order) ≡ false
      → (name ≢ []) × (contains name order ≡ false)
  go_on [] order h = absurd (ground arith)
  go_on (c ∷ cs) order h = (λ e. absurd (ground arith), h)

  parents-none : (name : Bytes) → lookup name themes ≡ none → parents themes name ≡ []
  unfolding parents
  parents-none name e = rw (e, parents) refl

  pub all_parents :
      (fuel : ℕ) (name : Bytes) (order : List Bytes)
      → unseen order themes < suc fuel
      → IsSound (order ++ name ∷ [])
      → Reach themes start name
      → contains name order ≡ false
      → Searches fuel (dfs themes fuel)
      → Found
          (search_all (dfs themes fuel) (parents themes name) (order ++ name ∷ []))
          (order ++ name ∷ [])
          (λ k. contains k (parents themes name) ≡ true)
  all_parents fuel name order enough s r new one = elim (Option-cases (lookup name themes)) [
    | inl e ↦
        subst
          (λ ps.
            Found (search_all (dfs themes fuel) ps (order ++ name ∷ [])) (order ++ name ∷ [])
              (λ k. contains k ps ≡ true))
          (sym (parents-none name e)) (search_all-nil (dfs themes fuel) (order ++ name ∷ []) s)
    | inr (x, e) ↦
        search_all-Found fuel (dfs themes fuel) (parents themes name) (order ++ name ∷ []) one
          (omega (arith, unseen-visit order name x themes e new)) s (λ k h real. step r h real)
  ]

  dfs_visit :
      (fuel : ℕ) (name : Bytes) (order : List Bytes)
      → unseen order themes < suc fuel
      → IsSound order
      → Reach themes start name
      → (is_empty name || contains name order) ≡ false
      → Searches fuel (dfs themes fuel)
      → Found (dfs themes (suc fuel) name order) order (λ k. k ≡ name)
  unfolding dfs
  dfs_visit fuel name order enough s r go one =
      let new = (go_on name order go).1 in
      let f = all_parents fuel name order enough (visit-IsSound order name s new r) r new one in
      record {
        order' = f.order';
        returns = rw (go, dfs) f.returns;
        grows = visit-Grows order f.order' name f.grows f.met;
        sound = f.sound;
        met = λ k e real. Grows-more (order ++ name ∷ []) f.order' k f.grows (
            subst (λ z. contains z (order ++ name ∷ []) ≡ true) (sym e)
              (ground (arith, contains-append name order (name ∷ []), contains_self name)));
      }

  -- If the fuel is more than the themes still unseen, the search returns.
  pub dfs-Found : (fuel : ℕ) → Searches fuel (dfs themes fuel)
  unfolding dfs
  dfs-Found zero name order enough s reach = absurd (omega arith)
  dfs-Found (suc fuel) name order enough s reach =
      elim (Bool-cases (is_empty name || contains name order)) [
        | inl stop ↦ record {
          order' = order;
          returns = rw (stop, dfs) refl;
          grows = Grows-refl order;
          sound = s;
          met = λ k e real.
              subst (λ z. contains z order ≡ true) (sym e)
                (stop-met name order stop (subst (λ z. z ≢ []) e real));
        }
        | inr go ↦
            dfs_visit fuel name order enough s (reach (go_on name order go).0) go (dfs-Found fuel)
      ]
