-- ===== src/Routes/Mux.antt =====
-- `net/http.ServeMux` as the routers of server/internal/httpapi/router.go, server/internal/admin/admin.go,
-- server/internal/web/web.go and server/cmd/remotelauncher/main.go use it: patterns of a method and a
-- path. A path is the list of its decoded segments, the last one empty where it ends in a slash.
use remote_app_start_my_linu.Prelude.{
  Bytes, codes, eq_bytes, is_empty, Bool, true, false, not, ◌&&◌, ◌||◌, if◌then◌else◌, List, [],
  ◌∷◌, ◌++◌, Option, none, some, any_of,
}

pub data Part : Type 0 where
  literal : Bytes → Part
  wildcard : Part

-- An empty method stands for any; a subtree is a path that ends in a slash.
pub record Pattern (A : Type 0) : Type 0 where
  pub method : Bytes
  pub path : List Part
  pub subtree : Bool
  pub target : A

-- GET stands for HEAD as well.
unfoldable pub allows : Bytes → Bytes → Bool
allows wanted method =
    is_empty wanted
    || (eq_bytes wanted method || (eq_bytes wanted (codes "GET") && eq_bytes method (codes "HEAD")))

abbrev with_value : Bytes → Option (List Bytes × List Bytes) → Option (List Bytes × List Bytes)
with_value v none = none
with_value v (some (vs, rest)) = some (v ∷ vs, rest)

-- The values of the wildcards, and what the parts leave of the path.
unfoldable pub match_parts : List Part → List Bytes → Option (List Bytes × List Bytes)
match_parts [] path = some ([], path)
match_parts (p ∷ ps) [] = none
match_parts (literal l ∷ ps) (s ∷ path) = if eq_bytes l s then match_parts ps path else none
match_parts (wildcard ∷ ps) (s ∷ path) =
    if is_empty s then none else with_value s (match_parts ps path)

-- Whether the rest may stand behind the parts, and whether the match is exact then.
abbrev pub fitting : Bool → List Bytes → Option Bool
fitting false [] = some true
fitting false (s ∷ rest) = none
fitting true [] = none
fitting true (s ∷ []) = some (is_empty s)
fitting true (s ∷ t ∷ rest) = some false

abbrev pub fit : Bool → Option (List Bytes × List Bytes) → Option (List Bytes × Bool)
fit subtree none = none
fit subtree (some (values, rest)) = elim (fitting subtree rest) [
  | none ↦ none
  | some exact ↦ some (values, exact)
]

module _ {A : Type 0} where
  unfoldable pub match_pattern : Pattern A → List Bytes → Option (List Bytes × Bool)
  unfolding match_parts
  match_pattern p path = fit p.subtree (match_parts p.path path)

  -- The first pattern of a method that matches: the patterns of a table stand with the more specific
  -- ones first.
  unfoldable pub first_match :
      List (Pattern A) → Bytes → List Bytes → Option (A × List Bytes × Bool)
  unfolding allows match_pattern
  first_match [] method path = none
  first_match (p ∷ ps) method path =
      let rest = first_match ps method path in
      if allows p.method method
      then (elim (match_pattern p path) [
        | none ↦ rest
        | some (values, exact) ↦ some (p.target, values, exact)
      ])
      else rest

  -- Some pattern has the path, whatever its method.
  unfoldable pub is_path : List (Pattern A) → List Bytes → Bool
  unfolding match_pattern
  is_path ps path = any_of (λ p. elim (match_pattern p path) [ none ↦ false | some m ↦ true ]) ps

  abbrev is_exact : Option (A × List Bytes × Bool) → Bool
  is_exact none = false
  is_exact (some (target, values, exact)) = exact

-- What becomes of a request: a redirection to the clean path, a handler with the values of the
-- wildcards, 405 or 404.
pub data Routed (A : Type 0) : Type 0 where
  moved wrong_method unknown : Routed A
  to : A → List Bytes → Routed A

abbrev ends_in_slash : List Bytes → Bool
ends_in_slash [] = false
ends_in_slash (s ∷ []) = is_empty s
ends_in_slash (s ∷ t ∷ path) = ends_in_slash (t ∷ path)

module _ {A : Type 0} where
  abbrev found : Bool → Option (A × List Bytes × Bool) → Routed A
  found known none = if known then wrong_method else unknown
  found known (some (target, values, exact)) = to target values

  -- `findHandler` and `ServeHTTP`: a path that is not clean is redirected, but for CONNECT, and so is
  -- a path without an exact match that matches exactly with a slash behind it.
  unfoldable pub route : List (Pattern A) → Bytes → Bool → List Bytes → Routed A
  unfolding first_match is_path
  route ps method is_clean path =
      let slashed = path ++ [] ∷ [] in
      if not is_clean && not (eq_bytes method (codes "CONNECT"))
      then moved
      else if not (is_exact (first_match ps method path))
          && (not (ends_in_slash path) && is_exact (first_match ps method slashed))
      then moved
      else found (is_path ps path || (not (ends_in_slash path) && is_path ps slashed))
          (first_match ps method path)
