-- ===== src/Desktop/Expand.antt =====
-- server/internal/desktop/exec.go, `Expand`: the field codes of the tokens are filled in.
pub mod Literal
use remote_app_start_my_linu.Prelude.{
  ℕ, Bytes, codes, eq_bytes, contains_byte, is_empty, Bool, true, false, not, ◌||◌, ◌==◌,
  if◌then◌else◌, List, [], ◌∷◌, ◌++◌, Option, none, some,
}
use remote_app_start_my_linu.Desktop.Entry.{Entry}

-- What the codes stand for: the icon and the name of the entry (both empty for no entry), the files.
pub record Fields : Type 0 where
  pub icon : Bytes
  pub name : Bytes
  pub files : List Bytes

unfoldable pub fields_of : Option Entry → List Bytes → Fields
fields_of none files = record { icon = []; name = []; files = files }
fields_of (some e) files = record { icon = e.icon; name = e.name; files = files }

abbrev first_file : List Bytes → Bytes
first_file [] = []
first_file (f ∷ fs) = f

-- What a code inside a longer token writes.
unfoldable pub write_code : Fields → ℕ → Bytes
write_code f next =
    if next == b'%'
    then b'%' ∷ []
    else if next == b'f' || next == b'u'
    then first_file f.files
    else if next == b'F' || next == b'U'
    then []
    else if next == b'i'
    then []
    else if next == b'c'
    then f.name
    else if next == b'k'
    then []
    else if next == b'v'
        || next == b'm'
        || next == b'd'
        || next == b'D'
        || next == b'n'
        || next == b'N'
    then []
    else b'%' ∷ next ∷ []

-- The inner loop; `b` is the builder.
unfoldable pub expand_loop : Fields → Bytes → Bytes → Bytes
expand_loop f b [] = b
expand_loop f b (c ∷ []) = b ++ c ∷ []
expand_loop f b (c ∷ next ∷ cs) =
    let code = expand_loop f (b ++ write_code f next) cs in
    let plain = expand_loop f (b ++ c ∷ []) (next ∷ cs) in if not (c == b'%') then plain else code

-- The deprecated codes and `%k`, which stand for nothing.
unfoldable pub is_ignored_code : Bytes → Bool
is_ignored_code tok =
    eq_bytes tok (codes "%k")
    || eq_bytes tok (codes "%v")
    || eq_bytes tok (codes "%m")
    || eq_bytes tok (codes "%d")
    || eq_bytes tok (codes "%D")
    || eq_bytes tok (codes "%n")
    || eq_bytes tok (codes "%N")

-- `if b.Len() > 0`
abbrev pub kept : Bytes → List Bytes
kept [] = []
kept (c ∷ cs) = (c ∷ cs) ∷ []

-- The body of the loop over the tokens: what one token appends.
unfoldable pub expand_token : Fields → Bytes → List Bytes
expand_token f tok =
    if eq_bytes tok (codes "%F") || eq_bytes tok (codes "%U")
    then f.files
    else if eq_bytes tok (codes "%f") || eq_bytes tok (codes "%u")
    then (elim f.files [ [] ↦ [] | file ∷ _ ↦ file ∷ [] ])
    else if eq_bytes tok (codes "%i")
    then (if not (is_empty f.icon) then codes "--icon" ∷ f.icon ∷ [] else [])
    else if eq_bytes tok (codes "%c")
    then (if not (is_empty f.name) then f.name ∷ [] else [])
    else if is_ignored_code tok
    then []
    else if not (contains_byte b'%' tok)
    then tok ∷ []
    else kept (expand_loop f [] tok)

unfoldable pub expand_all : Fields → List Bytes → List Bytes
expand_all f [] = []
expand_all f (tok ∷ toks) = expand_token f tok ++ expand_all f toks

unfoldable pub expand : List Bytes → Option Entry → List Bytes → List Bytes
unfolding expand_all fields_of expand_token write_code expand_loop is_ignored_code
expand tokens entry files = expand_all (fields_of entry files) tokens
