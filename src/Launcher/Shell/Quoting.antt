-- ===== src/Launcher/Shell/Quoting.antt =====
-- How a POSIX shell reads the payload.
use remote_app_start_my_linu.Prelude.{
  ℕ, Bytes, codes, trim_space, is_empty, Bool, true, false, ◌||◌, ◌&&◌, not, leb, ◌==◌,
  if◌then◌else◌, [], ◌∷◌, ◌++◌, Option, none, some, ◌≡◌, ◌≢◌, refl, sym, ◌∙◌, arith, append_assoc,
  append-nil, Bool-cases, inl, inr, ap, ==_iff, ◌⊎◌,
}
use remote_app_start_my_linu.Launcher.Shell.{replace_quotes, shell_single_quote, build_payload}

-- A byte that is nothing but itself to the shell, outside quotes.
abbrev is_literal : ℕ → Bool
is_literal c =
    leb b'a' c && leb c b'z'
    || leb b'A' c && leb c b'Z'
    || leb b'0' c && leb c b'9'
    || c == b'/'
    || c == b'.'
    || c == b'_'
    || c == b'-'

-- One word of the shell, and what stands behind it: outside quotes a blank ends the word, a backslash
-- takes the next byte as it is, and a single quote opens a text that runs up to the next one.
-- `none` where a quote stays open, and where any other byte outside quotes is not a letter, a digit or
-- one of `/._-`: this reading gives no word with a byte that a shell may read as an operator, an
-- expansion, a pattern or a comment, such as `;`, `&`, `$`, `*`, `#` or a line feed.
-- (A byte 0 does not occur: no argument of a process has one.)
pub shell_word : Bool → Bytes → Bytes → Option (Bytes × Bytes)
shell_word true word [] = none
shell_word true word (c ∷ cs) =
    let closed = shell_word false word cs in
    let inside = shell_word true (word ++ c ∷ []) cs in if c == b'\'' then closed else inside
shell_word false word [] = some (word, [])
shell_word false word (c ∷ []) =
    if c == b' '
    then some (word, c ∷ [])
    else if is_literal c
    then some (word ++ c ∷ [], [])
    else none
shell_word false word (c ∷ d ∷ cs) =
    let quoted = shell_word true word (d ∷ cs) in
    let taken = shell_word false (word ++ d ∷ []) cs in
    let plain = shell_word false (word ++ c ∷ []) (d ∷ cs) in
    if c == b' '
    then some (word, c ∷ d ∷ cs)
    else if c == b'\''
    then quoted
    else if c == b'\\' && not (d == 10)
    then taken
    else if is_literal c
    then plain
    else none

word_plain :
    (c : ℕ) (word cs : Bytes)
    → c ≢ b'\''
    → shell_word true word (c ∷ cs) ≡ shell_word true (word ++ c ∷ []) cs
unfolding shell_word
word_plain c word cs h = ground arith

word_quote :
    (word cs : Bytes)
    → shell_word true word (b'\'' ∷ b'\\' ∷ b'\'' ∷ b'\'' ∷ cs)
      ≡ shell_word true (word ++ b'\'' ∷ []) cs
unfolding shell_word
word_quote word [] = refl
word_quote word (c ∷ cs) = refl

word_open : (word cs : Bytes) → shell_word false word (b'\'' ∷ cs) ≡ shell_word true word cs
unfolding shell_word
word_open word [] = refl
word_open word (c ∷ cs) = refl

is_empty_nil : (s : Bytes) → is_empty s ≡ true → s ≡ []
is_empty_nil [] h = refl
is_empty_nil (c ∷ s) h = cc

word_close : (word cs : Bytes) → shell_word true word (b'\'' ∷ b' ' ∷ cs) ≡ some (word, b' ' ∷ cs)
unfolding shell_word
word_close word [] = refl
word_close word (c ∷ cs) = refl

word_replaced :
    (s word cs : Bytes)
    → shell_word true word (replace_quotes s ++ (b'\'' ∷ b' ' ∷ cs)) ≡ some (word ++ s, b' ' ∷ cs)
unfolding replace_quotes
word_replaced [] word cs = rw append-nil (word_close word cs)
word_replaced (c ∷ s) word cs = elim (Bool-cases (c == b'\'')) [
  | inl e ↦ rw e (
      word_quote word _
      ∙ word_replaced s _ cs
      ∙ rw append_assoc (ap (λ x. some (word ++ x ∷ s, b' ' ∷ cs)) (sym ((==_iff c b'\'').0 e))))
  | inr e ↦ rw e (word_plain c word _ (ground arith) ∙ word_replaced s _ cs ∙ rw append_assoc)
]

-- Whatever bytes a text has, a shell reads its quoted form, followed by a blank, as one word that is
-- the text.
shell_word-shell_single_quote :
    (s rest : Bytes)
    → shell_word false [] (shell_single_quote s ++ (b' ' ∷ rest)) ≡ some (s, b' ' ∷ rest)
unfolding shell_single_quote
shell_word-shell_single_quote s rest = rw append_assoc (word_open [] _ ∙ word_replaced s [] rest)

-- With a working directory that is more than blanks, the payload is `cd `, one word that the shell
-- reads as the trimmed directory, whatever bytes it has, and ` && exec ` with the trimmed command;
-- with none it is `exec ` and the trimmed command.
pub build_payload-word :
    (cwd command : Bytes)
    → ((trim_space cwd ≡ []) × (build_payload cwd command ≡ codes "exec " ++ trim_space command))
      ⊎ ((word : Bytes) × (build_payload cwd command ≡ codes "cd " ++ word)
          × (shell_word false [] word
              ≡ some (trim_space cwd, codes " && exec " ++ trim_space command)))
unfolding build_payload
build_payload-word cwd command = elim (Bool-cases (is_empty (trim_space cwd))) [
  | inl blank ↦ inl (is_empty_nil (trim_space cwd) blank, rw blank)
  | inr dir ↦ inr (
    shell_single_quote (trim_space cwd) ++ (codes " && exec " ++ trim_space command),
    rw dir,
    shell_word-shell_single_quote (trim_space cwd) (codes "&& exec " ++ trim_space command),
  )
]
