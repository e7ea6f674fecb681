-- ===== src/Launcher/Shell.antt =====
-- server/internal/launcher/shortcuts.go, `buildPayload` and `shellSingleQuote`.
pub mod Quoting
use remote_app_start_my_linu.Prelude.{
  ℕ, Bytes, codes, trim_space, is_empty, ◌==◌, if◌then◌else◌, List, [], ◌∷◌, ◌++◌,
}

-- `strings.ReplaceAll(s, "'", "'\\''")`
unfoldable pub replace_quotes : Bytes → Bytes
replace_quotes [] = []
replace_quotes (c ∷ cs) =
    if c == b'\'' then b'\'' ∷ b'\\' ∷ b'\'' ∷ b'\'' ∷ replace_quotes cs else c ∷ replace_quotes cs

unfoldable pub shell_single_quote : Bytes → Bytes
unfolding replace_quotes
shell_single_quote s = b'\'' ∷ (replace_quotes s ++ b'\'' ∷ [])

unfoldable pub build_payload : Bytes → Bytes → Bytes
unfolding shell_single_quote
build_payload cwd command =
    if is_empty (trim_space cwd)
    then codes "exec " ++ trim_space command
    else codes "cd "
      ++ (shell_single_quote (trim_space cwd) ++ (codes " && exec " ++ trim_space command))
