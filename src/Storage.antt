-- ===== src/Storage.antt =====
-- The files that server/internal/auth/store.go, server/internal/visibility/store.go and server/internal/shortcuts/store.go
-- read and write. A file is seen through `encoding/json`: it holds a document, nothing, or bytes that
-- do not decode.
pub mod Atomic
mod Tests
use remote_app_start_my_linu.Prelude.{
  Bytes, Bool, true, false, not, if◌then◌else◌, List, [], ◌∷◌, Option, none, some, Result, ok, err,
}
use remote_app_start_my_linu.Prelude.Assoc.{lookup, insert, delete}

pub data Content {ℓ} (A : Type ℓ) : Type ℓ where
  blank garbage : Content A
  json : A → Content A

abbrev pub Disk : Type 0 → Type 0
Disk A = List (Bytes × Content A)

-- What the operating system lets succeed in one write. A write that fails leaves garbage in the
-- temporary file; `removes` is the removal of that file after a failure.
pub record Grants : Type 0 where
  pub mkdirs : Bool
  pub marshals : Bool
  pub creates : Bool
  pub writes : Bool
  pub chmods : Bool
  pub syncs : Bool
  pub closes : Bool
  pub renames : Bool
  pub removes : Bool

pub data WriteError : Type 0 where
  mkdir_failed marshal_failed create_failed write_failed chmod_failed : WriteError
  sync_failed close_failed rename_failed : WriteError

-- The states of the disk that a crash may leave behind, oldest first, the last one, and the result.
pub record Outcome (A : Type 0) : Type 0 where
  pub passed : List (Disk A)
  pub final : Disk A
  pub result : Result WriteError (Unit {0})

module _ {A : Type 0} (g : Grants) (tmp : Bytes) where
  -- A failure before there is a temporary file, and one behind it.
  abbrev pub abort_write : List (Disk A) → Disk A → WriteError → Outcome A
  abort_write passed d e = record { passed = passed; final = d; result = err e }

  abbrev pub cleanup : List (Disk A) → Disk A → WriteError → Outcome A
  cleanup passed d e = record {
    passed = passed;
    final = if g.removes then delete tmp d else d;
    result = err e;
  }

  -- `writeTokensFile` of server/internal/auth/store.go, `tmp` the name that `os.CreateTemp` picks.
  unfoldable pub write_tokens_file : Bytes → A → Disk A → Outcome A
  write_tokens_file path a d =
      let created = insert tmp blank d in
      let spoilt = insert tmp garbage created in
      let written = insert tmp (json a) created in
      let renamed = insert path (json a) (delete tmp written) in
      if not g.mkdirs
      then abort_write [] d mkdir_failed
      else if not g.marshals
      then abort_write [] d marshal_failed
      else if not g.creates
      then abort_write [] d create_failed
      else if not g.writes
      then cleanup (d ∷ created ∷ spoilt ∷ []) spoilt write_failed
      else if not g.chmods
      then cleanup (d ∷ created ∷ written ∷ []) written chmod_failed
      else if not g.syncs
      then cleanup (d ∷ created ∷ written ∷ []) written sync_failed
      else if not g.closes
      then cleanup (d ∷ created ∷ written ∷ []) written close_failed
      else if not g.renames
      then cleanup (d ∷ created ∷ written ∷ []) written rename_failed
      else record { passed = d ∷ created ∷ written ∷ []; final = renamed; result = ok tt }

  -- `writeAtomic` of the visibility and of the shortcut store, which do not sync.
  unfoldable pub write_atomic : Bytes → A → Disk A → Outcome A
  write_atomic path a d =
      let created = insert tmp blank d in
      let spoilt = insert tmp garbage created in
      let written = insert tmp (json a) created in
      let renamed = insert path (json a) (delete tmp written) in
      if not g.mkdirs
      then abort_write [] d mkdir_failed
      else if not g.marshals
      then abort_write [] d marshal_failed
      else if not g.creates
      then abort_write [] d create_failed
      else if not g.writes
      then cleanup (d ∷ created ∷ spoilt ∷ []) spoilt write_failed
      else if not g.chmods
      then cleanup (d ∷ created ∷ written ∷ []) written chmod_failed
      else if not g.closes
      then cleanup (d ∷ created ∷ written ∷ []) written close_failed
      else if not g.renames
      then cleanup (d ∷ created ∷ written ∷ []) written rename_failed
      else record { passed = d ∷ created ∷ written ∷ []; final = renamed; result = ok tt }
