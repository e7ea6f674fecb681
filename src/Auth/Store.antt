-- ===== src/Auth/Store.antt =====
-- server/internal/auth/store.go, server/internal/auth/token.go and `storeTokenIssuer` of server/cmd/remotelauncher/main.go: the issued tokens in memory and
-- their file. `hash` stands for `HashToken`, SHA-256 in hexadecimal digits.
pub mod Tokens
pub mod Restart
use remote_app_start_my_linu.Prelude.{
  ℕ, Bytes, eq_bytes, is_empty, Bool, true, false, if◌then◌else◌, List, [], ◌∷◌, ◌++◌, Option, none,
  some, Result, ok, err, length,
}
use remote_app_start_my_linu.Prelude.Assoc.{lookup, insert, delete, has, values}
use remote_app_start_my_linu.Storage.{
  Content, blank, garbage, json, Disk, Grants, WriteError, Outcome, write_tokens_file,
}

pub record TokenInfo : Type 0 where
  pub hash : Bytes
  pub device_label : Bytes
  pub created_at : ℕ
  pub last_seen : ℕ

pub record Store : Type 0 where
  pub tokens : List (Bytes × TokenInfo)
  pub persist_path : Bytes

-- `NewStore`
abbrev pub new_store : Store
new_store = record { tokens = []; persist_path = [] }

-- A store with the files around it and the errors that were logged.
pub record Server : Type 0 where
  pub store : Store
  pub disk : Disk (List TokenInfo)
  pub logged : List WriteError

-- What one write meets: the grants of the operating system, and the name of the temporary file.
pub record Write : Type 0 where
  pub grants : Grants
  pub tmp : Bytes

-- `snapshotLocked`; the order of a Go map is not fixed, and here is that of the insertions.
unfoldable pub snapshot : Store → List TokenInfo
snapshot s = values s.tokens

unfoldable pub count : Store → ℕ
count s = length (values s.tokens)

-- What is left of a call behind the mutex: the path and the tokens that it writes.
pub record Pending : Type 0 where
  pub path : Bytes
  pub written : List TokenInfo

-- `persistStateLocked`; no path, no write.
unfoldable pub persist_state : Store → Option Pending
unfolding snapshot
persist_state s =
    if is_empty s.persist_path
    then none
    else some (record { path = s.persist_path; written = snapshot s })

-- `persistSnapshot`, which runs without the mutex; an error is logged.
unfoldable pub persist_snapshot : Write → Option Pending → Server → Server
persist_snapshot w none v = v
persist_snapshot w (some p) v =
    let o = write_tokens_file w.grants w.tmp p.path p.written v.disk in
    record v {
      disk = o.final;
      logged = elim o.result [ ok _ ↦ v.logged | err e ↦ v.logged ++ e ∷ [] ];
    }

-- `Add` and `Revoke` up to the end of the mutex, and whole, where no other call comes in front of their
-- write.
unfoldable pub add_locked : Server → TokenInfo → Server × Option Pending
unfolding persist_state
add_locked v info =
    if has info.hash v.store.tokens
    then (v, none)
    else (let after = record v.store { tokens = insert info.hash info v.store.tokens } in
        (record v { store = after }, persist_state after))

unfoldable pub add : Write → Server → TokenInfo → Server
unfolding add_locked persist_snapshot
add w v info = let (after, pending) = add_locked v info in persist_snapshot w pending after

unfoldable pub revoke_locked : Server → Bytes → Server × Option Pending
unfolding persist_state
revoke_locked v h =
    if has h v.store.tokens
    then (let after = record v.store { tokens = delete h v.store.tokens } in
        (record v { store = after }, persist_state after))
    else (v, none)

unfoldable pub revoke : Write → Server → Bytes → Server
unfolding revoke_locked persist_snapshot
revoke w v h = let (after, pending) = revoke_locked v h in persist_snapshot w pending after

unfoldable pub set_persist_path : Server → Bytes → Server
set_persist_path v path = record v { store = record v.store { persist_path = path } }

-- The loop of `Load` over the decoded tokens.
unfoldable pub index_tokens : List (Bytes × TokenInfo) → List TokenInfo → List (Bytes × TokenInfo)
index_tokens next [] = next
index_tokens next (i ∷ is) =
    index_tokens (if is_empty i.hash then next else insert i.hash i next) is

pub data LoadError : Type 0 where
  read_failed parse_failed : LoadError

-- `readable` is whether a file that is there can be read.
unfoldable pub load : Bool → Server → Bytes → Result LoadError Server
unfolding index_tokens
load readable v path = elim (lookup path v.disk) [
  | none ↦ ok v
  | some content ↦
      if readable
      then elim content [
        | blank ↦ ok v
        | garbage ↦ err parse_failed
        | json infos ↦ ok (record v { store = record v.store { tokens = index_tokens [] infos } })
      ]
      else err read_failed
]

-- `SaveTo`, and `Save` where a path is set.
unfoldable pub save_to : Write → Server → Bytes → Server × Result WriteError (Unit {0})
unfolding snapshot
save_to w v path =
    let o = write_tokens_file w.grants w.tmp path (snapshot v.store) v.disk in
    (record v { disk = o.final }, o.result)

unfoldable pub save : Write → Server → Server × Result WriteError (Unit {0})
unfolding save_to
save w v = if is_empty v.store.persist_path then (v, ok tt) else save_to w v v.store.persist_path

module _ (hash : Bytes → Bytes) where
  -- `Validate`, at the time `now`.
  unfoldable pub validate : Store → Bytes → ℕ → Store × Option TokenInfo
  validate s plaintext now = elim (lookup (hash plaintext) s.tokens) [
    | none ↦ (s, none)
    | some info ↦
        let seen : TokenInfo = record info { last_seen = now } in
        (record s { tokens = insert (hash plaintext) seen s.tokens }, some seen)
  ]

  -- `IssueToken`: `random` is the encoded plaintext of the random bytes, if there are any.
  unfoldable pub issue_token : Option Bytes → Bytes → ℕ → Option (Bytes × TokenInfo)
  issue_token none label now = none
  issue_token (some plaintext) label now = some (
    plaintext,
    record { hash = hash plaintext; device_label = label; created_at = now; last_seen = now },
  )

  -- `storeTokenIssuer.Issue`
  unfoldable pub issue : Write → Server → Option Bytes → Bytes → ℕ → Server × Option Bytes
  unfolding issue_token
  issue w v random label now = elim (issue_token random label now) [
    | none ↦ (v, none)
    | some (plaintext, info) ↦ (add w v info, some plaintext)
  ]

-- The calls that change a store, as the handlers make them.
pub data Call : Type 0 where
  adds : Write → TokenInfo → Call
  revokes : Write → Bytes → Call
  validates : Bytes → ℕ → Call

unfoldable pub step : (Bytes → Bytes) → Server → Call → Server
step hash v (adds w i) = add w v i
step hash v (revokes w h) = revoke w v h
step hash v (validates plaintext now) = record v { store = (validate hash v.store plaintext now).0 }

unfoldable pub run : (Bytes → Bytes) → Server → List Call → Server
unfolding step
run hash v [] = v
run hash v (c ∷ cs) = run hash (step hash v c) cs
