-- ===== src/Launcher/Tracker.antt =====
-- server/internal/launcher/tracker.go. A pid is a natural number; `alive` says of a pid above 0 whether
-- `kill(pid, 0)` finds the process (a nil error or EPERM) at the time of the call. The methods hold the mutex, so that
-- each is one step. `Pids` and `Snapshot` return copies.
pub mod Live
pub mod Members
use remote_app_start_my_linu.Prelude.{
  ℕ, Bytes, eq_bytes, Bool, true, false, ◌&&◌, ◌==◌, ltb, if◌then◌else◌, List, [], ◌∷◌, ◌++◌,
  Option, none, some, keep_if,
}
use remote_app_start_my_linu.Prelude.Assoc.{lookup, insert, delete, keys}

-- `pids`
abbrev pub Tracker : Type 0
Tracker = List (Bytes × List ℕ)

abbrev pub new_tracker : Tracker
new_tracker = []

-- The pids of an id; a missing key reads as the nil slice.
unfoldable pub pids_of : Bytes → Tracker → List ℕ
pids_of id t = elim (lookup id t) [ none ↦ [] | some ps ↦ ps ]

unfoldable pub register : Tracker → Bytes → ℕ → Tracker
unfolding pids_of
register t id pid = insert id (pids_of id t ++ pid ∷ []) t

-- The first occurrence of a pid is cut out.
unfoldable pub remove_pid : ℕ → List ℕ → List ℕ
remove_pid pid [] = []
remove_pid pid (p ∷ ps) = if p == pid then ps else p ∷ remove_pid pid ps

-- An id with no pid is dropped.
unfoldable pub put_back : Tracker → Bytes → List ℕ → Tracker
put_back t id [] = delete id t
put_back t id (p ∷ ps) = insert id (p ∷ ps) t

unfoldable pub forget : Tracker → Bytes → ℕ → Tracker
forget t id pid = elim (lookup id t) [ none ↦ t | some src ↦ put_back t id (remove_pid pid src) ]

abbrev nonempty : List ℕ → Bool
nonempty [] = false
nonempty (p ∷ ps) = true

module _ (alive : ℕ → Bool) where
  -- `isAlive`
  abbrev pub is_alive : ℕ → Bool
  is_alive pid = ltb 0 pid && alive pid

  unfoldable pub cleanup_locked : Tracker → Bytes → Tracker × Bool
  cleanup_locked t id = elim (lookup id t) [
    | none ↦ (t, false)
    | some src ↦ (put_back t id (keep_if is_alive src), nonempty (keep_if is_alive src))
  ]

  -- `Alive`
  unfoldable pub check_alive : Tracker → Bytes → Tracker × Bool
  unfolding cleanup_locked
  check_alive t id = cleanup_locked t id

  -- `Pids`
  unfoldable live_pids : Tracker → Bytes → List ℕ
  unfolding pids_of
  live_pids t id = keep_if is_alive (pids_of id t)

  -- The loop of `Cleanup` over the ids that the map held at its start.
  unfoldable pub cleanup_ids : Tracker → List Bytes → Tracker
  cleanup_ids t [] = t
  cleanup_ids t (id ∷ ids) = cleanup_ids (cleanup_locked t id).0 ids

  unfoldable pub cleanup : Tracker → Tracker
  unfolding cleanup_ids
  cleanup t = cleanup_ids t (keys t)

  -- `Snapshot`
  unfoldable pub snapshot : Tracker → List (Bytes × List ℕ)
  snapshot [] = []
  snapshot ((id, src) ∷ t) =
      if nonempty (keep_if is_alive src)
      then (id, keep_if is_alive src) ∷ snapshot t
      else snapshot t

-- The calls that change the map; which processes are alive may differ from call to call.
pub data Event : Type 0 where
  registers forgets : Bytes → ℕ → Event
  checks : (ℕ → Bool) → Bytes → Event
  cleans : (ℕ → Bool) → Event

unfoldable pub step : Tracker → Event → Tracker
step t (registers id pid) = register t id pid
step t (forgets id pid) = forget t id pid
step t (checks alive id) = (check_alive alive t id).0
step t (cleans alive) = cleanup alive t

unfoldable pub run : Tracker → List Event → Tracker
unfolding step
run t [] = t
run t (e ∷ es) = run (step t e) es
