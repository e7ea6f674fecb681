-- ===== src/Launcher/Tracker/Members.antt =====
-- The tracker as a table from ids to lists of pids.
use remote_app_start_my_linu.Prelude.{
  ℕ, Bytes, eq_bytes, eq_bytes_iff, Bool, if◌then◌else◌, List, [], ◌∷◌, ◌++◌, keep_if, ◌≡◌, arith,
  inl, inr, Option-cases,
}
use remote_app_start_my_linu.Prelude.Assoc.{lookup, lookup-insert, lookup-delete}
use remote_app_start_my_linu.Launcher.Tracker.{
  Tracker, pids_of, register, remove_pid, put_back, forget, is_alive, cleanup_locked,
}

pids_of-put_back :
    (t : Tracker) (id k : Bytes) (ps : List ℕ)
    → pids_of k (put_back t id ps) ≡ (if eq_bytes id k then ps else pids_of k t)
unfolding pids_of put_back
pids_of-put_back t id k [] = ground (arith, lookup-delete id k t)
pids_of-put_back t id k (p ∷ ps) = ground (arith, lookup-insert id k (p ∷ ps) t)

-- What each method does to the pids of every id.
pub pids_of-register :
    (t : Tracker) (id k : Bytes) (pid : ℕ)
    → pids_of k (register t id pid)
      ≡ (if eq_bytes id k then pids_of k t ++ pid ∷ [] else pids_of k t)
unfolding pids_of register
pids_of-register t id k pid =
    ground (arith, lookup-insert id k (pids_of id t ++ pid ∷ []) t, eq_bytes_iff id k)

pub pids_of-forget :
    (t : Tracker) (id k : Bytes) (pid : ℕ)
    → pids_of k (forget t id pid)
      ≡ (if eq_bytes id k then remove_pid pid (pids_of k t) else pids_of k t)
unfolding forget pids_of remove_pid
pids_of-forget t id k pid = elim (Option-cases (lookup id t)) [
  | inl e ↦ ground (arith, eq_bytes_iff id k)
  | inr (src, e) ↦
      rw (e, forget)
        (ground (arith, pids_of-put_back t id k (remove_pid pid src), eq_bytes_iff id k))
]

pub pids_of-cleanup_locked :
    (alive : ℕ → Bool) (t : Tracker) (id k : Bytes)
    → pids_of k (cleanup_locked alive t id).0
      ≡ (if eq_bytes id k then keep_if (is_alive alive) (pids_of k t) else pids_of k t)
unfolding cleanup_locked pids_of
pids_of-cleanup_locked alive t id k = elim (Option-cases (lookup id t)) [
  | inl e ↦ ground (arith, eq_bytes_iff id k)
  | inr (src, e) ↦
      rw (e, cleanup_locked)
        (ground (arith, pids_of-put_back t id k (keep_if (is_alive alive) src), eq_bytes_iff id k))
]
