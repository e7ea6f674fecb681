-- ===== src/Launcher/Tracker/Live.antt =====
-- Which processes the tracker reports.
use remote_app_start_my_linu.Prelude.{
  ℕ, Bytes, eq_bytes, Bool, false, ◌||◌, ◌==◌, if◌then◌else◌, List, [], ◌∷◌, ◌++◌, keep_if,
  keep_if_idem, any_of, ◌≡◌, ◌≢◌, refl, arith, inl, inr, Option-cases, ◌∙◌, fun_ext,
}
use remote_app_start_my_linu.Prelude.Assoc.{lookup, keys}
use remote_app_start_my_linu.Prelude.Assoc.Distinct.{AllPairs, insert-AllPairs, delete-AllPairs}
use mathlib.Core.List.{concat-ne-nil}
use remote_app_start_my_linu.Launcher.Tracker.{
  Tracker, pids_of, register, remove_pid, put_back, forget, is_alive, cleanup_locked, check_alive,
  cleanup_ids, cleanup, nonempty, Event, registers, forgets, checks, cleans, step, run,
}
use remote_app_start_my_linu.Launcher.Tracker.Members.{
  pids_of-cleanup_locked, pids_of-register, pids_of-forget,
}

abbrev among : Bytes → List Bytes → Bool
among k [] = false
among k (i ∷ is) = eq_bytes i k || among k is

pids_of-cleanup_ids :
    (alive : ℕ → Bool) (ids : List Bytes) (t : Tracker) (k : Bytes)
    → pids_of k (cleanup_ids alive t ids)
      ≡ (if among k ids then keep_if (is_alive alive) (pids_of k t) else pids_of k t)
unfolding cleanup_ids
pids_of-cleanup_ids alive [] t k = refl
pids_of-cleanup_ids alive (id ∷ ids) t k =
    pids_of-cleanup_ids alive ids (cleanup_locked alive t id).0 k
    ∙ ground
        (arith, pids_of-cleanup_locked alive t id k, keep_if_idem (is_alive alive) (pids_of k t))

not_among : (k : Bytes) (t : Tracker) → among k (keys t) ≡ false → pids_of k t ≡ []
unfolding pids_of lookup keys
not_among k [] h = refl
not_among k ((j, ps) ∷ t) h = ground (arith, not_among k t)

-- After `Cleanup` every id has exactly its live pids, in the order of their registration.
pids_of-cleanup :
    (alive : ℕ → Bool) (t : Tracker) (k : Bytes)
    → pids_of k (cleanup alive t) ≡ keep_if (is_alive alive) (pids_of k t)
unfolding cleanup
pids_of-cleanup alive t k = pids_of-cleanup_ids alive (keys t) t k ∙ ground (arith, not_among k t)

nonempty-keep_if : (p : ℕ → Bool) (src : List ℕ) → nonempty (keep_if p src) ≡ any_of p src
nonempty-keep_if p [] = refl
nonempty-keep_if p (x ∷ src) = ground (arith, nonempty-keep_if p src)

-- `Alive` says of an id whether one of its pids is alive.
pub check_alive-any_of :
    (alive : ℕ → Bool) (t : Tracker) (id : Bytes)
    → (check_alive alive t id).1 ≡ any_of (is_alive alive) (pids_of id t)
unfolding check_alive pids_of
check_alive-any_of alive t id = elim (Option-cases (lookup id t)) [
  | inl e ↦ ground arith
  | inr (src, e) ↦ ground (arith, nonempty-keep_if (is_alive alive) src)
]

-- What stands in front of the first occurrence of a pid, and what stands behind it.
abbrev up_to : ℕ → List ℕ → List ℕ
up_to pid [] = []
up_to pid (p ∷ ps) = if p == pid then [] else p ∷ up_to pid ps

abbrev behind : ℕ → List ℕ → List ℕ
behind pid [] = []
behind pid (p ∷ ps) = if p == pid then ps else behind pid ps

remove_pid_lem : (pid : ℕ) (ps : List ℕ) → remove_pid pid ps ≡ up_to pid ps ++ behind pid ps
unfolding remove_pid
remove_pid_lem pid [] = refl
remove_pid_lem pid (p ∷ ps) = ground (arith, remove_pid_lem pid ps)

-- The specification: a list of pids for each id, and what each call does to it.
abbrev after_event : (Bytes → List ℕ) → Event → Bytes → List ℕ
after_event f (registers id pid) k = if eq_bytes id k then f k ++ pid ∷ [] else f k
after_event f (forgets id pid) k =
    if eq_bytes id k then up_to pid (f k) ++ behind pid (f k) else f k
after_event f (checks alive id) k = if eq_bytes id k then keep_if (is_alive alive) (f k) else f k
after_event f (cleans alive) k = keep_if (is_alive alive) (f k)

abbrev pub after_events : (Bytes → List ℕ) → List Event → Bytes → List ℕ
after_events f [] = f
after_events f (e ∷ es) = after_events (after_event f e) es

-- The pids of every id.
abbrev pub table : Tracker → Bytes → List ℕ
table t k = pids_of k t

step-table : (t : Tracker) (e : Event) (k : Bytes) → table (step t e) k ≡ after_event (table t) e k
unfolding step check_alive
step-table t (registers id pid) k = pids_of-register t id k pid
step-table t (forgets id pid) k =
    pids_of-forget t id k pid ∙ rw (remove_pid_lem pid (pids_of k t)) refl
step-table t (checks alive id) k = pids_of-cleanup_locked alive t id k
step-table t (cleans alive) k = pids_of-cleanup alive t k

-- After any calls, with processes that die in between as they please, the tracker holds for each id
-- the pids that were registered under it, in that order, without those forgotten, each call of
-- which removes the first occurrence of the pid and no other, and those found dead by a check of the id or by a cleanup.
pub run-table : (es : List Event) (t : Tracker) → table (run t es) ≡ after_events (table t) es
unfolding run
run-table [] t = refl
run-table (e ∷ es) t = run-table es (step t e) ∙ rw (fun_ext (step-table t e))

-- No id stands in the map with an empty list.
abbrev NoEmpty : Tracker → Type 0
NoEmpty = AllPairs (λ k ps. ps ≢ [])

put_back-NoEmpty : (t : Tracker) (id : Bytes) (ps : List ℕ) → NoEmpty t → NoEmpty (put_back t id ps)
unfolding put_back
put_back-NoEmpty t id [] h = delete-AllPairs _ id t h
put_back-NoEmpty t id (p ∷ ps) h = insert-AllPairs _ id (p ∷ ps) t (λ e. cc e) h

cleanup_locked-NoEmpty :
    (alive : ℕ → Bool) (t : Tracker) (id : Bytes)
    → NoEmpty t
    → NoEmpty (cleanup_locked alive t id).0
unfolding cleanup_locked
cleanup_locked-NoEmpty alive t id h = elim (Option-cases (lookup id t)) [
  | inl e ↦ rw (e, cleanup_locked) h
  | inr (src, e) ↦ rw (e, cleanup_locked) (put_back-NoEmpty t id _ h)
]

cleanup_ids-NoEmpty :
    (alive : ℕ → Bool) (ids : List Bytes) (t : Tracker)
    → NoEmpty t
    → NoEmpty (cleanup_ids alive t ids)
unfolding cleanup_ids
cleanup_ids-NoEmpty alive [] t h = h
cleanup_ids-NoEmpty alive (id ∷ ids) t h =
    cleanup_ids-NoEmpty alive ids _ (cleanup_locked-NoEmpty alive t id h)

step-NoEmpty : (t : Tracker) (e : Event) → NoEmpty t → NoEmpty (step t e)
unfolding step check_alive register forget cleanup
step-NoEmpty t (registers id pid) h = insert-AllPairs _ id _ t (concat-ne-nil pid (pids_of id t)) h
step-NoEmpty t (forgets id pid) h = elim (Option-cases (lookup id t)) [
  | inl e ↦ rw (e, forget) h
  | inr (src, e) ↦ rw (e, forget) (put_back-NoEmpty t id _ h)
]
step-NoEmpty t (checks alive id) h = cleanup_locked-NoEmpty alive t id h
step-NoEmpty t (cleans alive) h = cleanup_ids-NoEmpty alive (keys t) t h

-- No history of calls leaves an id with an empty list of pids in the map.
run-NoEmpty : (es : List Event) (t : Tracker) → NoEmpty t → NoEmpty (run t es)
unfolding run
run-NoEmpty [] t h = h
run-NoEmpty (e ∷ es) t h = run-NoEmpty es (step t e) (step-NoEmpty t e h)
