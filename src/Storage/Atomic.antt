-- ===== src/Storage/Atomic.antt =====
-- A write replaces the file whole or leaves it alone, at every moment.
use remote_app_start_my_linu.Prelude.{
  Bytes, eq_bytes_iff, Bool, true, false, not, if◌then◌else◌, List, [], ◌∷◌, none, some, ok, err,
  ◌≡◌, ◌≢◌, refl, ◌⊎◌, inl, inr, arith, All, Bool-cases,
}
use remote_app_start_my_linu.Prelude.Assoc.{lookup, insert, delete, lookup-insert, lookup-delete}
use remote_app_start_my_linu.Storage.{
  Content, blank, garbage, json, Disk, Grants, WriteError, Outcome, abort_write, cleanup,
  write_tokens_file, write_atomic,
}

-- What a write may do to the disk `d`: every state that it passes through shows the target as it was;
-- at the end the target holds the new document if the write succeeds, and is as it was if it fails;
-- no other file changes; and no temporary file is left if the removal of one is granted.
pub record IsAtomic {A : Type 0} (g : Grants) (tmp path : Bytes) (a : A) (d : Disk A)
    (o : Outcome A) : Type 0 where
  pub passed_old : All (λ e. lookup path e ≡ lookup path d) o.passed
  pub decided :
      ((o.result ≡ ok tt) × (lookup path o.final ≡ some (json a)))
      ⊎ ((e : WriteError) × (o.result ≡ err e) × (lookup path o.final ≡ lookup path d))
  pub others : (k : Bytes) → k ≢ path → k ≢ tmp → lookup k o.final ≡ lookup k d
  pub no_temporary : g.removes ≡ true → lookup tmp o.final ≡ none

module _ {A : Type 0} (g : Grants) (tmp path : Bytes) (a : A) (d : Disk A) (apart : tmp ≢ path)
    (fresh : lookup tmp d ≡ none) where
  -- A state in which only the temporary file differs.
  record Staged (e : Disk A) : Type 0 where
    target : lookup path e ≡ lookup path d
    rest : (k : Bytes) → k ≢ tmp → lookup k e ≡ lookup k d

  start : Staged d
  start = record { target = refl; rest = λ k _. refl }

  stage : (c : Content A) (e : Disk A) → Staged e → Staged (insert tmp c e)
  stage c e s = record {
    target = ground (arith, lookup-insert tmp path c e, eq_bytes_iff tmp path, s.target);
    rest = λ k ne. ground (arith, lookup-insert tmp k c e, eq_bytes_iff tmp k, s.rest k ne);
  }

  unstage : (e : Disk A) → Staged e → Staged (delete tmp e)
  unstage e s = record {
    target = ground (arith, lookup-delete tmp path e, eq_bytes_iff tmp path, s.target);
    rest = λ k ne. ground (arith, lookup-delete tmp k e, eq_bytes_iff tmp k, s.rest k ne);
  }

  abort-IsAtomic : (x : WriteError) → IsAtomic g tmp path a d (abort_write g tmp [] d x)
  abort-IsAtomic x = record {
    passed_old = tt;
    decided = inr (x, refl, refl);
    others = λ k _ _. refl;
    no_temporary = λ _. fresh;
  }

  cleanup-IsAtomic :
      (passed : List (Disk A)) (e : Disk A) (x : WriteError)
      → All (λ e. lookup path e ≡ lookup path d) passed
      → Staged e
      → IsAtomic g tmp path a d (cleanup g tmp passed e x)
  cleanup-IsAtomic passed e x p s = elim (Bool-cases g.removes) [
    | inl yes' ↦ record {
      passed_old = p;
      decided = inr (x, refl, rw yes' (unstage e s).target);
      others = λ k _ ne. rw yes' ((unstage e s).rest k ne);
      no_temporary = λ _. rw yes' (ground (arith, lookup-delete tmp tmp e, eq_bytes_iff tmp tmp));
    }
    | inr no' ↦ record {
      passed_old = p;
      decided = inr (x, refl, rw no' s.target);
      others = λ k _ ne. rw no' (s.rest k ne);
      no_temporary = λ yes'. absurd (ground arith);
    }
  ]

  commit-IsAtomic :
      (passed : List (Disk A)) (e : Disk A)
      → All (λ e. lookup path e ≡ lookup path d) passed
      → Staged e
      → IsAtomic g tmp path a d
          (record { passed = passed; final = insert path (json a) (delete tmp e); result = ok tt })
  commit-IsAtomic passed e p s =
      let gone = delete tmp e in
      record {
        passed_old = p;
        decided =
            inl
              (refl, ground (arith, lookup-insert path path (json a) gone, eq_bytes_iff path path));
        others = λ k np nt. ground (
          arith,
          lookup-insert path k (json a) gone,
          eq_bytes_iff path k,
          (unstage e s).rest k nt,
        );
        no_temporary = λ _. ground (
          arith,
          lookup-insert path tmp (json a) gone,
          lookup-delete tmp tmp e,
          eq_bytes_iff path tmp,
          eq_bytes_iff tmp tmp,
        );
      }

  abbrev created : Disk A
  created = insert tmp blank d

  abbrev with_temporary : Content A → Disk A
  with_temporary c = insert tmp c created

  with_temporary-Staged : (c : Content A) → Staged (with_temporary c)
  with_temporary-Staged c = stage c created (stage blank d start)

  passed-old :
      (c : Content A)
      → All (λ e. lookup path e ≡ lookup path d) (d ∷ created ∷ with_temporary c ∷ [])
  passed-old c = (refl, ((stage blank d start).target, ((with_temporary-Staged c).target, tt)))

  fail-IsAtomic :
      (c : Content A) (x : WriteError)
      → IsAtomic g tmp path a d
          (cleanup g tmp (d ∷ created ∷ with_temporary c ∷ []) (with_temporary c) x)
  fail-IsAtomic c x = cleanup-IsAtomic _ _ x (passed-old c) (with_temporary-Staged c)

  either :
      (b : Bool) {x y : Outcome A}
      → IsAtomic g tmp path a d x
      → IsAtomic g tmp path a d y
      → IsAtomic g tmp path a d (if b then x else y)
  either true p q = p
  either false p q = q

  -- The token store replaces its file whole or not at all, at every moment of a write and whatever
  -- the operating system refuses, if the temporary file has a name of its own.
  pub write_tokens_file-IsAtomic : IsAtomic g tmp path a d (write_tokens_file g tmp path a d)
  unfolding write_tokens_file
  write_tokens_file-IsAtomic = either (not g.mkdirs) (abort-IsAtomic _) (
      either (not g.marshals) (abort-IsAtomic _) (
        either (not g.creates) (abort-IsAtomic _) (
          either (not g.writes) (fail-IsAtomic garbage _) (
            either (not g.chmods) (fail-IsAtomic (json a) _) (
              either (not g.syncs) (fail-IsAtomic (json a) _) (
                either (not g.closes) (fail-IsAtomic (json a) _) (
                  either (not g.renames) (fail-IsAtomic (json a) _) (
                    commit-IsAtomic _ _ (passed-old (json a))
                      (with_temporary-Staged (json a))))))))))

  -- The visibility store and the shortcut store replace their files whole or not at all, at every
  -- moment of a write and whatever the operating system refuses, if the temporary file has a name of
  -- its own.
  pub write_atomic-IsAtomic : IsAtomic g tmp path a d (write_atomic g tmp path a d)
  unfolding write_atomic
  write_atomic-IsAtomic = either (not g.mkdirs) (abort-IsAtomic _) (
      either (not g.marshals) (abort-IsAtomic _) (
        either (not g.creates) (abort-IsAtomic _) (
          either (not g.writes) (fail-IsAtomic garbage _) (
            either (not g.chmods) (fail-IsAtomic (json a) _) (
              either (not g.closes) (fail-IsAtomic (json a) _) (
                either (not g.renames) (fail-IsAtomic (json a) _)
                  (commit-IsAtomic _ _ (passed-old (json a)) (with_temporary-Staged (json a)))))))))
