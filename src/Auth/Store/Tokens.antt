-- ===== src/Auth/Store/Tokens.antt =====
-- Which tokens a store accepts.
use remote_app_start_my_linu.Prelude.{
  Option, none, ℕ, Bytes, eq_bytes, eq_bytes_iff, Bool, true, false, if◌then◌else◌, List, [], ◌∷◌,
  some, ◌≡◌, ◌≢◌, refl, arith, inl, inr, Bool-cases, Option-cases, ◌∙◌, ◌↔◌, fun_ext, All,
}
use remote_app_start_my_linu.Prelude.Assoc.{
  lookup, insert, delete, has, lookup-insert, lookup-delete,
}
use remote_app_start_my_linu.Prelude.Assoc.Distinct.{
  Distinct, insert-Distinct, delete-Distinct, AllPairs, insert-AllPairs, delete-AllPairs,
  lookup-AllPairs,
}
use remote_app_start_my_linu.Auth.Store.{
  TokenInfo, Store, Server, Write, Pending, persist_snapshot, add_locked, add, revoke_locked,
  revoke, validate, Call, adds, revokes, validates, step, run,
}

-- Each token stands under its own hash, which is not empty.
abbrev pub Keyed : Bytes → TokenInfo → Type 0
Keyed k i = (i.hash ≡ k) × (k ≢ [])

pub record IsValid (s : Store) : Type 0 where
  pub distinct : Distinct s.tokens
  pub keyed : AllPairs Keyed s.tokens

-- The write of a snapshot leaves the store alone.
persist_snapshot-store :
    (w : Write) (p : Option Pending) (v : Server) → (persist_snapshot w p v).store ≡ v.store
unfolding persist_snapshot
persist_snapshot-store w none v = refl
persist_snapshot-store w (some p) v = refl

add-store :
    (w : Write) (v : Server) (i : TokenInfo)
    → (add w v i).store ≡ (
        if has i.hash v.store.tokens
        then v.store
        else record v.store { tokens = insert i.hash i v.store.tokens })
unfolding add add_locked
add-store w v i = persist_snapshot-store w (add_locked v i).1 (add_locked v i).0 ∙ ground arith

revoke-store :
    (w : Write) (v : Server) (h : Bytes)
    → (revoke w v h).store ≡ (
        if has h v.store.tokens
        then record v.store { tokens = delete h v.store.tokens }
        else v.store)
unfolding revoke revoke_locked
revoke-store w v h =
    persist_snapshot-store w (revoke_locked v h).1 (revoke_locked v h).0 ∙ ground arith

-- The specification: a set of hashes, and what each call does to it.
abbrev after_call : (Bytes → Bytes) → (Bytes → Bool) → Call → Bytes → Bool
after_call hash live (adds w i) k = if eq_bytes i.hash k then true else live k
after_call hash live (revokes w h) k = if eq_bytes h k then false else live k
after_call hash live (validates plaintext now) k = live k

abbrev pub after_calls : (Bytes → Bytes) → (Bytes → Bool) → List Call → Bytes → Bool
after_calls hash live [] = live
after_calls hash live (c ∷ cs) = after_calls hash (after_call hash live c) cs

-- The hashes that a store holds.
abbrev pub holds : Server → Bytes → Bool
holds v k = has k v.store.tokens

pub add-holds :
    (w : Write) (v : Server) (i : TokenInfo) (k : Bytes)
    → holds (add w v i) k ≡ (if eq_bytes i.hash k then true else holds v k)
add-holds w v i k =
    rw (add-store w v i)
      (ground (arith, lookup-insert i.hash k i v.store.tokens, eq_bytes_iff i.hash k))

revoke-holds :
    (w : Write) (v : Server) (h k : Bytes)
    → holds (revoke w v h) k ≡ (if eq_bytes h k then false else holds v k)
revoke-holds w v h k =
    rw (revoke-store w v h) (ground (arith, lookup-delete h k v.store.tokens, eq_bytes_iff h k))

validate-holds :
    (hash : Bytes → Bytes) (s : Store) (plaintext : Bytes) (now : ℕ) (k : Bytes)
    → has k (validate hash s plaintext now).0.tokens ≡ has k s.tokens
unfolding validate
validate-holds hash s plaintext now k = elim (Option-cases (lookup (hash plaintext) s.tokens)) [
  | inl e ↦ ground arith
  | inr (i, e) ↦ ground (
    arith,
    lookup-insert (hash plaintext) k (record i { last_seen = now }) s.tokens,
    eq_bytes_iff (hash plaintext) k,
  )
]

step-holds :
    (hash : Bytes → Bytes) (v : Server) (c : Call) (k : Bytes)
    → holds (step hash v c) k ≡ after_call hash (holds v) c k
unfolding step
step-holds hash v (adds w i) k = add-holds w v i k
step-holds hash v (revokes w h) k = revoke-holds w v h k
step-holds hash v (validates plaintext now) k = validate-holds hash v.store plaintext now k

-- After any calls the store holds exactly the hashes that the specification has: those that it held
-- or that were added and not revoked since, whatever the disk did meanwhile.
pub run-holds :
    (hash : Bytes → Bytes) (cs : List Call) (v : Server)
    → holds (run hash v cs) ≡ after_calls hash (holds v) cs
unfolding run
run-holds hash [] v = refl
run-holds hash (c ∷ cs) v = run-holds hash cs (step hash v c) ∙ rw (fun_ext (step-holds hash v c))

-- `Validate` accepts a token exactly if the store holds its hash, and then reports the time of the
-- call as the time last seen.
validate_iff :
    (hash : Bytes → Bytes) (s : Store) (plaintext : Bytes) (now : ℕ)
    → ((has (hash plaintext) s.tokens ≡ true)
        ↔ ((i : TokenInfo) × ((validate hash s plaintext now).1 ≡ some i) × (i.last_seen ≡ now)))
unfolding validate
validate_iff hash s plaintext now = elim (Option-cases (lookup (hash plaintext) s.tokens)) [
  | inl e ↦ (λ h. absurd (ground arith), λ (i, h, _). absurd (ground arith))
  | inr (i, e) ↦ (λ h. (record i { last_seen = now }, ground arith, refl), λ _. ground arith)
]

-- A call adds no token with an empty hash.
abbrev Proper : Call → Type 0
Proper (adds w i) = i.hash ≢ []
Proper _ = Unit

add-IsValid :
    (w : Write) (v : Server) (i : TokenInfo)
    → i.hash ≢ []
    → IsValid v.store
    → IsValid (add w v i).store
add-IsValid w v i ne h = rw (add-store w v i) (elim (Bool-cases (has i.hash v.store.tokens)) [
  | inl e ↦ rw e h
  | inr e ↦ rw e (record {
    distinct = insert-Distinct i.hash i v.store.tokens h.distinct;
    keyed = insert-AllPairs Keyed i.hash i v.store.tokens (refl, ne) h.keyed;
  })
])

revoke-IsValid :
    (w : Write) (v : Server) (k : Bytes) → IsValid v.store → IsValid (revoke w v k).store
revoke-IsValid w v k h = rw (revoke-store w v k) (elim (Bool-cases (has k v.store.tokens)) [
  | inr e ↦ rw e h
  | inl e ↦ rw e (record {
    distinct = delete-Distinct k v.store.tokens h.distinct;
    keyed = delete-AllPairs Keyed k v.store.tokens h.keyed;
  })
])

validate-IsValid :
    (hash : Bytes → Bytes) (s : Store) (plaintext : Bytes) (now : ℕ)
    → IsValid s
    → IsValid (validate hash s plaintext now).0
unfolding validate
validate-IsValid hash s plaintext now h = elim (Option-cases (lookup (hash plaintext) s.tokens)) [
  | inl e ↦ rw (e, validate) h
  | inr (i, e) ↦
      let own = lookup-AllPairs Keyed (hash plaintext) i s.tokens h.keyed e in
      rw (e, validate)
        (record {
          distinct = insert-Distinct (hash plaintext) _ s.tokens h.distinct;
          keyed =
              insert-AllPairs Keyed (hash plaintext) (record i { last_seen = now }) s.tokens own
                h.keyed;
        })
]

-- Every run of calls that add no token with an empty hash keeps each token under its own hash, and
-- each hash once.
run-IsValid :
    (hash : Bytes → Bytes) (cs : List Call) (v : Server)
    → All Proper cs
    → IsValid v.store
    → IsValid (run hash v cs).store
unfolding run step
run-IsValid hash [] v p h = h
run-IsValid hash (adds w i ∷ cs) v p h = run-IsValid hash cs _ p.1 (add-IsValid w v i p.0 h)
run-IsValid hash (revokes w k ∷ cs) v p h = run-IsValid hash cs _ p.1 (revoke-IsValid w v k h)
run-IsValid hash (validates t now ∷ cs) v p h =
    run-IsValid hash cs _ p.1 (validate-IsValid hash v.store t now h)
