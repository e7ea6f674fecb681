-- ===== src/Auth/Store/Restart.antt =====
-- What a server that is started again finds in its file.
use remote_app_start_my_linu.Prelude.{
  Bytes, is_empty, true, if◌then◌else◌, List, [], ◌∷◌, ◌++◌, none, some, Result, ok, ◌≡◌, ◌≢◌, refl,
  inl, inr, ap, ◌∙◌, sym, append_assoc, append-nil, subst,
}
use remote_app_start_my_linu.Prelude.Assoc.{lookup, insert, values}
use remote_app_start_my_linu.Prelude.Assoc.Distinct.{
  Distinct, Distinct-middle, AllPairs, insert_new,
}
use remote_app_start_my_linu.Storage.{json, WriteError}
use remote_app_start_my_linu.Storage.Atomic.{write_tokens_file-IsAtomic}
use remote_app_start_my_linu.Auth.Store.{
  TokenInfo, Store, Server, Write, snapshot, index_tokens, save_to, load,
}
use remote_app_start_my_linu.Auth.Store.Tokens.{Keyed, IsValid}

insert_own :
    (k : Bytes) (i : TokenInfo) (m : List (Bytes × TokenInfo))
    → i.hash ≡ k
    → k ≢ []
    → lookup k m ≡ none
    → (if is_empty i.hash then m else insert i.hash i m) ≡ m ++ (k, i) ∷ []
insert_own [] i m own ne new = absurd (ne refl)
insert_own (c ∷ k) i m own ne new = simp own (insert_new (c ∷ k) i m new)

index_tokens-values :
    (m n : List (Bytes × TokenInfo))
    → Distinct (m ++ n)
    → AllPairs Keyed n
    → index_tokens m (values n) ≡ m ++ n
unfolding index_tokens values
index_tokens-values m [] d a = sym (append-nil m)
index_tokens-values m ((k, i) ∷ n) d ((own, ne), a) =
    rw (insert_own k i m own ne (Distinct-middle k i m n d), index_tokens)
      (index_tokens-values (m ++ (k, i) ∷ []) n (rw append_assoc d) a ∙ append_assoc m _ n)

-- `Load` of what was saved gives the same tokens again.
index_tokens-snapshot : (s : Store) → IsValid s → index_tokens [] (snapshot s) ≡ s.tokens
unfolding snapshot
index_tokens-snapshot s v = index_tokens-values [] s.tokens v.distinct v.keyed

load-json :
    (v : Server) (path : Bytes) (infos : List TokenInfo)
    → lookup path v.disk ≡ some (json infos)
    → load true v path ≡ ok (record v { store = record v.store { tokens = index_tokens [] infos } })
unfolding load
load-json v path infos h = rw (h, load)

-- A store that loads the file that `SaveTo` wrote holds the tokens of the saved one.
pub load-saved :
    (w : Write) (v v' u : Server) (path : Bytes)
    → IsValid v.store
    → w.tmp ≢ path
    → lookup w.tmp v.disk ≡ none
    → save_to w v path ≡ (v', ok tt)
    → u.disk ≡ v'.disk
    → load true u path ≡ ok (record u { store = record u.store { tokens = v.store.tokens } })
unfolding save_to
load-saved w v v' u path valid apart unused saved same =
    let atomic =
      write_tokens_file-IsAtomic w.grants w.tmp path (snapshot v.store) v.disk apart unused in
    let same_disk = ap (λ (x : Server × Result WriteError (Unit {0})). x.0.disk) saved in
    let succeeded = ap (λ (x : Server × Result WriteError (Unit {0})). x.1) saved in
    elim atomic.decided [
      | inr (e, failed, _) ↦ absurd (cc (sym succeeded ∙ failed))
      | inl (_, held) ↦
          load-json u path (snapshot v.store) (
            subst (λ d. lookup path d ≡ some (json (snapshot v.store))) (same_disk ∙ sym same) held)
          ∙ rw (index_tokens-snapshot v.store valid)
    ]

-- If `SaveTo` succeeds, a store that loads the file holds the same tokens with the same data,
-- provided that the saved store is well-formed and the temporary file has a name of its own.
load-save_to :
    (w : Write) (v v' : Server) (path : Bytes)
    → IsValid v.store
    → w.tmp ≢ path
    → lookup w.tmp v.disk ≡ none
    → save_to w v path ≡ (v', ok tt)
    → (fresh : Store)
    → load true (record v' { store = fresh }) path
      ≡ ok (record v' { store = record fresh { tokens = v.store.tokens } })
load-save_to w v v' path valid apart unused saved fresh =
    load-saved w v v' (record v' { store = fresh }) path valid apart unused saved refl
