-- ===== src/Tasks/Manager/Revisions.antt =====
-- What other clients of the store may do to one task, packages/context-server/src/task-manager.ts: the ids stay
-- distinct, and revisions only grow.
use mokei.Common.{
  ℕ, suc, ◌<◌, ◌≡◌, ◌≢◌, refl, sym, ap, subst, ◌∙◌, ◌⊎◌, inl, inr, String, Option, none, some, List,
  [], ◌∷◌, Bool, true, false, if◌then◌else◌, string_key, ◌==◌, arith, ite,
}
use mokei.Common.OrderedMap.{
  get, has, set, delete, HasDistinctKeys, get-set, get-delete, set-HasDistinctKeys,
  delete-HasDistinctKeys,
}
use mokei.Tasks.Record.{TaskRecord}
use mokei.Tasks.Store.{
  TaskStore, already_exists, conflict, updated, refuses, create, update, patch_as, remove, created,
  refuses_new,
}
use mokei.Tasks.Manager.{
  Call, creates, updates, deletes, interfere, interfere_each, store_of, store_after,
}

-- Under one id, a store holds the record `r` or a later one, or none.

abbrev pub Later : TaskRecord → Option TaskRecord → Type 0
Later r none = Unit {0}
Later r (some q) = (q ≡ r) ⊎ (r.revision < q.revision)

-- Task ids are not used again: the others do not create the task `id`.
abbrev pub IsForeign : String → Call → Type 0
IsForeign id (creates r) = r.task_id ≢ id
IsForeign id (updates key patch expected) = Unit {0}
IsForeign id (deletes key) = Unit {0}

abbrev pub AreForeign : String → List Call → Type 0
AreForeign id [] = Unit {0}
AreForeign id (c ∷ calls) = IsForeign id c × AreForeign id calls

revision_lt :
    (r p q : TaskRecord) → Later r (some p) → p.revision < q.revision → r.revision < q.revision
revision_lt r p q (inl e) l = subst (λ x. x.revision < q.revision) e l
revision_lt r p q (inr m) l = omega arith

set-Later :
    (records : TaskStore) (key id : String) (r p q : TaskRecord)
    → get records key ≡ some p
    → p.revision < q.revision
    → Later r (get records id)
    → Later r (get (set records key q) id)
set-Later records key id r p q h l v =
    subst (Later r) (sym (get-set records key id q))
      (elim (string_key.decide key id) as (λ d. Later r (ite d (some q) (get records id))) [
        | yes e ↦ inr (revision_lt r p q (subst (Later r) (ap (get records) (sym e) ∙ h) v) l)
        | no n ↦ v
      ])

created-Later :
    (b : Bool) (records : TaskStore) (id : String) (r s : TaskRecord)
    → s.task_id ≢ id
    → Later r (get records id)
    → Later r (
        get
          (store_of records (
            if b
            then refuses_new (already_exists s.task_id)
            else created (set records s.task_id s)))
          id)
unfolding store_of
created-Later true records id r s n v = v
created-Later false records id r s n v =
    subst (Later r) (sym (get-set records s.task_id id s))
      (elim (string_key.decide s.task_id id) as (λ d. Later r (ite d (some s) (get records id))) [
        | yes e ↦ elim (n e) [ ]
        | no m ↦ v
      ])

create-Later :
    (records : TaskStore) (id : String) (r s : TaskRecord)
    → s.task_id ≢ id
    → Later r (get records id)
    → Later r (get (store_of records (create records s)) id)
unfolding create store_of
create-Later records id r s n v = created-Later (has records s.task_id) records id r s n v

delete-Later :
    (records : TaskStore) (key id : String) (r : TaskRecord)
    → HasDistinctKeys records
    → Later r (get records id)
    → Later r (get (delete records key) id)
delete-Later records key id r d v =
    subst (Later r) (sym (get-delete records key id d))
      (elim (string_key.decide key id) as (λ e. Later r (ite e none (get records id))) [
        | yes e ↦ tt
        | no n ↦ v
      ])

patched-Later :
    (b : Bool) (records : TaskStore) (key id : String) (r p q : TaskRecord)
    → get records key ≡ some p
    → q.revision ≡ suc p.revision
    → Later r (get records id)
    → Later r (
        get
          (store_after records (if b then updated (set records key q) q else refuses conflict))
          id)
unfolding store_after
patched-Later true records key id r p q h l v = set-Later records key id r p q h (omega arith) v
patched-Later false records key id r p q h l v = v

patch_as-Later :
    (records : TaskStore) (key id : String) (patch : TaskRecord → TaskRecord) (n : ℕ)
    (o : Option TaskRecord) (r : TaskRecord)
    → get records key ≡ o
    → Later r (get records id)
    → Later r (get (store_after records (patch_as records key patch n o)) id)
unfolding patch_as store_after
patch_as-Later records key id patch n none r h v = v
patch_as-Later records key id patch n (some p) r h v =
    patched-Later (p.revision == n) records key id r p
      (record (patch p) { task_id = key; revision = suc p.revision }) h refl v

interfere-Later :
    (records : TaskStore) (id : String) (r : TaskRecord) (c : Call)
    → HasDistinctKeys records
    → IsForeign id c
    → Later r (get records id)
    → Later r (get (interfere records c) id)
unfolding interfere update remove
interfere-Later records id r (creates s) d f v = create-Later records id r s f v
interfere-Later records id r (updates key patch n) d f v =
    patch_as-Later records key id patch n (get records key) r refl v
interfere-Later records id r (deletes key) d f v = delete-Later records key id r d v

created-HasDistinctKeys :
    (b : Bool) (records : TaskStore) (s : TaskRecord)
    → HasDistinctKeys records
    → HasDistinctKeys (
        store_of records
          (if b then refuses_new (already_exists s.task_id) else created (set records s.task_id s)))
unfolding store_of
created-HasDistinctKeys true records s d = d
created-HasDistinctKeys false records s d = set-HasDistinctKeys records s.task_id s d

patched-HasDistinctKeys :
    (records : TaskStore) (key : String) (patch : TaskRecord → TaskRecord) (n : ℕ)
    (o : Option TaskRecord)
    → HasDistinctKeys records
    → HasDistinctKeys (store_after records (patch_as records key patch n o))
unfolding patch_as store_after
patched-HasDistinctKeys records key patch n none d = d
patched-HasDistinctKeys records key patch n (some p) d = go (p.revision == n)
  where
    go :
        (b : Bool)
        → HasDistinctKeys (
            store_after records (
              if b
              then updated
                  (set records key (record (patch p) { task_id = key; revision = suc p.revision }))
                  (record (patch p) { task_id = key; revision = suc p.revision })
              else refuses conflict))
    go true = set-HasDistinctKeys records key _ d
    go false = d

interfere-HasDistinctKeys :
    (records : TaskStore) (c : Call)
    → HasDistinctKeys records
    → HasDistinctKeys (interfere records c)
unfolding interfere create update remove
interfere-HasDistinctKeys records (creates s) d =
    created-HasDistinctKeys (has records s.task_id) records s d
interfere-HasDistinctKeys records (updates key patch n) d =
    patched-HasDistinctKeys records key patch n (get records key) d
interfere-HasDistinctKeys records (deletes key) d = delete-HasDistinctKeys records key d

pub interfere_each-HasDistinctKeys :
    (records : TaskStore) (calls : List Call)
    → HasDistinctKeys records
    → HasDistinctKeys (interfere_each records calls)
unfolding interfere_each
interfere_each-HasDistinctKeys records [] d = d
interfere_each-HasDistinctKeys records (c ∷ calls) d =
    interfere_each-HasDistinctKeys (interfere records c) calls
      (interfere-HasDistinctKeys records c d)

pub interfere_each-Later :
    (records : TaskStore) (id : String) (r : TaskRecord) (calls : List Call)
    → HasDistinctKeys records
    → AreForeign id calls
    → Later r (get records id)
    → Later r (get (interfere_each records calls) id)
unfolding interfere_each
interfere_each-Later records id r [] d f v = v
interfere_each-Later records id r (c ∷ calls) d f v =
    interfere_each-Later (interfere records c) id r calls (interfere-HasDistinctKeys records c d)
      f.1 (interfere-Later records id r c d f.0 v)

-- Of one revision there is one record.
pub same_revision : (r q : TaskRecord) → Later r (some q) → q.revision ≡ r.revision → q ≡ r
same_revision r q (inl e) h = e
same_revision r q (inr l) h = ground arith
