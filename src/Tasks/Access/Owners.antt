-- ===== src/Tasks/Access/Owners.antt =====
-- What the creator of a task finds, by packages/context-server/src/task-manager.ts.
use mokei.Common.{
  ℕ, ◌≡◌, refl, sym, ap, ◌∙◌, String, Option, none, some, List, [], ◌∷◌, Bool, true, false, not,
  ◌||◌, if◌then◌else◌, string_key, arith, ◌===◌,
}
use mokei.Common.OrderedMap.{get, set, has, delete, get-set}
use mokei.Tasks.Record.{TaskRecord, TaskOwner, matches_owner, includes, every_in, same_issuer}
use mokei.Tasks.Store.{TaskStore, remove, created, refuses_new, create, StoreError}
use mokei.Tasks.Manager.{visible, visible_as, is_expired}
use mokei.Tasks.Access.{NewTask, new_record, create_task}

===_refl : (a : String) → a === a ≡ true
===_refl a = ground arith

same_issuer_refl : (o : Option String) → same_issuer o o ≡ true
unfolding same_issuer
same_issuer_refl none = refl
same_issuer_refl (some a) = ===_refl a

every_in-cons :
    (ss ts : List String) (t : String) → every_in ss ts ≡ true → every_in ss (t ∷ ts) ≡ true
unfolding every_in includes
every_in-cons [] ts t h = refl
every_in-cons (s ∷ ss) ts t h = ground (arith, every_in-cons ss ts t)

every_in_refl : (ss : List String) → every_in ss ss ≡ true
unfolding every_in includes
every_in_refl [] = refl
every_in_refl (s ∷ ss) = ground (arith, every_in-cons ss ss s, every_in_refl ss)

-- An owner is its own.
matches_owner_refl : (o : Option TaskOwner) → matches_owner o o ≡ true
unfolding matches_owner
matches_owner_refl none = refl
matches_owner_refl (some o) =
    ground (arith, same_issuer_refl o.issuer, ===_refl o.subject, every_in_refl o.scopes)

created_is :
    (b : Bool) (e : StoreError) (t s : TaskStore)
    → (if b then refuses_new e else created t) ≡ created s
    → t ≡ s
created_is true e t s h = cc
created_is false e t s h = cc

get-set_same :
    (records : TaskStore) (id : String) (r : TaskRecord) → get (set records id r) id ≡ some r
get-set_same records id r = ground (arith, get-set records id id r)

-- Where a task was created, its creator finds it as it was created, until it expires and unless it
-- is hidden.
pub creator_finds :
    (records s : TaskStore) (ttl_ms : Option ℕ) (poll now later : ℕ) (task : NewTask)
    (hidden : List String)
    → create_task records ttl_ms poll now task ≡ created s
    → includes hidden task.task_id ≡ false
    → is_expired later (new_record ttl_ms poll now task) ≡ false
    → visible s hidden later task.task_id task.owner ≡ (s, some (new_record ttl_ms poll now task))
unfolding create_task create visible visible_as new_record remove
creator_finds records s ttl_ms poll now later task hidden h i e =
    let r = new_record ttl_ms poll now task in
    let id = task.task_id in
    let p : set records id r ≡ s = created_is (has records id) _ (set records id r) s h in
    ap (visible_as s hidden later id task.owner)
      (ap (λ t. get t id) (sym p) ∙ get-set_same records id r)
    ∙ ap
        (λ b.
          if b
          then (delete s id, none)
          else if includes hidden id || not (matches_owner task.owner task.owner)
          then (s, none)
          else (s, some r))
        e
    ∙ ap (λ b. if b then (s, none) else (s, some r))
        (ap (λ b. b || not (matches_owner task.owner task.owner)) i
          ∙ ap not (matches_owner_refl task.owner))
