-- ===== src/Tasks/Manager/Atomic.antt =====
-- What it means for `#mutate` to be atomic, and the rounds of it that a store refuses.
use mokei.Common.{
  ℕ, suc, ◌≡◌, refl, sym, ap, ◌∙◌, max, String, Option, none, some, List, [], ◌∷◌, ◌++◌, string_key,
}
use mokei.Common.OrderedMap.{get, set}
use mokei.Tasks.Record.{TaskRecord}
use mokei.Tasks.Changes.{Change, unchanged, patched, raises}
use mokei.Tasks.Store.{TaskStore, StoreError, not_found, already_exists, conflict, refuses}
use mokei.Tasks.Manager.{
  Call, interfere, interfere_each, Round, Mutated, gone, kept, wrote, throws, store_fails, retries,
  refused_as, write_as,
}

-- The store `s` is `records` after some calls of other clients.
abbrev pub After : TaskStore → TaskStore → Type 0
After records s = (calls : List Call) × (s ≡ interfere_each records calls)

-- A write of the change made of the record `before`, as it stood in the store `was`.
pub record IsCommit (id : String) (change : TaskRecord → Change) (was s : TaskStore)
    (q : TaskRecord) : Type 0 where
  pub before : TaskRecord
  pub patch : TaskRecord → TaskRecord
  pub now : ℕ
  pub found : get was id ≡ some before
  pub decided : change before ≡ patched patch
  pub result : q ≡ record (patch before) {
    task_id = id;
    revision = suc before.revision;
    last_updated_at = max now (suc before.last_updated_at);
  }
  pub stored : s ≡ set was id q

-- What a result of `#mutate` on the store `records` says.
abbrev pub IsAtomic : String → (TaskRecord → Change) → TaskStore → TaskStore → Mutated → Type 0
IsAtomic id change records s gone = After records s × (get s id ≡ none)
IsAtomic id change records s (kept r) =
    After records s × ((get s id ≡ some r) × (change r ≡ unchanged))
IsAtomic id change records s (wrote q) =
    (was : TaskStore) × (After records was × IsCommit id change was s q)
IsAtomic id change records s (throws e) =
    After records s × ((r : TaskRecord) × ((get s id ≡ some r) × (change r ≡ raises e)))
IsAtomic id change records s (store_fails e) = After records s
IsAtomic id change records s retries = After records s

abbrev pub IsAtomicRound :
    String → (TaskRecord → Change) → TaskStore → TaskStore → Option Mutated → Type 0
IsAtomicRound id change records s none = After records s
IsAtomicRound id change records s (some m) = IsAtomic id change records s m

interfere_each-append :
    (records : TaskStore) (xs ys : List Call)
    → interfere_each records (xs ++ ys) ≡ interfere_each (interfere_each records xs) ys
unfolding interfere_each
interfere_each-append records [] ys = refl
interfere_each-append records (c ∷ xs) ys = interfere_each-append (interfere records c) xs ys

After-trans : (a b c : TaskStore) → After a b → After b c → After a c
After-trans a b c (xs, p) (ys, q) =
    (xs ++ ys, q ∙ ap (λ s. interfere_each s ys) p ∙ sym (interfere_each-append a xs ys))

pub IsAtomic-After :
    (id : String) (change : TaskRecord → Change) (a b s : TaskStore) (m : Mutated)
    → After a b
    → IsAtomic id change b s m
    → IsAtomic id change a s m
IsAtomic-After id change a b s gone f (p, g) = (After-trans a b s f p, g)
IsAtomic-After id change a b s (kept r) f (p, g) = (After-trans a b s f p, g)
IsAtomic-After id change a b s (wrote q) f (was, (p, g)) = (was, (After-trans a b was f p, g))
IsAtomic-After id change a b s (throws e) f (p, g) = (After-trans a b s f p, g)
IsAtomic-After id change a b s (store_fails e) f p = After-trans a b s f p
IsAtomic-After id change a b s retries f p = After-trans a b s f p

pub IsAtomicRound-After :
    (id : String) (change : TaskRecord → Change) (a b s : TaskStore) (o : Option Mutated)
    → After a b
    → IsAtomicRound id change b s o
    → IsAtomicRound id change a s o
IsAtomicRound-After id change a b s none f p = After-trans a b s f p
IsAtomicRound-After id change a b s (some m) f p = IsAtomic-After id change a b s m f p

refused_as-IsAtomicRound :
    (id : String) (change : TaskRecord → Change) (t : TaskStore) (e : StoreError)
    (o : Option TaskRecord)
    → get t id ≡ o
    → IsAtomicRound id change t t (refused_as e o)
unfolding refused_as interfere_each
refused_as-IsAtomicRound id change t e none h = (([], refl), h)
refused_as-IsAtomicRound id change t conflict (some r) h = ([], refl)
refused_as-IsAtomicRound id change t (not_found key) (some r) h = ([], refl)
refused_as-IsAtomicRound id change t (already_exists key) (some r) h = ([], refl)

pub refuses-IsAtomicRound :
    (id : String) (change : TaskRecord → Change) (records m : TaskStore) (round : Round)
    (e : StoreError)
    → After records m
    → IsAtomicRound id change records
        (write_as round id m (refuses e)).0
        (write_as round id m (refuses e)).1
unfolding write_as
refuses-IsAtomicRound id change records m round e a =
    let t = interfere_each m round.after in
    IsAtomicRound-After id change records t t (refused_as e (get t id))
      (After-trans records m t a (round.after, refl))
      (refused_as-IsAtomicRound id change t e (get t id) refl)
