-- ===== src/Tasks/Manager/Commits.antt =====
-- `#mutate` is atomic: whatever other clients do to the store meanwhile, its result is that of the change
-- made of the record at one moment.
use mokei.Common.{
  suc, ◌≡◌, refl, sym, ap, subst, ◌∙◌, inl, max, String, Option, none, some, List, [], ◌∷◌, Bool,
  true, false, if◌then◌else◌, string_key, ◌==◌, arith,
}
use mokei.Common.OrderedMap.{get, set, HasDistinctKeys}
use mokei.Tasks.Record.{TaskRecord}
use mokei.Tasks.Changes.{Change, unchanged, patched, raises}
use mokei.Tasks.Store.{TaskStore, not_found, conflict, updated, refuses, update, patch_as}
use mokei.Tasks.Manager.{
  interfere_each, Round, Mutated, stamped, write_as, write_change, read_as, attempt, mutate,
}
use mokei.Tasks.Manager.Revisions.{
  Later, AreForeign, interfere_each-HasDistinctKeys, interfere_each-Later, same_revision,
}
use mokei.Tasks.Manager.Atomic.{
  After, IsAtomic, IsAtomicRound, IsAtomic-After, IsAtomicRound-After, refuses-IsAtomicRound,
}

module _ (id : String) (change : TaskRecord → Change) (records : TaskStore) (round : Round)
    (r : TaskRecord) (patch : TaskRecord → TaskRecord) (decided : change r ≡ patched patch) where
  updated-IsAtomicRound :
      (m : TaskStore) (q : TaskRecord) (b : Bool)
      → (q.revision == r.revision) ≡ b
      → get m id ≡ some q
      → Later r (some q)
      → After records m
      → let u =
          (if b
            then updated
                (set m id (record (stamped round.now r patch q) {
                  task_id = id;
                  revision = suc q.revision;
                }))
                (record (stamped round.now r patch q) { task_id = id; revision = suc q.revision })
            else refuses conflict) in
        IsAtomicRound id change records (write_as round id m u).0 (write_as round id m u).1
  unfolding write_as stamped
  updated-IsAtomicRound m q false e h l a =
      refuses-IsAtomicRound id change records m round conflict a
  updated-IsAtomicRound m q true e h l a =
      let same : q ≡ r = same_revision r q l (ground arith) in
      (
        m,
        (
          a,
          record {
            before = q;
            patch = patch;
            now = round.now;
            found = h;
            decided = ap change same ∙ decided;
            result =
                ap
                  (λ x. record (patch q) {
                    task_id = id;
                    revision = suc q.revision;
                    last_updated_at = max round.now (suc x.last_updated_at);
                  })
                  (sym same);
            stored = refl;
          },
        ),
      )

  patch_as-IsAtomicRound :
      (m : TaskStore) (o : Option TaskRecord)
      → get m id ≡ o
      → Later r o
      → After records m
      → let u = patch_as m id (stamped round.now r patch) r.revision o in
        IsAtomicRound id change records (write_as round id m u).0 (write_as round id m u).1
  unfolding patch_as
  patch_as-IsAtomicRound m none h l a =
      refuses-IsAtomicRound id change records m round (not_found id) a
  patch_as-IsAtomicRound m (some q) h l a =
      updated-IsAtomicRound m q (q.revision == r.revision) refl h l a

write_change-IsAtomicRound :
    (id : String) (change : TaskRecord → Change) (records : TaskStore) (round : Round)
    (r : TaskRecord) (c : Change)
    → HasDistinctKeys records
    → AreForeign id round.between
    → get records id ≡ some r
    → change r ≡ c
    → IsAtomicRound id change records
        (write_change round id r records c).0
        (write_change round id r records c).1
unfolding write_change interfere_each update
write_change-IsAtomicRound id change records round r unchanged d f h e = (([], refl), (h, e))
write_change-IsAtomicRound id change records round r (raises x) d f h e = (([], refl), (r, (h, e)))
write_change-IsAtomicRound id change records round r (patched patch) d f h e =
    let m = interfere_each records round.between in
    patch_as-IsAtomicRound id change records round r patch e m (get m id) refl
      (interfere_each-Later records id r round.between d f (subst (Later r) (sym h) (inl refl)))
      (round.between, refl)

read_as-IsAtomicRound :
    (id : String) (change : TaskRecord → Change) (records : TaskStore) (round : Round)
    (o : Option TaskRecord)
    → HasDistinctKeys records
    → AreForeign id round.between
    → get records id ≡ o
    → IsAtomicRound id change records
        (read_as round id change records o).0
        (read_as round id change records o).1
unfolding read_as interfere_each
read_as-IsAtomicRound id change records round none d f h = (([], refl), h)
read_as-IsAtomicRound id change records round (some r) d f h =
    write_change-IsAtomicRound id change records round r (change r) d f h refl

attempt-IsAtomicRound :
    (id : String) (change : TaskRecord → Change) (records : TaskStore) (round : Round)
    → HasDistinctKeys records
    → AreForeign id round.between
    → IsAtomicRound id change records
        (attempt round id change records).0
        (attempt round id change records).1
unfolding attempt
attempt-IsAtomicRound id change records round d f =
    let m = interfere_each records round.before in
    IsAtomicRound-After id change records m (attempt round id change records).0
      (attempt round id change records).1 (round.before, refl)
      (read_as-IsAtomicRound id change m round (get m id)
        (interfere_each-HasDistinctKeys records round.before d) f refl)

continue-IsAtomic :
    (id : String) (change : TaskRecord → Change) (records : TaskStore) (rest : List Round)
    (x : TaskStore × Option Mutated)
    → HasDistinctKeys records
    → ((s : TaskStore)
        → HasDistinctKeys s
        → IsAtomic id change s (mutate rest id change s).0 (mutate rest id change s).1)
    → IsAtomicRound id change records x.0 x.1
    → let y = elim (x.1) as (λ o. TaskStore × Mutated) [
      | some m ↦ (x.0, m)
      | none ↦ mutate rest id change x.0
    ] in
      IsAtomic id change records y.0 y.1
continue-IsAtomic id change records rest (s, none) d ih a =
    IsAtomic-After id change records s (mutate rest id change s).0 (mutate rest id change s).1 a
      (ih s (subst HasDistinctKeys (sym a.1) (interfere_each-HasDistinctKeys records a.0 d)))
continue-IsAtomic id change records rest (s, some m) d ih a = a

abbrev pub HasForeignCalls : String → List Round → Type 0
HasForeignCalls id [] = Unit {0}
HasForeignCalls id (round ∷ rest) = AreForeign id round.between × HasForeignCalls id rest

-- Where nobody else creates a task of this id, every result of `#mutate` is that of its change at one
-- moment between the calls of the other clients: a written record is the change of the record
-- which was in the store just before the write, with the next revision and a later time; and an
-- unchanged record, an error or a missing task was read from the store that is left.
pub mutate-IsAtomic :
    (rounds : List Round) (id : String) (change : TaskRecord → Change) (records : TaskStore)
    → HasDistinctKeys records
    → HasForeignCalls id rounds
    → IsAtomic id change records
        (mutate rounds id change records).0
        (mutate rounds id change records).1
unfolding mutate interfere_each
mutate-IsAtomic [] id change records d f = ([], refl)
mutate-IsAtomic (round ∷ rest) id change records d f =
    continue-IsAtomic id change records rest (attempt round id change records) d
      (λ s e. mutate-IsAtomic rest id change s e f.1)
      (attempt-IsAtomicRound id change records round d f.0)
