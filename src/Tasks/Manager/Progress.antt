-- ===== src/Tasks/Manager/Progress.antt =====
-- The loop of `#mutate`, packages/context-server/src/task-manager.ts, ends as soon as nobody else comes in between.
use mokei.Common.{
  suc, ◌≡◌, refl, sym, subst, String, Option, none, some, List, [], ◌∷◌, Bool, true, false, ◌||◌,
  if◌then◌else◌, is_some, string_key, ◌==◌, arith,
}
use mokei.Common.OrderedMap.{get, set}
use mokei.Tasks.Record.{TaskRecord}
use mokei.Tasks.Changes.{Change, unchanged, patched, raises}
use mokei.Tasks.Store.{
  TaskStore, StoreError, not_found, already_exists, conflict, Updated, updated, refuses, update,
  patch_as,
}
use mokei.Tasks.Manager.{
  interfere_each, Round, Mutated, gone, kept, wrote, throws, store_fails, retries, stamped,
  refused_as, write_as, write_change, read_as, attempt, mutate, Call,
}

abbrev pub ended : Mutated → Bool
ended gone = true
ended (kept r) = true
ended (wrote r) = true
ended (throws e) = true
ended (store_fails e) = true
ended retries = false

-- No result is that of an exhausted loop.
abbrev Ends : Option Mutated → Type 0
Ends none = Unit {0}
Ends (some m) = ended m ≡ true

is_empty : List Call → Bool
is_empty [] = true
is_empty (c ∷ calls) = false

-- One of the rounds has no calls between its read and its write.
unfoldable pub has_quiet_round : List Round → Bool
unfolding is_empty
has_quiet_round [] = false
has_quiet_round (round ∷ rest) = is_empty round.between || has_quiet_round rest

refused_as-Ends : (e : StoreError) (o : Option TaskRecord) → Ends (refused_as e o)
unfolding refused_as
refused_as-Ends e none = refl
refused_as-Ends conflict (some r) = tt
refused_as-Ends (not_found id) (some r) = refl
refused_as-Ends (already_exists id) (some r) = refl

write_as-Ends :
    (round : Round) (id : String) (m : TaskStore) (u : Updated) → Ends (write_as round id m u).1
unfolding write_as
write_as-Ends round id m (updated s q) = refl
write_as-Ends round id m (refuses e) = refused_as-Ends e (get (interfere_each m round.after) id)

write_change-Ends :
    (round : Round) (id : String) (r : TaskRecord) (m : TaskStore) (c : Change)
    → Ends (write_change round id r m c).1
unfolding write_change
write_change-Ends round id r m unchanged = refl
write_change-Ends round id r m (raises e) = refl
write_change-Ends round id r m (patched patch) =
    let n = interfere_each m round.between in
    write_as-Ends round id n (update n id (stamped round.now r patch) r.revision)

read_as-Ends :
    (round : Round) (id : String) (change : TaskRecord → Change) (m : TaskStore)
    (o : Option TaskRecord)
    → Ends (read_as round id change m o).1
unfolding read_as
read_as-Ends round id change m none = refl
read_as-Ends round id change m (some r) = write_change-Ends round id r m (change r)

-- A write that follows its read at once is accepted.
updated_at_once :
    (round : Round) (id : String) (m : TaskStore) (patch : TaskRecord → TaskRecord) (r : TaskRecord)
    (b : Bool)
    → (r.revision == r.revision) ≡ b
    → is_some
        (write_as round id m (
          if b
          then updated
              (set m id (record (patch r) { task_id = id; revision = suc r.revision }))
              (record (patch r) { task_id = id; revision = suc r.revision })
          else refuses conflict)).1
      ≡ true
unfolding write_as
updated_at_once round id m patch r true e = refl
updated_at_once round id m patch r false e = ground arith

quiet_write :
    (round : Round) (id : String) (r : TaskRecord) (m : TaskStore) (patch : TaskRecord → TaskRecord)
    (calls : List Call)
    → get m id ≡ some r
    → is_empty calls ≡ true
    → is_some
        (write_as round id
          (interfere_each m calls)
          (update (interfere_each m calls) id patch r.revision)).1
      ≡ true
unfolding interfere_each update patch_as is_empty
quiet_write round id r m patch [] h q =
    subst (λ o. is_some (write_as round id m (patch_as m id patch r.revision o)).1 ≡ true) (sym h)
      (updated_at_once round id m patch r (r.revision == r.revision) refl)
quiet_write round id r m patch (c ∷ calls) h q = cc

quiet_change :
    (round : Round) (id : String) (r : TaskRecord) (m : TaskStore) (c : Change)
    → get m id ≡ some r
    → is_empty round.between ≡ true
    → is_some (write_change round id r m c).1 ≡ true
unfolding write_change
quiet_change round id r m unchanged h q = refl
quiet_change round id r m (raises e) h q = refl
quiet_change round id r m (patched patch) h q =
    quiet_write round id r m (stamped round.now r patch) round.between h q

quiet_read :
    (round : Round) (id : String) (change : TaskRecord → Change) (m : TaskStore)
    (o : Option TaskRecord)
    → get m id ≡ o
    → is_empty round.between ≡ true
    → is_some (read_as round id change m o).1 ≡ true
unfolding read_as
quiet_read round id change m none h q = refl
quiet_read round id change m (some r) h q = quiet_change round id r m (change r) h q

continue-ended :
    (id : String) (change : TaskRecord → Change) (rest : List Round) (b : Bool)
    (x : TaskStore × Option Mutated)
    → Ends x.1
    → (b ≡ true → is_some x.1 ≡ true)
    → b || has_quiet_round rest ≡ true
    → ((s : TaskStore) → has_quiet_round rest ≡ true → ended (mutate rest id change s).1 ≡ true)
    → ended
        (elim (x.1) as (λ o. TaskStore × Mutated) [
          | some m ↦ (x.0, m)
          | none ↦ mutate rest id change x.0
        ]).1
      ≡ true
continue-ended id change rest b (s, some m) e q h ih = e
continue-ended id change rest true (s, none) e q h ih = let w : false ≡ true = q refl in cc
continue-ended id change rest false (s, none) e q h ih = ih s h

-- With one round in which no other client comes between the read and the write, the loop of
-- `#mutate` ends: it has a result, whatever is done in the other rounds.
pub mutate_ends :
    (rounds : List Round) (id : String) (change : TaskRecord → Change) (records : TaskStore)
    → has_quiet_round rounds ≡ true
    → ended (mutate rounds id change records).1 ≡ true
unfolding mutate has_quiet_round attempt
mutate_ends [] id change records h = cc
mutate_ends (round ∷ rest) id change records h =
    let m = interfere_each records round.before in
    continue-ended id change rest (is_empty round.between) (attempt round id change records)
      (read_as-Ends round id change m (get m id)) (quiet_read round id change m (get m id) refl) h
      (λ s. mutate_ends rest id change s)
