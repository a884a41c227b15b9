-- ===== src/FlowHost/Pruning/Rounds.antt =====
-- What one round of a pruning does to the run under an id, and to the tasks.
use mokei.Common.{
  ℕ, ◌≡◌, refl, sym, ap, subst, ◌∙◌, String, Option, none, some, List, Bool, true, false, ◌||◌,
  ◌&&◌, not, if◌then◌else◌, string_key, ite, is_some, inl, inr,
}
use mokei.Common.OrderedMap.{get, delete, HasDistinctKeys, get-delete, delete-HasDistinctKeys}
use mokei.Tasks.Store.{TaskStore}
use mokei.FlowHost.Runs.{RunRecord}
use mokei.FlowHost.Pruning.{
  Call, gets_run, gets_task, Pruned, skip, remains, prune_found, prune_one,
}
use mokei.FlowHost.Pruning.Handling.{
  IsKeyed, is_prunable, is_faulty, IsKeyed-HasDistinctKeys, IsKeyed-run_id, delete-IsKeyed,
  later_faults, Handles, prune_found-Handles,
}

module _ (throws : String → Call → Bool) (before : ℕ) (active : List String) where
  -- What is left of the run under an id.
  unfoldable pub left_over : TaskStore → Option RunRecord → Option RunRecord
  left_over tasks none = none
  left_over tasks (some run) =
      if is_prunable before active tasks run && not (is_faulty throws run) then none else some run

  pub record Fits (w : Pruned) : Type 0 where
    pub keyed : IsKeyed w.runs
    pub distinct : HasDistinctKeys w.tasks

  -- What a round does to the run of one id, and leaves of the tasks.
  pub record Rounds (id : String) (w v : Pruned) : Type 0 where
    pub fits : Fits v
    pub runs_are :
        (a : String)
        → get v.runs a
          ≡ ite (string_key.decide id a) (left_over w.tasks (get w.runs a)) (get w.runs a)
    pub remain : (task : String) → remains (get v.tasks task) ≡ remains (get w.tasks task)

  delete-remains :
      (tasks : TaskStore) (t task : String)
      → HasDistinctKeys tasks
      → remains (get tasks t) ≡ false
      → remains (get (delete tasks t) task) ≡ remains (get tasks task)
  unfolding remains
  delete-remains tasks t task d r =
      ap remains (get-delete tasks t task d) ∙ go (string_key.decide t task)
    where
      go : (c : Dec (t ≡ task)) → remains (ite c none (get tasks task)) ≡ remains (get tasks task)
      go (yes e) = sym (subst (λ x. remains (get tasks x) ≡ false) e r)
      go (no e) = refl

  Handles-remain :
      (run : RunRecord) (goes : Bool) (w v : Pruned)
      → HasDistinctKeys w.tasks
      → Handles run goes w v
      → (task : String) → remains (get v.tasks task) ≡ remains (get w.tasks task)
  Handles-remain run goes w v d h task = elim h.tasks_is [
    | inl e ↦ ap (λ t. remains (get t task)) e
    | inr (t, r, e) ↦ ap (λ x. remains (get x task)) e ∙ delete-remains w.tasks t task d r
  ]

  Handles-HasDistinctKeys :
      (run : RunRecord) (goes : Bool) (w v : Pruned)
      → HasDistinctKeys w.tasks
      → Handles run goes w v
      → HasDistinctKeys v.tasks
  Handles-HasDistinctKeys run goes w v d h = elim h.tasks_is [
    | inl e ↦ subst HasDistinctKeys (sym e) d
    | inr (t, r, e) ↦ subst HasDistinctKeys (sym e) (delete-HasDistinctKeys w.tasks t d)
  ]

  Handles-IsKeyed :
      (run : RunRecord) (goes : Bool) (w v : Pruned)
      → IsKeyed w.runs
      → Handles run goes w v
      → IsKeyed v.runs
  Handles-IsKeyed run goes w v k h = subst IsKeyed (sym h.runs_is) (go goes)
    where
      go : (b : Bool) → IsKeyed (if b then delete w.runs run.run_id else w.runs)
      go true = delete-IsKeyed w.runs run.run_id k
      go false = k

  Handles-runs :
      (run : RunRecord) (goes : Bool) (w v : Pruned)
      → IsKeyed w.runs
      → Handles run goes w v
      → get w.runs run.run_id ≡ some run
      → (a : String)
      → get v.runs a
        ≡ ite (string_key.decide run.run_id a) (if goes then none else some run) (get w.runs a)
  Handles-runs run goes w v k h found a =
      ap (λ r. get r a) h.runs_is ∙ go goes (string_key.decide run.run_id a)
    where
      go :
          (b : Bool) (d : Dec (run.run_id ≡ a))
          → get (if b then delete w.runs run.run_id else w.runs) a
            ≡ ite d (if b then none else some run) (get w.runs a)
      go true d =
          get-delete w.runs run.run_id a (IsKeyed-HasDistinctKeys w.runs k)
          ∙ same d (string_key.decide run.run_id a)
        where
          same :
              (d e : Dec (run.run_id ≡ a)) → ite e none (get w.runs a) ≡ ite d none (get w.runs a)
          same (yes p) (yes q) = refl
          same (yes p) (no q) = absurd (q p)
          same (no p) (yes q) = absurd (p q)
          same (no p) (no q) = refl
      go false (yes e) = subst (λ x. get w.runs x ≡ some run) e found
      go false (no e) = refl

  -- A run that stays, whatever its id.
  untouched :
      (id : String) (w v : Pruned)
      → Fits w
      → v.runs ≡ w.runs
      → v.tasks ≡ w.tasks
      → left_over w.tasks (get w.runs id) ≡ get w.runs id
      → Rounds id w v
  untouched id w v f r t l = record {
    fits = record {
      keyed = subst IsKeyed (sym r) f.keyed;
      distinct = subst HasDistinctKeys (sym t) f.distinct;
    };
    runs_are = λ a. ap (λ x. get x a) r ∙ go a (string_key.decide id a);
    remain = λ task. ap (λ x. remains (get x task)) t;
  }
    where
      go :
          (a : String) (d : Dec (id ≡ a))
          → get w.runs a ≡ ite d (left_over w.tasks (get w.runs a)) (get w.runs a)
      go a (yes e) = sym (subst (λ x. left_over w.tasks (get w.runs x) ≡ get w.runs x) e l)
      go a (no e) = refl

  found-Rounds :
      (run : RunRecord) (w v : Pruned)
      → Fits w
      → get w.runs run.run_id ≡ some run
      → Handles run (is_prunable before active w.tasks run && not (is_faulty throws run)) w v
      → Rounds run.run_id w v
  unfolding left_over
  found-Rounds run w v f found h = record {
    fits = record {
      keyed = Handles-IsKeyed run _ w v f.keyed h;
      distinct = Handles-HasDistinctKeys run _ w v f.distinct h;
    };
    runs_are =
        λ a. Handles-runs run _ w v f.keyed h found a ∙ go a (string_key.decide run.run_id a);
    remain = Handles-remain run _ w v f.distinct h;
  }
    where
      go :
          (a : String) (d : Dec (run.run_id ≡ a))
          → ite d (left_over w.tasks (some run)) (get w.runs a)
            ≡ ite d (left_over w.tasks (get w.runs a)) (get w.runs a)
      go a (yes e) = ap (left_over w.tasks) (sym (subst (λ x. get w.runs x ≡ some run) e found))
      go a (no e) = refl

  left_over-faulty :
      (tasks : TaskStore) (o : Option RunRecord)
      → ((run : RunRecord) → o ≡ some run → throws run.run_id gets_run ≡ true)
      → left_over tasks o ≡ o
  unfolding left_over is_faulty later_faults
  left_over-faulty tasks none h = refl
  left_over-faulty tasks (some run) h =
      go (is_prunable before active tasks run) (throws run.run_id gets_run) (h run refl)
    where
      go :
          (p b : Bool)
          → b ≡ true
          → (if p
                && not (
                    b
                    || ((is_some run.task_id && throws run.run_id gets_task)
                        || later_faults throws run))
              then none
              else some run)
            ≡ some run
      go true true h = refl
      go false true h = refl
      go p false h = cc

  found-Handles :
      (run : RunRecord) (w : Pruned)
      → throws run.run_id gets_run ≡ false
      → Handles run
          (is_prunable before active w.tasks run && not (is_faulty throws run))
          w
          (prune_found throws before active (some run) w)
  unfolding is_faulty later_faults
  found-Handles run w t =
      subst
        (λ b.
          Handles run
            (is_prunable before active w.tasks run
              && not (
                  b
                  || ((is_some run.task_id && throws run.run_id gets_task)
                      || later_faults throws run)))
            w (prune_found throws before active (some run) w))
        (sym t) (prune_found-Handles throws before active run w)

  pub prune_one-Rounds :
      (candidate : RunRecord) (w : Pruned)
      → Fits w
      → Rounds candidate.run_id w (prune_one throws before active candidate w)
  unfolding prune_one prune_found skip left_over
  prune_one-Rounds candidate w f =
      go (throws candidate.run_id gets_run) (get w.runs candidate.run_id) refl refl
    where
      id : String
      id = candidate.run_id

      go :
          (b : Bool) (o : Option RunRecord)
          → throws id gets_run ≡ b
          → get w.runs id ≡ o
          → Rounds id w (if b then w else prune_found throws before active o w)
      go true o t q = untouched id w w f refl refl (
          left_over-faulty w.tasks (get w.runs id) (λ run e.
            subst (λ x. throws x gets_run ≡ true) (sym (IsKeyed-run_id w.runs id run f.keyed e)) t))
      go false none t q =
          untouched id w (prune_found throws before active none w) f refl refl
            (ap (left_over w.tasks) q ∙ sym q)
      go false (some run) t q =
          subst (λ x. Rounds x w (prune_found throws before active (some run) w))
            (IsKeyed-run_id w.runs id run f.keyed q)
            (found-Rounds run w (prune_found throws before active (some run) w) f
              (subst (λ x. get w.runs x ≡ some run) (sym (IsKeyed-run_id w.runs id run f.keyed q))
                q)
              (found-Handles run w (
                subst (λ x. throws x gets_run ≡ false)
                  (sym (IsKeyed-run_id w.runs id run f.keyed q)) t)))
