-- ===== src/FlowHost/Transitions/Sound.antt =====
-- A transition changes a run as it is at one moment, and none that has ended.
use mokei.Common.{
  ℕ, zero, suc, ◌≡◌, refl, ap, ◌∙◌, String, Option, none, some, Bool, true, false, if◌then◌else◌,
  not, string_key, ◌==◌, arith,
}
use mokei.Common.OrderedMap.{get, set}
use mokei.FlowHost.Runs.{
  RunRecord, RunStore, conflict, not_found, already_exists, updated, refuses, is_terminal_run_state,
  is_state, patch_as, update,
}
use mokei.FlowHost.Transitions.{
  Transition, unchanged, changed, run_not_found, throws, Compute, Attempt, with_time, after_write,
  attempt_patch, attempt_found, attempts, transition,
}

-- Others never write another record of a run under a revision that it has had.
abbrev pub KeepsRevisions : String → Attempt → Type 0
KeepsRevisions id a =
    (s : RunStore) (r q : RunRecord)
    → get s id ≡ some r
    → get (a.meantime s) id ≡ some q
    → q.revision ≡ r.revision
    → q ≡ r

-- The record that a patch of `transition` makes of a run.
abbrev pub patched : String → ℕ → (RunRecord → RunRecord) → RunRecord → RunRecord
patched id now patch r = record (with_time now patch r) { run_id = id; revision = suc r.revision }

-- What a result says of the store: a change was made to the run that stood there just before, which
-- had not ended, and is its patch; and what is returned unchanged stands there and has ended or
-- wants no patch.
abbrev pub IsSound : String → Compute → (ℕ → Attempt) → Transition → Type 0
IsSound id compute world (unchanged s r) =
    (get s id ≡ some r) × (is_terminal_run_state r.state ≡ false → compute r ≡ none)
IsSound id compute world (changed s r state_changed) =
    (n : ℕ) × (before : RunStore) × (old : RunRecord) × (patch : RunRecord → RunRecord) × (get
        before id
      ≡ some old)
    × (is_terminal_run_state old.state ≡ false)
    × (compute old ≡ some patch)
    × (r ≡ patched id (world n).now patch old)
    × (s ≡ set before id r)
    × (state_changed ≡ not (is_state r.state old.state))
IsSound id compute world (run_not_found s) = get s id ≡ none
IsSound id compute world (throws s conflict) = Unit {0}
IsSound id compute world (throws s (not_found missing)) = (missing ≡ id) × (get s id ≡ none)
IsSound id compute world (throws s (already_exists taken)) = ⊥

module _ (id : String) (compute : Compute) (world : ℕ → Attempt) where
  IsSoundNext : Option (RunStore → Transition) → Type 0
  IsSoundNext none = Unit {0}
  IsSoundNext (some again) = (s : RunStore) → IsSound id compute world (again s)

  patch_as-IsSound :
      (n : ℕ) (store : RunStore) (current : RunRecord) (patch : RunRecord → RunRecord)
      (o : Option RunRecord) (again : Option (RunStore → Transition))
      → get store id ≡ o
      → ((q : RunRecord) → o ≡ some q → q.revision ≡ current.revision → q ≡ current)
      → is_terminal_run_state current.state ≡ false
      → compute current ≡ some patch
      → IsSoundNext again
      → IsSound id compute world (
          after_write store current
            (patch_as store id (with_time (world n).now patch) current.revision o)
            again)
  unfolding patch_as after_write IsSoundNext
  patch_as-IsSound n store current patch none again g same t c k = (refl, g)
  patch_as-IsSound n store current patch (some r) again g same t c k =
      go (r.revision == current.revision) refl again k
    where
      new : RunRecord
      new = record (with_time (world n).now patch r) { run_id = id; revision = suc r.revision }

      go :
          (b : Bool)
          → (r.revision == current.revision) ≡ b
          → (again : Option (RunStore → Transition)) → IsSoundNext again
          → IsSound id compute world (
              after_write store current
                (if b then updated (set store id new) new else refuses conflict)
                again)
      go true q again k =
          let e : r ≡ current = same r refl (ground arith) in
          (
            n,
            store,
            current,
            patch,
            g ∙ ap some e,
            t,
            c,
            ap (patched id (world n).now patch) e,
            refl,
            refl,
          )
      go false q none k = tt
      go false q (some again) k = k store

  attempt-IsSound :
      (n : ℕ) (store : RunStore) (o : Option RunRecord) (again : Option (RunStore → Transition))
      → KeepsRevisions id (world n)
      → get store id ≡ o
      → IsSoundNext again
      → IsSound id compute world (attempt_found id compute (world n) store o again)
  unfolding attempt_found attempt_patch update IsSoundNext
  attempt-IsSound n store none again r g k = g
  attempt-IsSound n store (some current) again r g k =
      go (is_terminal_run_state current.state) refl (compute current) refl
    where
      go :
          (b : Bool)
          → is_terminal_run_state current.state ≡ b
          → (p : Option (RunRecord → RunRecord)) → compute current ≡ p
          → IsSound id compute world (
              if b
              then unchanged store current
              else attempt_patch id (world n) store current p again)
      go true t p c = (g, λ f. ground (arith, t, f))
      go false t none c = (g, λ f. c)
      go false t (some patch) c =
          patch_as-IsSound n ((world n).meantime store) current patch
            (get ((world n).meantime store) id) again refl (λ q h e. r store current q g h e) t c k

  attempts-IsSound :
      (left n : ℕ) (store : RunStore)
      → ((m : ℕ) → KeepsRevisions id (world m))
      → IsSound id compute world (attempts id compute world left n store)
  unfolding attempts IsSoundNext
  attempts-IsSound zero n store r = attempt-IsSound n store (get store id) none (r n) refl tt
  attempts-IsSound (suc left) n store r =
      attempt-IsSound n store (get store id) (some (attempts id compute world left (suc n))) (r n)
        refl (λ s. attempts-IsSound left (suc n) s r)

-- Where others never write another record of the run under a revision that it has had, a transition
-- that changes the run has patched the record that stood in the store just before its write, and
-- this record had not ended; what it returns unchanged stands in the store, and has ended or wants
-- no patch; and it finds no run only where there is none.
pub transition-IsSound :
    (id : String) (compute : Compute) (world : ℕ → Attempt) (store : RunStore)
    → ((m : ℕ) → KeepsRevisions id (world m))
    → IsSound id compute world (transition id compute world store)
unfolding transition
transition-IsSound id compute world store r = attempts-IsSound id compute world 4 0 store r
