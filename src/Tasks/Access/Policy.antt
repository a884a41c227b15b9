-- ===== src/Tasks/Access/Policy.antt =====
-- Who may reach a task, said without the tests of the code, and what the others find.
use mokei.Common.{
  ℕ, ◌+◌, ◌<◌, ◌≡◌, ◌≢◌, ◌⊎◌, ◌↔◌, inl, inr, refl, sym, ap, subst, ◌∙◌, String, Option, none, some,
  List, [], ◌∷◌, if_neg, Bool, true, false, not, ◌||◌, ◌&&◌, if◌then◌else◌, ltb, string_key, arith,
  ◌===◌, is_some, Bool-cases,
}
use mokei.Common.OrderedMap.{OrderedMap, get, delete, HasDistinctKeys, get-delete}
use mokei.Tasks.Record.{
  TaskRecord, TaskOwner, InputResponse, matches_owner, includes, every_in, same_issuer,
}
use mokei.Tasks.Changes.{change, answers, cancels}
use mokei.Tasks.Store.{TaskStore, remove}
use mathlib.Core.Option.{some_inj}
use mokei.Tasks.Manager.{Mutated, Round, mutate, visible, visible_as, is_expired, can_access}
use mokei.Tasks.Access.{Reply, task_not_found, when_visible, update_task, cancel_task}

-- An id or a scope is in a list.
abbrev pub IsAmong : List String → String → Type 0
IsAmong [] s = ⊥
IsAmong (t ∷ ts) s = (t ≡ s) ⊎ IsAmong ts s

-- The caller has the issuer, the subject and every scope of the owner; a task without owner is for a
-- caller without identity.
abbrev pub MayAct : (saved caller : Option TaskOwner) → Type 0
MayAct none none = Unit {0}
MayAct none (some caller) = ⊥
MayAct (some saved) none = ⊥
MayAct (some saved) (some caller) =
    (saved.issuer ≡ caller.issuer)
    × (saved.subject ≡ caller.subject)
    × ((scope : String) → IsAmong saved.scopes scope → IsAmong caller.scopes scope)

-- A task without time to live stays; another until so many milliseconds after its creation.
abbrev pub IsAlive : (now created_at : ℕ) → Option ℕ → Type 0
IsAlive now created_at none = Unit {0}
IsAlive now created_at (some ttl) = now < created_at + ttl

pub record MayReach (records : TaskStore) (hidden : List String) (now : ℕ) (id : String)
    (caller : Option TaskOwner) : Type 0 where
  pub task : TaskRecord
  pub found : get records id ≡ some task
  pub alive : IsAlive now task.created_at task.ttl_ms
  pub shown : IsAmong hidden id → ⊥
  pub acts : MayAct task.owner caller

-- `===` on texts, both ways.
same_text : (a b : String) → ((a === b ≡ true) → a ≡ b) × (a ≡ b → a === b ≡ true)
same_text a b = (λ h. ground arith, λ e. ground arith)

includes-IsAmong : (ts : List String) (s : String) → includes ts s ≡ true → IsAmong ts s
unfolding includes
includes-IsAmong [] s h = cc
includes-IsAmong (t ∷ ts) s h = elim (Bool-cases (t === s)) [
  | inl e ↦ inl ((same_text t s).0 e)
  | inr e ↦ inr (includes-IsAmong ts s (ap (λ b. b || includes ts s) (sym e) ∙ h))
]

IsAmong-includes : (ts : List String) (s : String) → IsAmong ts s → includes ts s ≡ true
unfolding includes
IsAmong-includes [] s h = absurd h
IsAmong-includes (t ∷ ts) s (inl e) = ap (λ b. b || includes ts s) ((same_text t s).1 e)
IsAmong-includes (t ∷ ts) s (inr h) = ground (arith, IsAmong-includes ts s h)

every_in-IsAmong :
    (ss ts : List String) → every_in ss ts ≡ true → (s : String) → IsAmong ss s → IsAmong ts s
unfolding every_in
every_in-IsAmong [] ts h s k = absurd k
every_in-IsAmong (t ∷ ss) ts h s (inl e) =
    subst (IsAmong ts) e (includes-IsAmong ts t (ground (arith, h)))
every_in-IsAmong (t ∷ ss) ts h s (inr k) = every_in-IsAmong ss ts (ground (arith, h)) s k

IsAmong-every_in :
    (ss ts : List String) → ((s : String) → IsAmong ss s → IsAmong ts s) → every_in ss ts ≡ true
unfolding every_in
IsAmong-every_in [] ts h = refl
IsAmong-every_in (t ∷ ss) ts h =
    let first = IsAmong-includes ts t (h t (inl refl)) in
    let rest = IsAmong-every_in ss ts (λ s k. h s (inr k)) in
    ap (λ b. b && every_in ss ts) first ∙ rest

same_issuer-eq :
    (a b : Option String) → (same_issuer a b ≡ true → a ≡ b) × (a ≡ b → same_issuer a b ≡ true)
unfolding same_issuer
same_issuer-eq none none = (λ h. refl, λ e. refl)
same_issuer-eq (some a) (some b) = (λ h. ap some ((same_text a b).0 h), λ e. ground arith)
same_issuer-eq none (some b) = (λ h. cc, λ e. cc)
same_issuer-eq (some a) none = (λ h. cc, λ e. cc)

matches_owner-MayAct :
    (saved caller : Option TaskOwner)
    → (matches_owner saved caller ≡ true → MayAct saved caller)
      × (MayAct saved caller → matches_owner saved caller ≡ true)
unfolding matches_owner
matches_owner-MayAct none none = (λ h. tt, λ h. refl)
matches_owner-MayAct none (some b) = (λ h. cc, λ h. absurd h)
matches_owner-MayAct (some a) none = (λ h. cc, λ h. absurd h)
matches_owner-MayAct (some a) (some b) = (
  λ h. (
    (same_issuer-eq a.issuer b.issuer).0 (ground (arith, h)),
    (same_text a.subject b.subject).0 (ground (arith, h)),
    every_in-IsAmong a.scopes b.scopes (ground (arith, h)),
  ),
  λ k.
      let (p, q, r) = k in
      let x = (same_issuer-eq a.issuer b.issuer).1 p in
      let y = (same_text a.subject b.subject).1 q in
      let z = IsAmong-every_in a.scopes b.scopes r in ground (arith, x, y, z),
)

is_expired-IsAlive :
    (now : ℕ) (r : TaskRecord)
    → (is_expired now r ≡ false → IsAlive now r.created_at r.ttl_ms)
      × (IsAlive now r.created_at r.ttl_ms → is_expired now r ≡ false)
unfolding is_expired
is_expired-IsAlive now r = go r.ttl_ms
  where
    go :
        (o : Option ℕ)
        → ((elim o [ none ↦ false | some ttl ↦ not (ltb now (r.created_at + ttl)) ]) ≡ false
            → IsAlive now r.created_at o)
          × (IsAlive now r.created_at o
              → (elim o [ none ↦ false | some ttl ↦ not (ltb now (r.created_at + ttl)) ]) ≡ false)
    go none = (λ h. tt, λ h. refl)
    go (some ttl) = (λ h. ground arith, λ h. ground arith)

-- `#visible` finds a task exactly for those who may reach it.
module _ (records : TaskStore) (hidden : List String) (now : ℕ) (id : String)
    (caller : Option TaskOwner) where
  abbrev seen : Option TaskRecord → TaskStore × Option TaskRecord
  seen o = visible_as records hidden now id caller o

  visible-MayReach :
      (o : Option TaskRecord)
      → get records id ≡ o
      → is_some (seen o).1 ≡ true
      → MayReach records hidden now id caller
  unfolding visible_as
  visible-MayReach none f h = cc
  visible-MayReach (some r) f h = record {
    task = r;
    found = f;
    alive = (is_expired-IsAlive now r).0 (ground (arith, h));
    shown = λ k.
        let listed = IsAmong-includes hidden id k in
        let shown : includes hidden id ≡ false = ground (arith, h) in cc (listed, shown);
    acts = (matches_owner-MayAct r.owner caller).0 (ground (arith, h));
  }

  MayReach-visible :
      (m : MayReach records hidden now id caller)
      → visible records hidden now id caller ≡ (records, some m.task)
  unfolding visible visible_as
  MayReach-visible m =
      let alive = (is_expired-IsAlive now m.task).1 m.alive in
      let acts = (matches_owner-MayAct m.task.owner caller).1 m.acts in
      ap seen m.found ∙ shown_to alive acts (Bool-cases (includes hidden id))
    where
      shown_to :
          is_expired now m.task ≡ false
          → matches_owner m.task.owner caller ≡ true
          → ((includes hidden id ≡ true) ⊎ (includes hidden id ≡ false))
          → seen (some m.task) ≡ (records, some m.task)
      shown_to a b (inl h) = absurd (m.shown (includes-IsAmong hidden id h))
      shown_to a b (inr h) =
          ap
            (λ x.
              if x
              then (remove records id, none)
              else if includes hidden id || not (matches_owner m.task.owner caller)
              then (records, none)
              else (records, some m.task))
            a
          ∙ ap
              (λ x. if includes hidden id || not x then (records, none) else (records, some m.task))
              b
          ∙ ap (λ x. if x || false then (records, none) else (records, some m.task)) h

  not_visible :
      (MayReach records hidden now id caller → ⊥) → (visible records hidden now id caller).1 ≡ none
  unfolding visible
  not_visible h = go (visible records hidden now id caller).1 refl
    where
      go :
          (o : Option TaskRecord)
          → (visible records hidden now id caller).1 ≡ o
          → (visible records hidden now id caller).1 ≡ none
      go none e = e
      go (some r) e = absurd (h (visible-MayReach (get records id) refl (ap is_some e)))

  -- What `#visible` leaves of the store when it finds no task.
  visible-kept :
      (a : String) (o : Option TaskRecord)
      → HasDistinctKeys records
      → get records id ≡ o
      → (id ≢ a → get (seen o).0 a ≡ get records a)
        × ((r : TaskRecord) → o ≡ some r → IsAlive now r.created_at r.ttl_ms → (seen o).0 ≡ records)
  unfolding visible_as remove
  visible-kept a none d f = (λ n. refl, λ r e l. refl)
  visible-kept a (some q) d f =
      go (is_expired now q) (includes hidden id || not (matches_owner q.owner caller)) refl
    where
      result : Bool → Bool → TaskStore × Option TaskRecord
      result b c =
          if b then (delete records id, none) else if c then (records, none) else (records, some q)

      go :
          (b c : Bool)
          → is_expired now q ≡ b
          → (id ≢ a → get (result b c).0 a ≡ get records a)
            × ((r : TaskRecord)
                → some q ≡ some r
                → IsAlive now r.created_at r.ttl_ms
                → (result b c).0 ≡ records)
      go true c e = (
        λ n. get-delete records id a d ∙ if_neg (string_key.decide id a) n none (get records a),
        λ r p l.
            let alive =
              (is_expired-IsAlive now q).1
                (subst (λ x. IsAlive now x.created_at x.ttl_ms) (sym (some_inj.0 p)) l) in
            cc (e, alive),
      )
      go false true e = (λ n. refl, λ r p l. refl)
      go false false e = (λ n. refl, λ r p l. refl)

-- `canAccess` holds exactly where there is a task of this id that has not expired, that is not hidden,
-- and whose owner's issuer and subject are the caller's, who has every scope of the owner; or which
-- has no owner, for a caller without identity.
can_access-MayReach :
    (records : TaskStore) (hidden : List String) (now : ℕ) (id : String) (caller : Option TaskOwner)
    → (can_access records hidden now id caller ≡ true) ↔ MayReach records hidden now id caller
unfolding can_access visible
can_access-MayReach records hidden now id caller = (
  λ h. visible-MayReach records hidden now id caller (get records id) refl h,
  λ m. ap (λ x. is_some x.1) (MayReach-visible records hidden now id caller m),
)

-- What a call comes to for a caller who may not reach the task: it answers that there is no task, does
-- nothing to other tasks, and nothing at all while the task has not expired.
pub record FindsNothing (records : TaskStore) (now : ℕ) (id : String) (result : TaskStore × Reply)
    : Type 0 where
  pub answer_is : result.1 ≡ task_not_found
  pub others_stay : (a : String) → id ≢ a → get result.0 a ≡ get records a
  pub alive_stays :
      (r : TaskRecord)
      → get records id ≡ some r
      → IsAlive now r.created_at r.ttl_ms
      → result.0 ≡ records

when_visible-FindsNothing :
    (records : TaskStore) (hidden : List String) (now : ℕ) (id : String) (caller : Option TaskOwner)
    (act : TaskStore → TaskStore × Mutated)
    → HasDistinctKeys records
    → (MayReach records hidden now id caller → ⊥)
    → FindsNothing records now id (when_visible (visible records hidden now id caller) act)
unfolding when_visible visible
when_visible-FindsNothing records hidden now id caller act d h =
    let kept =
      λ (a : String). visible-kept records hidden now id caller a (get records id) d refl in
    subst (FindsNothing records now id)
      (sym (
        stopped (visible records hidden now id caller)
          (not_visible records hidden now id caller h)))
      (record {
        answer_is = refl;
        others_stay = λ a n. (kept a).0 n;
        alive_stays = λ r f l. (kept id).1 r f l;
      })
  where
    stopped :
        (x : TaskStore × Option TaskRecord)
        → x.1 ≡ none
        → when_visible x act ≡ (x.0, task_not_found)
    stopped (s, none) e = refl
    stopped (s, some r) e = cc

-- For a caller who may not reach a task, `update` and `cancel` answer that there is no task, leave
-- every other task as it is, and leave the store as it is while the task has not expired.
others_find_nothing :
    (rounds : List Round) (records : TaskStore) (hidden : List String) (now : ℕ) (id : String)
    (caller : Option TaskOwner) (responses : OrderedMap String InputResponse)
    → HasDistinctKeys records
    → (MayReach records hidden now id caller → ⊥)
    → FindsNothing records now id (update_task rounds records hidden now id caller responses)
      × FindsNothing records now id (cancel_task rounds records hidden now id caller)
unfolding update_task cancel_task
others_find_nothing rounds records hidden now id caller responses d h = (
  when_visible-FindsNothing records hidden now id caller
      (mutate rounds id (change (answers responses))) d h,
  when_visible-FindsNothing records hidden now id caller (mutate rounds id (change cancels)) d h,
)

-- In a store with one record for each id, `canAccess` holds exactly where there is a task of this id
-- that has not expired, that is not hidden, and whose owner's issuer and subject are the caller's, who
-- has every scope of the owner; or which has no owner, for a caller without identity. There, a caller
-- for whom this does not hold finds nothing by `update` and `cancel`: they answer that there is no
-- task, leave every other task as it is, and leave the store as it is while the task has not expired.
pub others_find_no_task :
    (rounds : List Round) (records : TaskStore) (hidden : List String) (now : ℕ) (id : String)
    (caller : Option TaskOwner) (responses : OrderedMap String InputResponse)
    → HasDistinctKeys records
    → ((can_access records hidden now id caller ≡ true) ↔ MayReach records hidden now id caller)
      × (MayReach records hidden now id caller
          ⊎ (FindsNothing records now id (update_task rounds records hidden now id caller responses)
              × FindsNothing records now id (cancel_task rounds records hidden now id caller)))
others_find_no_task rounds records hidden now id caller responses d =
    (c, decided (can_access records hidden now id caller) refl)
  where
    c : (can_access records hidden now id caller ≡ true) ↔ MayReach records hidden now id caller
    c = can_access-MayReach records hidden now id caller

    decided :
        (b : Bool)
        → can_access records hidden now id caller ≡ b
        → MayReach records hidden now id caller
          ⊎ (FindsNothing records now id (update_task rounds records hidden now id caller responses)
              × FindsNothing records now id (cancel_task rounds records hidden now id caller))
    decided true e = inl (c.0 e)
    decided false e =
        inr
          (others_find_nothing rounds records hidden now id caller responses d (λ m. cc (e, c.1 m)))
