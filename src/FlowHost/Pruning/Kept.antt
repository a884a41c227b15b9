-- ===== src/FlowHost/Pruning/Kept.antt =====
-- Which runs and tasks a pruning leaves.
use mokei.Common.{ℕ, String, List, [], ◌∷◌, Bool, true, false, string_key, ite}
use mokei.FlowHost.Runs.{RunRecord}
use mokei.FlowHost.Pruning.{Call}

module _ (throws : String → Call → Bool) (before : ℕ) (active : List String) where
  -- Whether an id is that of a candidate.
  is_candidate : String → List RunRecord → Bool
  is_candidate id [] = false
  is_candidate id (c ∷ rest) = ite (string_key.decide c.run_id id) true (is_candidate id rest)
