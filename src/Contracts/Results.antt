-- ===== src/Contracts/Results.antt =====
-- src/testbed_contracts/results.py: attempts, checkpoints, run records, scores and results.
use multi_agent_testbed.Base.{ℕ, String, Bool, not, Option, List, Dict, ℤ, find, filter, str_eq}
use multi_agent_testbed.Contracts.Enums.{RunState, EvalSetKind, ReproducibilityLevel}
use multi_agent_testbed.Contracts.Ids.{Json}

pub record VerifierResult : Type 0 where
  pub success : Bool
  pub reward : ℤ
  pub per_agent_payoff : Dict ℤ
  pub detail : Dict Json

pub record Attempt : Type 0 where
  pub attempt_id : ℕ
  pub run_id : ℕ
  pub attempt_number : ℕ
  pub state : RunState
  pub resumed_from_checkpoint : Option ℕ

pub record RunRecord : Type 0 where
  pub run_id : ℕ
  pub experiment_id : String
  pub manifest_hash : ℕ
  pub task_id : String
  pub env_seed : ℕ
  pub team_config_id : String
  pub partner_population_id : Option String
  pub perturbation_id : Option String
  pub repetition : ℕ
  pub eval_set_kind : EvalSetKind
  pub state : RunState
  pub reproducibility : ReproducibilityLevel

pub record Score : Type 0 where
  pub run_id : ℕ
  pub scorer : String
  pub version : String
  pub kind : String
  pub value : ℤ
  pub is_judge : Bool
  pub view : String

-- `ScoreSet.get`, over the scores of the set
unfoldable pub get_score : List Score → String → Option Score
get_score scores scorer = find (λ s. str_eq s.scorer scorer) scores

unfoldable pub hard : List Score → List Score
hard = filter (λ s. not s.is_judge)

unfoldable pub judged : List Score → List Score
judged = filter (λ s. s.is_judge)
