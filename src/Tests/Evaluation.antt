-- ===== src/Tests/Evaluation.antt =====
-- Measures, playback, scoring and comparison at concrete inputs.
use multi_agent_testbed.Base.{◌*◌, ◌/◌, ◌≡◌, refl, none, List, [], ◌∷◌, pos, All, lookup, returned}
use multi_agent_testbed.Contracts.Enums.{complete, quarantine, frozen_eval, bit_exact}
use multi_agent_testbed.Contracts.Results.{RunRecord, Score}
use multi_agent_testbed.Playback.{unauthorized_payloads}
use multi_agent_testbed.Playback.Authorised.{unauthorized_payloads-nil}
use multi_agent_testbed.Eval.Scoring.{ScorerSpec, scorers, score_run, builtin}
use multi_agent_testbed.Eval.Flags.{IsFlagged, score_run-IsFlagged}
use multi_agent_testbed.Eval.Compare.{StoredResult}
use multi_agent_testbed.Eval.Scorers.{Quotient, score_task_success}
use multi_agent_testbed.Tests.Data.{hashing, log, store}

unauthorized_payloads-nil_example : unauthorized_payloads store 12 "ada" ≡ []
unauthorized_payloads-nil_example = unauthorized_payloads-nil store 12 "ada"

abbrev first_run : RunRecord
first_run = record {
  run_id = 12;
  experiment_id = "pair";
  manifest_hash = 77;
  task_id = "add";
  env_seed = 7;
  team_config_id = "two";
  partner_population_id = none;
  perturbation_id = none;
  repetition = 0;
  eval_set_kind = frozen_eval;
  state = complete;
  reproducibility = bit_exact;
}

abbrev spec : ScorerSpec
spec = record {
  name = "task_success";
  version = "1.0.0";
  kind = "deterministic";
  config = [];
  judge_model = none;
  view = "";
}

-- Quotients rounded down.
abbrev quotient : Quotient
quotient a b = pos (a * 10000 / b * 100)

score_run-IsFlagged_example :
    (scores : List Score) × (score_run hashing first_run log
        (scorers quotient)
        none
        ("ada" ∷ [])
        (spec ∷ [])
      ≡ returned scores)
    × All (IsFlagged 12) scores
unfolding lookup
score_run-IsFlagged_example =
    score_run-IsFlagged hashing first_run log none ("ada" ∷ []) quotient (spec ∷ [])
      ((builtin score_task_success, refl, refl), tt)

abbrev solved : StoredResult
solved = record { run = first_run; state = complete; verifier = none; measures = []; scores = [] }

-- The run of a case in quarantine does not enter.
abbrev tuned : StoredResult
tuned = record solved { run = record first_run { eval_set_kind = quarantine; repetition = 1 } }
