-- ===== src/Tests/Sessions.antt =====
-- The experiments behind the commands at concrete inputs: a rerun, and a run that is scored.
use mathlib.Core.List.{Mem}
use multi_agent_testbed.Base.{
  ◌≤◌, ◌<◌, ◌≡◌, ◌↔◌, refl, none, [], ◌∷◌, pos, All, map, returned, Gives,
}
use multi_agent_testbed.Contracts.Enums.{complete, bit_exact}
use multi_agent_testbed.Contracts.Manifest.{ExperimentManifest}
use multi_agent_testbed.Records.{RunResult}
use multi_agent_testbed.Store.{empty_store}
use multi_agent_testbed.Eval.Scoring.{ScorerSpec, scorers}
use multi_agent_testbed.Controller.Plan.{run_record, plan_cases}
use multi_agent_testbed.Sessions.{records_to_run, offset_records, score_result}
use multi_agent_testbed.Sessions.Rerun.{offset_records-planned}
use multi_agent_testbed.Sessions.Rescoring.{IsSettled, score_result-IsSettled}
use multi_agent_testbed.Tests.Data.{hashing, manifest, task}

abbrev thrice : ExperimentManifest
thrice = record manifest { repetitions = 3 }

-- The rerun of the run at repetition 0 makes the repetitions 1, 2 and 3, of which two were planned.
offset_records-planned_example :
    All
      (λ r.
        (1 ≤ r.repetition)
        × (Mem r (plan_cases hashing (λ m. 77) thrice (task ∷ [])) ↔ r.repetition < 3))
      (offset_records hashing 1 (plan_cases hashing (λ m. 77) thrice (task ∷ [])))
offset_records-planned_example = offset_records-planned hashing (λ m. 77) thrice (task ∷ []) 1

rerun_repetitions :
    map
      (λ r. r.repetition)
      (records_to_run hashing
        (record { only_run_id = none; repetition_offset = 1 })
        (plan_cases hashing (λ m. 77) thrice (task ∷ [])))
    ≡ 1 ∷ 2 ∷ 3 ∷ []
unfolding records_to_run plan_cases
rerun_repetitions = refl

abbrev success : ScorerSpec
success = record {
  name = "task_success";
  version = "1.0.0";
  kind = "deterministic";
  config = [];
  judge_model = none;
  view = "";
}

abbrev finished : RunResult
finished = record {
  run = run_record hashing (λ m. 77) manifest task 7 none 0;
  attempt_id = 1;
  state = complete;
  verifier = none;
  scores = none;
  event_count = 0;
  logical_time = 4;
  attrition_reason = none;
  reproducibility = bit_exact;
}

score_result-IsSettled_example :
    Gives
      (score_result hashing (scorers (λ a b. pos 0)) (success ∷ []) manifest finished empty_store)
      (IsSettled hashing
        (scorers (λ a b. pos 0))
        (success ∷ [])
        manifest
        finished.run.run_id
        empty_store)
score_result-IsSettled_example =
    score_result-IsSettled hashing (scorers (λ a b. pos 0)) success [] manifest finished empty_store

-- Without scorers the result is handed back and nothing is stored.
not_scored :
    score_result hashing (scorers (λ a b. pos 0)) [] manifest finished empty_store
    ≡ (returned finished, empty_store)
unfolding score_result
not_scored = refl
