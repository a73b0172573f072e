-- ===== src/Sessions.antt =====
-- src/testbed_cli/session.py: the experiments behind the commands. The manifest's scorers are an
-- argument, and so are the handles that the runner gives for each run; `anyio`, the workspace and the
-- arming of a crash are left out.
pub mod Rerun
pub mod Rescoring
use multi_agent_testbed.Base.{
  ℕ, ◌+◌, ◌==◌, String, Option, none, some, List, [], ◌∷◌, map, filter, Dict, if◌then◌else◌,
  Outcome, returned, raised,
}
use multi_agent_testbed.Contracts.Ids.{Hashing, derive_run_id}
use multi_agent_testbed.Contracts.Manifest.{ExperimentManifest, agent_ids}
use multi_agent_testbed.Contracts.Results.{RunRecord, Score}
use multi_agent_testbed.Sdk.{AgentHandle}
use multi_agent_testbed.Records.{RunResult}
use multi_agent_testbed.Store.{Store, StoreError, read, get_run, put_scores, put_result}
use multi_agent_testbed.Eval.Scoring.{ScorerSpec, Scorer, ScoringError, score_run}
use multi_agent_testbed.Controller.Plan.{PlanError, plan}
use multi_agent_testbed.Controller.Attempts.{Controller, AttemptError, execute, resume}

pub data SessionError : Type 0 where
  not_planned : PlanError → SessionError
  not_stored : StoreError → SessionError
  not_attempted : AttemptError → SessionError
  not_scored : ScoringError → SessionError

-- What follows `score_run`: the scores are stored, and the result with them.
abbrev pub keep_scores :
    RunResult → Store → Outcome ScoringError (List Score) → Outcome SessionError RunResult × Store
keep_scores result s (raised e) = (raised (not_scored e), s)
keep_scores result s (returned scores) =
    let scored = record result { scores = some scores } in
    (returned scored, put_result result.run.run_id scored (put_scores scores s))

unfoldable pub score_result :
    Hashing
    → Dict Scorer
    → List ScorerSpec
    → ExperimentManifest
    → RunResult
    → Store
    → Outcome SessionError RunResult × Store
unfolding score_run put_result put_scores
score_result h registry [] m result s = (returned result, s)
score_result h registry (spec ∷ specs) m result s = keep_scores result s (
    score_run h result.run (read result.run.run_id s) registry result.verifier (agent_ids m)
      (spec ∷ specs))

-- One run, shifted to a later repetition index.
abbrev pub offset_record : Hashing → ℕ → RunRecord → RunRecord
offset_record h offset r = record r {
  repetition = r.repetition + offset;
  run_id =
      derive_run_id h r.experiment_id r.task_id r.env_seed r.team_config_id r.partner_population_id
        r.perturbation_id (r.repetition + offset);
}

-- `_offset_records`
unfoldable pub offset_records : Hashing → ℕ → List RunRecord → List RunRecord
offset_records h offset records = map (offset_record h offset) records

abbrev selected : Option ℕ → List RunRecord → List RunRecord
selected none records = records
selected (some run_id) records = filter (λ r. r.run_id == run_id) records

-- The options of `run_experiment`.
pub record Selection : Type 0 where
  pub only_run_id : Option ℕ
  pub repetition_offset : ℕ

-- The runs that `run_experiment` executes, out of those that were planned.
unfoldable pub records_to_run : Hashing → Selection → List RunRecord → List RunRecord
unfolding offset_records
records_to_run h options records = selected options.only_run_id (
    if options.repetition_offset == 0
    then records
    else offset_records h options.repetition_offset records)

abbrev pub finished :
    Outcome SessionError RunResult × Store → Outcome SessionError (Option RunResult) × Store
finished (raised e, s) = (raised e, s)
finished (returned r, s) = (returned (some r), s)

abbrev pub after_attempt :
    Hashing
    → Dict Scorer
    → List ScorerSpec
    → ExperimentManifest
    → Outcome AttemptError (Option RunResult) × Store
    → Outcome SessionError (Option RunResult) × Store
after_attempt h registry specs m (raised e, s) = (raised (not_attempted e), s)
after_attempt h registry specs m (returned none, s) = (returned none, s)
after_attempt h registry specs m (returned (some result), s) =
    finished (score_result h registry specs m result s)

-- `results.append(…)` before the rest of the loop
abbrev appended :
    RunResult
    → Outcome SessionError (Option (List RunResult)) × Store
    → Outcome SessionError (Option (List RunResult)) × Store
appended r (returned (some rs), s) = (returned (some (r ∷ rs)), s)
appended r (returned none, s) = (returned none, s)
appended r (raised e, s) = (raised e, s)

abbrev continued :
    Outcome SessionError (Option RunResult) × Store
    → (Store → Outcome SessionError (Option (List RunResult)) × Store)
    → Outcome SessionError (Option (List RunResult)) × Store
continued (raised e, s) rest = (raised e, s)
continued (returned none, s) rest = (returned none, s)
continued (returned (some r), s) rest = appended r (rest s)

module _ (fuel : ℕ) (c : Controller) (registry : Dict Scorer) (specs : List ScorerSpec)
    (agents : Dict AgentHandle) (m : ExperimentManifest) where
  -- The loop over the runs, each with fresh agents; `none` when the fuel of a run's driver ran out.
  unfoldable pub run_all :
      List RunRecord → Store → Outcome SessionError (Option (List RunResult)) × Store
  unfolding score_result execute
  run_all [] s = (returned (some []), s)
  run_all (record_ ∷ records) s =
      continued
        (after_attempt c.platform.hashing registry specs m (execute fuel c agents m record_ s))
        (λ later. run_all records later)

  unfoldable pub run_experiment :
      Selection → Store → Outcome SessionError (Option (List RunResult)) × Store
  unfolding run_all records_to_run
  run_experiment options s = elim (plan c.platform.hashing c.manifest_hash c.pack m) [
    | raised e ↦ (raised (not_planned e), s)
    | returned records ↦ run_all (records_to_run c.platform.hashing options records) s
  ]

  unfoldable pub resume_run : ℕ → Store → Outcome SessionError (Option RunResult) × Store
  unfolding score_result resume
  resume_run run_id s = elim (get_run run_id s) [
    | raised e ↦ (raised (not_stored e), s)
    | returned record_ ↦
        after_attempt c.platform.hashing registry specs m (resume fuel c agents m record_ s)
  ]
