-- ===== src/Eval/Scoring.antt =====
-- src/testbed_eval/scoring.py: every scorer of a manifest over one stored run. The guard against
-- network access (purity.py) has nothing to stop here: a scorer is a function.
use multi_agent_testbed.Base.{
  String, Bool, true, false, not, Option, none, some, List, [], ◌∷◌, ◌++◌, Dict, lookup, insert,
  if◌then◌else◌, str_eq, Outcome, returned, raised,
}
use multi_agent_testbed.Contracts.Ids.{Json, num, Hashing}
use multi_agent_testbed.Contracts.Events.{Event, event_view, omniscient_view}
use multi_agent_testbed.Contracts.Results.{RunRecord, VerifierResult, Score}
use multi_agent_testbed.Eval.Scorers.{
  Judge, hash_rubric_rate, ScorerContext, Quotient, score_coordination, score_task_success,
  score_efficiency, score_safety, score_judge_quality,
}

pub record ScorerSpec : Type 0 where
  pub name : String
  pub version : String
  pub kind : String
  pub config : Dict Json
  pub judge_model : Option String
  pub view : String

-- `ScorerSpec._check_judge`: whether the specification is accepted
unfoldable pub is_pinned : ScorerSpec → Bool
is_pinned s =
    if str_eq s.kind "judge"
    then elim s.judge_model [ none ↦ false | some m ↦ not (str_eq m "") ]
    else true

pub record Scorer : Type 0 where
  pub version : String
  pub score : String → List Event → ScorerContext → List Score

abbrev pub builtin : (String → List Event → ScorerContext → List Score) → Scorer
builtin f = record { version = "1.0.0"; score = f }

-- `SCORERS`
abbrev pub scorers : Quotient → Dict Scorer
scorers quotient =
    ("task_success", builtin score_task_success)
    ∷ ("coordination", builtin (score_coordination quotient))
    ∷ ("efficiency", builtin score_efficiency)
    ∷ ("safety", builtin score_safety)
    ∷ ("judge_quality", builtin score_judge_quality)
    ∷ []

-- `resolve_judge`
unfoldable pub resolve_judge : Hashing → ScorerSpec → Option Judge
unfolding hash_rubric_rate
resolve_judge h spec =
    if not (str_eq spec.kind "judge") then none else some (record { rate = hash_rubric_rate h })

-- `spec.view or OMNISCIENT_VIEW`
abbrev pub view_of : ScorerSpec → String
view_of spec = if str_eq spec.view "" then omniscient_view else spec.view

unfoldable pub context_of :
    Hashing → RunRecord → Option VerifierResult → List String → ScorerSpec → ScorerContext
unfolding resolve_judge insert
context_of h record_ verifier agent_ids spec = record {
  run_id = record_.run_id;
  task_id = record_.task_id;
  agent_ids = agent_ids;
  verifier = verifier;
  config = insert "seed" (num record_.env_seed) spec.config;
  seed = record_.env_seed;
  judge = resolve_judge h spec;
}

pub data ScoringError : Type 0 where
  not_registered : String → ScoringError
  wrong_version : String → String → String → ScoringError

-- `scores.extend(…)` after the rest of the loop, whose exception passes through
abbrev pub extended :
    List Score → Outcome ScoringError (List Score) → Outcome ScoringError (List Score)
extended scores (returned more) = returned (scores ++ more)
extended scores (raised e) = raised e

-- What one scorer gives, or why it cannot be used.
abbrev pub scored :
    Option Scorer → ScorerSpec → List Event → ScorerContext → Outcome ScoringError (List Score)
scored none spec events context = raised (not_registered spec.name)
scored (some scorer) spec events context =
    if not (str_eq scorer.version spec.version)
    then raised (wrong_version spec.name scorer.version spec.version)
    else returned (scorer.score (view_of spec) (event_view events (view_of spec)) context)

abbrev pub followed :
    Outcome ScoringError (List Score)
    → Outcome ScoringError (List Score)
    → Outcome ScoringError (List Score)
followed (returned scores) rest = extended scores rest
followed (raised e) rest = raised e

module _ (h : Hashing) (record_ : RunRecord) (events : List Event) (registry : Dict Scorer)
    (verifier : Option VerifierResult) (agent_ids : List String) where
  -- `score_run`, over the specifications
  unfoldable pub score_run : List ScorerSpec → Outcome ScoringError (List Score)
  unfolding lookup event_view context_of
  score_run [] = returned []
  score_run (spec ∷ specs) =
      followed
        (scored (lookup spec.name registry) spec events
          (context_of h record_ verifier agent_ids spec))
        (score_run specs)
