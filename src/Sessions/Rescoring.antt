-- ===== src/Sessions/Rescoring.antt =====
-- Scoring reads a stored run and changes nothing that it reads.
use multi_agent_testbed.Base.{
  ℕ, ◌≡◌, refl, ap, ◌∙◌, some, List, [], ◌∷◌, Dict, Outcome, returned, raised, Gives,
}
use multi_agent_testbed.Contracts.Ids.{Hashing}
use multi_agent_testbed.Contracts.Manifest.{ExperimentManifest, agent_ids}
use multi_agent_testbed.Contracts.Results.{Score}
use multi_agent_testbed.Records.{RunResult}
use multi_agent_testbed.Store.{Store, read, get_result, put_scores, put_result}
use multi_agent_testbed.Eval.Scoring.{ScorerSpec, Scorer, ScoringError, score_run}
use multi_agent_testbed.Controller.Stored.{get_result-put_result}
use multi_agent_testbed.Sessions.{keep_scores, score_result}

put_scores-events : (scores : List Score) (s : Store) → (put_scores scores s).events ≡ s.events
unfolding put_scores
put_scores-events [] s = refl
put_scores-events (score ∷ scores) s = rw (put_scores-events scores _)

read-put_scores :
    (run_id at : ℕ) (result : RunResult) (scores : List Score) (s : Store)
    → read run_id (put_result at result (put_scores scores s)) ≡ read run_id s
unfolding read put_result
read-put_scores run_id at result scores s = rw (put_scores-events scores s)

-- What the store and a second scoring say of a result that has been scored.
abbrev pub IsSettled :
    Hashing
    → Dict Scorer
    → List ScorerSpec
    → ExperimentManifest
    → ℕ
    → Store
    → RunResult
    → Store
    → Type 0
IsSettled h registry specs m run_id before result s =
    (get_result run_id s ≡ some result)
    × (read run_id s ≡ read run_id before)
    × ((score_result h registry specs m result s).0 ≡ returned result)

module _ (h : Hashing) (registry : Dict Scorer) (spec : ScorerSpec) (specs : List ScorerSpec)
    (m : ExperimentManifest) where
  settled :
      (result : RunResult) (s : Store) (scores : Outcome ScoringError (List Score))
      → score_run h result.run
          (read result.run.run_id s)
          registry
          result.verifier
          (agent_ids m)
          (spec ∷ specs)
        ≡ scores
      → Gives
          (keep_scores result s scores)
          (IsSettled h registry (spec ∷ specs) m result.run.run_id s)
  unfolding score_result
  settled result s (raised e) same = tt
  settled result s (returned scores) same =
      let scored = record result { scores = some scores } in
      let run_id = result.run.run_id in
      let later = put_result run_id scored (put_scores scores s) in
      let unchanged : read run_id later ≡ read run_id s =
        read-put_scores run_id run_id scored scores s in
      (
        get_result-put_result run_id scored (put_scores scores s),
        unchanged,
        ap (λ o. (keep_scores scored later o).0)
            (ap
                (λ events.
                  score_run h result.run events registry result.verifier (agent_ids m)
                    (spec ∷ specs))
                unchanged
              ∙ same),
      )

  -- When the scoring of a run with at least one scorer returns a result, the store has that result
  -- for the run, the run's log reads as it did before, and scoring the scored run again returns the
  -- same result.
  pub score_result-IsSettled :
      (result : RunResult) (s : Store)
      → Gives
          (score_result h registry (spec ∷ specs) m result s)
          (IsSettled h registry (spec ∷ specs) m result.run.run_id s)
  unfolding score_result
  score_result-IsSettled result s = settled result s _ refl
