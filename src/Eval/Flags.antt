-- ===== src/Eval/Flags.antt =====
-- A judge's rating never passes for a hard score.
use multi_agent_testbed.Base.{
  ℕ, String, ◌≡◌, refl, sym, ap, ◌∙◌, true, Option, none, some, List, [], ◌∷◌, ◌++◌, Dict, lookup,
  All, All-append, subst, if◌then◌else◌, str_eq, returned, Bool-cases, inl, inr,
}
use multi_agent_testbed.Contracts.Ids.{Hashing}
use multi_agent_testbed.Contracts.Events.{Event, event_view}
use multi_agent_testbed.Contracts.Results.{RunRecord, VerifierResult, Score}
use multi_agent_testbed.Eval.Scorers.{
  Judge, ScorerContext, Quotient, score_coordination, score_task_success, score_efficiency,
  score_safety, score_judge_quality,
}
use multi_agent_testbed.Eval.Scoring.{
  ScorerSpec, Scorer, scorers, builtin, view_of, context_of, score_run,
}

-- The score is of the run, and it is flagged as a judge's exactly if its kind says so.
abbrev pub IsFlagged : ℕ → Score → Type 0
IsFlagged run_id s = (s.run_id ≡ run_id) × (s.is_judge ≡ str_eq s.kind "judge")

-- A scorer all of whose scores are flagged.
abbrev pub FlagsAll : Scorer → Type 0
FlagsAll scorer =
    (view : String) (events : List Event) (context : ScorerContext)
    → All (IsFlagged context.run_id) (scorer.score view events context)

judged-IsFlagged :
    (context : ScorerContext) (view : String) (events : List Event) (judge : Option Judge)
    → judge ≡ context.judge
    → All (IsFlagged context.run_id) (score_judge_quality view events context)
unfolding score_judge_quality
judged-IsFlagged context view events none e = rw (sym e) tt
judged-IsFlagged context view events (some judge) e = rw (sym e) ((refl, refl), tt)

task_success-FlagsAll : FlagsAll (builtin score_task_success)
unfolding score_task_success
task_success-FlagsAll view events context = ((refl, refl), tt)

coordination-FlagsAll : (q : Quotient) → FlagsAll (builtin (score_coordination q))
unfolding score_coordination
coordination-FlagsAll q view events context = ((refl, refl), tt)

efficiency-FlagsAll : FlagsAll (builtin score_efficiency)
unfolding score_efficiency
efficiency-FlagsAll view events context = ((refl, refl), tt)

safety-FlagsAll : FlagsAll (builtin score_safety)
unfolding score_safety
safety-FlagsAll view events context = ((refl, refl), tt)

judge_quality-FlagsAll : FlagsAll (builtin score_judge_quality)
judge_quality-FlagsAll view events context = judged-IsFlagged context view events context.judge refl

-- Every scorer that comes with the testbed flags its scores.
scorers-FlagsAll : (q : Quotient) → All (λ kv. FlagsAll kv.1) (scorers q)
scorers-FlagsAll q = (
  task_success-FlagsAll,
  (coordination-FlagsAll q, (efficiency-FlagsAll, (safety-FlagsAll, (judge_quality-FlagsAll, tt)))),
)

-- A specification whose scorer is registered in the version that it pins.
abbrev pub IsRegistered : Dict Scorer → ScorerSpec → Type 0
IsRegistered registry spec =
    (s : Scorer) × (lookup spec.name registry ≡ some s) × (str_eq s.version spec.version ≡ true)

some-injective : {A : Type 0} (a b : A) → some a ≡ some b → a ≡ b
some-injective a b h = cc

lookup-All :
    (P : Scorer → Type 0) (name : String) (d : Dict Scorer) (s : Scorer)
    → All (λ kv. P kv.1) d
    → lookup name d ≡ some s
    → P s
unfolding lookup
lookup-All P name [] s h e = cc
lookup-All P name ((k, v) ∷ d) s h e = elim (Bool-cases (str_eq k name)) [
  | inl same ↦
      subst P (some-injective v s (sym (ap (λ b. if b then some v else lookup name d) same) ∙ e))
        h.0
  | inr other ↦
      lookup-All P name d s h.1 (sym (ap (λ b. if b then some v else lookup name d) other) ∙ e)
]

module _ (h : Hashing) (record_ : RunRecord) (events : List Event)
    (verifier : Option VerifierResult) (agent_ids : List String) (q : Quotient) where
  -- Scoring a run with the scorers that come with the testbed returns, when every specification
  -- names one of them in the version it pins, and then each score is of that run and is flagged as
  -- a judge's exactly if its kind is `judge`: no rating by a judge is among the hard scores.
  pub score_run-IsFlagged :
      (specs : List ScorerSpec)
      → All (IsRegistered (scorers q)) specs
      → (scores : List Score) × (score_run h record_ events (scorers q) verifier agent_ids specs
          ≡ returned scores)
        × All (IsFlagged record_.run_id) scores
  unfolding score_run context_of
  score_run-IsFlagged [] known = ([], refl, tt)
  score_run-IsFlagged (spec ∷ specs) ((s, found, same), known) =
      let (rest, done, flags) = score_run-IsFlagged specs known in
      let context = context_of h record_ verifier agent_ids spec in
      let first = s.score (view_of spec) (event_view events (view_of spec)) context in
      (
        first ++ rest,
        rw (found, same, done) refl,
        All-append (IsFlagged record_.run_id) first rest
            (lookup-All FlagsAll spec.name (scorers q) s (scorers-FlagsAll q) found (view_of spec)
              (event_view events (view_of spec)) context)
            flags,
      )
