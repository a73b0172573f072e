-- ===== src/Packs/Answers.antt =====
-- `score_answer` of src/testbed_packs/lm_eval/metrics.py, and the verifier of lm_eval/pack.py that
-- calls it.
use Prim.Native.Char.{Char, code}
use multi_agent_testbed.Base.{
  ℕ, zero, suc, ◌-◌, String, Bool, false, not, ◌&&◌, ◌||◌, Option, none, some, get_or, List, [],
  ◌∷◌, map, if◌then◌else◌, str_eq, leb, ◌==◌, contains, lookup, pos, Outcome, returned, raised,
}
use multi_agent_testbed.Contracts.Ids.{Json, Items, null, text, arr, nil, cons, bool}
use multi_agent_testbed.Contracts.Results.{VerifierResult}
use multi_agent_testbed.Sdk.{WorldSnapshotView}
use multi_agent_testbed.Packs.Python.{Python, str_of, is_null, strip}
use multi_agent_testbed.Packs.LmEval.{SourceError, unknown_metric, metrics}
use multi_agent_testbed.Packs.Matching.{Unicode, normalize, last_number, numbers_equal}
use multi_agent_testbed.Packs.Smoke.{full_mark}

pub record MatchResult : Type 0 where
  pub correct : Bool
  pub extracted : Option String
  pub expected : String
  pub metric : String

-- `s.strip(".)")`
abbrev is_mark : Char → Bool
is_mark c = code c == 46 || code c == 41

abbrev marks_left : String → String
marks_left String.[] = ""
marks_left (String.◌∷◌ c s) = if is_mark c then marks_left s else String.◌∷◌ c s

abbrev marks_right : String → String
marks_right String.[] = ""
marks_right (String.◌∷◌ c s) =
    let rest = marks_right s in if is_mark c && str_eq rest "" then "" else String.◌∷◌ c rest

abbrev choice_at : ℕ → List String → Option String
choice_at n [] = none
choice_at zero (c ∷ cs) = some c
choice_at (suc n) (c ∷ cs) = choice_at n cs

-- The choice that a single letter stands for.
abbrev lettered : Unicode → List String → String → Option String
lettered u normalized String.[] = none
lettered u normalized (String.◌∷◌ c s) =
    if str_eq s "" && u.is_alpha c && leb 65 (code c)
    then choice_at (code c - 65) normalized
    else none

abbrev pub resolve_stripped : Unicode → List String → String → Option String
resolve_stripped u [] answer = some (normalize u answer)
resolve_stripped u (choice ∷ choices) answer =
    let normalized = map (normalize u) (choice ∷ choices) in
    if contains normalized (normalize u answer)
    then some (normalize u answer)
    else lettered u normalized (u.upper (marks_right (marks_left (strip answer))))

-- `_resolve_choice`
unfoldable pub resolve_choice : Unicode → List String → String → Option String
unfolding normalize
resolve_choice u choices answer =
    if str_eq (strip answer) "" then none else resolve_stripped u choices (strip answer)

-- `found or default`
abbrev pub or_else : Option String → String → String
or_else none default = default
or_else (some s) default = if str_eq s "" then default else s

-- `found is not None and test(found)`
abbrev pub passes : Option String → (String → Bool) → Bool
passes none test = false
passes (some s) test = test s

abbrev result : Bool → Option String → String → String → MatchResult
result correct extracted expected metric = record {
  correct = correct;
  extracted = extracted;
  expected = expected;
  metric = metric;
}

-- `score_answer`, for a metric that is one of the four
abbrev pub match_stripped : Unicode → String → String → List String → String → MatchResult
match_stripped u submission target choices metric =
    if str_eq metric "exact_match"
    then result (str_eq submission (strip target)) (some submission) target metric
    else if str_eq metric "normalized_match"
    then result (str_eq (normalize u submission) (normalize u target))
        (some (normalize u submission)) target metric
    else if str_eq metric "numeric"
    then (let expected = or_else (last_number u target) (strip target) in
        result (passes (last_number u submission) (λ found. numbers_equal u found expected))
          (last_number u submission) expected metric)
    else (let expected = or_else (resolve_choice u choices target) (strip target) in
        result (passes (resolve_choice u choices submission) (λ found. str_eq found expected))
          (resolve_choice u choices submission) expected metric)

-- `score_answer`
unfoldable pub score_answer :
    Unicode → String → String → List String → String → Outcome SourceError MatchResult
unfolding resolve_choice last_number numbers_equal
score_answer u submission target choices metric =
    if not (contains metrics metric)
    then raised unknown_metric
    else returned (match_stripped u (strip submission) target choices metric)

abbrev items : Items → List Json
items nil = []
items (cons x xs) = x ∷ items xs

-- `state.get(CHOICES_KEY, ()) or ()`
abbrev choices_in : Option Json → List Json
choices_in (some (arr xs)) = items xs
choices_in _ = []

abbrev optional : Option String → Json
optional none = null
optional (some s) = text s

-- What `AnswerVerifier.verify` makes of a match.
abbrev verdict :
    List String → Json → Outcome SourceError MatchResult → Outcome SourceError VerifierResult
verdict agents submitted (raised e) = raised e
verdict agents submitted (returned r) = returned (record {
  success = r.correct;
  reward = full_mark r.correct;
  per_agent_payoff = map (λ a. (a, full_mark r.correct)) agents;
  detail =
      ("submitted", submitted)
      ∷ ("metric", text r.metric)
      ∷ ("extracted", optional r.extracted)
      ∷ ("expected", text r.expected)
      ∷ ("correct", bool r.correct)
      ∷ [];
})

-- `AnswerVerifier.verify`
unfoldable pub verify_answer :
    Unicode → Python → String → WorldSnapshotView → Outcome SourceError VerifierResult
unfolding score_answer
verify_answer u py metric state =
    let submitted = get_or (lookup "submitted" state.state) null in
    let target = str_of py (get_or (lookup "_target" state.state) (text "")) in
    let choices = map (str_of py) (choices_in (lookup "_choices" state.state)) in
    if is_null submitted
    then returned (record {
      success = false;
      reward = pos 0;
      per_agent_payoff = map (λ a. (a, pos 0)) state.agent_ids;
      detail = ("metric", text metric) ∷ ("reason", text "no answer submitted") ∷ [];
    })
    else verdict state.agent_ids submitted
        (score_answer u (str_of py submitted) target choices metric)
