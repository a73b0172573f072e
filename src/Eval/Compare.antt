-- ===== src/Eval/Compare.antt =====
-- src/testbed_eval/compare.py and the counts and sums of stats.py. Values are in millionths. A mean
-- is its sum and its count; the bootstrap interval and the effect size, which are computed in
-- floating point, are left out.
use Prim.Native.String
use multi_agent_testbed.Base.{
  digits, digits_text, ℕ, ◌+◌, ◌-◌, ◌*◌, String, Bool, not, ◌||◌, Option, none, some, List, [], ◌∷◌,
  map, Dict, lookup, ℤ, pos, ◌+ℤ◌, sub_ℕ, pos_part, neg_part, length, filter, find, any, sum, max,
  leb, ◌==◌, if◌then◌else◌, str_eq, get_or,
}
use multi_agent_testbed.Contracts.Enums.{RunState, is_comparable, is_evaluable}
use multi_agent_testbed.Contracts.Results.{RunRecord, VerifierResult, Score}

-- The stored result of a run.
pub record StoredResult : Type 0 where
  pub run : RunRecord
  pub state : RunState
  pub verifier : Option VerifierResult
  pub measures : Dict ℤ
  pub scores : List Score

-- `comparable` (scoring.py)
unfoldable pub comparable : RunRecord → Bool
unfolding is_comparable
comparable r = is_comparable r.eval_set_kind

-- A text of four parts, joined with bars.
abbrev pub PairingKey : Type 0
PairingKey = String

abbrev perturbation_text : Option String → String
perturbation_text none = "None"
perturbation_text (some s) = s

abbrev joined : String → String → String
joined a b = String.◌++◌ a (String.◌++◌ "|" b)

-- `_pairing_key`
unfoldable pub pairing_key : StoredResult → PairingKey
unfolding digits
pairing_key r = joined r.run.task_id (
    joined (digits_text (digits r.run.env_seed))
      (joined (perturbation_text r.run.perturbation_id) (digits_text (digits r.run.repetition))))

abbrev pub same_pairing : PairingKey → PairingKey → Bool
same_pairing a b = str_eq a b

abbrev success_value : Option VerifierResult → ℤ
success_value none = pos 0
success_value (some v) = if v.success then pos 1000000 else pos 0

abbrev score_value : String → StoredResult → Option Score → Option ℤ
score_value metric r (some s) = some s.value
score_value metric r none =
    if str_eq metric "success" then some (success_value r.verifier) else none

-- `_metric_value`: a measure, else a score, else the verifier's success.
unfoldable pub metric_value : StoredResult → String → Option ℤ
metric_value r metric = elim (lookup metric r.measures) [
  | some v ↦ some v
  | none ↦ score_value metric r (find (λ s. str_eq s.scorer metric) r.scores)
]

-- A dictionary from pairing keys to values.
abbrev pub Values : Type 0
Values = List (PairingKey × ℤ)

unfoldable pub put_value : PairingKey → ℤ → Values → Values
put_value k v [] = (k, v) ∷ []
put_value k v ((key, old) ∷ rest) =
    if same_pairing key k then (key, v) ∷ rest else (key, old) ∷ put_value k v rest

unfoldable pub value_at : PairingKey → Values → Option ℤ
value_at k [] = none
value_at k ((key, v) ∷ rest) = if same_pairing key k then some v else value_at k rest

abbrev pub put_optional : PairingKey → Option ℤ → Values → Values
put_optional k none d = d
put_optional k (some v) d = put_value k v d

-- The inner loop of `compare_experiments`, for one arm.
unfoldable pub collect : String → List StoredResult → Values → Values
unfolding comparable is_evaluable pairing_key metric_value put_value
collect metric [] d = d
collect metric (r ∷ rest) d = collect metric rest (
    if not (comparable r.run)
    then d
    else if not (is_evaluable r.state)
    then d
    else put_optional (pairing_key r) (metric_value r metric) d)

unfoldable pub excluded_in : List StoredResult → ℕ
excluded_in rs = length (filter (λ r. not (comparable r.run)) rs)

abbrev pub has_key : Values → PairingKey × ℤ → Bool
has_key d entry = any (λ e. same_pairing e.0 entry.0) d

-- The values of two arms at the keys they share.
unfoldable pub pairs : Values → Values → List (ℤ × ℤ)
unfolding value_at
pairs [] b = []
pairs ((k, x) ∷ a) b = elim (value_at k b) [ none ↦ pairs a b | some y ↦ (x, y) ∷ pairs a b ]

abbrev pub negated : ℤ → ℤ
negated z = sub_ℕ (neg_part z) (pos_part z)

abbrev pub total : List ℤ → ℤ
total [] = pos 0
total (z ∷ zs) = z +ℤ total zs

pub record PairedComparison : Type 0 where
  pub n_pairs : ℕ
  pub total_a : ℤ
  pub total_b : ℤ
  pub total_difference : ℤ
  pub unpaired_a : ℕ
  pub unpaired_b : ℕ

-- `compare_paired`
unfoldable pub compare_paired : Values → Values → PairedComparison
unfolding pairs
compare_paired a b = record {
  n_pairs = length (pairs a b);
  total_a = total (map (λ p. p.0) (pairs a b));
  total_b = total (map (λ p. p.1) (pairs a b));
  total_difference = total (map (λ p. p.0 +ℤ negated p.1) (pairs a b));
  unpaired_a = length (filter (λ e. not (has_key b e)) a);
  unpaired_b = length (filter (λ e. not (has_key a e)) b);
}

-- The mean number of model calls is `model_calls` over `n_evaluable`.
pub record ArmSummary : Type 0 where
  pub experiment_id : String
  pub n_runs : ℕ
  pub n_evaluable : ℕ
  pub n_attrition : ℕ
  pub model_calls : ℕ

-- A measure of a run counts its model calls: it is not negative.
abbrev calls_of : StoredResult → ℕ
calls_of r = pos_part (get_or (lookup "model_calls" r.measures) (pos 0))

-- `_arm`
unfoldable pub arm : List StoredResult → String → ArmSummary
unfolding is_evaluable
arm results experiment_id =
    let evaluable = filter (λ r. is_evaluable r.state) results in
    record {
      experiment_id = experiment_id;
      n_runs = length results;
      n_evaluable = length evaluable;
      n_attrition = length results - length evaluable;
      model_calls = sum (map calls_of evaluable);
    }

abbrev at_least_one : ℕ → ℕ
at_least_one n = max n 1

-- `baseline == 0 or delta / baseline <= tolerance`, both means brought to one denominator; the
-- tolerance is in millionths.
unfoldable pub is_matched : ℕ → ArmSummary → ArmSummary → Bool
is_matched tolerance a b =
    let x = a.model_calls * at_least_one b.n_evaluable in
    let y = b.model_calls * at_least_one a.n_evaluable in
    max x y == 0 || leb ((max x y - (if leb x y then x else y)) * 1000000) (tolerance * max x y)

pub record ComparisonReport : Type 0 where
  pub metric : String
  pub arm_a : ArmSummary
  pub arm_b : ArmSummary
  pub stats : PairedComparison
  pub compute_matched : Bool
  pub excluded_non_comparable : ℕ

unfoldable pub compare_experiments :
    List StoredResult → List StoredResult → String → String → String → ℕ → ComparisonReport
unfolding collect compare_paired arm is_matched excluded_in
compare_experiments results_a results_b experiment_a experiment_b metric tolerance = record {
  metric = metric;
  arm_a = arm results_a experiment_a;
  arm_b = arm results_b experiment_b;
  stats = compare_paired (collect metric results_a []) (collect metric results_b []);
  compute_matched = is_matched tolerance (arm results_a experiment_a) (arm results_b experiment_b);
  excluded_non_comparable = excluded_in results_a + excluded_in results_b;
}
