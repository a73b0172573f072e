-- ===== src/Controller/Plan.antt =====
-- `plan`: the runs that a manifest implies. The hash of a manifest is that of the JSON text that
-- pydantic writes, and is a parameter.
use multi_agent_testbed.Base.{
  ℕ, zero, suc, ◌*◌, String, ◌≡◌, refl, ap, Bool, true, false, not, Option, none, some, List, [],
  ◌∷◌, ◌++◌, map, All, any, filter, contains, length, length-append, ◌==◌, if◌then◌else◌, ◌≢◌,
  All-filter_of, Outcome, returned, raised, arith,
}
use multi_agent_testbed.Contracts.Enums.{planned}
use multi_agent_testbed.Contracts.Ids.{Hashing, derive_run_id}
use multi_agent_testbed.Contracts.Manifest.{ExperimentManifest, declared_reproducibility}
use multi_agent_testbed.Contracts.Results.{RunRecord}
use multi_agent_testbed.Sdk.{TaskCase, Pack}

-- `for x in xs: records.extend(f(x))`
unfoldable pub flat_map {ℓ} : {A B : Type ℓ} → (A → List B) → List A → List B
flat_map f [] = []
flat_map f (x ∷ xs) = f x ++ flat_map f xs

-- `range(n)`, from `start` on
unfoldable pub range_from : ℕ → ℕ → List ℕ
range_from start zero = []
range_from start (suc n) = start ∷ range_from (suc start) n

-- `manifest.perturbations or (None,)`
unfoldable pub perturbations : ExperimentManifest → List (Option String)
perturbations m = if length m.perturbations == 0 then none ∷ [] else map some m.perturbations

unfoldable pub run_record :
    Hashing
    → (ExperimentManifest → ℕ)
    → ExperimentManifest
    → TaskCase
    → ℕ
    → Option String
    → ℕ
    → RunRecord
run_record h manifest_hash m case seed perturbation repetition = record {
  run_id =
      derive_run_id h m.experiment_id case.task_id seed m.team.team_config_id
        m.team.partner_population_id perturbation repetition;
  experiment_id = m.experiment_id;
  manifest_hash = manifest_hash m;
  task_id = case.task_id;
  env_seed = seed;
  team_config_id = m.team.team_config_id;
  partner_population_id = m.team.partner_population_id;
  perturbation_id = perturbation;
  repetition = repetition;
  eval_set_kind = case.eval_set_kind;
  state = planned;
  reproducibility = declared_reproducibility m;
}

-- The four loops of `plan`, over the cases that were selected.
unfoldable pub plan_cases :
    Hashing → (ExperimentManifest → ℕ) → ExperimentManifest → List TaskCase → List RunRecord
unfolding flat_map range_from perturbations run_record
plan_cases h manifest_hash m cases =
    flat_map
      (λ case.
        flat_map
          (λ seed.
            flat_map
              (λ perturbation.
                map (λ repetition. run_record h manifest_hash m case seed perturbation repetition)
                  (range_from 0 m.repetitions))
              (perturbations m))
          m.seeds)
      cases

-- The `KeyError` for task ids that the pack does not have.
pub data PlanError : Type 0 where
  no_such_task : PlanError

abbrev pub task_ids : List TaskCase → List String
task_ids cases = map (λ c. c.task_id) cases

unfoldable pub selected_cases : Pack → ExperimentManifest → Outcome PlanError (List TaskCase)
selected_cases pack m =
    let wanted = filter (λ c. contains m.sample_selector c.task_id) pack.cases in
    if length m.sample_selector == 0
    then returned pack.cases
    else if any (λ t. not (contains (task_ids wanted) t)) m.sample_selector
    then raised no_such_task
    else returned wanted

abbrev plan_from :
    Hashing
    → (ExperimentManifest → ℕ)
    → ExperimentManifest
    → Outcome PlanError (List TaskCase)
    → Outcome PlanError (List RunRecord)
plan_from h manifest_hash m (raised e) = raised e
plan_from h manifest_hash m (returned cases) = returned (plan_cases h manifest_hash m cases)

unfoldable pub plan :
    Hashing
    → (ExperimentManifest → ℕ)
    → Pack
    → ExperimentManifest
    → Outcome PlanError (List RunRecord)
unfolding plan_cases selected_cases
plan h manifest_hash pack m = plan_from h manifest_hash m (selected_cases pack m)

length-flat_map :
    {A B : Type 0} (f : A → List B) (n : ℕ) (xs : List A)
    → ((x : A) → length (f x) ≡ n)
    → length (flat_map f xs) ≡ length xs * n
unfolding flat_map
length-flat_map f n [] same = omega arith
length-flat_map f n (x ∷ xs) same =
    rw (length-append (f x) (flat_map f xs), same x, length-flat_map f n xs same) (omega arith)

length-map : {A B : Type 0} (f : A → B) (xs : List A) → length (map f xs) ≡ length xs
length-map f [] = refl
length-map f (x ∷ xs) = omega (arith, length-map f xs)

length-range_from : (start n : ℕ) → length (range_from start n) ≡ n
unfolding range_from
length-range_from start zero = refl
length-range_from start (suc n) = omega (arith, length-range_from (suc start) n)

-- A plan has one run for each selected case, seed, perturbation and repetition; where the manifest
-- lists no perturbation, none counts as one.
length-plan_cases :
    (h : Hashing) (manifest_hash : ExperimentManifest → ℕ) (m : ExperimentManifest)
    (cases : List TaskCase)
    → length (plan_cases h manifest_hash m cases)
      ≡ length cases * (length m.seeds * (length (perturbations m) * m.repetitions))
unfolding plan_cases
length-plan_cases h manifest_hash m cases = length-flat_map _ _ cases λ case.
    length-flat_map _ _ m.seeds λ seed. length-flat_map _ _ (perturbations m) λ perturbation.
      rw
        (length-map (run_record h manifest_hash m case seed perturbation)
          (range_from 0 m.repetitions))
        (length-range_from 0 m.repetitions)

not-any-All :
    (ids selector : List String)
    → any (λ t. not (contains ids t)) selector ≡ false
    → All (λ t. contains ids t ≡ true) selector
not-any-All ids [] h = tt
not-any-All ids (t ∷ selector) h = (ground arith, not-any-All ids selector (ground arith))

cases_of : Outcome PlanError (List TaskCase) → List TaskCase
cases_of (returned cases) = cases
cases_of (raised e) = []

picked :
    (a b : Bool) (every wanted cases : List TaskCase)
    → (if a then returned every else if b then raised no_such_task else returned wanted)
      ≡ returned cases
    → a ≡ false
    → (b ≡ false) × (wanted ≡ cases)
unfolding cases_of
picked true b every wanted cases e h = cc
picked false true every wanted cases e h = cc
picked false false every wanted cases e h = (refl, ap cases_of e)

-- Where the manifest names tasks and the selection succeeds, each named task has a case among the
-- selected ones, and each selected case is named.
pub selected_cases_sound :
    (pack : Pack) (m : ExperimentManifest) (cases : List TaskCase)
    → m.sample_selector ≢ []
    → selected_cases pack m ≡ returned cases
    → All (λ t. contains (task_ids cases) t ≡ true) m.sample_selector
      × All (λ c. contains m.sample_selector c.task_id ≡ true) cases
unfolding selected_cases
selected_cases_sound pack m cases named e =
    let wanted = filter (λ c. contains m.sample_selector c.task_id) pack.cases in
    let (found, same) =
      picked (length m.sample_selector == 0)
        (any (λ t. not (contains (task_ids wanted) t)) m.sample_selector) pack.cases wanted cases e
        (not_empty m.sample_selector named) in
    rw⁻¹ same (
      not-any-All (task_ids wanted) m.sample_selector found,
      All-filter_of (λ c. contains m.sample_selector c.task_id ≡ true)
          (λ c. contains m.sample_selector c.task_id) (λ c h. h) pack.cases,
    )
  where
    not_empty : (xs : List String) → xs ≢ [] → (length xs == 0) ≡ false
    not_empty [] h = absurd (h refl)
    not_empty (x ∷ xs) h = ground arith
