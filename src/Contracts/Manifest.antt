-- ===== src/Contracts/Manifest.antt =====
-- src/testbed_contracts/manifest.py: the experiment manifest and its validators. Integers are
-- natural numbers, floats are counted in millionths, and a probability in units of 2 ^ -53, the
-- granularity of `random.random()`. Settings that no code reads are left out.
pub mod Validation
use multi_agent_testbed.Base.{
  ℕ, String, ◌≡◌, Bool, true, false, ◌&&◌, ◌||◌, not, Option, none, some, List, [], ◌∷◌, map, Dict,
  ℤ, length, any, find, keys, contains, ltb, leb, ◌==◌, if◌then◌else◌, str_eq, pos,
}
use multi_agent_testbed.Contracts.Enums.{
  WorldDriverKind, EnvMode, FaultKind, VisibilityPolicy, ReproducibilityLevel, EvalSetKind,
  bit_exact, reproducibility_index,
}
use multi_agent_testbed.Contracts.Ids.{Json}

pub record AgentSpec : Type 0 where
  pub agent_id : String
  pub adapter : String
  pub role : String
  pub model : String
  pub prompt : String
  pub reproducibility : ReproducibilityLevel

pub record CommunicationSpec : Type 0 where
  pub max_message_bytes : ℕ
  pub broadcast_allowed : Bool
  pub default_visibility : VisibilityPolicy
  pub delivery_latency : ℕ

pub record InformationPartition : Type 0 where
  pub public_facts : Dict Json
  pub private_facts : Dict (Dict Json)

pub data PayoffMode : Type 0 where
  cooperative zero_sum general_sum mixed_motive : PayoffMode

pub data Welfare : Type 0 where
  sum_welfare min_welfare nash_welfare : Welfare

pub record PayoffSpec : Type 0 where
  pub mode : PayoffMode
  pub team_weight : ℤ
  pub individual_weight : ℤ
  pub welfare : Welfare

pub record FaultSpec : Type 0 where
  pub kind : FaultKind
  pub targets : List String
  pub senders : List String
  pub recipients : List String
  pub on_occurrences : List ℕ
  pub probability : ℕ
  pub delay_ticks : ℕ

pub record WorldSpec : Type 0 where
  pub driver : WorldDriverKind
  pub env_mode : EnvMode
  pub topology : String
  pub communication : CommunicationSpec
  pub information : InformationPartition
  pub clock_step : ℕ

pub record TeamSpec : Type 0 where
  pub team_config_id : String
  pub partner_population_id : Option String

pub record LimitsSpec : Type 0 where
  pub max_logical_time : ℕ
  pub max_events : ℕ
  pub max_messages : ℕ
  pub max_model_calls : ℕ
  pub max_cost_usd : ℕ
  pub checkpoint_every_events : ℕ

pub record ExperimentManifest : Type 0 where
  pub experiment_id : String
  pub sample_selector : List String
  pub world : WorldSpec
  pub agents : List AgentSpec
  pub team : TeamSpec
  pub payoff : PayoffSpec
  pub faults : List FaultSpec
  pub seeds : List ℕ
  pub repetitions : ℕ
  pub perturbations : List String
  pub limits : LimitsSpec

pub data ManifestError : Type 0 where
  cooperative_with_weight mixed_without_weight : ManifestError
  fault_without_trigger : ManifestError
  no_agents duplicate_agents unknown_fact_owner : ManifestError

abbrev pub is_zero : ℤ → Bool
is_zero (pos n) = n == 0
is_zero _ = false

-- `PayoffSpec._check_weights`
unfoldable pub check_weights : PayoffSpec → Option ManifestError
check_weights p = elim p.mode [
  | cooperative ↦ if is_zero p.individual_weight then none else some cooperative_with_weight
  | mixed_motive ↦ if is_zero p.individual_weight then some mixed_without_weight else none
  | _ ↦ none
]

-- `FaultSpec._check_trigger`
unfoldable pub check_trigger : FaultSpec → Option ManifestError
check_trigger f =
    if length f.on_occurrences == 0 && leb f.probability 0 then some fault_without_trigger else none

-- `len(set(ids)) != len(ids)`
unfoldable pub has_duplicates : List String → Bool
has_duplicates [] = false
has_duplicates (x ∷ xs) = contains xs x || has_duplicates xs

abbrev pub agent_ids : ExperimentManifest → List String
agent_ids m = map (λ a. a.agent_id) m.agents

-- `ExperimentManifest._check_agents`
unfoldable pub check_agents : ExperimentManifest → Option ManifestError
check_agents m =
    if length m.agents == 0
    then some no_agents
    else if has_duplicates (agent_ids m)
    then some duplicate_agents
    else if any (λ k. not (contains (agent_ids m) k)) (keys m.world.information.private_facts)
    then some unknown_fact_owner
    else none

-- `ExperimentManifest.agent`; `none` is the `KeyError`.
unfoldable pub agent : ExperimentManifest → String → Option AgentSpec
agent m agent_id = find (λ a. str_eq a.agent_id agent_id) m.agents

-- The test in the loop of `declared_reproducibility`.
abbrev pub weaker : ReproducibilityLevel → ReproducibilityLevel → ReproducibilityLevel
weaker worst level =
    if ltb (reproducibility_index worst) (reproducibility_index level) then level else worst

unfoldable pub worst_level : ReproducibilityLevel → List AgentSpec → ReproducibilityLevel
worst_level worst [] = worst
worst_level worst (a ∷ rest) = worst_level (weaker worst a.reproducibility) rest

unfoldable pub declared_reproducibility : ExperimentManifest → ReproducibilityLevel
declared_reproducibility m = worst_level bit_exact m.agents
