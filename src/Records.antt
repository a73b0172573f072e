-- ===== src/Records.antt =====
-- The stored records that hold parts of several components: a checkpoint with the World's snapshot,
-- the driver's state and the generator's, and the result of a run
-- (src/testbed_contracts/results.py, and the dictionaries that World.snapshot, DriverState.dump and
-- DeterministicRng.state build).
use multi_agent_testbed.Base.{ℕ, String, Bool, Option, List, [], Dict, ℤ}
use multi_agent_testbed.Contracts.Enums.{RunState, ReproducibilityLevel}
use multi_agent_testbed.Contracts.Ids.{Json}
use multi_agent_testbed.Contracts.Results.{RunRecord, VerifierResult, Score}
use multi_agent_testbed.Scheduler.{ScheduledDelivery}

-- `World.counters`; the keys are fixed.
pub record Counters : Type 0 where
  pub messages : ℕ
  pub spawns : ℕ
  pub model_calls : ℕ
  pub tool_calls : ℕ
  pub duplicate_actions : ℕ

-- The dictionary that `World.snapshot` builds. The keys of the fault occurrences are decimal texts,
-- the resources the dictionary that pydantic dumps, amounts in millionths as integers. The rows of
-- the queue, which pydantic dumps and validates, are kept as the deliveries they stand for.
pub record Snapshot : Type 0 where
  pub logical_time : ℕ
  pub finished : Bool
  pub finish_reason : Option String
  pub state : Dict Json
  pub payoffs : Dict ℤ
  pub private_facts : Dict (Dict Json)
  pub public_facts : Dict Json
  pub counters : Counters
  pub fault_occurrences : List (List ℕ × ℕ)
  pub dropped_agents : List String
  pub resources : Dict ℕ
  pub queue : List ScheduledDelivery

pub record DriverState : Type 0 where
  pub invocations : ℕ
  pub activated : List String
  pub turn : ℕ

abbrev pub fresh_driver : DriverState
fresh_driver = record { invocations = 0; activated = []; turn = 0 }

pub record JournalState : Type 0 where
  pub sequence : ℕ
  pub logical_action_index : ℕ

-- The labels of the random streams: `fault:<index>` and `plugin:<label>`.
pub data Label : Type 0 where
  fault_label : ℕ → Label
  plugin_label : String → Label

pub record RngState : Type 0 where
  pub seed : ℕ
  pub counters : List (Label × ℕ)

pub record Checkpoint : Type 0 where
  pub checkpoint_id : ℕ
  pub run_id : ℕ
  pub attempt_id : ℕ
  pub sequence : ℕ
  pub logical_time : ℕ
  pub world_snapshot : Snapshot
  pub driver : DriverState
  pub journal : JournalState
  pub pending_deliveries : List ScheduledDelivery
  pub rng_state : RngState

pub record RunResult : Type 0 where
  pub run : RunRecord
  pub attempt_id : ℕ
  pub state : RunState
  pub verifier : Option VerifierResult
  pub scores : Option (List Score)
  pub event_count : ℕ
  pub logical_time : ℕ
  pub attrition_reason : Option String
  pub reproducibility : ReproducibilityLevel
