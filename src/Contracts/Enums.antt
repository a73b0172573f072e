-- ===== src/Contracts/Enums.antt =====
-- src/testbed_contracts/enums.py: the closed enumerations, and the sets of states that the rest of
-- the program tests membership of.
use multi_agent_testbed.Base.{ℕ, ◌≡◌, Bool, true, false, ◌==◌, arith}

pub data RunState : Type 0 where
  planned provisioning running verifying scoring : RunState
  complete cancelled task_failed policy_blocked infra_failed : RunState

-- `state in TERMINAL_STATES`
unfoldable pub is_terminal : RunState → Bool
is_terminal planned = false
is_terminal provisioning = false
is_terminal running = false
is_terminal verifying = false
is_terminal scoring = false
is_terminal _ = true

-- `state in EVALUABLE_STATES`
unfoldable pub is_evaluable : RunState → Bool
is_evaluable complete = true
is_evaluable task_failed = true
is_evaluable _ = false

pub data EventKind : Type 0 where
  run_started run_finished attempt_started : EventKind
  agent_registered agent_spawned agent_invoked agent_message agent_final agent_error : EventKind
  tool_called tool_result : EventKind
  world_action world_state_changed world_message_delivered : EventKind
  world_clock_advanced world_snapshot_created : EventKind
  fault_injected policy_decision verifier_result payoff_assigned : EventKind

-- The position of a kind in the enumeration; kinds are compared by it.
abbrev pub kind_index : EventKind → ℕ
kind_index run_started = 0
kind_index run_finished = 1
kind_index attempt_started = 2
kind_index agent_registered = 3
kind_index agent_spawned = 4
kind_index agent_invoked = 5
kind_index agent_message = 6
kind_index agent_final = 7
kind_index agent_error = 8
kind_index tool_called = 9
kind_index tool_result = 10
kind_index world_action = 11
kind_index world_state_changed = 12
kind_index world_message_delivered = 13
kind_index world_clock_advanced = 14
kind_index world_snapshot_created = 15
kind_index fault_injected = 16
kind_index policy_decision = 17
kind_index verifier_result = 18
kind_index payoff_assigned = 19

abbrev pub same_kind : EventKind → EventKind → Bool
same_kind a b = kind_index a == kind_index b

pub data AgentEventKind : Type 0 where
  message tool_call world_action final error : AgentEventKind

pub data VisibilityPolicy : Type 0 where
  is_public is_private partition omniscient_only : VisibilityPolicy

abbrev pub visibility_index : VisibilityPolicy → ℕ
visibility_index is_public = 0
visibility_index is_private = 1
visibility_index partition = 2
visibility_index omniscient_only = 3

pub data WorldDriverKind : Type 0 where
  session env : WorldDriverKind

pub data EnvMode : Type 0 where
  aec parallel : EnvMode

pub data FaultKind : Type 0 where
  drop_message delay_message duplicate_message corrupt_message : FaultKind
  agent_dropout tool_failure : FaultKind

pub data ReproducibilityLevel : Type 0 where
  bit_exact environment_exact best_effort : ReproducibilityLevel

-- `REPRODUCIBILITY_ORDER.index(level)`
abbrev pub reproducibility_index : ReproducibilityLevel → ℕ
reproducibility_index bit_exact = 0
reproducibility_index environment_exact = 1
reproducibility_index best_effort = 2

pub data Maturity : Type 0 where
  certified experimental stub external : Maturity

pub data Runtime : Type 0 where
  in_process subprocess oci remote : Runtime

pub data EvalSetKind : Type 0 where
  frozen_eval quarantine regression optimization : EvalSetKind

-- `kind in COMPARABLE_EVAL_SETS`
unfoldable pub is_comparable : EvalSetKind → Bool
is_comparable frozen_eval = true
is_comparable regression = true
is_comparable _ = false

-- Only a terminal state is evaluable.
pub is_evaluable→is_terminal : (s : RunState) → is_evaluable s ≡ true → is_terminal s ≡ true
unfolding is_evaluable is_terminal
is_evaluable→is_terminal s h = ground arith
