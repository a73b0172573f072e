-- ===== src/Controller/Outcomes.antt =====
-- `_terminal_state`: the state in which a run that the driver has ended is recorded.
use multi_agent_testbed.Base.{Bool, true, false, Option, none, some, if◌then◌else◌}
use multi_agent_testbed.Contracts.Enums.{RunState, complete, task_failed, policy_blocked}
use multi_agent_testbed.Contracts.Results.{VerifierResult}
use multi_agent_testbed.Driver.State.{Limit, max_logical_time, max_events, DriverOutcome}

-- `outcome.limit_hit and outcome.limit_hit not in soft_limits`
unfoldable pub is_hard : Option Limit → Bool
is_hard none = false
is_hard (some max_logical_time) = false
is_hard (some max_events) = false
is_hard (some _) = true

unfoldable pub judged_state : Option VerifierResult → RunState
judged_state none = complete
judged_state (some v) = if v.success then complete else task_failed

unfoldable pub terminal_state : DriverOutcome → Option VerifierResult → RunState
unfolding is_hard judged_state
terminal_state o verifier = if is_hard o.limit_hit then policy_blocked else judged_state verifier
