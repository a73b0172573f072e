-- ===== src/Driver/Env.antt =====
-- `EnvDriver`: ticks over a World, one agent after another or all at once.
use multi_agent_testbed.Base.{
  ℕ, ◌+◌, String, Bool, true, false, Option, none, some, List, [], ◌∷◌, ◌++◌, lookup, sort_by, leb,
  ltb, if◌then◌else◌, str_eq, str_le, get_or, pure, raise, gets, modify, ◌>>=◌, ◌>>◌,
}
use multi_agent_testbed.Contracts.Enums.{
  AgentEventKind, WorldDriverKind, session, env, EnvMode, aec, parallel, message, tool_call, final,
  error,
}
use multi_agent_testbed.Contracts.Enums
use multi_agent_testbed.Contracts.Events.{add_resources}
use multi_agent_testbed.Sdk.{AgentHandle, AgentRequest, AgentEvent, WorldAction, handler_for}
use multi_agent_testbed.World.State.{agents, commit, visible_state, facts_of}
use multi_agent_testbed.World.Actions.{truthy}
use multi_agent_testbed.Driver.State.{
  Driver, Run, Setup, DriverOutcome, max_logical_time, max_events, because, no_agent, agent_failed,
  on_world, maybe_checkpoint, end_turn, repeat,
}
use multi_agent_testbed.Driver.Emitted.{action_of, action_draft, act_by}
use multi_agent_testbed.Driver.Session.{run, invocation, at_limit}

-- The request of a tick has no inbox and no history.
abbrev pub tick_request : String → Driver → AgentRequest
tick_request agent_id d = record {
  invocation_id = invocation d.world d.state.invocations;
  agent_id = agent_id;
  logical_time = d.world.logical_time;
  instruction = d.world.case.instruction;
  inbox = none;
  observation = visible_state agent_id d.world;
  private_facts = facts_of agent_id d.world.private_facts;
  history = [];
  seed = d.world.rng.seed;
}

-- `_commit`
unfoldable pub commit_action : Setup → WorldAction → Run Unit
commit_action s action =
    on_world (commit s.platform (action_draft action))
    >> act_by s action (handler_for s.pack action.kind)

abbrev pub add_cost : AgentEvent → Driver → Driver
add_cost emitted d = record d {
  world = record d.world { resources = add_resources d.world.resources emitted.resource_delta };
}

abbrev pub is_action : AgentEventKind → Bool
is_action Enums.AgentEventKind.world_action = true
is_action _ = false

-- `self._commit(action)`, a checkpoint if it is due, and `if world.finished: return`; `none` is
-- that return out of `_tick`.
unfoldable pub commit_and_go : {A : Type 0} → Setup → WorldAction → Run (Option A) → Run (Option A)
unfolding commit_action
commit_and_go s action rest =
    commit_action s action
    >> (maybe_checkpoint s
        >> (gets (λ (d : Driver). d.world.finished) >>= λ finished.
            if finished then pure none else rest))

-- One action of an agent: committed at once in the mode `aec`, collected in the mode `parallel`.
unfoldable pub take_action :
    Setup
    → EnvMode
    → WorldAction
    → List WorldAction
    → (List WorldAction → Run (Option (List WorldAction)))
    → Run (Option (List WorldAction))
take_action s aec action collected rest = commit_and_go s action (rest collected)
take_action s parallel action collected rest = rest (collected ++ action ∷ [])

-- The loop over an agent's stream, which may end by an exception of the agent.
unfoldable pub take_events :
    Setup
    → EnvMode
    → String
    → List AgentEvent
    → Bool
    → List WorldAction
    → Run (Option (List WorldAction))
unfolding take_action add_resources
take_events s mode agent_id [] fails collected =
    if fails then raise agent_failed else pure (some collected)
take_events s mode agent_id (emitted ∷ rest) fails collected =
    let others = take_events s mode agent_id rest fails in
    modify (add_cost emitted)
    >> (if is_action emitted.kind
        then take_action s mode (action_of s.platform agent_id emitted) collected others
        else others collected)

unfoldable pub ask :
    Setup
    → EnvMode
    → String
    → List WorldAction
    → Option AgentHandle
    → Run (Option (List WorldAction))
unfolding take_events
ask s mode agent_id collected none = raise no_agent
ask s mode agent_id collected (some handle) = do
  modify (λ (d : Driver). record d {
    state = record d.state { invocations = d.state.invocations + 1 };
  })
  d ← gets (λ d. d)
  let stream = handle.invoke (tick_request agent_id d)
  take_events s mode agent_id stream.0 stream.1 collected

-- After an agent: the next one, unless the tick has returned.
unfoldable pub then_ask :
    (List WorldAction → Run (Option (List WorldAction)))
    → Option (List WorldAction)
    → Run (Option (List WorldAction))
then_ask rest none = pure none
then_ask rest (some collected) = rest collected

-- The loop over the agents, with what they have collected so far.
unfoldable pub ask_all :
    Setup → EnvMode → List String → List WorldAction → Run (Option (List WorldAction))
unfolding ask then_ask
ask_all s mode [] collected = pure (some collected)
ask_all s mode (agent_id ∷ rest) collected =
    ask s mode agent_id collected (lookup agent_id s.agents) >>= then_ask (ask_all s mode rest)

-- The order of the pairs (kind, agent).
unfoldable pub action_le : WorldAction → WorldAction → Bool
action_le a b = if str_eq a.kind b.kind then str_le a.actor_id b.actor_id else str_le a.kind b.kind

unfoldable pub commit_all : Setup → List WorldAction → Run (Option Unit)
unfolding commit_and_go
commit_all s [] = pure (some tt)
commit_all s (action ∷ rest) = commit_and_go s action (commit_all s rest)

-- The end of `_tick`: in the mode `parallel` the collected actions, in the World's order.
unfoldable pub settle_tick : Setup → EnvMode → Option (List WorldAction) → Run (Option Unit)
unfolding commit_all action_le
settle_tick s mode none = pure none
settle_tick s aec (some collected) = pure (some tt)
settle_tick s parallel (some collected) = commit_all s (sort_by action_le collected)

-- `_tick`
unfoldable pub tick : Setup → EnvMode → Run (Option Unit)
unfolding ask_all settle_tick
tick s mode = do
  w ← gets (λ (d : Driver). d.world)
  collected ← ask_all s mode (agents w) []
  settle_tick s mode collected

-- One round of the loop of `run`: only two of the limits are looked at.
unfoldable pub env_round : Setup → EnvMode → Run (Option DriverOutcome)
env_round s mode = do
  w ← gets (λ (d : Driver). d.world)
  if w.finished
      then pure (
          some (record {
            finished = true;
            reason = because (get_or (truthy w.finish_reason) "task_finished");
            limit_hit = none;
          }))
      else if ltb w.manifest.limits.max_logical_time w.logical_time
      then pure (some (at_limit max_logical_time))
      else if leb w.manifest.limits.max_events w.journal.sequence
      then pure (some (at_limit max_events))
      else (tick s mode >> end_turn s)

-- `run`, on fuel; `none` means that the fuel ran out.
unfoldable pub env_run : ℕ → Setup → EnvMode → Run (Option DriverOutcome)
env_run fuel s mode = repeat fuel (env_round s mode)

-- The driver that `RunController._build` picks for a manifest.
unfoldable pub run_driver : WorldDriverKind → EnvMode → ℕ → Setup → Run (Option DriverOutcome)
unfolding env_run
run_driver session mode fuel s = run fuel s
run_driver env mode fuel s = env_run fuel s mode
