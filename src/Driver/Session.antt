-- ===== src/Driver/Session.antt =====
-- `SessionDriver`: turns, messages, asynchronous delivery, gates.
use multi_agent_testbed.Base.{
  ℕ, ◌+◌, ◌/◌, ◌^◌, String, Bool, true, false, not, Option, none, some, List, [], ◌∷◌, ◌++◌, lookup,
  contains, length, ltb, leb, ◌==◌, if◌then◌else◌, get_or, Outcome, pure, gets, modify, raise,
  for_each, ◌>>=◌, ◌>>◌,
}
use multi_agent_testbed.Contracts.Enums.{is_private, world_message_delivered, agent_invoked}
use multi_agent_testbed.Contracts.Ids.{Json, text, ref, object}
use multi_agent_testbed.Contracts.Events.{Event, add_resources, event_view}
use multi_agent_testbed.Sdk.{Delivery, AgentHandle, AgentRequest, AgentEvent}
use multi_agent_testbed.Scheduler.{ScheduledDelivery, pop_due, next_due_time}
use multi_agent_testbed.Store.{read}
use multi_agent_testbed.Journal.{Draft, draft}
use multi_agent_testbed.World.State.{
  World, world_actor, commit, agents, advance_to, visible_state, facts_of,
}
use multi_agent_testbed.World.Messaging.{enqueue}
use multi_agent_testbed.World.Actions.{truthy}
use multi_agent_testbed.Driver.Emitted.{viewers, handle_agent_event}
use multi_agent_testbed.Driver.State.{
  end_turn, repeat, Limit, max_logical_time, max_events, max_messages, max_model_calls,
  max_cost_usd, limit, quiescent, because, DriverOutcome, Driver, Run, Setup, on_world,
  maybe_checkpoint, unless_finished, agent_failed,
}

abbrev pub opening : String → String → Delivery
opening agent_id instruction = record {
  sender_id = world_actor;
  recipient_id = agent_id;
  content = instruction;
  payload = ("kind", text "opening") ∷ [];
  visibility = is_private;
  extra_delay = 0;
}

unfoldable pub open_with : Setup → String → Option String → Run Unit
open_with s agent_id none = pure tt
open_with s agent_id (some instruction) =
    on_world (enqueue s.platform (opening agent_id instruction) 0)
    >> modify (λ (d : Driver). record d {
      state = record d.state { activated = d.state.activated ++ agent_id ∷ [] };
    })

-- Ask the topology which agents open the episode.
unfoldable pub activate : Setup → Run Unit
unfolding open_with
activate s = do
  d ← gets (λ d. d)
  if not (length d.state.activated == 0)
      then pure tt
      else for_each
          (λ agent_id.
            gets (λ (e : Driver). s.topology.opening_instruction agent_id e.world)
            >>= open_with s agent_id)
          (agents d.world)

unfoldable pub limit_hit : World → Option Limit
limit_hit w =
    if ltb w.manifest.limits.max_logical_time w.logical_time
    then some max_logical_time
    else if leb w.manifest.limits.max_events w.journal.sequence
    then some max_events
    else if ltb w.manifest.limits.max_messages w.counters.messages
    then some max_messages
    else if ltb w.manifest.limits.max_model_calls w.counters.model_calls
    then some max_model_calls
    else if ltb w.manifest.limits.max_cost_usd w.resources.cost_usd
    then some max_cost_usd
    else none

-- The agent's authorised projection of everything so far.
unfoldable pub agent_history : String → World → List Event
agent_history agent_id w = event_view (read w.journal.run_id w.journal.store) agent_id

-- `inv_<first 8 digits of the run>_<n>`
abbrev pub invocation : World → ℕ → Json
invocation w n = ref "inv_" (w.journal.run_id / 16 ^ 8 ∷ n ∷ [])

abbrev pub request_for : String → Delivery → Driver → AgentRequest
request_for agent_id delivery d = record {
  invocation_id = invocation d.world d.state.invocations;
  agent_id = agent_id;
  logical_time = d.world.logical_time;
  instruction = delivery.content;
  inbox = some (delivery.sender_id, delivery.content, delivery.payload);
  observation = visible_state agent_id d.world;
  private_facts = facts_of agent_id d.world.private_facts;
  history = agent_history agent_id d.world;
  seed = d.world.rng.seed;
}

abbrev pub charge : AgentEvent → World → World
charge emitted w = record w {
  counters = record w.counters {
    model_calls = w.counters.model_calls + emitted.resource_delta.model_calls;
  };
  resources = add_resources w.resources emitted.resource_delta;
}

-- The loop over the agent's stream, which may end by an exception of the agent.
unfoldable pub consume : Setup → String → Json → List AgentEvent → Bool → Run Unit
unfolding handle_agent_event add_resources
consume s agent_id inv [] fails = if fails then raise agent_failed else pure tt
consume s agent_id inv (emitted ∷ rest) fails =
    modify (λ (d : Driver). record d { world = charge emitted d.world })
    >> (handle_agent_event s agent_id emitted inv
        >> (maybe_checkpoint s >> unless_finished (consume s agent_id inv rest fails)))

abbrev pub invoked_draft : String → Delivery → Json → Option ℕ → World → Draft
invoked_draft agent_id delivery inv cause w =
    record (draft agent_invoked agent_id w.logical_time
      (("invocation_id", inv) ∷ ("instruction", text delivery.content) ∷ [])) {
        visibility = is_private;
        authorized_view_ids = agent_id ∷ [];
        causation_id = cause;
      }

abbrev pub cause_id : Option Event → Option ℕ
cause_id none = none
cause_id (some e) = some e.event_id

-- `_invoke`
unfoldable pub invoke : Setup → String → AgentHandle → Delivery → Option Event → Run Unit
unfolding consume
invoke s agent_id handle delivery cause = do
  modify (λ (d : Driver). record d {
    state = record d.state { invocations = d.state.invocations + 1 };
  })
  d ← gets (λ d. d)
  on_world (
      commit s.platform
        (invoked_draft agent_id delivery (invocation d.world d.state.invocations) (cause_id cause)))
  let stream = handle.invoke (request_for agent_id delivery d)
  consume s agent_id (invocation d.world d.state.invocations) stream.0 stream.1

abbrev pub delivered_draft : Delivery → World → Draft
delivered_draft delivery w =
    record (draft world_message_delivered world_actor w.logical_time (
      ("sender", text delivery.sender_id)
      ∷ ("recipient", text delivery.recipient_id)
      ∷ ("content", text delivery.content)
      ∷ ("payload", object delivery.payload)
      ∷ [])) {
        target_ids = delivery.recipient_id ∷ [];
        visibility = delivery.visibility;
        authorized_view_ids =
            viewers delivery.sender_id delivery.visibility (delivery.recipient_id ∷ []);
      }

unfoldable pub invoke_if_any : Setup → Delivery → Option Event → Option AgentHandle → Run Unit
invoke_if_any s delivery cause none = pure tt
invoke_if_any s delivery cause (some handle) = invoke s delivery.recipient_id handle delivery cause

-- `_deliver_and_invoke`
unfoldable pub deliver_and_invoke : Setup → ScheduledDelivery → Run Unit
unfolding invoke_if_any
deliver_and_invoke s item = do
  w ← gets (λ (d : Driver). d.world)
  if contains w.dropped_agents item.delivery.recipient_id
      then pure tt
      else (on_world (commit s.platform (delivered_draft item.delivery)) >>= λ delivered.
          maybe_checkpoint s
          >> invoke_if_any s item.delivery delivered (lookup item.delivery.recipient_id s.agents))

-- `for item in due: …`, until the episode is finished
unfoldable pub deliver_all : Setup → List ScheduledDelivery → Run Unit
deliver_all s [] = pure tt
deliver_all s (item ∷ rest) = deliver_and_invoke s item >> unless_finished (deliver_all s rest)

abbrev pub at_limit : Limit → DriverOutcome
at_limit l = record { finished = false; reason = limit l; limit_hit = some l }

-- Nothing is due: go to the next due time, or end.
unfoldable pub wait_for : Setup → World → Option ℕ → Run (Option DriverOutcome)
wait_for s w none = pure (some (record { finished = false; reason = quiescent; limit_hit = none }))
wait_for s w (some time) =
    if ltb w.manifest.limits.max_logical_time time
    then pure (some (at_limit max_logical_time))
    else (on_world (advance_to s.platform time) >> pure none)

-- Something is due: a turn.
unfoldable pub turn : Setup → List ScheduledDelivery → Run (Option DriverOutcome)
unfolding end_turn
turn s due = deliver_all s due >> end_turn s

unfoldable pub proceed : Setup → World → List ScheduledDelivery → Run (Option DriverOutcome)
proceed s w [] = wait_for s w (next_due_time w.queue)
proceed s w (item ∷ rest) = turn s (item ∷ rest)

-- `pop_due`, which changes the World's queue at once
unfoldable pub take_due : Setup → Run (List ScheduledDelivery)
take_due s d =
    let (due, left) = pop_due s.platform.hashing d.world.logical_time d.world.queue in
    (Outcome.returned due, record d { world = record d.world { queue = left } })

-- The rest of a round: an outcome at a limit, else what is due.
unfoldable pub within_limits : Setup → Option Limit → Run (Option DriverOutcome)
within_limits s (some l) = pure (some (at_limit l))
within_limits s none = do due ← take_due s; w ← gets (λ (d : Driver). d.world); proceed s w due

-- One round of the loop of `run`: an outcome, or `none` to go on.
unfoldable pub round : Setup → Run (Option DriverOutcome)
round s = do
  w ← gets (λ (d : Driver). d.world)
  if w.finished
      then pure (
          some (record {
            finished = true;
            reason = because (get_or (truthy w.finish_reason) "task_finished");
            limit_hit = none;
          }))
      else within_limits s (limit_hit w)

-- The loop, on fuel; `none` means that the fuel ran out.
unfoldable pub run_rounds : ℕ → Setup → Run (Option DriverOutcome)
run_rounds fuel s = repeat fuel (round s)

-- `run`
unfoldable pub run : ℕ → Setup → Run (Option DriverOutcome)
unfolding run_rounds
run fuel s = activate s >> run_rounds fuel s
