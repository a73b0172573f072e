-- ===== src/Measures.antt =====
-- src/testbed_kernel/measures.py: the measures of a run that count events. The mean of the hand-off
-- latencies is its sum and its count. The Gini index of the payoffs is left out.
use multi_agent_testbed.Base.{
  ℕ, ◌-◌, String, Bool, false, not, ◌&&◌, ◌||◌, Option, none, some, List, [], ◌∷◌, ◌++◌, lookup, ℤ,
  pos, negsuc, length, filter, find, any, sum, leb, ◌==◌, if◌then◌else◌, str_eq,
}
use multi_agent_testbed.Contracts.Enums.{
  EventKind, agent_message, world_message_delivered, world_action, tool_called, policy_decision,
  agent_spawned, fault_injected, agent_error, world_snapshot_created, same_kind,
}
use multi_agent_testbed.Contracts.Ids.{Json, text}
use multi_agent_testbed.Contracts.Events.{Event, ResourceDelta, of_kind, total_resources}
use multi_agent_testbed.World.State.{World}
use multi_agent_testbed.World.Actions.{welfare}

-- `world.logical_time - len(active_ticks)`, at least 0
abbrev is_active : EventKind → Bool
is_active k = same_kind k agent_message || same_kind k world_action || same_kind k tool_called

abbrev distinct_times : List ℕ → List Event → List ℕ
distinct_times seen [] = seen
distinct_times seen (e ∷ es) =
    let now = is_active e.event_kind && not (any (λ t. t == e.logical_time) seen) in
    distinct_times (if now then e.logical_time ∷ seen else seen) es

unfoldable pub idle_ticks : List Event → ℕ → ℕ
idle_ticks events logical_time = logical_time - length (distinct_times [] events)

-- The message that a delivery may have followed from: the sender's first one that is not later.
unfoldable pub source_of : List Event → String → ℕ → Option Event
source_of messages cause time =
    find (λ m. str_eq m.actor_id cause && leb m.logical_time time) messages

abbrev latency : Event → Option Event → List ℕ
latency delivered none = []
latency delivered (some m) = (delivered.logical_time - m.logical_time) ∷ []

-- A delivery without a sender's name, or one of the World's own, has no hand-off.
abbrev latency_of : List Event → Event → Option Json → List ℕ
latency_of messages delivered (some (text cause)) =
    if str_eq cause "" || str_eq cause "world"
    then []
    else latency delivered (source_of messages cause delivered.logical_time)
latency_of messages delivered _ = []

unfoldable pub handoff_latencies : List Event → List Event → List ℕ
unfolding source_of lookup
handoff_latencies messages [] = []
handoff_latencies messages (delivered ∷ rest) =
    latency_of messages delivered (lookup "sender" delivered.payload)
    ++ handoff_latencies messages rest

abbrev is_violation : Event → Bool
is_violation e = elim e.policy_decision [ none ↦ false | some d ↦ not d.allowed ]

unfoldable pub policy_violations : List Event → List Event
policy_violations = filter (λ e. same_kind e.event_kind policy_decision && is_violation e)

-- `kinds.count(kind)`
abbrev count_of : EventKind → List Event → ℕ
count_of kind events = length (filter (λ e. same_kind e.event_kind kind) events)

pub record Measures : Type 0 where
  pub events : ℕ
  pub logical_time : ℕ
  pub resources : ResourceDelta
  pub tool_calls : ℕ
  pub messages_sent : ℕ
  pub messages_delivered : ℕ
  pub duplicate_actions : ℕ
  pub spawned_agents : ℕ
  pub faults_injected : ℕ
  pub policy_violations : ℕ
  pub agent_errors : ℕ
  pub checkpoints : ℕ
  pub welfare : Option ℤ
  pub total_handoff_latency : ℕ
  pub handoffs : ℕ
  pub time_to_first_action : ℤ
  pub idle_ticks : ℕ

abbrev first_time : Option Event → ℤ
first_time none = negsuc 0
first_time (some e) = pos e.logical_time

-- `compute_measures`; of the total, `resources` gives the model calls, tokens, cost and bytes.
unfoldable pub compute_measures : List Event → World → Measures
unfolding idle_ticks handoff_latencies policy_violations of_kind total_resources welfare
compute_measures events world =
    let messages = of_kind agent_message events in
    let deliveries = of_kind world_message_delivered events in
    let latencies = handoff_latencies messages deliveries in
    record {
      events = length events;
      logical_time = world.logical_time;
      resources = total_resources events;
      tool_calls = count_of tool_called events;
      messages_sent = length messages;
      messages_delivered = length deliveries;
      duplicate_actions = world.counters.duplicate_actions;
      spawned_agents = count_of agent_spawned events;
      faults_injected = count_of fault_injected events;
      policy_violations = length (policy_violations events);
      agent_errors = count_of agent_error events;
      checkpoints = count_of world_snapshot_created events;
      welfare = welfare world;
      total_handoff_latency = sum latencies;
      handoffs = length latencies;
      time_to_first_action = first_time (find (λ e. same_kind e.event_kind world_action) events);
      idle_ticks = idle_ticks events world.logical_time;
    }
