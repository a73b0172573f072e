-- ===== src/Driver/Emitted.antt =====
-- `SessionDriver._handle_agent_event`: what the World does with each event that an agent emits.
use multi_agent_testbed.Base.{
  ◌+◌, String, false, not, Option, none, some, List, [], ◌∷◌, lookup, filter, if◌then◌else◌, str_eq,
  pure, gets, modify, for_each, ◌>>=◌, ◌>>◌,
}
use multi_agent_testbed.Contracts.Enums.{
  AgentEventKind, VisibilityPolicy, is_public, is_private, world_message_delivered, agent_invoked,
  agent_message, tool_called, agent_final, agent_error, message, tool_call, final, error,
}
use multi_agent_testbed.Contracts.Enums
use multi_agent_testbed.Contracts.Ids.{Json, text, object, optional}
use multi_agent_testbed.Contracts.Events.{same_visibility}
use multi_agent_testbed.Sdk.{
  Delivery, Proposal, RoutingDecision, WorldAction, AgentEvent, ActionHandler, handler_for,
}
use multi_agent_testbed.Journal.{Draft, draft}
use multi_agent_testbed.Rng.{Platform}
use multi_agent_testbed.World.State.{World, commit, policy_event, snapshot_view}
use multi_agent_testbed.World.Messaging.{enqueue}
use multi_agent_testbed.World.Actions.{route, apply_change, truthy}
use multi_agent_testbed.Driver.State.{Driver, Run, Setup, on_world}

abbrev pub proposal_of : String → AgentEvent → World → Proposal
proposal_of agent_id emitted w = record {
  actor_id = agent_id;
  content = emitted.content;
  requested_recipients = emitted.recipients;
  logical_time = w.logical_time;
}

abbrev pub viewers : String → VisibilityPolicy → List String → List String
viewers agent_id v recipients = if same_visibility v is_public then [] else agent_id ∷ recipients

abbrev pub message_draft :
    String → AgentEvent → Json → RoutingDecision → VisibilityPolicy → World → Draft
message_draft agent_id emitted inv decision v w =
    record (draft agent_message agent_id w.logical_time
      (("content", text emitted.content) ∷ ("invocation_id", inv) ∷ [])) {
        target_ids = decision.recipients;
        visibility = v;
        authorized_view_ids = viewers agent_id v decision.recipients;
        resource_delta = emitted.resource_delta;
      }

abbrev pub forward : String → AgentEvent → RoutingDecision → VisibilityPolicy → String → Delivery
forward agent_id emitted decision v recipient = record {
  sender_id = agent_id;
  recipient_id = recipient;
  content = emitted.content;
  payload = emitted.action;
  visibility = v;
  extra_delay = decision.extra_delay;
}

unfoldable pub send :
    Setup → String → AgentEvent → RoutingDecision → VisibilityPolicy → Option String → Run Unit
send s agent_id emitted decision v (some reason) = pure tt
send s agent_id emitted decision v none =
    for_each
      (λ recipient.
        on_world
          (enqueue s.platform (forward agent_id emitted decision v recipient) decision.order_hint))
      decision.recipients

-- `MESSAGE`
unfoldable pub handle_message : Setup → String → AgentEvent → Json → Run Unit
unfolding send
handle_message s agent_id emitted inv = do
  w ← gets (λ (d : Driver). d.world)
  decision ← on_world (route s.platform s.topology (proposal_of agent_id emitted w))
  let v = if emitted.private then is_private else decision.visibility
  on_world (commit s.platform (message_draft agent_id emitted inv decision v))
  send s agent_id emitted decision v (truthy decision.blocked_reason)

-- `str(emitted.action.get("kind", "noop"))`
abbrev pub action_kind : Platform → Option Json → String
action_kind p none = "noop"
action_kind p (some (text s)) = s
action_kind p (some value) = p.render value

abbrev pub action_of : Platform → String → AgentEvent → WorldAction
action_of p agent_id emitted = record {
  kind = action_kind p (lookup "kind" emitted.action);
  actor_id = agent_id;
  args = filter (λ kv. not (str_eq kv.0 "kind")) emitted.action;
}

abbrev pub action_draft : WorldAction → World → Draft
action_draft action w =
    draft Enums.world_action action.actor_id w.logical_time
      (("action", text action.kind) ∷ ("args", object action.args) ∷ [])

-- What an action does, by its handler.
unfoldable pub act_by : Setup → WorldAction → Option ActionHandler → Run Unit
act_by s action none = on_world (policy_event s.platform "unknown_action" false (text action.kind))
act_by s action (some handler) = do
  w ← gets (λ (d : Driver). d.world)
  on_world (apply_change s.platform action (handler.apply action (snapshot_view w)))

-- `WORLD_ACTION`
unfoldable pub handle_action : Setup → String → AgentEvent → Run Unit
unfolding act_by
handle_action s agent_id emitted =
    let action = action_of s.platform agent_id emitted in
    on_world (
      commit s.platform
        (λ w. record (action_draft action w) { resource_delta = emitted.resource_delta }))
    >> act_by s action (handler_for s.pack action.kind)

abbrev pub tool_draft : String → AgentEvent → World → Draft
tool_draft agent_id emitted w =
    record (draft tool_called agent_id w.logical_time
      (("tool", optional emitted.tool_name) ∷ ("args", object emitted.tool_args) ∷ [])) {
        visibility = is_private;
        authorized_view_ids = agent_id ∷ [];
        resource_delta = emitted.resource_delta;
      }

abbrev pub final_draft : String → AgentEvent → Json → World → Draft
final_draft agent_id emitted inv w =
    record (draft agent_final agent_id w.logical_time
      (("content", text emitted.content) ∷ ("invocation_id", inv) ∷ [])) {
        resource_delta = emitted.resource_delta;
      }

abbrev pub error_draft : String → AgentEvent → World → Draft
error_draft agent_id emitted w =
    draft agent_error agent_id w.logical_time (("error", text emitted.content) ∷ [])

abbrev pub count_tool_call : World → World
count_tool_call w = record w {
  counters = record w.counters { tool_calls = w.counters.tool_calls + 1 };
}

unfoldable pub handle_by : Setup → String → AgentEvent → Json → AgentEventKind → Run Unit
unfolding handle_message handle_action
handle_by s agent_id emitted inv message = handle_message s agent_id emitted inv
handle_by s agent_id emitted inv Enums.AgentEventKind.world_action =
    handle_action s agent_id emitted
handle_by s agent_id emitted inv tool_call =
    modify (λ (d : Driver). record d { world = count_tool_call d.world })
    >> (on_world (commit s.platform (tool_draft agent_id emitted)) >> pure tt)
handle_by s agent_id emitted inv final =
    on_world (commit s.platform (final_draft agent_id emitted inv)) >> pure tt
handle_by s agent_id emitted inv error =
    on_world (commit s.platform (error_draft agent_id emitted)) >> pure tt

-- `_handle_agent_event`
unfoldable pub handle_agent_event : Setup → String → AgentEvent → Json → Run Unit
unfolding handle_by
handle_agent_event s agent_id emitted inv = handle_by s agent_id emitted inv emitted.kind
