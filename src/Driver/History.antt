-- ===== src/Driver/History.antt =====
-- A run only adds to the history: whatever the agents, the pack and the topology do, it follows
-- the World that it started from.
use multi_agent_testbed.Journal.Commit.{IsFresh}
use multi_agent_testbed.Base.{
  ℕ, String, refl, Bool, Option, none, some, List, [], ◌∷◌, pure, ◌>>◌, Keeps, Keeps-pure,
  Keeps-raise, Keeps-gets, Keeps-bind, Keeps-if, Keeps-for_each,
}
use multi_agent_testbed.Contracts.Enums.{
  AgentEventKind, VisibilityPolicy, message, tool_call, final, error, is_private,
}
use multi_agent_testbed.Contracts.Enums
use multi_agent_testbed.Contracts.Ids.{Json}
use multi_agent_testbed.Contracts.Events.{Event}
use multi_agent_testbed.Sdk.{
  Delivery, WorldAction, AgentHandle, AgentEvent, RoutingDecision, ActionHandler,
}
use multi_agent_testbed.Scheduler.{ScheduledDelivery, next_due_time}
use multi_agent_testbed.World.State.{World, agents, commit}
use multi_agent_testbed.World.Actions.{truthy}
use multi_agent_testbed.World.History.{
  Follows, commit-Follows, policy_event-Follows, advance_to-Follows, enqueue-Follows, route-Follows,
  apply_change-Follows, Follows-refl,
}
use multi_agent_testbed.Driver.Steps.{
  HookFollows, At, on_world-At, step-At, maybe_checkpoint-At, unless_finished-At, end_turn-At,
  repeat-At,
}
use multi_agent_testbed.Driver.State.{Driver, Setup, on_world, Limit}
use multi_agent_testbed.Driver.Emitted.{
  send, handle_message, act_by, handle_action, handle_by, handle_agent_event,
}
use multi_agent_testbed.Driver.Session.{
  open_with, activate, consume, invoke, invoke_if_any, deliver_and_invoke, deliver_all, wait_for,
  turn, proceed, take_due, within_limits, round, run_rounds, run, limit_hit,
}

module _ (v : World) (s : Setup) (hook : HookFollows v s.checkpoint_hook) where
  open_with-At : (agent_id : String) (o : Option String) → Keeps (At v) (open_with s agent_id o)
  unfolding open_with
  open_with-At agent_id none = Keeps-pure tt
  open_with-At agent_id (some instruction) =
      Keeps-bind _ _ (on_world-At v _ (enqueue-Follows v s.platform _ 0))
        λ _. step-At v _ λ d. (refl, refl, refl, refl, refl)

  pub activate-At : Keeps (At v) (activate s)
  unfolding activate
  activate-At = Keeps-bind _ _ (Keeps-gets _) λ d. Keeps-if _ _ _ (Keeps-pure tt) (
      Keeps-for_each _ (agents d.world)
        λ agent_id. Keeps-bind _ _ (Keeps-gets _) λ o. open_with-At agent_id o)

  send-At :
      (agent_id : String) (e : AgentEvent) (decision : RoutingDecision) (policy : VisibilityPolicy)
      (o : Option String)
      → Keeps (At v) (send s agent_id e decision policy o)
  unfolding send
  send-At agent_id e decision policy (some reason) = Keeps-pure tt
  send-At agent_id e decision policy none =
      Keeps-for_each _ decision.recipients λ r. on_world-At v _ (enqueue-Follows v s.platform _ _)

  committed-At : (d : World → _) → Keeps (At v) (on_world (commit s.platform d) >> pure tt)
  committed-At d =
      Keeps-bind _ _ (on_world-At v _ (commit-Follows v s.platform d)) λ _. Keeps-pure tt

  handle_message-At :
      (agent_id : String) (e : AgentEvent) (inv : Json)
      → Keeps (At v) (handle_message s agent_id e inv)
  unfolding handle_message
  handle_message-At agent_id e inv = Keeps-bind _ _ (Keeps-gets _) λ w.
      Keeps-bind _ _ (on_world-At v _ (route-Follows v s.platform s.topology _)) λ decision.
        Keeps-bind _ _ (on_world-At v _ (commit-Follows v s.platform _))
          λ _. send-At agent_id e decision _ (truthy decision.blocked_reason)

  pub act_by-At :
      (action : WorldAction) (o : Option ActionHandler) → Keeps (At v) (act_by s action o)
  unfolding act_by
  act_by-At action none = on_world-At v _ (policy_event-Follows v s.platform _ _ _)
  act_by-At action (some handler) =
      Keeps-bind _ _ (Keeps-gets _)
        λ w. on_world-At v _ (apply_change-Follows v s.platform action _)

  handle_action-At :
      (agent_id : String) (e : AgentEvent) → Keeps (At v) (handle_action s agent_id e)
  unfolding handle_action
  handle_action-At agent_id e =
      Keeps-bind _ _ (on_world-At v _ (commit-Follows v s.platform _)) λ _. act_by-At _ _

  handle_by-At :
      (agent_id : String) (e : AgentEvent) (inv : Json) (k : AgentEventKind)
      → Keeps (At v) (handle_by s agent_id e inv k)
  unfolding handle_by
  handle_by-At agent_id e inv message = handle_message-At agent_id e inv
  handle_by-At agent_id e inv Enums.AgentEventKind.world_action = handle_action-At agent_id e
  handle_by-At agent_id e inv tool_call =
      Keeps-bind _ _ (step-At v _ λ d. (refl, refl, refl, refl, refl)) λ _. committed-At _
  handle_by-At agent_id e inv final = committed-At _
  handle_by-At agent_id e inv error = committed-At _

  consume-At :
      (agent_id : String) (inv : Json) (es : List AgentEvent) (fails : Bool)
      → Keeps (At v) (consume s agent_id inv es fails)
  unfolding consume handle_agent_event
  consume-At agent_id inv [] fails = Keeps-if _ _ _ (Keeps-raise _) (Keeps-pure tt)
  consume-At agent_id inv (e ∷ rest) fails =
      Keeps-bind _ _ (step-At v _ λ d. (refl, refl, refl, refl, refl)) λ _.
        Keeps-bind _ _ (handle_by-At agent_id e inv e.kind) λ _.
          Keeps-bind _ _ (maybe_checkpoint-At v s hook)
            λ _. unless_finished-At v _ (consume-At agent_id inv rest fails)

  invoke-At :
      (agent_id : String) (handle : AgentHandle) (d : Delivery) (cause : Option Event)
      → Keeps (At v) (invoke s agent_id handle d cause)
  unfolding invoke
  invoke-At agent_id handle d cause =
      Keeps-bind _ _ (step-At v _ λ d. (refl, refl, refl, refl, refl)) λ _.
        Keeps-bind _ _ (Keeps-gets _) λ e.
          Keeps-bind _ _ (on_world-At v _ (commit-Follows v s.platform _))
            λ _. consume-At agent_id _ _ _

  invoke_if_any-At :
      (d : Delivery) (cause : Option Event) (o : Option AgentHandle)
      → Keeps (At v) (invoke_if_any s d cause o)
  unfolding invoke_if_any
  invoke_if_any-At d cause none = Keeps-pure tt
  invoke_if_any-At d cause (some handle) = invoke-At d.recipient_id handle d cause

  deliver_and_invoke-At : (item : ScheduledDelivery) → Keeps (At v) (deliver_and_invoke s item)
  unfolding deliver_and_invoke
  deliver_and_invoke-At item = Keeps-bind _ _ (Keeps-gets _) λ w. Keeps-if _ _ _ (Keeps-pure tt) (
      Keeps-bind _ _ (on_world-At v _ (commit-Follows v s.platform _)) λ delivered.
        Keeps-bind _ _ (maybe_checkpoint-At v s hook)
          λ _. invoke_if_any-At item.delivery delivered _)

  pub deliver_all-At : (due : List ScheduledDelivery) → Keeps (At v) (deliver_all s due)
  unfolding deliver_all
  deliver_all-At [] = Keeps-pure tt
  deliver_all-At (item ∷ rest) =
      Keeps-bind _ _ (deliver_and_invoke-At item) λ _. unless_finished-At v _ (deliver_all-At rest)

  wait_for-At : (w : World) (o : Option ℕ) → Keeps (At v) (wait_for s w o)
  unfolding wait_for
  wait_for-At w none = Keeps-pure _
  wait_for-At w (some time) =
      Keeps-if _ _ _ (Keeps-pure _)
        (Keeps-bind _ _ (on_world-At v _ (advance_to-Follows v s.platform time)) λ _. Keeps-pure _)

  turn-At : (due : List ScheduledDelivery) → Keeps (At v) (turn s due)
  unfolding turn
  turn-At due = Keeps-bind _ _ (deliver_all-At due) λ _. end_turn-At v s

  proceed-At : (w : World) (due : List ScheduledDelivery) → Keeps (At v) (proceed s w due)
  unfolding proceed
  proceed-At w [] = wait_for-At w (next_due_time w.queue)
  proceed-At w (item ∷ rest) = turn-At (item ∷ rest)

  take_due-At : Keeps (At v) (take_due s)
  unfolding take_due
  take_due-At = record {
    at = λ d k. record {
      added = k.added;
      log = k.log;
      time = k.time;
      run = k.run;
      roles = k.roles;
      manifest = k.manifest;
      finished = k.finished;
      fresh = k.fresh;
    };
  }

  within_limits-At : (o : Option Limit) → Keeps (At v) (within_limits s o)
  unfolding within_limits
  within_limits-At (some l) = Keeps-pure _
  within_limits-At none =
      Keeps-bind _ _ take_due-At λ due. Keeps-bind _ _ (Keeps-gets _) λ w. proceed-At w due

  pub round-At : Keeps (At v) (round s)
  unfolding round
  round-At =
      Keeps-bind _ _ (Keeps-gets _)
        λ w. Keeps-if _ _ _ (Keeps-pure _) (within_limits-At (limit_hit w))

  pub run_rounds-At : (fuel : ℕ) → Keeps (At v) (run_rounds fuel s)
  unfolding run_rounds
  run_rounds-At fuel = repeat-At v fuel (round s) round-At

-- However a run ends, by an outcome, an exception or for want of fuel, its World follows the one
-- it began with: every event that was in the log is still there, in its place; the clock has not
-- gone back; the team and the manifest are the same; and a finished episode stays finished. The
-- controller's hook is assumed to keep this, and the journal to be ahead of the log at the start.
pub run-Follows :
    (fuel : ℕ) (s : Setup) (d : Driver)
    → HookFollows d.world s.checkpoint_hook
    → IsFresh d.world.journal
    → Follows d.world (run fuel s d).1.world
unfolding run
run-Follows fuel s d hook fresh =
    (Keeps-bind _ _ (activate-At d.world s hook) λ _. run_rounds-At d.world s hook fuel).at d
      (Follows-refl d.world fresh)
