-- ===== src/Sdk.antt =====
-- src/testbed_pack_sdk: what packs and topology plug-ins exchange with the World, and the agent
-- port of src/testbed_contracts/ports.py.
use multi_agent_testbed.Base.{ℕ, String, Bool, ◌||◌, Option, List, Dict, ℤ, find, contains, str_eq}
use multi_agent_testbed.Contracts.Enums.{VisibilityPolicy, AgentEventKind, EvalSetKind}
use multi_agent_testbed.Contracts.Ids.{Json}
use multi_agent_testbed.Contracts.Events.{Event, ResourceDelta}
use multi_agent_testbed.Contracts.Results.{VerifierResult}

pub record WorldAction : Type 0 where
  pub kind : String
  pub actor_id : String
  pub args : Dict Json

pub record Delivery : Type 0 where
  pub sender_id : String
  pub recipient_id : String
  pub content : String
  pub payload : Dict Json
  pub visibility : VisibilityPolicy
  pub extra_delay : ℕ

pub record StateChange : Type 0 where
  pub updates : Dict Json
  pub facts_to : Dict (Dict Json)
  pub messages : List Delivery
  pub finished : Bool
  pub note : String
  pub rejected_reason : Option String

pub record Proposal : Type 0 where
  pub actor_id : String
  pub content : String
  pub requested_recipients : List String
  pub logical_time : ℕ

pub record RoutingDecision : Type 0 where
  pub recipients : List String
  pub visibility : VisibilityPolicy
  pub order_hint : ℕ
  pub extra_delay : ℕ
  pub blocked_reason : Option String

pub record WorldSnapshotView : Type 0 where
  pub logical_time : ℕ
  pub state : Dict Json
  pub agent_ids : List String
  pub roles : Dict String
  pub private_facts : Dict (Dict Json)
  pub payoffs : Dict ℤ

pub record TaskCase : Type 0 where
  pub task_id : String
  pub instruction : String
  pub initial_state : Dict Json
  pub public_facts : Dict Json
  pub private_facts : Dict (Dict Json)
  pub eval_set_kind : EvalSetKind

-- A handler is pure: it reads a snapshot and returns a change.
pub record ActionHandler : Type 0 where
  pub handles : List String
  pub apply : WorldAction → WorldSnapshotView → StateChange

pub record Verifier : Type 0 where
  pub name : String
  pub version : String
  pub verify : WorldSnapshotView → List Event → VerifierResult

pub record Pack : Type 0 where
  pub cases : List TaskCase
  pub action_handlers : List ActionHandler
  pub verifiers : Dict Verifier

-- `Pack.case`; `none` is the `KeyError`.
unfoldable pub case : Pack → String → Option TaskCase
case p task_id = find (λ c. str_eq c.task_id task_id) p.cases

unfoldable pub handler_for : Pack → String → Option ActionHandler
handler_for p kind = find (λ h. contains h.handles kind || contains h.handles "*") p.action_handlers

pub record AgentRequest : Type 0 where
  pub invocation_id : Json
  pub agent_id : String
  pub logical_time : ℕ
  pub instruction : String
  pub inbox : Option (String × String × Dict Json)
  pub observation : Dict Json
  pub private_facts : Dict Json
  pub history : List Event
  pub seed : ℕ

pub record AgentEvent : Type 0 where
  pub kind : AgentEventKind
  pub content : String
  pub recipients : List String
  pub action : Dict Json
  pub tool_name : Option String
  pub tool_args : Dict Json
  pub resource_delta : ResourceDelta
  pub private : Bool

-- What an agent answers to a request: the events of its stream, and whether the stream then ends
-- by an exception. An invocation's id is fresh, so a stateful agent is such a function too.
pub record AgentHandle : Type 0 where
  pub invoke : AgentRequest → List AgentEvent × Bool
