-- ===== src/Topologies.antt =====
-- src/testbed_plugins/topologies: routing proposals, built from what the World shows.
use multi_agent_testbed.Base.{
  String, not, Option, none, some, List, [], ◌∷◌, length, find, filter, ◌==◌, if◌then◌else◌, str_eq,
}
use multi_agent_testbed.Contracts.Enums.{is_public}
use multi_agent_testbed.Sdk.{Proposal, RoutingDecision}
use multi_agent_testbed.World.State.{World, agents, role_of}
use multi_agent_testbed.World.Actions.{Topology}

-- `RoutingDecision(recipients=…)`
abbrev pub decide_for : List String → RoutingDecision
decide_for recipients = record {
  recipients = recipients;
  visibility = is_public;
  order_hint = 0;
  extra_delay = 0;
  blocked_reason = none;
}

unfoldable pub solo : Topology
solo = record {
  propose = λ q w. decide_for [];
  opening_instruction = λ a w. some "Complete the task.";
}

unfoldable pub mesh_route : Proposal → World → RoutingDecision
mesh_route q w =
    if not (length q.requested_recipients == 0)
    then decide_for q.requested_recipients
    else decide_for (filter (λ a. not (str_eq a q.actor_id)) (agents w))

unfoldable pub mesh : Topology
mesh = record {
  propose = mesh_route;
  opening_instruction = λ a w. some "Work with your peers to complete the task.";
}

-- The agent after `actor` in the chain, if there is one.
unfoldable pub successor : String → List String → List String
successor actor [] = []
successor actor (a ∷ []) = []
successor actor (a ∷ b ∷ rest) = if str_eq a actor then b ∷ [] else successor actor (b ∷ rest)

unfoldable pub pipeline_opening : String → List String → Option String
pipeline_opening agent_id [] = none
pipeline_opening agent_id (a ∷ rest) =
    if str_eq agent_id a then some "You are first in the pipeline. Start the work." else none

unfoldable pub pipeline : Topology
pipeline = record {
  propose = λ q w. decide_for (successor q.actor_id (agents w));
  opening_instruction = λ a w. pipeline_opening a (agents w);
}

-- `_supervisor`
unfoldable pub supervisor_of : World → Option String
supervisor_of w = find (λ a. str_eq (role_of a w) "supervisor") (agents w)

unfoldable pub supervisor_route : Proposal → World → RoutingDecision
supervisor_route q w = elim (supervisor_of w) [
  | none ↦ decide_for q.requested_recipients
  | some boss ↦
      if str_eq q.actor_id boss then decide_for q.requested_recipients else decide_for (boss ∷ [])
]

unfoldable pub supervisor : Topology
supervisor = record {
  propose = supervisor_route;
  opening_instruction = λ a w.
      if str_eq (role_of a w) "supervisor"
      then some "You lead this team. Delegate, then report the result."
      else none;
}
