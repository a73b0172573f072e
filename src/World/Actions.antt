-- ===== src/World/Actions.antt =====
-- Routing, the actions of the pack, and payoffs.
use Prim.Native.String
use multi_agent_testbed.Base.{
  String, true, false, not, ◌&&◌, Option, none, some, List, [], ◌∷◌, map, Dict, keys, values,
  lookup, insert, update, ℤ, pos, ◌+ℤ◌, leb_ℤ, length, filter, contains, ltb, if◌then◌else◌, str_eq,
  get_or, pure, modify, gets, for_each, ◌>>=◌, ◌>>◌,
}
use multi_agent_testbed.Contracts.Enums.{world_state_changed, payoff_assigned, omniscient_only}
use multi_agent_testbed.Contracts.Ids.{Json, text, bool, real, object}
use multi_agent_testbed.Contracts.Manifest.{
  Welfare, sum_welfare, min_welfare, nash_welfare, PayoffMode, cooperative, zero_sum, general_sum,
  mixed_motive,
}
use multi_agent_testbed.Sdk.{WorldAction, StateChange, Proposal, RoutingDecision}
use multi_agent_testbed.Journal.{Draft, draft}
use multi_agent_testbed.Rng.{Platform}
use multi_agent_testbed.World.State.{World, Act, world_actor, commit, policy_event, facts_of}
use multi_agent_testbed.World.Messaging.{enqueue}

-- A topology plug-in: it proposes, and reads the World only.
pub record Topology : Type 0 where
  pub propose : Proposal → World → RoutingDecision
  pub opening_instruction : String → World → Option String

-- The proposed recipients that exist and have not dropped out.
unfoldable pub known_recipients : World → List String → List String
known_recipients w = filter (λ r. contains (keys w.roles) r && not (contains w.dropped_agents r))

abbrev pub first : List String → List String
first [] = []
first (r ∷ rs) = r ∷ []

-- Ask the topology to propose a routing, then validate it.
unfoldable pub route : Platform → Topology → Proposal → Act RoutingDecision
route p topology proposal = do
  w ← gets (λ w. w)
  let decision = topology.propose proposal w
  let recipients = known_recipients w decision.recipients
  if not w.manifest.world.communication.broadcast_allowed && ltb 1 (length recipients)
      then (policy_event p "broadcast_not_allowed" false (text proposal.actor_id)
          >> pure (record decision { recipients = first recipients }))
      else pure (record decision { recipients = recipients })

-- `for agent_id, facts in change.facts_to.items(): …`
unfoldable pub grant_facts : Dict (Dict Json) → Dict (Dict Json) → Dict (Dict Json)
grant_facts facts [] = facts
grant_facts facts ((agent_id, new) ∷ rest) =
    grant_facts (insert agent_id (update (facts_of agent_id facts) new) facts) rest

abbrev pub change_draft : WorldAction → StateChange → World → Draft
change_draft action change w = draft world_state_changed world_actor w.logical_time (
    ("action", text action.kind)
    ∷ ("updates", object change.updates)
    ∷ ("finished", bool change.finished)
    ∷ ("note", text change.note)
    ∷ [])

-- `change.note or f"action:{action.kind}"`
abbrev pub reason_of : WorldAction → StateChange → String
reason_of action change =
    if str_eq change.note "" then String.◌++◌ "action:" action.kind else change.note

abbrev pub finish : WorldAction → StateChange → World → World
finish action change w =
    if change.finished
    then record w { finished = true; finish_reason = some (reason_of action change) }
    else w

-- `if reason:`; an empty text is no reason.
abbrev pub truthy : Option String → Option String
truthy none = none
truthy (some s) = if str_eq s "" then none else some s

-- What `apply_change` does, by the reason for a rejection.
unfoldable pub settle : Platform → WorldAction → StateChange → Option String → Act Unit
settle p action change (some reason) = policy_event p "action_rejected" false (text reason)
settle p action change none = do
  modify (λ (w : World). record w {
    state = update w.state change.updates;
    private_facts = grant_facts w.private_facts change.facts_to;
  })
  for_each (λ message. enqueue p message 0) change.messages
  modify (finish action change)
  commit p (change_draft action change)
  pure tt

-- Commit a state change that the pack declared.
unfoldable pub apply_change : Platform → WorldAction → StateChange → Act Unit
unfolding settle
apply_change p action change = settle p action change (truthy change.rejected_reason)

-- `self.payoffs[agent_id] = self.payoffs.get(agent_id, 0.0) + value`, for each
unfoldable pub add_payoffs : Dict ℤ → Dict ℤ → Dict ℤ
add_payoffs payoffs [] = payoffs
add_payoffs payoffs ((agent_id, value) ∷ rest) =
    add_payoffs (insert agent_id (get_or (lookup agent_id payoffs) (pos 0) +ℤ value) payoffs) rest

abbrev pub mode_name : PayoffMode → String
mode_name cooperative = "cooperative"
mode_name zero_sum = "zero_sum"
mode_name general_sum = "general_sum"
mode_name mixed_motive = "mixed_motive"

abbrev pub payoff_draft : World → Draft
payoff_draft w =
    record (draft payoff_assigned world_actor w.logical_time (
      ("payoffs", object (map (λ kv. (kv.0, real kv.1)) w.payoffs))
      ∷ ("mode", text (mode_name w.manifest.payoff.mode))
      ∷ [])) { visibility = omniscient_only }

unfoldable pub assign_payoffs : Platform → Dict ℤ → Act Unit
assign_payoffs p per_agent = do
  modify (λ (w : World). record w { payoffs = add_payoffs w.payoffs per_agent })
  commit p payoff_draft
  pure tt

abbrev pub least : ℤ → List ℤ → ℤ
least n [] = n
least n (m ∷ ms) = least (if leb_ℤ n m then n else m) ms

abbrev pub total : List ℤ → ℤ
total [] = pos 0
total (n ∷ ns) = n +ℤ total ns

-- `welfare` in the modes `sum` and `min`; `none` stands for the root of the mode `nash`.
unfoldable pub welfare_of : Welfare → List ℤ → Option ℤ
welfare_of mode [] = some (pos 0)
welfare_of sum_welfare (n ∷ ns) = some (total (n ∷ ns))
welfare_of min_welfare (n ∷ ns) = some (least n ns)
welfare_of nash_welfare (n ∷ ns) = none

unfoldable pub welfare : World → Option ℤ
unfolding welfare_of
welfare w = welfare_of w.manifest.payoff.welfare (values w.payoffs)
