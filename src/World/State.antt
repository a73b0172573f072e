-- ===== src/World/State.antt =====
-- The World's fields, what it starts from, what plug-ins may read, and its clock and policy events.
use multi_agent_testbed.Base.{
  ℕ, String, Bool, false, not, Option, none, some, List, [], ◌∷◌, Dict, keys, lookup, insert,
  update, ℤ, pos, filter, contains, leb, if◌then◌else◌, starts_with, get_or, Outcome, Exec, pure,
  ◌>>◌,
}
use multi_agent_testbed.Contracts.Enums.{world_clock_advanced, policy_decision}
use multi_agent_testbed.Contracts.Ids.{Json, num, text, object}
use multi_agent_testbed.Contracts.Events.{Event, ResourceDelta, no_resources}
use multi_agent_testbed.Contracts.Manifest.{ExperimentManifest, AgentSpec}
use multi_agent_testbed.Sdk.{TaskCase, WorldSnapshotView}
use multi_agent_testbed.Scheduler.{DeliveryQueue}
use multi_agent_testbed.Records.{Counters}
use multi_agent_testbed.Store.{StoreError}
use multi_agent_testbed.Journal.{Journal, Draft, draft}
use multi_agent_testbed.Journal
use multi_agent_testbed.Rng.{Rng, Platform}

abbrev pub world_actor : String
world_actor = "world"

pub record World : Type 0 where
  pub manifest : ExperimentManifest
  pub case : TaskCase
  pub journal : Journal
  pub rng : Rng
  pub logical_time : ℕ
  pub finished : Bool
  pub finish_reason : Option String
  pub state : Dict Json
  pub queue : DeliveryQueue
  pub payoffs : Dict ℤ
  pub roles : Dict String
  pub dropped_agents : List String
  pub public_facts : Dict Json
  pub private_facts : Dict (Dict Json)
  pub counters : Counters
  pub fault_occurrences : List (ℕ × ℕ)
  pub resources : ResourceDelta

abbrev pub no_counts : Counters
no_counts = record {
  messages = 0;
  spawns = 0;
  model_calls = 0;
  tool_calls = 0;
  duplicate_actions = 0;
}

-- `{a.agent_id: f(a) for a in manifest.agents}`
unfoldable pub per_agent {ℓ} : {V : Type ℓ} → (AgentSpec → V) → List AgentSpec → Dict V → Dict V
per_agent f [] d = d
per_agent f (a ∷ rest) d = per_agent f rest (insert a.agent_id (f a) d)

abbrev pub facts_of : String → Dict (Dict Json) → Dict Json
facts_of agent_id facts = get_or (lookup agent_id facts) []

-- `World.__init__`
unfoldable pub new_world : ExperimentManifest → TaskCase → Journal → Rng → World
unfolding per_agent
new_world m c j r = record {
  manifest = m;
  case = c;
  journal = j;
  rng = r;
  logical_time = 0;
  finished = false;
  finish_reason = none;
  state = c.initial_state;
  queue = [];
  payoffs = per_agent (λ _. pos 0) m.agents [];
  roles = per_agent (λ a. a.role) m.agents [];
  dropped_agents = [];
  public_facts = update c.public_facts m.world.information.public_facts;
  private_facts =
      per_agent
        (λ a.
          update (facts_of a.agent_id c.private_facts)
            (facts_of a.agent_id m.world.information.private_facts))
        m.agents [];
  counters = no_counts;
  fault_occurrences = [];
  resources = no_resources;
}

abbrev pub Act : Type 0 → Type 0
Act A = Exec World StoreError A

abbrev pub with_journal :
    {A : Type 0} → World → Outcome StoreError A × Journal → Outcome StoreError A × World
with_journal w (r, j) = (r, record w { journal = j })

-- `self.journal.commit(…)`; the payload may read the World.
unfoldable pub commit : Platform → (World → Draft) → Act (Option Event)
commit p d w = with_journal w (Journal.commit p.hashing (d w) w.journal)

-- `World.agents`
unfoldable pub agents : World → List String
agents w = filter (λ a. not (contains w.dropped_agents a)) (keys w.roles)

unfoldable pub role_of : String → World → String
role_of agent_id w = get_or (lookup agent_id w.roles) "worker"

unfoldable pub snapshot_view : World → WorldSnapshotView
snapshot_view w = record {
  logical_time = w.logical_time;
  state = w.state;
  agent_ids = keys w.roles;
  roles = w.roles;
  private_facts = w.private_facts;
  payoffs = w.payoffs;
}

abbrev pub is_shown : String × Json → Bool
is_shown kv = not (starts_with kv.0 "_")

-- What an agent may observe: public state, public facts and its own private facts.
unfoldable pub visible_state : String → World → Dict Json
visible_state agent_id w =
    insert "_private" (object (facts_of agent_id w.private_facts))
      (update (update [] (filter is_shown w.state)) w.public_facts)

abbrev pub clock_draft : World → Draft
clock_draft w =
    draft world_clock_advanced world_actor w.logical_time
      (("logical_time", num w.logical_time) ∷ [])

-- `advance_to`: never back, and no event for a time that has come already.
unfoldable pub advance_to : Platform → ℕ → Act Unit
advance_to p time w =
    if leb time w.logical_time
    then (Outcome.returned tt, w)
    else (commit p clock_draft >> pure tt) (record w { logical_time = time })

abbrev pub policy_draft : String → Bool → Json → World → Draft
policy_draft rule allowed reason w =
    record (draft policy_decision world_actor w.logical_time
      (("rule", text rule) ∷ ("reason", reason) ∷ [])) {
        policy_decision = some (record { rule = rule; allowed = allowed; reason = reason });
      }

unfoldable pub policy_event : Platform → String → Bool → Json → Act Unit
policy_event p rule allowed reason = commit p (policy_draft rule allowed reason) >> pure tt
