-- ===== src/Tests/Data.antt =====
-- Test data: a hash that can be computed, a small manifest and team, a World and a run.
use native.Mathlib.Decide.{ℕ_discrete}
use mathlib.Core.Logic.Or
use mathlib.Core.HLevel.{hedberg}
use mathlib.Core.List.{Mem, mem-cons, mem-singleton}
use multi_agent_testbed.Base.{
  ℕ, ◌+◌, ◌*◌, ◌^◌, String, ◌≡◌, ◌≢◌, sym, ap, ◌∙◌, false, none, some, List, [], ◌∷◌, ℤ, pos,
  Bool-cases, inl, inr, str_eq, eq_iff, length, arith,
}
use multi_agent_testbed.Contracts.Enums.{
  VisibilityPolicy, is_public, is_private, omniscient_only, agent_message, ReproducibilityLevel,
  bit_exact, best_effort, session, aec, frozen_eval, message,
}
use multi_agent_testbed.Contracts.Ids.{
  Json, Items, Fields, null, bool, num, real, text, ref, arr, obj, nil, cons, end, field, Hashing,
  NotFinite, not_finite,
}
use multi_agent_testbed.Contracts.Events.{Event, no_resources}
use multi_agent_testbed.Contracts.Manifest.{AgentSpec, ExperimentManifest, cooperative, sum_welfare}
use multi_agent_testbed.Sdk.{Delivery, TaskCase, AgentEvent}
use multi_agent_testbed.Scheduler.{ScheduledDelivery, DeliveryQueue, sort_key}
use multi_agent_testbed.Scheduler.Order.{AreTold}
use multi_agent_testbed.Records.{fresh_driver}
use multi_agent_testbed.Store.{Store, empty_store}
use multi_agent_testbed.Journal.{Journal}
use multi_agent_testbed.Rng.{Platform, Rng}
use multi_agent_testbed.World.State.{World, no_counts}
use multi_agent_testbed.Topologies.{mesh}
use multi_agent_testbed.Driver.State.{Driver, Setup}

pub String-discrete : Discrete String
String-discrete a b = elim (Bool-cases (str_eq a b)) [
  | inl e ↦ yes (ground (arith, eq_iff a b))
  | inr e ↦ no (λ h. ground (arith, eq_iff a b))
]

ℤ-discrete : Discrete ℤ
ℤ-discrete = hlevel (ℕ_discrete)

NotFinite-discrete : Discrete NotFinite
NotFinite-discrete = hlevel

pub Json-discrete : Discrete Json
Json-discrete = hlevel (ℕ_discrete, String-discrete, ℤ-discrete, NotFinite-discrete)

VisibilityPolicy-discrete : Discrete VisibilityPolicy
VisibilityPolicy-discrete = hlevel

ScheduledDelivery-discrete : Discrete ScheduledDelivery
ScheduledDelivery-discrete =
    hlevel (ℕ_discrete, String-discrete, Json-discrete, VisibilityPolicy-discrete)

ScheduledDelivery-set : IsSet ScheduledDelivery
ScheduledDelivery-set = hedberg ScheduledDelivery-discrete

only : {x y : ScheduledDelivery} → Mem x (y ∷ []) → x ≡ y
only m = (mem-singleton ScheduledDelivery-set).0 m

abbrev due_of : ScheduledDelivery → ℕ
due_of i = i.due_time

-- Deliveries at two times have different keys.
pub two-AreTold :
    (h : Hashing) (a b : ScheduledDelivery) → a.due_time ≢ b.due_time → AreTold h (a ∷ b ∷ [])
unfolding sort_key
two-AreTold h a b differ x y mx my e =
    let due : x.due_time ≡ y.due_time = ap (λ k. k.due) e in
    Or.elim (ScheduledDelivery-set x y) (mem-cons.0 mx)
      (λ xa.
        Or.elim (ScheduledDelivery-set x y) (mem-cons.0 my) (λ ya. xa ∙ sym ya)
          (λ yb. absurd (differ (ap due_of (sym xa) ∙ due ∙ ap due_of (only yb)))))
      (λ xb.
        Or.elim (ScheduledDelivery-set x y) (mem-cons.0 my)
          (λ ya. absurd (differ (ap due_of (sym ya) ∙ sym due ∙ ap due_of (only xb))))
          (λ yb. only xb ∙ sym (only yb)))

-- Not a good hash, but one that tells the numbers in a value apart.
unfoldable mutual
  pub weight : Json → ℕ
  weight null = 1
  weight (bool b) = 2
  weight (num n) = n + 3
  weight (real x) = 4
  weight (not_finite x) = 4
  weight (text s) = 5
  weight (ref s ns) = 6 + length ns
  weight (arr xs) = weight_items xs
  weight (obj fs) = weight_fields fs

  pub weight_items : Items → ℕ
  weight_items nil = 0
  weight_items (cons x xs) = weight x + 2 * weight_items xs

  pub weight_fields : Fields → ℕ
  weight_fields end = 0
  weight_fields (field k v fs) = weight v + 2 * weight_fields fs

abbrev pub hashing : Hashing
hashing = record { sha256 = λ value. weight value * 16 ^ 56 }

abbrev pub platform : Platform
platform = record {
  hashing = hashing;
  draw = λ seed. seed;
  draw_int = λ seed low high. low;
  draw_below = λ seed n. 0;
  render = λ value. "?";
}

abbrev agent : String → String → ReproducibilityLevel → AgentSpec
agent agent_id role level = record {
  agent_id = agent_id;
  adapter = "scripted";
  role = role;
  model = "none";
  prompt = "";
  reproducibility = level;
}

abbrev pub manifest : ExperimentManifest
manifest = record {
  experiment_id = "pair";
  sample_selector = [];
  world = record {
    driver = session;
    env_mode = aec;
    topology = "mesh";
    communication = record {
      max_message_bytes = 100;
      broadcast_allowed = false;
      default_visibility = is_public;
      delivery_latency = 1;
    };
    information = record { public_facts = []; private_facts = ("bob", []) ∷ [] };
    clock_step = 1;
  };
  agents = agent "ada" "worker" bit_exact ∷ agent "bob" "worker" best_effort ∷ [];
  team = record { team_config_id = "two"; partner_population_id = none };
  payoff = record {
    mode = cooperative;
    team_weight = pos 1;
    individual_weight = pos 0;
    welfare = sum_welfare;
  };
  faults = [];
  seeds = 7 ∷ [];
  repetitions = 1;
  perturbations = [];
  limits = record {
    max_logical_time = 4;
    max_events = 50;
    max_messages = 50;
    max_model_calls = 50;
    max_cost_usd = 50;
    checkpoint_every_events = 10;
  };
}

abbrev pub task : TaskCase
task = record {
  task_id = "add";
  instruction = "Add the numbers.";
  initial_state = [];
  public_facts = [];
  private_facts = [];
  eval_set_kind = frozen_eval;
}

abbrev pub journal : Journal
journal = record {
  store = empty_store;
  run_id = 12;
  attempt_id = 1;
  sequence = 0;
  logical_action_index = 0;
  committed = [];
  rejected_duplicates = [];
}

abbrev pub rng : Rng
rng = record { seed = 7; counters = []; decisions = [] }

abbrev pub delivery : String → String → Delivery
delivery sender recipient = record {
  sender_id = sender;
  recipient_id = recipient;
  content = "hello";
  payload = [];
  visibility = is_private;
  extra_delay = 0;
}

abbrev pub at_time : ℕ → String → ScheduledDelivery
at_time time recipient = record {
  due_time = time;
  order_hint = 0;
  delivery = delivery "ada" recipient;
  duplicate_index = 0;
}

abbrev pub queue : DeliveryQueue
queue = at_time 2 "bob" ∷ at_time 1 "ada" ∷ []

abbrev pub world : World
world = record {
  manifest = manifest;
  case = task;
  journal = journal;
  rng = rng;
  logical_time = 0;
  finished = false;
  finish_reason = none;
  state = [];
  queue = queue;
  payoffs = ("ada", pos 0) ∷ ("bob", pos 0) ∷ [];
  roles = ("ada", "worker") ∷ ("bob", "worker") ∷ [];
  dropped_agents = [];
  public_facts = [];
  private_facts = ("ada", []) ∷ ("bob", []) ∷ [];
  counters = no_counts;
  fault_occurrences = [];
  resources = no_resources;
}

-- `ada` answers with a message to `bob`.
abbrev answer : AgentEvent
answer = record {
  kind = message;
  content = "hi";
  recipients = "bob" ∷ [];
  action = [];
  tool_name = none;
  tool_args = [];
  resource_delta = record no_resources { model_calls = 1 };
  private = false;
}

abbrev pub setup : Setup
setup = record {
  platform = platform;
  agents = ("ada", record { invoke = λ request. (answer ∷ [], false) }) ∷ [];
  topology = mesh;
  pack = record { cases = task ∷ []; action_handlers = []; verifiers = [] };
  checkpoint_every = 10;
  checkpoint_hook = none;
}

abbrev pub driver : Driver
driver = record { world = world; state = fresh_driver; events_since_checkpoint = 0 }

abbrev pub event : ℕ → ℕ → VisibilityPolicy → List String → Event
event id sequence visibility viewers = record {
  event_id = id;
  run_id = 12;
  attempt_id = 1;
  sequence = sequence;
  logical_time = 0;
  event_kind = agent_message;
  actor_id = "ada";
  target_ids = [];
  causation_id = none;
  correlation_id = none;
  idempotency_key = some (100 + sequence);
  visibility_policy = visibility;
  authorized_view_ids = viewers;
  payload = [];
  payload_hash = none;
  resource_delta = no_resources;
  policy_decision = none;
}

-- One that all may see, one for `ada`, one for nobody.
abbrev pub log : List Event
log =
    event 1 0 is_public []
    ∷ event 2 1 is_private ("ada" ∷ "bob" ∷ [])
    ∷ event 3 2 omniscient_only []
    ∷ []

abbrev pub store : Store
store = record empty_store { events = log; superseded_events = event 3 2 is_public [] ∷ [] }
