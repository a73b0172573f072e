-- ===== src/Contracts/Events.antt =====
-- src/testbed_contracts/events.py: the stored event and its projections. Left out of the record:
-- `recorded_at` (wall-clock time), the constants `schema_version` and `payload_media_type`, and
-- `payload_ref` and `redaction_metadata`, which no code sets.
pub mod Projection
use multi_agent_testbed.Base.{
  ℕ, ◌+◌, String, ◌≡◌, refl, Bool, true, false, ◌&&◌, ◌||◌, not, Option, none, some, List, [], ◌∷◌,
  map, Dict, ◌==◌, if◌then◌else◌, str_eq, contains, filter, any, arith,
}
use multi_agent_testbed.Contracts.Enums.{
  EventKind, VisibilityPolicy, is_public, is_private, partition, omniscient_only, same_kind,
  visibility_index,
}
use multi_agent_testbed.Contracts.Ids.{Json}

abbrev pub omniscient_view : String
omniscient_view = "omniscient"

abbrev pub public_view : String
public_view = "public"

-- Money and seconds are floats in the source; they are counted in millionths here.
pub record ResourceDelta : Type 0 where
  pub model_calls : ℕ
  pub input_tokens : ℕ
  pub output_tokens : ℕ
  pub tool_calls : ℕ
  pub cost_usd : ℕ
  pub wall_seconds : ℕ
  pub message_bytes : ℕ

abbrev pub no_resources : ResourceDelta
no_resources = record {
  model_calls = 0;
  input_tokens = 0;
  output_tokens = 0;
  tool_calls = 0;
  cost_usd = 0;
  wall_seconds = 0;
  message_bytes = 0;
}

-- `ResourceDelta.__add__`
unfoldable pub add_resources : ResourceDelta → ResourceDelta → ResourceDelta
add_resources a b = record {
  model_calls = a.model_calls + b.model_calls;
  input_tokens = a.input_tokens + b.input_tokens;
  output_tokens = a.output_tokens + b.output_tokens;
  tool_calls = a.tool_calls + b.tool_calls;
  cost_usd = a.cost_usd + b.cost_usd;
  wall_seconds = a.wall_seconds + b.wall_seconds;
  message_bytes = a.message_bytes + b.message_bytes;
}

pub record PolicyDecision : Type 0 where
  pub rule : String
  pub allowed : Bool
  pub reason : Json

pub record Event : Type 0 where
  pub event_id : ℕ
  pub run_id : ℕ
  pub attempt_id : ℕ
  pub sequence : ℕ
  pub logical_time : ℕ
  pub event_kind : EventKind
  pub actor_id : String
  pub target_ids : List String
  pub causation_id : Option ℕ
  pub correlation_id : Option ℕ
  pub idempotency_key : Option ℕ
  pub visibility_policy : VisibilityPolicy
  pub authorized_view_ids : List String
  pub payload : Dict Json
  pub payload_hash : Option ℕ
  pub resource_delta : ResourceDelta
  pub policy_decision : Option PolicyDecision

-- `visibility_policy is v`
abbrev pub same_visibility : VisibilityPolicy → VisibilityPolicy → Bool
same_visibility a b = visibility_index a == visibility_index b

unfoldable pub visible_to : Event → String → Bool
visible_to e view =
    if str_eq view omniscient_view
    then true
    else if same_visibility e.visibility_policy omniscient_only
    then false
    else if same_visibility e.visibility_policy is_public
    then true
    else if str_eq view public_view
    then false
    else contains e.authorized_view_ids view

unfoldable pub project : Event → String → Option Event
unfolding visible_to
project e view =
    if not (visible_to e view)
    then none
    else if str_eq view omniscient_view || same_visibility e.visibility_policy is_public
    then some e
    else some (record e { authorized_view_ids = view ∷ [] })

abbrev pub cons_some {ℓ} : {A : Type ℓ} → Option A → List A → List A
cons_some none xs = xs
cons_some (some x) xs = x ∷ xs

-- The events of an `EventView(events, view)`.
unfoldable pub event_view : List Event → String → List Event
event_view [] view = []
event_view (e ∷ es) view = cons_some (project e view) (event_view es view)

-- `EventView.of_kind`, with one kind
unfoldable pub of_kind : EventKind → List Event → List Event
of_kind k = filter (λ e. same_kind e.event_kind k)

unfoldable pub by_actor : String → List Event → List Event
by_actor actor = filter (λ e. str_eq e.actor_id actor)

-- The loop of `EventView.total_resources`.
unfoldable pub add_events : ResourceDelta → List Event → ResourceDelta
unfolding add_resources
add_events total [] = total
add_events total (e ∷ es) = add_events (add_resources total e.resource_delta) es

unfoldable pub total_resources : List Event → ResourceDelta
unfolding add_events
total_resources es = add_events no_resources es
