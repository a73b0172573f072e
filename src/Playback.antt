-- ===== src/Playback.antt =====
-- src/testbed_kernel/playback.py: a run read back for one view, its transcript and state. Nothing
-- here calls a model, a tool or an agent: the functions take the store alone.
pub mod Authorised
use multi_agent_testbed.Base.{
  ℕ, String, Bool, true, false, not, ◌&&◌, if◌then◌else◌, Option, none, some, List, [], ◌∷◌, ◌++◌,
  map, Dict, lookup, update, get_or, filter, any, ◌==◌, is_some,
}
use multi_agent_testbed.Contracts.Enums.{
  EventKind, world_message_delivered, agent_message, world_action, tool_called, agent_final,
  verifier_result, world_state_changed, same_kind, kind_index,
}
use multi_agent_testbed.Contracts.Ids.{
  as_dict, entries, Json, null, num, text, texts, obj, Fields, end, field,
}
use multi_agent_testbed.Contracts.Events.{Event, visible_to, event_view}
use multi_agent_testbed.Store.{Store, read}

-- `p.get(key)`, where a missing key is written as Python's `None`
abbrev got : String → Event → Json
got key e = get_or (lookup key e.payload) null

-- What a line of a transcript writes, in order; the fixed texts between the values depend on the
-- constructor alone. `general` writes the name of the kind.
pub data Line : Type 0 where
  delivered : ℕ → Json → Json → Json → Line
  said : ℕ → String → List String → Json → Line
  acted : ℕ → String → Json → Json → Line
  called_tool : ℕ → String → Json → Line
  concluded : ℕ → String → Json → Line
  verified : ℕ → Json → Json → Line
  general : ℕ → EventKind → String → Line

-- `_line`
unfoldable pub line : Event → Line
unfolding lookup
line e = elim e.event_kind [
  | world_message_delivered ↦
      delivered e.logical_time (got "sender" e) (got "recipient" e) (got "content" e)
  | agent_message ↦ said e.logical_time e.actor_id e.target_ids (got "content" e)
  | world_action ↦ acted e.logical_time e.actor_id (got "action" e) (got "args" e)
  | tool_called ↦ called_tool e.logical_time e.actor_id (got "tool" e)
  | agent_final ↦ concluded e.logical_time e.actor_id (got "content" e)
  | verifier_result ↦ verified e.logical_time (got "success" e) (got "reward" e)
  | kind ↦ general e.logical_time kind e.actor_id
]

-- `state.update(event.payload.get("updates", {}))` for every change of state
unfoldable pub replay : Dict Json → List Event → Dict Json
unfolding update lookup
replay state [] = state
replay state (e ∷ es) =
    replay
      (if same_kind e.event_kind world_state_changed
        then update state (as_dict (got "updates" e))
        else state)
      es

pub record Playback : Type 0 where
  pub run_id : ℕ
  pub view : String
  pub events : List Event
  pub transcript : List Line
  pub final_state : Dict Json

unfoldable pub playback : Store → ℕ → String → Playback
unfolding line replay event_view
playback store run_id view = record {
  run_id = run_id;
  view = view;
  events = event_view (read run_id store) view;
  transcript = map line (event_view (read run_id store) view);
  final_state = replay [] (event_view (read run_id store) view);
}

abbrev pub same_hash : Option ℕ → Option ℕ → Bool
same_hash none none = true
same_hash (some a) (some b) = a == b
same_hash _ _ = false

-- The set `allowed` of payload hashes.
abbrev pub is_allowed : List Event → String → Option ℕ → Bool
is_allowed stored view h = any (λ e. visible_to e view && same_hash e.payload_hash h) stored

-- The hashes of a view that are not in the set.
unfoldable pub unauthorised_in : List Event → String → List Event → List ℕ
unauthorised_in stored view [] = []
unauthorised_in stored view (e ∷ es) = elim e.payload_hash [
  | none ↦ unauthorised_in stored view es
  | some h ↦
      if is_allowed stored view (some h)
      then unauthorised_in stored view es
      else h ∷ unauthorised_in stored view es
]

unfoldable pub unauthorized_payloads : Store → ℕ → String → List ℕ
unfolding unauthorised_in event_view
unauthorized_payloads store run_id view =
    unauthorised_in (read run_id store) view (event_view (read run_id store) view)
