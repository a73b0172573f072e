-- ===== src/Journal.antt =====
-- src/testbed_kernel/journal.py: the only place that assigns sequence numbers and idempotency keys.
pub mod Commit
pub mod Retry
pub mod Order
use multi_agent_testbed.Base.{
  ℕ, suc, ◌+◌, String, ◌≡◌, Bool, true, false, Option, none, some, List, [], ◌∷◌, ◌++◌, Dict,
  Outcome, returned, raised,
}
use multi_agent_testbed.Contracts.Enums.{EventKind, VisibilityPolicy, is_public, kind_index}
use multi_agent_testbed.Contracts.Ids.{
  Json, num, text, ref, object, Hashing, short_hash, content_hash, idempotency_key,
}
use multi_agent_testbed.Contracts.Events.{Event, ResourceDelta, no_resources, PolicyDecision}
use multi_agent_testbed.Records.{JournalState}
use multi_agent_testbed.Store.{Store, StoreError, append}

pub record Journal : Type 0 where
  pub store : Store
  pub run_id : ℕ
  pub attempt_id : ℕ
  pub sequence : ℕ
  pub logical_action_index : ℕ
  pub committed : List Event
  pub rejected_duplicates : List ℕ

-- The arguments of `commit`.
pub record Draft : Type 0 where
  pub kind : EventKind
  pub actor_id : String
  pub logical_time : ℕ
  pub payload : Dict Json
  pub target_ids : List String
  pub visibility : VisibilityPolicy
  pub authorized_view_ids : List String
  pub resource_delta : ResourceDelta
  pub policy_decision : Option PolicyDecision
  pub causation_id : Option ℕ

-- The defaults of those arguments.
abbrev pub draft : EventKind → String → ℕ → Dict Json → Draft
draft kind actor_id logical_time payload = record {
  kind = kind;
  actor_id = actor_id;
  logical_time = logical_time;
  payload = payload;
  target_ids = [];
  visibility = is_public;
  authorized_view_ids = [];
  resource_delta = no_resources;
  policy_decision = none;
  causation_id = none;
}

unfoldable pub start_journal : Store → ℕ → ℕ → JournalState → Journal
start_journal store run_id attempt_id at = record {
  store = store;
  run_id = run_id;
  attempt_id = attempt_id;
  sequence = at.sequence;
  logical_action_index = at.logical_action_index;
  committed = [];
  rejected_duplicates = [];
}

-- The key of a logical action: its number, kind and actor, in this run.
unfoldable pub action_key : Hashing → ℕ → ℕ → EventKind → String → ℕ
action_key h run_id index kind actor_id =
    idempotency_key h run_id
      (object (("n", num index) ∷ ("kind", num (kind_index kind)) ∷ ("actor", text actor_id) ∷ []))

unfoldable pub event_id : Hashing → ℕ → ℕ → ℕ
event_id h run_id sequence =
    short_hash h (object (("run", ref "run_" (run_id ∷ [])) ∷ ("seq", num sequence) ∷ [])) 20

unfoldable pub build_event : Hashing → Draft → Journal → Event
build_event h d j = record {
  event_id = event_id h j.run_id j.sequence;
  run_id = j.run_id;
  attempt_id = j.attempt_id;
  sequence = j.sequence;
  logical_time = d.logical_time;
  event_kind = d.kind;
  actor_id = d.actor_id;
  target_ids = d.target_ids;
  causation_id = d.causation_id;
  correlation_id = none;
  idempotency_key = some (action_key h j.run_id j.logical_action_index d.kind d.actor_id);
  visibility_policy = d.visibility;
  authorized_view_ids = d.authorized_view_ids;
  payload = d.payload;
  payload_hash = some (content_hash h (object d.payload));
  resource_delta = d.resource_delta;
  policy_decision = d.policy_decision;
}

-- What follows the store's answer.
abbrev pub after_append :
    Event
    → ℕ
    → Journal
    → Outcome StoreError Bool × Store
    → Outcome StoreError (Option Event) × Journal
after_append e key j (raised err, store) = (raised err, record j { store = store })
after_append e key j (returned false, store) = (
  returned none,
  record j {
    store = store;
    rejected_duplicates = j.rejected_duplicates ++ key ∷ [];
    logical_action_index = suc j.logical_action_index;
  },
)
after_append e key j (returned true, store) = (
  returned (some e),
  record j {
    store = store;
    sequence = suc j.sequence;
    logical_action_index = suc j.logical_action_index;
    committed = j.committed ++ e ∷ [];
  },
)

-- Commit one event; `none` when the store rejected it as a duplicate of a logical action.
unfoldable pub commit : Hashing → Draft → Journal → Outcome StoreError (Option Event) × Journal
unfolding build_event
commit h d j =
    after_append (build_event h d j)
      (action_key h j.run_id j.logical_action_index d.kind d.actor_id) j
      (append (build_event h d j) j.store)

unfoldable pub state : Journal → JournalState
state j = record { sequence = j.sequence; logical_action_index = j.logical_action_index }
