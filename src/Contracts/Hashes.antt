-- ===== src/Contracts/Hashes.antt =====
-- `normalize_for_hash` (src/testbed_contracts/ids.py) and `canonical_event_hash`
-- (src/testbed_contracts/events.py): the fingerprint of a log. As in the keys of the journal, the
-- number of an event kind stands for its text. The field `recorded_at` is dropped by the hash.
use multi_agent_testbed.Base.{
  ℕ, String, ◌≡◌, refl, ap, sym, ◌∙◌, Option, none, some, List, [], ◌∷◌, map, contains, str_le,
  if◌then◌else◌,
}
use multi_agent_testbed.Contracts.Enums.{
  VisibilityPolicy, is_public, is_private, partition, omniscient_only, kind_index,
}
use multi_agent_testbed.Contracts.Ids.{
  Json, Items, Fields, null, bool, num, real, not_finite, text, ref, arr, obj, nil, cons, end,
  field, object, texts, Hashing, content_hash,
}
use multi_agent_testbed.Contracts.Events.{Event, ResourceDelta, PolicyDecision}

-- A field at its place in a list that is sorted by key.
unfoldable pub insert_field : String → Json → Fields → Fields
insert_field k v end = field k v end
insert_field k v (field j w fs) =
    if str_le k j then field k v (field j w fs) else field j w (insert_field k v fs)

unfoldable mutual
  pub normalize_for_hash : List String → Json → Json
  normalize_for_hash drop_keys (arr xs) = arr (normalize_items drop_keys xs)
  normalize_for_hash drop_keys (obj fs) = obj (normalize_fields drop_keys fs)
  normalize_for_hash drop_keys null = null
  normalize_for_hash drop_keys (bool b) = bool b
  normalize_for_hash drop_keys (num n) = num n
  normalize_for_hash drop_keys (real x) = real x
  normalize_for_hash drop_keys (not_finite x) = not_finite x
  normalize_for_hash drop_keys (text s) = text s
  normalize_for_hash drop_keys (ref s ns) = ref s ns

  pub normalize_items : List String → Items → Items
  normalize_items drop_keys nil = nil
  normalize_items drop_keys (cons x xs) =
      cons (normalize_for_hash drop_keys x) (normalize_items drop_keys xs)

  pub normalize_fields : List String → Fields → Fields
  normalize_fields drop_keys end = end
  normalize_fields drop_keys (field k v fs) =
      let rest = normalize_fields drop_keys fs in
      if contains drop_keys k then rest else insert_field k (normalize_for_hash drop_keys v) rest

abbrev pub volatile_event_fields : List String
volatile_event_fields = "recorded_at" ∷ "event_id" ∷ "attempt_id" ∷ []

abbrev pub optional_ref : String → Option ℕ → Json
optional_ref prefix none = null
optional_ref prefix (some n) = ref prefix (n ∷ [])

abbrev pub visibility_text : VisibilityPolicy → Json
visibility_text is_public = text "public"
visibility_text is_private = text "private"
visibility_text partition = text "partition"
visibility_text omniscient_only = text "omniscient_only"

abbrev pub resources_json : ResourceDelta → Json
resources_json r = object (
    ("model_calls", num r.model_calls)
    ∷ ("input_tokens", num r.input_tokens)
    ∷ ("output_tokens", num r.output_tokens)
    ∷ ("tool_calls", num r.tool_calls)
    ∷ ("cost_usd", num r.cost_usd)
    ∷ ("wall_seconds", num r.wall_seconds)
    ∷ ("message_bytes", num r.message_bytes)
    ∷ [])

abbrev pub policy_json : Option PolicyDecision → Json
policy_json none = null
policy_json (some d) =
    object (("rule", text d.rule) ∷ ("allowed", bool d.allowed) ∷ ("reason", d.reason) ∷ [])

-- `e.model_dump(mode="json")`
abbrev pub event_json : Event → Json
event_json e = object (
    ("schema_version", text "1.0.0")
    ∷ ("event_id", ref "evt_" (e.event_id ∷ []))
    ∷ ("run_id", ref "run_" (e.run_id ∷ []))
    ∷ ("attempt_id", ref "att_" (e.attempt_id ∷ []))
    ∷ ("sequence", num e.sequence)
    ∷ ("logical_time", num e.logical_time)
    ∷ ("event_kind", num (kind_index e.event_kind))
    ∷ ("actor_id", text e.actor_id)
    ∷ ("target_ids", texts e.target_ids)
    ∷ ("causation_id", optional_ref "evt_" e.causation_id)
    ∷ ("correlation_id", optional_ref "" e.correlation_id)
    ∷ ("idempotency_key", optional_ref "idem_" e.idempotency_key)
    ∷ ("visibility_policy", visibility_text e.visibility_policy)
    ∷ ("authorized_view_ids", texts e.authorized_view_ids)
    ∷ ("payload", object e.payload)
    ∷ ("payload_ref", null)
    ∷ ("payload_media_type", text "application/json")
    ∷ ("payload_hash", optional_ref "sha256:" e.payload_hash)
    ∷ ("resource_delta", resources_json e.resource_delta)
    ∷ ("policy_decision", policy_json e.policy_decision)
    ∷ ("redaction_metadata", obj end)
    ∷ [])

unfoldable pub hash_items : List Event → Items
unfolding normalize_for_hash
hash_items [] = nil
hash_items (e ∷ es) = cons (normalize_for_hash volatile_event_fields (event_json e)) (hash_items es)

unfoldable pub canonical_event_hash : Hashing → List Event → ℕ
unfolding hash_items
canonical_event_hash h es = content_hash h (arr (hash_items es))

-- An event without the fields that may differ between two executions.
abbrev pub settled : Event → Event
settled e = record e { event_id = 0; attempt_id = 0 }

normalize-settled :
    (e : Event)
    → normalize_for_hash volatile_event_fields (event_json e)
      ≡ normalize_for_hash volatile_event_fields (event_json (settled e))
unfolding normalize_for_hash insert_field
normalize-settled e = refl

hash_items-settled : (es : List Event) → hash_items es ≡ hash_items (map settled es)
unfolding hash_items
hash_items-settled [] = refl
hash_items-settled (e ∷ es) = λ i. cons (normalize-settled e i) (hash_items-settled es i)

-- Two logs whose events differ in their ids and attempts only have the same fingerprint.
pub canonical_event_hash_of_settled :
    (h : Hashing) (es fs : List Event)
    → map settled es ≡ map settled fs
    → canonical_event_hash h es ≡ canonical_event_hash h fs
unfolding canonical_event_hash
canonical_event_hash_of_settled h es fs same =
    ap (λ xs. content_hash h (arr xs))
      (hash_items-settled es ∙ ap hash_items same ∙ sym (hash_items-settled fs))
