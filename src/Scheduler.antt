-- ===== src/Scheduler.antt =====
-- src/testbed_kernel/scheduler.py: the deterministic delivery queue. The content key is the number
-- that the 16 hexadecimal digits of the hash write, so texts of digits compare as numbers do.
pub mod Order
pub mod Due
use multi_agent_testbed.Base.{
  ℕ, ◌-◌, ◌≤◌, String, ◌≡◌, Bool, true, false, not, Option, none, some, List, [], ◌∷◌, ◌++◌, min,
  length, filter, sort_by, ltb, leb, if◌then◌else◌, str_eq,
}
use multi_agent_testbed.Contracts.Enums.{
  VisibilityPolicy, is_public, is_private, partition, omniscient_only,
}
use multi_agent_testbed.Contracts.Ids.{Hashing, short_hash, object, text}
use multi_agent_testbed.Sdk.{Delivery}

-- The fields `meta` and `cause_sequence` are never set.
pub record ScheduledDelivery : Type 0 where
  pub due_time : ℕ
  pub order_hint : ℕ
  pub delivery : Delivery
  pub duplicate_index : ℕ

abbrev pub visibility_name : VisibilityPolicy → String
visibility_name is_public = "public"
visibility_name is_private = "private"
visibility_name partition = "partition"
visibility_name omniscient_only = "omniscient_only"

pub record SortKey : Type 0 where
  pub due : ℕ
  pub hint : ℕ
  pub content : ℕ
  pub copy : ℕ

unfoldable pub sort_key : Hashing → ScheduledDelivery → SortKey
sort_key h i = record {
  due = i.due_time;
  hint = i.order_hint;
  content =
      short_hash h
        (object (
          ("sender", text i.delivery.sender_id)
          ∷ ("recipient", text i.delivery.recipient_id)
          ∷ ("content", text i.delivery.content)
          ∷ ("payload", object i.delivery.payload)
          ∷ ("visibility", text (visibility_name i.delivery.visibility))
          ∷ []))
        16;
  copy = i.duplicate_index;
}

-- One place of the comparison of two tuples.
abbrev pub lexical : ℕ → ℕ → Bool → Bool
lexical a b rest = if ltb a b then true else if ltb b a then false else rest

unfoldable pub key_le : SortKey → SortKey → Bool
key_le a b =
    lexical a.due b.due (lexical a.hint b.hint (lexical a.content b.content (leb a.copy b.copy)))

unfoldable pub delivery_le : Hashing → ScheduledDelivery → ScheduledDelivery → Bool
delivery_le h a b = key_le (sort_key h a) (sort_key h b)

abbrev pub DeliveryQueue : Type 0
DeliveryQueue = List ScheduledDelivery

unfoldable pub push : DeliveryQueue → ScheduledDelivery → DeliveryQueue
push items item = items ++ item ∷ []

abbrev pub is_due : ℕ → ScheduledDelivery → Bool
is_due now i = leb i.due_time now

-- The deliveries that are due, in canonical order, and the queue that is left.
unfoldable pub pop_due : Hashing → ℕ → DeliveryQueue → List ScheduledDelivery × DeliveryQueue
pop_due h now items =
    (sort_by (delivery_le h) (filter (is_due now) items), filter (λ i. not (is_due now i)) items)

unfoldable pub next_due_time : DeliveryQueue → Option ℕ
next_due_time [] = none
next_due_time (i ∷ rest) = elim (next_due_time rest) [
  | none ↦ some i.due_time
  | some t ↦ some (min i.due_time t)
]

unfoldable pub peek_all : Hashing → DeliveryQueue → List ScheduledDelivery
peek_all h items = sort_by (delivery_le h) items

-- How many were dropped, and the queue that is left.
unfoldable pub drop_for : String → DeliveryQueue → ℕ × DeliveryQueue
drop_for agent_id items =
    let kept = filter (λ i. not (str_eq i.delivery.recipient_id agent_id)) items in
    (length items - length kept, kept)
