-- ===== src/Scheduler/Due.antt =====
-- What `pop_due`, `next_due_time` and `drop_for` do to the queue.
use mathlib.Core.List.Perm
use multi_agent_testbed.Base.{
  ℕ, ◌+◌, ◌<◌, String, ◌≡◌, ◌≢◌, refl, not, Option, none, some, [], ◌∷◌, ◌++◌, All, All-filter_of,
  length, filter, filter-perm, filter-append-not-perm, mem-filter, Perm, IsSortedBy, sort_by-perm,
  sort_by-IsSortedBy, sort_by_of_perm, str_eq, min, length-filter-le, eq_iff, arith,
}
use multi_agent_testbed.Contracts.Ids.{Hashing}
use multi_agent_testbed.Scheduler.{
  DeliveryQueue, delivery_le, is_due, pop_due, next_due_time, drop_for,
}
use multi_agent_testbed.Scheduler.Order.{AreTold, told→antisymm, delivery_le-IsPreorder}

-- Enqueueing the same deliveries in another order changes neither which are due next nor their
-- order, provided that no two different ones share a key.
pub pop_due_of_perm :
    (h : Hashing) (now : ℕ) (xs ys : DeliveryQueue)
    → AreTold h xs
    → Perm xs ys
    → ((pop_due h now xs).0 ≡ (pop_due h now ys).0) × Perm (pop_due h now xs).1 (pop_due h now ys).1
unfolding pop_due
pop_due_of_perm h now xs ys told p = (
  sort_by_of_perm (delivery_le h) (delivery_le-IsPreorder h) (filter (is_due now) xs)
      (filter (is_due now) ys)
      (λ x y mx my.
        told→antisymm h xs told x y (mem-filter (is_due now) xs mx) (mem-filter (is_due now) xs my))
      (filter-perm (is_due now) p),
  filter-perm (λ i. not (is_due now i)) p,
)

-- `pop_due` loses and duplicates nothing; what it returns is in canonical order, and all that
-- stays is due later.
pub pop_due_splits :
    (h : Hashing) (now : ℕ) (items : DeliveryQueue)
    → Perm ((pop_due h now items).0 ++ (pop_due h now items).1) items
      × IsSortedBy (delivery_le h) (pop_due h now items).0
      × All (λ i. now < i.due_time) (pop_due h now items).1
unfolding pop_due
pop_due_splits h now items = (
  Perm.trans
      (Perm.append_right (filter (λ i. not (is_due now i)) items)
        (sort_by-perm (delivery_le h) (filter (is_due now) items)))
      (filter-append-not-perm (is_due now) items),
  sort_by-IsSortedBy (delivery_le h) (delivery_le-IsPreorder h) (filter (is_due now) items),
  All-filter_of (λ i. now < i.due_time) (λ i. not (is_due now i)) (λ i e. ground arith) items,
)

abbrev pub IsLater : ℕ → Option ℕ → Type 0
IsLater now none = Unit
IsLater now (some t) = now < t

-- Where every delivery is due after `now`, so is the next due time.
pub next_due_time-IsLater :
    (now : ℕ) (items : DeliveryQueue)
    → All (λ i. now < i.due_time) items
    → IsLater now (next_due_time items)
unfolding next_due_time
next_due_time-IsLater now [] later = tt
next_due_time-IsLater now (i ∷ rest) later =
    earliest (next_due_time rest) (next_due_time-IsLater now rest later.1)
  where
    earliest :
        (o : Option ℕ)
        → IsLater now o
        → IsLater now (elim o [ none ↦ some i.due_time | some t ↦ some (min i.due_time t) ])
    earliest none h = later.0
    earliest (some t) h = omega (arith, later.0)

-- There is no next due time exactly when nothing is queued.
pub next_due_time-none : (items : DeliveryQueue) → next_due_time items ≡ none → items ≡ []
unfolding next_due_time
next_due_time-none [] e = refl
next_due_time-none (i ∷ rest) e = ground arith

-- Dropping an agent's deliveries leaves none that is addressed to it, keeps every other in place,
-- and reports how many went.
drop_for_lem :
    (agent_id : String) (items : DeliveryQueue)
    → All (λ i. i.delivery.recipient_id ≢ agent_id) (drop_for agent_id items).1
      × ((drop_for agent_id items).0 + length (drop_for agent_id items).1 ≡ length items)
      × (filter (λ i. not (str_eq i.delivery.recipient_id agent_id)) items
          ≡ (drop_for agent_id items).1)
unfolding drop_for
drop_for_lem agent_id items = (
  All-filter_of (λ i. i.delivery.recipient_id ≢ agent_id)
      (λ i. not (str_eq i.delivery.recipient_id agent_id))
      (λ i e. ground (arith, eq_iff i.delivery.recipient_id agent_id)) items,
  omega (arith, length-filter-le (λ i. not (str_eq i.delivery.recipient_id agent_id)) items),
  refl,
)
