-- ===== src/Scheduler/Order.antt =====
-- The canonical order of deliveries does not depend on the order in which they were enqueued.
use mathlib.Core.List.{Mem}
use multi_agent_testbed.Base.{◌≡◌, true, false, List, IsPreorder, arith}
use multi_agent_testbed.Contracts.Ids.{Hashing}
use multi_agent_testbed.Scheduler.{ScheduledDelivery, SortKey, sort_key, key_le, delivery_le}

key_le_total : (a b : SortKey) → key_le a b ≡ false → key_le b a ≡ true
unfolding key_le
key_le_total a b h = ground arith

key_le_trans : (a b c : SortKey) → key_le a b ≡ true → key_le b c ≡ true → key_le a c ≡ true
unfolding key_le
key_le_trans a b c h k = ground arith

key_le_antisymm : (a b : SortKey) → key_le a b ≡ true → key_le b a ≡ true → a ≡ b
unfolding key_le
key_le_antisymm a b h k = ground arith

pub delivery_le-IsPreorder : (h : Hashing) → IsPreorder (delivery_le h)
unfolding delivery_le
delivery_le-IsPreorder h = record {
  total = λ x y. key_le_total (sort_key h x) (sort_key h y);
  trans = λ x y z. key_le_trans (sort_key h x) (sort_key h y) (sort_key h z);
}

-- No two different deliveries of the list share a key: neither a hash collision, nor two pushes of
-- the same message that differ in a field outside the key.
abbrev pub AreTold : Hashing → List ScheduledDelivery → Type 0
AreTold h xs = (x y : ScheduledDelivery) → Mem x xs → Mem y xs → sort_key h x ≡ sort_key h y → x ≡ y

pub told→antisymm :
    (h : Hashing) (xs : List ScheduledDelivery)
    → AreTold h xs
    → (x y : ScheduledDelivery) → Mem x xs
    → Mem y xs
    → delivery_le h x y ≡ true
    → delivery_le h y x ≡ true
    → x ≡ y
unfolding delivery_le
told→antisymm h xs told x y mx my a b =
    told x y mx my (key_le_antisymm (sort_key h x) (sort_key h y) a b)
