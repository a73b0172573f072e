-- ===== src/Tests/Queues.antt =====
-- The delivery queue, the World and the generator at concrete inputs.
use mathlib.Core.List.Perm
use multi_agent_testbed.Base.{
  ◌<◌, ◌≡◌, refl, true, some, [], ◌∷◌, ◌++◌, All, Perm, IsSortedBy, sort_by, insert_by, Gives,
  arith, String, contains,
}
use multi_agent_testbed.Contracts.Ids.{content_hash, short_hash}
use multi_agent_testbed.Sdk.{Proposal}
use multi_agent_testbed.Scheduler.{
  DeliveryQueue, sort_key, key_le, delivery_le, pop_due, next_due_time, peek_all,
}
use multi_agent_testbed.Scheduler.Due.{pop_due_of_perm, pop_due_splits}
use multi_agent_testbed.Records.{fault_label, plugin_label}
use multi_agent_testbed.Rng.{random}
use multi_agent_testbed.Rng.Streams.{random_independent}
use multi_agent_testbed.World.State.{World}
use multi_agent_testbed.World.Actions.{route}
use multi_agent_testbed.World.Routing.{IsAllowed, route-IsAllowed}
use multi_agent_testbed.World.Snapshots.{SameSetting, snapshot, restore-snapshot}
use multi_agent_testbed.World.Snapshots
use multi_agent_testbed.Topologies.{mesh}
use multi_agent_testbed.Tests.Data.{
  hashing, platform, queue, at_time, rng, world, two-AreTold, weight,
}

abbrev same_queue : DeliveryQueue
same_queue = at_time 1 "ada" ∷ at_time 2 "bob" ∷ []

-- Both orders of enqueueing give the earlier delivery first.
due_at_2 : (pop_due hashing 2 queue).0 ≡ same_queue
unfolding pop_due sort_by insert_by delivery_le key_le sort_key short_hash content_hash weight
due_at_2 = refl

next_due : next_due_time queue ≡ some 1
unfolding next_due_time
next_due = refl

pop_due_of_perm_example :
    ((pop_due hashing 2 queue).0 ≡ (pop_due hashing 2 same_queue).0)
    × Perm (pop_due hashing 2 queue).1 (pop_due hashing 2 same_queue).1
pop_due_of_perm_example =
    pop_due_of_perm hashing 2 queue same_queue
      (two-AreTold hashing (at_time 2 "bob") (at_time 1 "ada") (λ e. omega (arith, e)))
      (Perm.swap (at_time 1 "ada") (at_time 2 "bob") [])

pop_due_splits_example :
    Perm ((pop_due hashing 1 queue).0 ++ (pop_due hashing 1 queue).1) queue
    × IsSortedBy (delivery_le hashing) (pop_due hashing 1 queue).0
    × All (λ i. 1 < i.due_time) (pop_due hashing 1 queue).1
pop_due_splits_example = pop_due_splits hashing 1 queue

random_independent_example :
    (random platform (fault_label 0) (random platform (plugin_label "retry") rng).1).0
    ≡ (random platform (fault_label 0) rng).0
random_independent_example =
    random_independent platform (fault_label 0) (plugin_label "retry") rng refl

-- The World as a resumed run builds it: nothing has happened yet.
abbrev new : World
new = record world { queue = []; logical_time = 0 }

abbrev later : World
later = record world {
  logical_time = 3;
  finished = true;
  finish_reason = some "done";
  dropped_agents = "bob" ∷ "ada" ∷ [];
  fault_occurrences = (12, 2) ∷ (0, 1) ∷ [];
}

new-SameSetting : SameSetting new later
new-SameSetting = record { manifest = refl; case = refl; journal = refl; rng = refl; roles = refl }

restore-snapshot_example :
    (Snapshots.restore (snapshot hashing later) new ≡ record later {
      queue = peek_all hashing later.queue;
      dropped_agents = (Snapshots.restore (snapshot hashing later) new).dropped_agents;
    })
    × Perm (peek_all hashing later.queue) later.queue
    × ((agent : String)
        → contains (Snapshots.restore (snapshot hashing later) new).dropped_agents agent
          ≡ contains later.dropped_agents agent)
restore-snapshot_example = restore-snapshot hashing new later new-SameSetting

-- `ada` names two recipients, one of whom does not exist.
abbrev proposal : Proposal
proposal = record {
  actor_id = "ada";
  content = "hi";
  requested_recipients = "bob" ∷ "carol" ∷ [];
  logical_time = 0;
}

route-IsAllowed_example :
    Gives (route platform mesh proposal world) (λ decision _. IsAllowed world decision.recipients)
route-IsAllowed_example = route-IsAllowed platform mesh proposal world
