-- ===== src/World/Messaging.antt =====
-- Messages: `enqueue`, the faults that it applies, and `drop_out`.
use Prim.Native.Char
use multi_agent_testbed.Base.{
  ℕ, suc, ◌+◌, String, Bool, true, false, not, ◌&&◌, Option, none, some, List, [], ◌∷◌, ◌++◌, keys,
  any, length, contains, ltb, ◌==◌, if◌then◌else◌, Outcome, pure, modify, gets, ◌>>=◌, ◌>>◌,
}
use multi_agent_testbed.Contracts.Enums.{
  FaultKind, drop_message, delay_message, duplicate_message, corrupt_message, agent_dropout,
  tool_failure, fault_injected, omniscient_only,
}
use multi_agent_testbed.Contracts.Ids.{text, ref}
use multi_agent_testbed.Contracts.Events.{add_resources, no_resources}
use multi_agent_testbed.Contracts.Manifest.{FaultSpec}
use multi_agent_testbed.Sdk.{Delivery}
use multi_agent_testbed.Scheduler.{ScheduledDelivery, push, drop_for}
use multi_agent_testbed.Records.{fault_label}
use multi_agent_testbed.Journal.{Draft, draft}
use multi_agent_testbed.Rng.{Platform, random}
use multi_agent_testbed.World.State.{World, Act, world_actor, commit, policy_event}

-- `content[::-1]`
unfoldable pub reverse_onto : String → String → String
reverse_onto String.[] done = done
reverse_onto (String.◌∷◌ c s) done = reverse_onto s (String.◌∷◌ c done)

-- `len(content.encode("utf-8"))`
unfoldable pub byte_size : String → ℕ
byte_size String.[] = 0
byte_size (String.◌∷◌ c s) = Char.len_utf8 c + byte_size s

-- `self.fault_occurrences`, by the fault's index
unfoldable pub count_at : ℕ → List (ℕ × ℕ) → ℕ
count_at i [] = 0
count_at i ((j, n) ∷ rest) = if j == i then n else count_at i rest

unfoldable pub set_count : ℕ → ℕ → List (ℕ × ℕ) → List (ℕ × ℕ)
set_count i n [] = (i, n) ∷ []
set_count i n ((j, k) ∷ rest) = if j == i then (j, n) ∷ rest else (j, k) ∷ set_count i n rest

-- The draw from the World's generator.
unfoldable pub draw_fault : Platform → ℕ → Act ℕ
draw_fault p index w =
    let (value, r) = random p (fault_label index) w.rng in
    (Outcome.returned value, record w { rng = r })

abbrev pub is_dropout : FaultKind → Bool
is_dropout agent_dropout = true
is_dropout _ = false

abbrev pub occurs_in : ℕ → List ℕ → Bool
occurs_in n = any (λ k. k == n)

-- `_fault_fires`
unfoldable pub fault_fires : Platform → ℕ → FaultSpec → Act Bool
fault_fires p index fault = if is_dropout fault.kind then pure false else do
  occurrence ← gets (λ (w : World). count_at index w.fault_occurrences + 1)
  modify (λ (w : World). record w {
    fault_occurrences = set_count index occurrence w.fault_occurrences;
  })
  if length fault.on_occurrences == 0
      then (draw_fault p index >>= λ value. pure (ltb value fault.probability))
      else pure (occurs_in occurrence fault.on_occurrences)

-- `_applies_to`: all declared filters must match.
unfoldable pub applies_to : FaultSpec → ScheduledDelivery → Bool
applies_to fault item =
    if not (length fault.senders == 0) && not (contains fault.senders item.delivery.sender_id)
    then false
    else if not (length fault.recipients == 0)
        && not (contains fault.recipients item.delivery.recipient_id)
    then false
    else not (
        not (length fault.targets == 0)
        && not (contains fault.targets item.delivery.recipient_id)
        && not (contains fault.targets item.delivery.sender_id))

abbrev pub fault_name : FaultKind → String
fault_name drop_message = "drop_message"
fault_name delay_message = "delay_message"
fault_name duplicate_message = "duplicate_message"
fault_name corrupt_message = "corrupt_message"
fault_name agent_dropout = "agent_dropout"
fault_name tool_failure = "tool_failure"

abbrev pub fault_draft : FaultSpec → ScheduledDelivery → World → Draft
fault_draft fault item w =
    record (draft fault_injected world_actor w.logical_time (
      ("fault", text (fault_name fault.kind))
      ∷ ("sender", text item.delivery.sender_id)
      ∷ ("recipient", text item.delivery.recipient_id)
      ∷ [])) { visibility = omniscient_only }

unfoldable pub corrupt : Delivery → Delivery
corrupt d = record d { content = reverse_onto d.content ""; payload = [] }

-- The effect of a fault that fired.
unfoldable pub inject : FaultSpec → ScheduledDelivery → FaultKind → Act (Option ScheduledDelivery)
unfolding push corrupt
inject fault item drop_message = pure none
inject fault item delay_message =
    pure (some (record item { due_time = item.due_time + fault.delay_ticks }))
inject fault item duplicate_message = do
  modify (λ (w : World). record w {
    queue = push w.queue (record item { duplicate_index = 1 });
    counters = record w.counters { duplicate_actions = w.counters.duplicate_actions + 1 };
  })
  pure (some item)
inject fault item corrupt_message = pure (some (record item { delivery = corrupt item.delivery }))
inject fault item agent_dropout = pure (some item)
inject fault item tool_failure = pure (some item)

-- `_apply_fault`: a fault that does not apply is not even counted.
unfoldable pub apply_fault :
    Platform → ℕ → FaultSpec → ScheduledDelivery → Act (Option ScheduledDelivery)
apply_fault p index fault item = if not (applies_to fault item) then pure (some item) else do
  fires ← fault_fires p index fault
  if fires
      then (commit p (fault_draft fault item) >> inject fault item fault.kind)
      else pure (some item)

-- `if item is None: return`
unfoldable pub unless_dropped :
    (ScheduledDelivery → Act (Option ScheduledDelivery))
    → Option ScheduledDelivery
    → Act (Option ScheduledDelivery)
unless_dropped rest none = pure none
unless_dropped rest (some item) = rest item

-- The loop over the manifest's faults, from `index` on; a fault may end it.
unfoldable pub apply_faults :
    Platform → ℕ → List FaultSpec → ScheduledDelivery → Act (Option ScheduledDelivery)
apply_faults p index [] item = pure (some item)
apply_faults p index (fault ∷ faults) item =
    apply_fault p index fault item >>= unless_dropped (apply_faults p (suc index) faults)

-- The end of `enqueue`: what the faults left is queued and counted.
unfoldable pub queue_up : ℕ → Option ScheduledDelivery → Act Unit
unfolding push add_resources
queue_up size none = pure tt
queue_up size (some item) = modify λ (w : World). record w {
  queue = push w.queue item;
  counters = record w.counters { messages = w.counters.messages + 1 };
  resources = add_resources w.resources (record no_resources { message_bytes = size });
}

abbrev pub scheduled : Delivery → ℕ → World → ScheduledDelivery
scheduled d order_hint w = record {
  due_time = w.logical_time + w.manifest.world.communication.delivery_latency + d.extra_delay;
  order_hint = order_hint;
  delivery = d;
  duplicate_index = 0;
}

-- Schedule a delivery, applying communication policy and faults.
unfoldable pub enqueue : Platform → Delivery → ℕ → Act Unit
enqueue p d order_hint = do
  w ← gets (λ w. w)
  if not (contains (keys w.roles) d.recipient_id)
      then policy_event p "unknown_recipient" false (text d.recipient_id)
      else if contains w.dropped_agents d.recipient_id
      then policy_event p "recipient_dropped_out" false (text d.recipient_id)
      else if ltb w.manifest.world.communication.max_message_bytes (byte_size d.content)
      then policy_event p "max_message_bytes" false (ref "bytes" (byte_size d.content ∷ []))
      else (apply_faults p 0 w.manifest.faults (scheduled d order_hint w)
          >>= queue_up (byte_size d.content))

-- Remove an agent from the run.
unfoldable pub drop_out : Platform → String → Act Unit
drop_out p agent_id = do
  w ← gets (λ w. w)
  modify (λ (v : World). record v {
    dropped_agents =
        if contains v.dropped_agents agent_id
        then v.dropped_agents
        else v.dropped_agents ++ agent_id ∷ [];
    queue = (drop_for agent_id v.queue).1;
  })
  policy_event p "agent_dropout" false (ref agent_id ((drop_for agent_id w.queue).0 ∷ []))
