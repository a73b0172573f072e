-- ===== src/World/Snapshots.antt =====
-- `World.snapshot` and `World.restore`.
use multi_agent_testbed.Base.{
  ℕ, String, ◌≡◌, refl, ap, subst, ◌∙◌, true, ◌||◌, List, [], ◌∷◌, map, Dict, lookup, get_or,
  contains, if◌then◌else◌, str_eq, str_le, digits, number, number-digits, Perm, sort_by, insert_by,
  sort_by-perm, Bool-cases, inl, inr, str_eq→eq, arith,
}
use multi_agent_testbed.Contracts.Ids.{Hashing}
use multi_agent_testbed.Contracts.Events.{ResourceDelta}
use multi_agent_testbed.Scheduler.{delivery_le, peek_all}
use multi_agent_testbed.Records.{Snapshot}
use multi_agent_testbed.World.State.{World}

-- `ResourceDelta.model_dump` and `model_validate`, where a missing field has its default.
unfoldable dump_resources : ResourceDelta → Dict ℕ
dump_resources r =
    ("model_calls", r.model_calls)
    ∷ ("input_tokens", r.input_tokens)
    ∷ ("output_tokens", r.output_tokens)
    ∷ ("tool_calls", r.tool_calls)
    ∷ ("cost_usd", r.cost_usd)
    ∷ ("wall_seconds", r.wall_seconds)
    ∷ ("message_bytes", r.message_bytes)
    ∷ []

abbrev amount : String → Dict ℕ → ℕ
amount name d = get_or (lookup name d) 0

unfoldable load_resources : Dict ℕ → ResourceDelta
unfolding lookup
load_resources d = record {
  model_calls = amount "model_calls" d;
  input_tokens = amount "input_tokens" d;
  output_tokens = amount "output_tokens" d;
  tool_calls = amount "tool_calls" d;
  cost_usd = amount "cost_usd" d;
  wall_seconds = amount "wall_seconds" d;
  message_bytes = amount "message_bytes" d;
}

-- `set(xs)`, as a list without repetitions
unfoldable to_set : List String → List String
to_set [] = []
to_set (x ∷ xs) = let rest = to_set xs in if contains rest x then rest else x ∷ rest

-- `{str(k): v for k, v in m.items()}`
abbrev write_keys : List (ℕ × ℕ) → List (List ℕ × ℕ)
write_keys = map (λ kv. (digits kv.0, kv.1))

-- `{int(k): v for k, v in m.items()}`
abbrev read_keys : List (List ℕ × ℕ) → List (ℕ × ℕ)
read_keys = map (λ kv. (number kv.0, kv.1))

unfoldable pub snapshot : Hashing → World → Snapshot
unfolding peek_all digits sort_by dump_resources
snapshot h w = record {
  logical_time = w.logical_time;
  finished = w.finished;
  finish_reason = w.finish_reason;
  state = w.state;
  payoffs = w.payoffs;
  private_facts = w.private_facts;
  public_facts = w.public_facts;
  counters = w.counters;
  fault_occurrences = write_keys w.fault_occurrences;
  dropped_agents = sort_by str_le w.dropped_agents;
  resources = dump_resources w.resources;
  queue = peek_all h w.queue;
}

unfoldable pub restore : Snapshot → World → World
unfolding number to_set load_resources
restore s w = record w {
  logical_time = s.logical_time;
  finished = s.finished;
  finish_reason = s.finish_reason;
  state = s.state;
  payoffs = s.payoffs;
  private_facts = s.private_facts;
  public_facts = s.public_facts;
  counters = s.counters;
  fault_occurrences = read_keys s.fault_occurrences;
  dropped_agents = to_set s.dropped_agents;
  resources = load_resources s.resources;
  queue = s.queue;
}

-- The parts that a snapshot does not carry agree: what the manifest and the case fix.
pub record SameSetting (v w : World) : Type 0 where
  pub manifest : v.manifest ≡ w.manifest
  pub case : v.case ≡ w.case
  pub journal : v.journal ≡ w.journal
  pub rng : v.rng ≡ w.rng
  pub roles : v.roles ≡ w.roles

occurrences_again : (m : List (ℕ × ℕ)) → read_keys (write_keys m) ≡ m
occurrences_again [] = refl
occurrences_again ((k, n) ∷ m) = λ i. (number-digits k i, n) ∷ occurrences_again m i

resources_again : (r : ResourceDelta) → load_resources (dump_resources r) ≡ r
unfolding load_resources dump_resources lookup
resources_again r = refl

contains-insert_by :
    (x : String) (xs : List String) (s : String)
    → contains (insert_by str_le x xs) s ≡ str_eq x s || contains xs s
unfolding insert_by
contains-insert_by x [] s = refl
contains-insert_by x (y ∷ ys) s = ground (arith, contains-insert_by x ys s)

contains-sort_by : (xs : List String) (s : String) → contains (sort_by str_le xs) s ≡ contains xs s
unfolding sort_by
contains-sort_by [] s = refl
contains-sort_by (x ∷ xs) s =
    contains-insert_by x (sort_by str_le xs) s ∙ ap (λ b. str_eq x s || b) (contains-sort_by xs s)

contains-to_set : (xs : List String) (s : String) → contains (to_set xs) s ≡ contains xs s
unfolding to_set
contains-to_set [] s = refl
contains-to_set (x ∷ xs) s =
    let same = contains-to_set xs s in
    elim (Bool-cases (contains (to_set xs) x)) [
      | inl e ↦
          let here : str_eq x s ≡ true → contains (to_set xs) s ≡ true =
            λ k. subst (λ y. contains (to_set xs) y ≡ true) (str_eq→eq x s k) e in
          rw e (ground (arith, same, here))
      | inr e ↦ rw e (ap (λ b. str_eq x s || b) same)
    ]

-- Restoring a snapshot of `w` over a World of the same setting gives `w` back, but for two orders
-- that mean nothing: that of its queue, which is then the canonical one, and that of the set of the
-- agents that have dropped out, which has the same members. The counts of the fault occurrences go
-- through decimal texts, and the resources through a dictionary by field name.
pub restore-snapshot :
    (h : Hashing) (v w : World)
    → SameSetting v w
    → (restore (snapshot h w) v ≡ record w {
      queue = peek_all h w.queue;
      dropped_agents = (restore (snapshot h w) v).dropped_agents;
    })
      × Perm (peek_all h w.queue) w.queue
      × ((agent : String)
          → contains (restore (snapshot h w) v).dropped_agents agent
            ≡ contains w.dropped_agents agent)
unfolding restore snapshot
restore-snapshot h v w s = (
  λ i. record {
    manifest = s.manifest i;
    case = s.case i;
    journal = s.journal i;
    rng = s.rng i;
    logical_time = w.logical_time;
    finished = w.finished;
    finish_reason = w.finish_reason;
    state = w.state;
    queue = peek_all h w.queue;
    payoffs = w.payoffs;
    roles = s.roles i;
    dropped_agents = to_set (sort_by str_le w.dropped_agents);
    public_facts = w.public_facts;
    private_facts = w.private_facts;
    counters = w.counters;
    fault_occurrences = occurrences_again w.fault_occurrences i;
    resources = resources_again w.resources i;
  },
  sort_by-perm (delivery_le h) w.queue,
  λ agent.
      contains-to_set (sort_by str_le w.dropped_agents) agent
      ∙ contains-sort_by w.dropped_agents agent,
)
