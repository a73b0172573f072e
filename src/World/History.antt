-- ===== src/World/History.antt =====
-- What every operation of the World keeps: the log only grows, the clock does not go back, the
-- journal stays ahead of the log, and the team stays what it was.
use native.Mathlib.Nat.{le_refl}
use multi_agent_testbed.Base.{
  ℕ, suc, ◌≤◌, String, ◌≡◌, refl, sym, ◌∙◌, Bool, true, false, inl, inr, Option, none, some, List,
  [], ◌∷◌, ◌++◌, append-nil, append_assoc, leb, leb-false, Bool-cases, Dict, ℤ, pure, modify, ◌>>◌,
  Keeps, Keeps-pure, Keeps-gets, Keeps-bind, Keeps-if, Keeps-for_each, keeps_rules, arith,
}
use multi_agent_testbed.Contracts.Enums.{FaultKind, drop_message, duplicate_message}
use multi_agent_testbed.Contracts.Ids.{Json}
use multi_agent_testbed.Contracts.Events.{Event}
use multi_agent_testbed.Contracts.Manifest.{FaultSpec}
use multi_agent_testbed.Sdk.{Delivery, WorldAction, StateChange, Proposal}
use multi_agent_testbed.Scheduler.{ScheduledDelivery}
use multi_agent_testbed.Store.{StoreError}
use multi_agent_testbed.Journal.{Journal, Draft}
use multi_agent_testbed.Journal.Commit.{
  IsFresh, Commits, unchanged, appended, commit-Commits, commit-IsFresh, run_id-commit,
}
use multi_agent_testbed.Rng.{Platform}
use multi_agent_testbed.World.State.{
  World, Act, commit, advance_to, policy_event, policy_draft, clock_draft,
}
use multi_agent_testbed.World.Messaging.{
  draw_fault, fault_fires, inject, apply_fault, apply_faults, unless_dropped, queue_up, enqueue,
  drop_out,
}
use multi_agent_testbed.World.Actions.{
  Topology, route, finish, settle, apply_change, assign_payoffs, change_draft, payoff_draft, truthy,
}

-- `w` is a later state of the World `v`.
pub record Follows (v w : World) : Type 0 where
  pub added : List Event
  pub log : w.journal.store.events ≡ v.journal.store.events ++ added
  pub time : v.logical_time ≤ w.logical_time
  pub run : w.journal.run_id ≡ v.journal.run_id
  pub roles : w.roles ≡ v.roles
  pub manifest : w.manifest ≡ v.manifest
  pub finished : v.finished ≡ true → w.finished ≡ true
  pub fresh : IsFresh w.journal

pub Follows-refl : (v : World) → IsFresh v.journal → Follows v v
Follows-refl v f = record {
  added = [];
  log = sym (append-nil v.journal.store.events);
  time = omega arith;
  run = refl;
  roles = refl;
  manifest = refl;
  finished = λ h. h;
  fresh = f;
}

abbrev IsLonger : World → Journal → Type 0
IsLonger v j = (added : List Event) × (j.store.events ≡ v.journal.store.events ++ added)

Commits-IsLonger : (v : World) {j k : Journal} → Commits j k → IsLonger v j → IsLonger v k
Commits-IsLonger v (unchanged log _) (es, e) = (es, log ∙ e)
Commits-IsLonger v {j} (appended x log _ _ _) (es, e) =
    (es ++ x ∷ [], log ∙ rw e (append_assoc v.journal.store.events es (x ∷ [])))

module _ (v : World) where
  pub commit-Follows : (p : Platform) (d : World → Draft) → Keeps (Follows v) (commit p d)
  unfolding commit
  commit-Follows p d = record {
    at = λ w f.
        let (added, log) =
          Commits-IsLonger v (commit-Commits p.hashing (d w) w.journal) (f.added, f.log) in
        record {
          added = added;
          log = log;
          time = f.time;
          run = run_id-commit p.hashing (d w) w.journal ∙ f.run;
          roles = f.roles;
          manifest = f.manifest;
          finished = f.finished;
          fresh = commit-IsFresh p.hashing (d w) w.journal f.fresh;
        };
  }

  -- A step that leaves the journal and the team alone, does not turn the clock back and does not
  -- reopen the episode.
  pub update-Follows :
      (f : World → World)
      → ((w : World)
          → ((f w).journal ≡ w.journal)
            × ((f w).roles ≡ w.roles)
            × ((f w).manifest ≡ w.manifest)
            × (w.logical_time ≤ (f w).logical_time)
            × (w.finished ≡ true → (f w).finished ≡ true))
      → Keeps {E = StoreError} (Follows v) (modify f)
  unfolding modify
  update-Follows f same = record {
    at = λ w k.
        let (journal, roles, manifest, time, finished) = same w in
        record {
          added = k.added;
          log = rw journal k.log;
          time = omega (arith, k.time);
          run = rw journal k.run;
          roles = roles ∙ k.roles;
          manifest = manifest ∙ k.manifest;
          finished = λ h. finished (k.finished h);
          fresh = rw journal k.fresh;
        };
  }

  pub policy_event-Follows :
      (p : Platform) (rule : String) (allowed : Bool) (reason : Json)
      → Keeps (Follows v) (policy_event p rule allowed reason)
  unfolding policy_event
  policy_event-Follows p rule allowed reason =
      search (keeps_rules, commit-Follows p (policy_draft rule allowed reason))

  clock-Follows : (p : Platform) → Keeps (Follows v) (commit p clock_draft >> pure tt)
  clock-Follows p = search (keeps_rules, commit-Follows p clock_draft)

  pub advance_to-Follows : (p : Platform) (time : ℕ) → Keeps (Follows v) (advance_to p time)
  unfolding advance_to
  advance_to-Follows p time = record {
    at = λ w k. elim (Bool-cases (leb time w.logical_time)) [
      | inl e ↦ rw e k
      | inr e ↦ rw e (
          (clock-Follows p).at (record w { logical_time = time })
            (record {
              added = k.added;
              log = k.log;
              time = omega (arith, k.time, leb-false time w.logical_time e);
              run = k.run;
              roles = k.roles;
              manifest = k.manifest;
              finished = k.finished;
              fresh = k.fresh;
            }))
    ];
  }

  draw_fault-Follows : (p : Platform) (index : ℕ) → Keeps (Follows v) (draw_fault p index)
  unfolding draw_fault
  draw_fault-Follows p index = record {
    at = λ w k. record {
      added = k.added;
      log = k.log;
      time = k.time;
      run = k.run;
      roles = k.roles;
      manifest = k.manifest;
      finished = k.finished;
      fresh = k.fresh;
    };
  }

  fault_fires-Follows :
      (p : Platform) (index : ℕ) (fault : FaultSpec) → Keeps (Follows v) (fault_fires p index fault)
  unfolding fault_fires
  fault_fires-Follows p index fault = Keeps-if _ _ _ (Keeps-pure false) (
      Keeps-bind _ _ (Keeps-gets _) λ occurrence.
        Keeps-bind _ _ (update-Follows _ λ w. (refl, refl, refl, le_refl _, λ h. h)) λ _.
          Keeps-if _ _ _ (Keeps-bind _ _ (draw_fault-Follows p index) λ value. Keeps-pure _)
            (Keeps-pure _))

  inject-Follows :
      (fault : FaultSpec) (item : ScheduledDelivery) (kind : FaultKind)
      → Keeps (Follows v) (inject fault item kind)
  unfolding inject
  inject-Follows fault item drop_message = Keeps-pure _
  inject-Follows fault item duplicate_message =
      Keeps-bind _ _ (update-Follows _ λ w. (refl, refl, refl, le_refl _, λ h. h)) λ _. Keeps-pure _
  inject-Follows fault item _ = search Keeps-pure

  apply_fault-Follows :
      (p : Platform) (index : ℕ) (fault : FaultSpec) (item : ScheduledDelivery)
      → Keeps (Follows v) (apply_fault p index fault item)
  unfolding apply_fault
  apply_fault-Follows p index fault item = Keeps-if _ _ _ (Keeps-pure _) (
      Keeps-bind _ _ (fault_fires-Follows p index fault) λ fires.
        Keeps-if fires _ _
          (Keeps-bind _ _ (commit-Follows p _) λ _. inject-Follows fault item fault.kind)
          (Keeps-pure _))

  unless_dropped-Follows :
      (rest : ScheduledDelivery → Act (Option ScheduledDelivery))
      → ((item : ScheduledDelivery) → Keeps (Follows v) (rest item))
      → (left : Option ScheduledDelivery) → Keeps (Follows v) (unless_dropped rest left)
  unfolding unless_dropped
  unless_dropped-Follows rest h none = Keeps-pure none
  unless_dropped-Follows rest h (some item) = h item

  apply_faults-Follows :
      (p : Platform) (index : ℕ) (faults : List FaultSpec) (item : ScheduledDelivery)
      → Keeps (Follows v) (apply_faults p index faults item)
  unfolding apply_faults
  apply_faults-Follows p index [] item = Keeps-pure _
  apply_faults-Follows p index (fault ∷ faults) item =
      Keeps-bind _ _ (apply_fault-Follows p index fault item)
        (unless_dropped-Follows _ (apply_faults-Follows p (suc index) faults))

  queue_up-Follows : (size : ℕ) (o : Option ScheduledDelivery) → Keeps (Follows v) (queue_up size o)
  unfolding queue_up
  queue_up-Follows size none = Keeps-pure tt
  queue_up-Follows size (some item) = update-Follows _ λ w. (refl, refl, refl, le_refl _, λ h. h)

  pub enqueue-Follows :
      (p : Platform) (d : Delivery) (order_hint : ℕ) → Keeps (Follows v) (enqueue p d order_hint)
  unfolding enqueue
  enqueue-Follows p d order_hint =
      search (keeps_rules, policy_event-Follows p, apply_faults-Follows p, queue_up-Follows) depth 8

  pub drop_out-Follows :
      (p : Platform) (agent_id : String) → Keeps (Follows v) (drop_out p agent_id)
  unfolding drop_out
  drop_out-Follows p agent_id = Keeps-bind _ _ (Keeps-gets _) λ w.
      Keeps-bind _ _ (update-Follows _ λ w. (refl, refl, refl, le_refl _, λ h. h))
        λ _. policy_event-Follows p _ _ _

  pub route-Follows : (p : Platform) (t : Topology) (q : Proposal) → Keeps (Follows v) (route p t q)
  unfolding route
  route-Follows p t q = Keeps-bind _ _ (Keeps-gets _) λ w.
      Keeps-if _ _ _ (Keeps-bind _ _ (policy_event-Follows p _ _ _) λ _. Keeps-pure _)
        (Keeps-pure _)

  finish-Follows :
      (action : WorldAction) (change : StateChange)
      → Keeps {E = StoreError} (Follows v) (modify (finish action change))
  finish-Follows action change = update-Follows (finish action change) λ w.
      elim (Bool-cases change.finished) [
        | inl e ↦ rw e (refl, refl, refl, le_refl _, λ h. refl)
        | inr e ↦ rw e (refl, refl, refl, le_refl _, λ h. h)
      ]

  settle-Follows :
      (p : Platform) (action : WorldAction) (change : StateChange) (o : Option String)
      → Keeps (Follows v) (settle p action change o)
  unfolding settle
  settle-Follows p action change (some reason) = policy_event-Follows p _ _ _
  settle-Follows p action change none =
      (Keeps-bind _ _ (update-Follows _ λ w. (refl, refl, refl, le_refl _, λ h. h)) λ _.
        Keeps-bind _ _
          (Keeps-for_each (λ message. enqueue p message 0) change.messages
            λ message. enqueue-Follows p message 0)
          λ _.
            Keeps-bind _ _ (finish-Follows action change) λ _.
              Keeps-bind _ _ (commit-Follows p (change_draft action change)) λ _. Keeps-pure tt)

  pub apply_change-Follows :
      (p : Platform) (action : WorldAction) (change : StateChange)
      → Keeps (Follows v) (apply_change p action change)
  unfolding apply_change
  apply_change-Follows p action change =
      settle-Follows p action change (truthy change.rejected_reason)

  pub assign_payoffs-Follows :
      (p : Platform) (per_agent : Dict ℤ) → Keeps (Follows v) (assign_payoffs p per_agent)
  unfolding assign_payoffs
  assign_payoffs-Follows p per_agent =
      Keeps-bind _ _ (update-Follows _ λ w. (refl, refl, refl, le_refl _, λ h. h))
        λ _. Keeps-bind _ _ (commit-Follows p payoff_draft) λ _. Keeps-pure tt
