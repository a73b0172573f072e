-- ===== src/Driver/Progress.antt =====
-- The loop of `run` ends: each round that goes on has moved the clock on, and no round goes on
-- past the manifest's limit on logical time.
use multi_agent_testbed.Base.{
  ℕ, ◌+◌, ◌≤◌, ◌<◌, ◌≡◌, ◌≢◌, sym, subst, Option, none, some, List, [], ◌∷◌, All, ltb, Bool-cases,
  inl, inr, Outcome, returned, raised, pure, gets, ◌>>=◌, and_then, Gives, Gives-bind, Gives-if,
  lt→ltb, arith,
}
use multi_agent_testbed.Scheduler.{ScheduledDelivery, pop_due, next_due_time}
use multi_agent_testbed.Scheduler.Due.{IsLater, next_due_time-IsLater, pop_due_splits}
use multi_agent_testbed.Journal.Commit.{IsFresh}
use multi_agent_testbed.World.State.{World}
use multi_agent_testbed.World.History.{Follows, Follows-refl}
use multi_agent_testbed.Driver.Loop.{GoesOn, advanced_to, end_turn-GoesOn, Gives-ne, repeat_enough}
use multi_agent_testbed.Driver.State.{end_turn, Driver, RunError, Setup, Limit, max_logical_time}
use multi_agent_testbed.Driver.Session.{
  activate, deliver_all, wait_for, turn, proceed, take_due, within_limits, round, run_rounds, run,
  limit_hit,
}
use multi_agent_testbed.Driver.Steps.{HookFollows, At}
use multi_agent_testbed.Driver.History.{deliver_all-At, activate-At, round-At}

turn-GoesOn :
    (s : Setup) (d : Driver) (due : List ScheduledDelivery)
    → ((v : World) → HookFollows v s.checkpoint_hook)
    → IsFresh d.world.journal
    → 0 < d.world.manifest.world.clock_step
    → Gives (turn s due d) (GoesOn d.world.logical_time)
unfolding turn
turn-GoesOn s d due hook fresh step =
    let f = (deliver_all-At d.world s (hook d.world) due).at d (Follows-refl d.world fresh) in
    Gives-bind (deliver_all s due) (λ _. end_turn s) d (GoesOn d.world.logical_time)
      λ _.
        end_turn-GoesOn s d.world.logical_time (deliver_all s due d).1 f.time (rw f.manifest step)

wait_for-GoesOn :
    (s : Setup) (d : Driver) (o : Option ℕ)
    → IsLater d.world.logical_time o
    → Gives (wait_for s d.world o d) (GoesOn d.world.logical_time)
unfolding wait_for pure
wait_for-GoesOn s d none later = tt
wait_for-GoesOn s d (some time) later =
    elim (Bool-cases (ltb d.world.manifest.limits.max_logical_time time)) [
      | inl e ↦ rw e tt
      | inr e ↦ rw e (advanced_to s d.world.logical_time time d later)
    ]

-- The World that is left when the due deliveries are taken.
abbrev left : Setup → Driver → Driver
left s d = record d {
  world = record d.world {
    queue = (pop_due s.platform.hashing d.world.logical_time d.world.queue).1;
  };
}

proceed-GoesOn :
    (s : Setup) (d : Driver) (due : List ScheduledDelivery)
    → ((v : World) → HookFollows v s.checkpoint_hook)
    → IsFresh d.world.journal
    → 0 < d.world.manifest.world.clock_step
    → All (λ i. d.world.logical_time < i.due_time) d.world.queue
    → Gives (proceed s d.world due d) (GoesOn d.world.logical_time)
unfolding proceed
proceed-GoesOn s d [] hook fresh step later =
    wait_for-GoesOn s d (next_due_time d.world.queue)
      (next_due_time-IsLater d.world.logical_time d.world.queue later)
proceed-GoesOn s d (item ∷ rest) hook fresh step later =
    turn-GoesOn s d (item ∷ rest) hook fresh step

within_limits-GoesOn :
    (s : Setup) (d : Driver) (o : Option Limit)
    → ((v : World) → HookFollows v s.checkpoint_hook)
    → IsFresh d.world.journal
    → 0 < d.world.manifest.world.clock_step
    → Gives (within_limits s o d) (GoesOn d.world.logical_time)
unfolding within_limits take_due gets pure ◌>>=◌
within_limits-GoesOn s d (some l) hook fresh step = tt
within_limits-GoesOn s d none hook fresh step =
    let (_, _, later) = pop_due_splits s.platform.hashing d.world.logical_time d.world.queue in
    proceed-GoesOn s (left s d) (pop_due s.platform.hashing d.world.logical_time d.world.queue).0
      hook fresh step later

round-GoesOn :
    (s : Setup) (d : Driver)
    → ((v : World) → HookFollows v s.checkpoint_hook)
    → IsFresh d.world.journal
    → 0 < d.world.manifest.world.clock_step
    → Gives (round s d) (GoesOn d.world.logical_time)
unfolding round gets pure ◌>>=◌
round-GoesOn s d hook fresh step =
    Gives-if d.world.finished _ _ d _ (λ _. tt)
      λ _. (within_limits-GoesOn s d (limit_hit d.world) hook fresh step)

pub limit_hit_late :
    (w : World)
    → w.manifest.limits.max_logical_time < w.logical_time
    → limit_hit w ≡ some max_logical_time
unfolding limit_hit
limit_hit_late w h = rw (lt→ltb w.manifest.limits.max_logical_time w.logical_time h)

-- Past the limit on logical time a round does not go on.
late-round :
    (s : Setup) (d : Driver)
    → d.world.manifest.limits.max_logical_time < d.world.logical_time
    → Gives (round s d) (λ o _. o ≢ none)
unfolding round within_limits gets pure ◌>>=◌
late-round s d h =
    Gives-if d.world.finished _ _ d _ (λ _ p. cc)
      λ _.
        (subst (λ o. Gives (within_limits s o d) (λ r _. r ≢ none)) (sym (limit_hit_late d.world h))
          (λ p. cc))

round_in_time :
    (s : Setup) (d : Driver)
    → (round s d).0 ≡ returned none
    → d.world.logical_time ≤ d.world.manifest.limits.max_logical_time
round_in_time s d goes_on =
    elim (Bool-cases (ltb d.world.manifest.limits.max_logical_time d.world.logical_time)) [
      | inl e ↦
          absurd (Gives-ne (round s d).0 (round s d).1 (late-round s d (ground arith)) goes_on)
      | inr e ↦ ground arith
    ]

-- A later state of the World `v`, from which every round goes on only in time.
module _ (s : Setup) (v : World) (hook : (w : World) → HookFollows w s.checkpoint_hook)
    (step : 0 < v.manifest.world.clock_step) where
  pub run_rounds_enough :
      (fuel : ℕ) (d : Driver)
      → Follows v d.world
      → v.manifest.limits.max_logical_time + 2 ≤ fuel
      → (run_rounds fuel s d).0 ≢ returned none
  unfolding run_rounds
  run_rounds_enough fuel d f enough =
      repeat_enough (round s) (At v) v.manifest.limits.max_logical_time (round-At v s (hook v))
        (λ e k. round-GoesOn s e hook k.fresh (rw k.manifest step))
        (λ e k goes_on. rw k.manifest at (round_in_time s e goes_on)) fuel d f
        (omega (arith, enough)) (omega (arith, enough))

and_then-ne :
    (s : Setup) (fuel : ℕ) (d : Driver) (o : Outcome RunError Unit)
    → (run_rounds fuel s d).0 ≢ returned none
    → (and_then o (λ _. run_rounds fuel s) d).0 ≢ returned none
and_then-ne s fuel d (returned tt) h = h
and_then-ne s fuel d (raised e) h = λ p. cc

-- A run ends: with a clock step of at least one, two rounds more than the manifest's limit on
-- logical time are enough for the loop, whatever the agents, the pack and the topology do; the
-- run then gives an outcome or an exception. The controller's hook is assumed to keep the history,
-- and the journal to be ahead of the log at the start.
pub run_ends :
    (s : Setup) (fuel : ℕ) (d : Driver)
    → ((v : World) → HookFollows v s.checkpoint_hook)
    → IsFresh d.world.journal
    → 0 < d.world.manifest.world.clock_step
    → d.world.manifest.limits.max_logical_time + 2 ≤ fuel
    → (run fuel s d).0 ≢ returned none
unfolding run ◌>>=◌
run_ends s fuel d hook fresh step enough = and_then-ne s fuel (activate s d).1 (activate s d).0 (
    run_rounds_enough s d.world hook step fuel (activate s d).1
      ((activate-At d.world s (hook d.world)).at d (Follows-refl d.world fresh)) enough)
