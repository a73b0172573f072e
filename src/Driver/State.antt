-- ===== src/Driver/State.antt =====
-- The driver's state, what it is built from, and how it ends.
use multi_agent_testbed.Base.{
  zero, suc, ℕ, ◌+◌, String, Bool, Option, none, some, Dict, leb, if◌then◌else◌, Outcome, returned,
  raised, Exec, pure, gets, modify, ◌>>=◌, ◌>>◌,
}
use multi_agent_testbed.Sdk.{AgentHandle, Pack}
use multi_agent_testbed.Records.{DriverState}
use multi_agent_testbed.Store.{StoreError}
use multi_agent_testbed.Rng.{Platform}
use multi_agent_testbed.World.State.{World, Act, advance_to}
use multi_agent_testbed.World.Actions.{Topology}

-- What ends a run other than by its own end: a store error, an exception of an agent or a missing
-- one, and the controller's death at a checkpoint.
pub data RunError : Type 0 where
  store_failed : StoreError → RunError
  agent_failed no_agent : RunError
  controller_death : ℕ → RunError

pub data Limit : Type 0 where
  max_logical_time max_events max_messages max_model_calls max_cost_usd : Limit

pub data Reason : Type 0 where
  limit : Limit → Reason
  quiescent : Reason
  because : String → Reason

pub record DriverOutcome : Type 0 where
  pub finished : Bool
  pub reason : Reason
  pub limit_hit : Option Limit

pub record Driver : Type 0 where
  pub world : World
  pub state : DriverState
  pub events_since_checkpoint : ℕ

abbrev pub Run : Type 0 → Type 0
Run A = Exec Driver RunError A

-- The constructor's arguments; the hook is the controller's.
pub record Setup : Type 0 where
  pub platform : Platform
  pub agents : Dict AgentHandle
  pub topology : Topology
  pub pack : Pack
  pub checkpoint_every : ℕ
  pub checkpoint_hook : Option (DriverState → World → Outcome RunError Unit × World)

abbrev pub as_run_error : {A : Type 0} → Outcome StoreError A → Outcome RunError A
as_run_error (returned a) = returned a
as_run_error (raised e) = raised (store_failed e)

-- A call of a method of the World.
unfoldable pub on_world : {A : Type 0} → Act A → Run A
on_world m d = (as_run_error (m d.world).0, record d { world = (m d.world).1 })

unfoldable pub call_hook : (DriverState → World → Outcome RunError Unit × World) → Run Unit
call_hook hook d = ((hook d.state d.world).0, record d { world = (hook d.state d.world).1 })

abbrev pub count_event : Driver → Driver
count_event d = record d { events_since_checkpoint = d.events_since_checkpoint + 1 }

-- What `_maybe_checkpoint` does once the event is counted.
unfoldable pub checkpoint_due :
    Setup → Option (DriverState → World → Outcome RunError Unit × World) → Run Unit
checkpoint_due s none = pure tt
checkpoint_due s (some hook) = do
  count ← gets (λ (d : Driver). d.events_since_checkpoint)
  if leb s.checkpoint_every count
      then (modify (λ (d : Driver). record d { events_since_checkpoint = 0 }) >> call_hook hook)
      else pure tt

unfoldable pub maybe_checkpoint : Setup → Run Unit
unfolding checkpoint_due
maybe_checkpoint s = modify count_event >> checkpoint_due s s.checkpoint_hook

-- `if world.finished: break`, before what is left of a loop
unfoldable pub unless_finished : Run Unit → Run Unit
unless_finished rest =
    gets (λ (d : Driver). d.world.finished) >>= λ finished. if finished then pure tt else rest

-- The end of a turn or of a tick: count it, and move the clock on by a step.
unfoldable pub end_turn : Setup → Run (Option DriverOutcome)
end_turn s = do
  modify (λ (d : Driver). record d { state = record d.state { turn = d.state.turn + 1 } })
  w ← gets (λ (d : Driver). d.world)
  on_world (advance_to s.platform (w.logical_time + w.manifest.world.clock_step))
  pure none

unfoldable pub or_again :
    Run (Option DriverOutcome) → Option DriverOutcome → Run (Option DriverOutcome)
or_again again none = again
or_again again (some outcome) = pure (some outcome)

-- A driver's `while` loop, on fuel: a round gives an outcome, or `none` to go on. The loop gives
-- `none` when the fuel runs out.
unfoldable pub repeat : ℕ → Run (Option DriverOutcome) → Run (Option DriverOutcome)
unfolding or_again
repeat zero round = pure none
repeat (suc fuel) round = round >>= or_again (repeat fuel round)
