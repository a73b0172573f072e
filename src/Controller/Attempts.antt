-- ===== src/Controller/Attempts.antt =====
-- `_build`, `execute` and `resume`: the attempts of a run over the store.
use multi_agent_testbed.Base.{
  ℕ, ◌<◌, String, ◌≡◌, false, not, Option, none, some, [], ◌∷◌, All-map, Dict, ◌==◌, ==_iff,
  if◌then◌else◌, Outcome, returned, raised, ◌>>◌, arith,
}
use multi_agent_testbed.Contracts.Enums.{attempt_started}
use multi_agent_testbed.Contracts.Ids.{Hashing, num, ref}
use multi_agent_testbed.Contracts.Events.{Event}
use multi_agent_testbed.Contracts.Manifest.{ExperimentManifest}
use multi_agent_testbed.Contracts.Results.{Attempt, RunRecord}
use multi_agent_testbed.Sdk.{TaskCase, Pack, AgentHandle, case}
use multi_agent_testbed.Records.{Checkpoint, JournalState, DriverState, RunResult, fresh_driver}
use multi_agent_testbed.Store.{
  Store, StoreError, put_manifest, get_manifest, put_run, put_attempt, supersede_from,
  latest_checkpoint, is_after,
}
use multi_agent_testbed.Store.Archive.{supersede_from-none_after}
use multi_agent_testbed.Journal.{Draft, draft, start_journal}
use multi_agent_testbed.Journal.Commit.{IsFresh}
use multi_agent_testbed.Rng.{Platform, Rng, new_rng}
use multi_agent_testbed.Rng
use multi_agent_testbed.World.State.{World, new_world, world_actor, commit}
use multi_agent_testbed.World.Actions.{Topology}
use multi_agent_testbed.World.Snapshots
use multi_agent_testbed.Driver.State.{RunError, Driver, on_world}
use multi_agent_testbed.Controller.Checkpoints.{start_attempt, checkpoint_hook}
use multi_agent_testbed.Controller.Execution.{Task, drive}

-- The components of a `RunController`.
pub record Controller : Type 0 where
  pub platform : Platform
  pub pack : Pack
  pub topology : Topology
  pub manifest_hash : ExperimentManifest → ℕ
  pub describe : RunError → String

pub data AttemptError : Type 0 where
  no_such_case : AttemptError
  stored : StoreError → AttemptError
  resume_incompatible : AttemptError
  run_failed : RunError → AttemptError

abbrev pub start : JournalState
start = record { sequence = 0; logical_action_index = 0 }

abbrev pub journal_state : Option Checkpoint → JournalState
journal_state none = start
journal_state (some c) = c.journal

abbrev pub driver_state : Option Checkpoint → DriverState
driver_state none = fresh_driver
driver_state (some c) = c.driver

abbrev pub generator : Option Checkpoint → ℕ → Rng
generator none seed = new_rng seed
generator (some c) seed = Rng.restore c.rng_state

abbrev pub restored : Option Checkpoint → World → World
restored none w = w
restored (some c) w = Snapshots.restore c.world_snapshot w

-- The World and the driver's state of an attempt, once the case is known.
unfoldable pub build :
    ExperimentManifest → RunRecord → Attempt → TaskCase → Option Checkpoint → Store → Driver
build m run attempt case at s = record {
  world = restored at (
      new_world m case (start_journal s run.run_id attempt.attempt_id (journal_state at))
        (generator at run.env_seed));
  state = driver_state at;
  events_since_checkpoint = 0;
}

unfoldable pub task_of :
    Controller → Dict AgentHandle → ExperimentManifest → RunRecord → Attempt → Task
task_of c agents m run attempt = record {
  setup = record {
    platform = c.platform;
    agents = agents;
    topology = c.topology;
    pack = c.pack;
    checkpoint_every = m.limits.checkpoint_every_events;
    checkpoint_hook = some (checkpoint_hook c.platform run.run_id);
  };
  manifest = m;
  manifest_hash = c.manifest_hash m;
  run = run;
  attempt = attempt;
  describe = c.describe;
}

abbrev pub outcome_of :
    Outcome RunError (Option RunResult) × Driver → Outcome AttemptError (Option RunResult) × Store
outcome_of (returned r, d) = (returned r, d.world.journal.store)
outcome_of (raised e, d) = (raised (run_failed e), d.world.journal.store)

unfoldable pub first_attempt :
    ℕ
    → Controller
    → Dict AgentHandle
    → ExperimentManifest
    → RunRecord
    → Attempt × Store
    → Option TaskCase
    → Outcome AttemptError (Option RunResult) × Store
unfolding build task_of
first_attempt fuel c agents m run (attempt, s) none = (raised no_such_case, s)
first_attempt fuel c agents m run (attempt, s) (some case) =
    outcome_of (drive fuel (task_of c agents m run attempt) (build m run attempt case none s))

unfoldable pub execute :
    ℕ
    → Controller
    → Dict AgentHandle
    → ExperimentManifest
    → RunRecord
    → Store
    → Outcome AttemptError (Option RunResult) × Store
unfolding first_attempt
execute fuel c agents m run s =
    first_attempt fuel c agents m run
      (start_attempt c.platform.hashing run none
        (put_run run (put_manifest (c.manifest_hash m) m s)))
      (case c.pack run.task_id)

abbrev pub resumed_draft : Attempt → Checkpoint → ℕ → World → Draft
resumed_draft attempt at archived w = draft attempt_started world_actor w.logical_time (
    ("attempt_id", ref "att_" (attempt.attempt_id ∷ []))
    ∷ ("resumed_from", ref "ckpt_" (at.checkpoint_id ∷ []))
    ∷ ("superseded_events", num archived)
    ∷ [])

-- The resumed attempt, once its events after the checkpoint are archived.
unfoldable pub next_attempt :
    ℕ
    → Controller
    → Dict AgentHandle
    → ExperimentManifest
    → RunRecord
    → Checkpoint
    → ℕ
    → Attempt × Store
    → Option TaskCase
    → Outcome AttemptError (Option RunResult) × Store
unfolding build task_of
next_attempt fuel c agents m run at archived (attempt, s) none = (raised no_such_case, s)
next_attempt fuel c agents m run at archived (attempt, s) (some case) = outcome_of (
    (on_world (commit c.platform (resumed_draft attempt at archived))
        >> drive fuel (task_of c agents m run attempt))
      (build m run attempt case (some at) s))

unfoldable pub resume_at :
    ℕ
    → Controller
    → Dict AgentHandle
    → ExperimentManifest
    → RunRecord
    → Store
    → Checkpoint
    → Outcome StoreError ExperimentManifest
    → Outcome AttemptError (Option RunResult) × Store
unfolding next_attempt
resume_at fuel c agents m run s at (raised e) = (raised (stored e), s)
resume_at fuel c agents m run s at (returned original) =
    let (archived, kept) = supersede_from run.run_id at.sequence s in
    if not (c.manifest_hash original == c.manifest_hash m)
    then (raised resume_incompatible, s)
    else next_attempt fuel c agents m run at archived
        (start_attempt c.platform.hashing run (some at.checkpoint_id) kept)
        (case c.pack run.task_id)

unfoldable pub resume :
    ℕ
    → Controller
    → Dict AgentHandle
    → ExperimentManifest
    → RunRecord
    → Store
    → Outcome AttemptError (Option RunResult) × Store
unfolding execute resume_at
resume fuel c agents m run s = elim (latest_checkpoint run.run_id s) [
  | none ↦ execute fuel c agents m run s
  | some at ↦ resume_at fuel c agents m run s at (get_manifest run.manifest_hash s)
]

before :
    (run_id n : ℕ) (e : Event) → is_after run_id n e ≡ false → e.run_id ≡ run_id → e.sequence < n
before run_id n e h same = ground (arith, ==_iff e.run_id run_id)

-- The journal that a resumed attempt starts with, over the store whose events after the checkpoint
-- were archived, is ahead of the log. The checkpoint's sequence is that of the journal's saved
-- state, as when it was written.
pub build-IsFresh :
    (h : Hashing) (m : ExperimentManifest) (run : RunRecord) (attempt : Attempt) (task : TaskCase)
    (at : Checkpoint) (s : Store)
    → at.journal.sequence ≡ at.sequence
    → IsFresh
        (build m run attempt task
          (some at)
          (start_attempt h run
            (some at.checkpoint_id)
            (supersede_from run.run_id at.sequence s).1).1).world.journal
unfolding build new_world start_journal Snapshots.restore start_attempt put_attempt
build-IsFresh h m run attempt task at s same =
    let gone = supersede_from-none_after run.run_id at.sequence s in
    rw same (
      All-map (λ e. is_after run.run_id at.sequence e ≡ false)
        (λ e. e.run_id ≡ run.run_id → e.sequence < at.sequence) (before run.run_id at.sequence) _
        gone)
