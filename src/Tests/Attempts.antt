-- ===== src/Tests/Attempts.antt =====
-- The controller at concrete inputs: plans, checkpoints, attempts and their results.
use multi_agent_testbed.Base.{
  ◌≡◌, ◌≢◌, refl, true, false, none, some, [], ◌∷◌, All, contains, returned, raised, Gives, arith,
}
use multi_agent_testbed.Contracts.Enums.{
  session, aec, planned, running, policy_blocked, bit_exact, frozen_eval,
}
use multi_agent_testbed.Contracts.Manifest.{ExperimentManifest}
use multi_agent_testbed.Contracts.Results.{Attempt, RunRecord}
use multi_agent_testbed.Records.{Checkpoint, fresh_driver}
use multi_agent_testbed.Store.{Store, put_checkpoint, latest_checkpoint, supersede_from}
use multi_agent_testbed.Journal.Commit.{IsFresh}
use multi_agent_testbed.World.History.{Follows}
use multi_agent_testbed.Driver.State.{DriverOutcome, limit, max_model_calls}
use multi_agent_testbed.Driver.Env.{run_driver}
use multi_agent_testbed.Controller.Plan.{
  selected_cases, task_ids, no_such_task, selected_cases_sound,
}
use multi_agent_testbed.Controller.Outcomes.{terminal_state}
use multi_agent_testbed.Controller.Checkpoints.{
  start_attempt, checkpoint, latest_checkpoint-put_checkpoint,
}
use multi_agent_testbed.Controller.Runs.{controlled, controlled-run}
use multi_agent_testbed.Controller.Execution.{Task, drive}
use multi_agent_testbed.Controller.Stored.{IsStored, drive-IsStored}
use multi_agent_testbed.Controller.Attempts.{build, build-IsFresh}
use multi_agent_testbed.Tests.Data.{hashing, platform, manifest, task, store, world, setup, driver}

abbrev selective : ExperimentManifest
selective = record manifest { sample_selector = "add" ∷ [] }

selected_cases_sound_example :
    All (λ t. contains (task_ids (task ∷ [])) t ≡ true) selective.sample_selector
    × All (λ c. contains selective.sample_selector c.task_id ≡ true) (task ∷ [])
unfolding selected_cases
selected_cases_sound_example =
    selected_cases_sound setup.pack selective (task ∷ []) (λ e. ground arith) refl

-- A task that the pack does not have is an error.
no_case :
    selected_cases setup.pack (record manifest { sample_selector = "sub" ∷ [] })
    ≡ raised no_such_task
unfolding selected_cases
no_case = refl

abbrev out_of_calls : DriverOutcome
out_of_calls = record {
  finished = false;
  reason = limit max_model_calls;
  limit_hit = some max_model_calls;
}

call_limit : terminal_state out_of_calls none ≡ policy_blocked
unfolding terminal_state
call_limit = refl

-- A checkpoint of the first World, and one that was written later.
abbrev early : Checkpoint
unfolding checkpoint
early = checkpoint platform 12 fresh_driver world

abbrev late : Checkpoint
late = record {
  checkpoint_id = 9;
  run_id = 12;
  attempt_id = 1;
  sequence = 2;
  logical_time = 3;
  world_snapshot = early.world_snapshot;
  driver = fresh_driver;
  journal = record { sequence = 2; logical_action_index = 2 };
  pending_deliveries = [];
  rng_state = record { seed = 7; counters = [] };
}

abbrev older : Checkpoint
older = record late { checkpoint_id = 8; sequence = 1 }

abbrev with_older : Store
with_older = record store { checkpoints = older ∷ [] }

latest_checkpoint-put_checkpoint_example :
    latest_checkpoint 12 (put_checkpoint late with_older) ≡ some late
latest_checkpoint-put_checkpoint_example =
    latest_checkpoint-put_checkpoint late with_older (omega arith, tt)

controlled-run_example :
    ((run_driver session aec 6 (controlled 12 setup) driver).0 ≢ returned none)
    × Follows driver.world (run_driver session aec 6 (controlled 12 setup) driver).1.world
controlled-run_example = controlled-run session aec 12 setup 6 driver tt (omega arith) (omega arith)

abbrev first_run : RunRecord
first_run = record {
  run_id = 12;
  experiment_id = "pair";
  manifest_hash = 77;
  task_id = "add";
  env_seed = 7;
  team_config_id = "two";
  partner_population_id = none;
  perturbation_id = none;
  repetition = 0;
  eval_set_kind = frozen_eval;
  state = planned;
  reproducibility = bit_exact;
}

abbrev attempt_one : Attempt
attempt_one = record {
  attempt_id = 1;
  run_id = 12;
  attempt_number = 1;
  state = running;
  resumed_from_checkpoint = none;
}

abbrev whole_task : Task
whole_task = record {
  setup = setup;
  manifest = manifest;
  manifest_hash = 77;
  run = first_run;
  attempt = attempt_one;
  describe = λ e. "failed";
}

drive-IsStored_example : Gives (drive 6 whole_task driver) (IsStored 12)
drive-IsStored_example = drive-IsStored 6 whole_task driver

build-IsFresh_example :
    IsFresh
      (build manifest first_run attempt_one task
        (some late)
        (start_attempt hashing first_run (some 9) (supersede_from 12 2 store).1).1).world.journal
build-IsFresh_example = build-IsFresh hashing manifest first_run attempt_one task late store refl
