-- ===== src/Controller/Runs.antt =====
-- Runs under the controller: either driver, with the hook that writes checkpoints.
use multi_agent_testbed.Base.{ℕ, ◌+◌, ◌<◌, ◌≤◌, ◌≢◌, none, some, returned}
use multi_agent_testbed.Contracts.Enums.{WorldDriverKind, session, env, EnvMode}
use multi_agent_testbed.Journal.Commit.{IsFresh}
use multi_agent_testbed.World.History.{Follows, Follows-refl}
use multi_agent_testbed.Driver.State.{Driver, Setup}
use multi_agent_testbed.Driver.Env.{run_driver}
use multi_agent_testbed.Driver.History.{run-Follows}
use multi_agent_testbed.Driver.Progress.{run_ends}
use multi_agent_testbed.Driver.Ticks.{env_run-Follows, env_run_ends}
use multi_agent_testbed.Controller.Checkpoints.{checkpoint_hook, checkpoint_hook-HookFollows}

-- A driver as `_build` sets it up.
abbrev pub controlled : ℕ → Setup → Setup
controlled run_id s = record s { checkpoint_hook = some (checkpoint_hook s.platform run_id) }

-- With the hook that writes the controller's checkpoints, with a clock step of at least one and a
-- journal ahead of the log, a run of either driver ends within the manifest's limit on logical
-- time plus two rounds, and its World follows the one it began with.
pub controlled-run :
    (kind : WorldDriverKind) (mode : EnvMode) (run_id : ℕ) (s : Setup) (fuel : ℕ) (d : Driver)
    → IsFresh d.world.journal
    → 0 < d.world.manifest.world.clock_step
    → d.world.manifest.limits.max_logical_time + 2 ≤ fuel
    → ((run_driver kind mode fuel (controlled run_id s) d).0 ≢ returned none)
      × Follows d.world (run_driver kind mode fuel (controlled run_id s) d).1.world
unfolding run_driver
controlled-run session mode run_id s fuel d fresh step enough = (
  run_ends (controlled run_id s) fuel d (checkpoint_hook-HookFollows s.platform run_id) fresh step
      enough,
  run-Follows fuel (controlled run_id s) d (checkpoint_hook-HookFollows s.platform run_id d.world)
      fresh,
)
controlled-run env mode run_id s fuel d fresh step enough = (
  env_run_ends (controlled run_id s) mode fuel d (checkpoint_hook-HookFollows s.platform run_id)
      fresh step enough,
  env_run-Follows fuel (controlled run_id s) mode d
      (checkpoint_hook-HookFollows s.platform run_id d.world) (Follows-refl d.world fresh),
)
