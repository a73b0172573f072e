-- ===== src/Controller/Execution.antt =====
-- `_drive` and `_verify`: one attempt of a run, from its first event to its stored result. The
-- measures of the result are left out; a verifier is a function, which does not raise.
use multi_agent_testbed.Base.{
  ℕ, String, Option, none, some, [], ◌∷◌, map, lookup, length, ◌==◌, if◌then◌else◌, Outcome,
  returned, raised, pure, raise, gets, modify, for_each, ◌>>=◌, ◌>>◌,
}
use multi_agent_testbed.Contracts.Enums.{
  RunState, planned, provisioning, running, verifying, scoring, complete, cancelled, task_failed,
  policy_blocked, infra_failed, run_started, run_finished, agent_registered, verifier_result,
  omniscient_only,
}
use multi_agent_testbed.Contracts.Ids.{Json, text, ref, texts, bool, real, object, content_hash}
use multi_agent_testbed.Contracts.Events.{event_view, omniscient_view}
use multi_agent_testbed.Contracts.Manifest.{AgentSpec, ExperimentManifest, agent_ids}
use multi_agent_testbed.Contracts.Results.{Attempt, RunRecord, VerifierResult}
use multi_agent_testbed.Sdk.{Pack, Verifier}
use multi_agent_testbed.Records.{RunResult}
use multi_agent_testbed.Store.{Store, put_run, put_attempt, put_result, read}
use multi_agent_testbed.Journal.{Draft, draft}
use multi_agent_testbed.Rng.{Platform}
use multi_agent_testbed.World.State.{World, world_actor, commit, snapshot_view}
use multi_agent_testbed.World.Actions.{assign_payoffs}
use multi_agent_testbed.Driver.State.{
  RunError, store_failed, agent_failed, no_agent, controller_death, Limit, max_logical_time,
  max_events, max_messages, max_model_calls, max_cost_usd, Reason, limit, quiescent, because,
  DriverOutcome, Driver, Run, Setup, on_world,
}
use multi_agent_testbed.Driver.Env.{run_driver}
use multi_agent_testbed.Controller.Outcomes.{terminal_state}

-- What one attempt is made from. `describe` is Python's text of an exception.
pub record Task : Type 0 where
  pub setup : Setup
  pub manifest : ExperimentManifest
  pub manifest_hash : ℕ
  pub run : RunRecord
  pub attempt : Attempt
  pub describe : RunError → String

unfoldable pub on_store : (Store → Store) → Run Unit
on_store f = modify (λ (d : Driver). record d {
  world = record d.world { journal = record d.world.journal { store = f d.world.journal.store } };
})

abbrev pub limit_name : Limit → String
limit_name max_logical_time = "max_logical_time"
limit_name max_events = "max_events"
limit_name max_messages = "max_messages"
limit_name max_model_calls = "max_model_calls"
limit_name max_cost_usd = "max_cost_usd"

abbrev pub reason_text : Reason → Json
reason_text (limit max_logical_time) = text "limit:max_logical_time"
reason_text (limit max_events) = text "limit:max_events"
reason_text (limit max_messages) = text "limit:max_messages"
reason_text (limit max_model_calls) = text "limit:max_model_calls"
reason_text (limit max_cost_usd) = text "limit:max_cost_usd"
reason_text quiescent = text "quiescent"
reason_text (because s) = text s

abbrev pub state_name : RunState → String
state_name planned = "planned"
state_name provisioning = "provisioning"
state_name running = "running"
state_name verifying = "verifying"
state_name scoring = "scoring"
state_name complete = "complete"
state_name cancelled = "cancelled"
state_name task_failed = "task_failed"
state_name policy_blocked = "policy_blocked"
state_name infra_failed = "infra_failed"

abbrev pub started_draft : Task → World → Draft
started_draft t w = draft run_started world_actor w.logical_time (
    ("run_id", ref "run_" (t.run.run_id ∷ []))
    ∷ ("task_id", text t.run.task_id)
    ∷ ("manifest_hash", ref "sha256:" (t.manifest_hash ∷ []))
    ∷ ("agents", texts (agent_ids t.manifest))
    ∷ [])

abbrev pub registered_draft : Platform → AgentSpec → World → Draft
registered_draft p spec w = draft agent_registered spec.agent_id w.logical_time (
    ("adapter", text spec.adapter)
    ∷ ("model", text spec.model)
    ∷ ("role", text spec.role)
    ∷ ("prompt_digest", ref "sha256:" (content_hash p.hashing (text spec.prompt) ∷ []))
    ∷ [])

abbrev pub verified_draft : Verifier → VerifierResult → World → Draft
verified_draft v result w =
    record (draft verifier_result world_actor w.logical_time (
      ("verifier", text v.name)
      ∷ ("version", text v.version)
      ∷ ("success", bool result.success)
      ∷ ("reward", real result.reward)
      ∷ ("per_agent_payoff", object (map (λ kv. (kv.0, real kv.1)) result.per_agent_payoff))
      ∷ ("detail", object result.detail)
      ∷ [])) { visibility = omniscient_only }

-- `verifiers.get(record.task_id) or verifiers.get("default")`
unfoldable pub verifier_for : Pack → String → Option Verifier
verifier_for pack task_id = elim (lookup task_id pack.verifiers) [
  | none ↦ lookup "default" pack.verifiers
  | some v ↦ some v
]

-- `_verify`, once the verifier is known
unfoldable pub verify_by : Task → Option Verifier → Run (Option VerifierResult)
verify_by t none = pure none
verify_by t (some v) = do
  w ← gets (λ (d : Driver). d.world)
  let result =
      v.verify (snapshot_view w) (event_view (read t.run.run_id w.journal.store) omniscient_view)
  if length result.per_agent_payoff == 0
      then pure tt
      else on_world (assign_payoffs t.setup.platform result.per_agent_payoff)
  on_world (commit t.setup.platform (verified_draft v result))
  pure (some result)

unfoldable pub verify : Task → Run (Option VerifierResult)
unfolding verifier_for verify_by
verify t = verify_by t (verifier_for t.setup.pack t.run.task_id)

abbrev pub blocked_by : RunState → Option Limit → Option String
blocked_by policy_blocked (some l) = some (limit_name l)
blocked_by _ _ = none

abbrev pub run_result : Task → RunState → Option VerifierResult → World → RunResult
run_result t state result w = record {
  run = record t.run { state = state };
  attempt_id = t.attempt.attempt_id;
  state = state;
  verifier = result;
  scores = none;
  event_count = length (read t.run.run_id w.journal.store);
  logical_time = w.logical_time;
  attrition_reason = none;
  reproducibility = t.run.reproducibility;
}

abbrev pub finished_draft : RunState → Reason → World → Draft
finished_draft state reason w =
    draft run_finished world_actor w.logical_time
      (("state", text (state_name state)) ∷ ("reason", reason_text reason) ∷ [])

-- The three rows that end an attempt.
unfoldable pub record_end : Task → RunRecord → RunState → RunResult → Run (Option RunResult)
record_end t run state result =
    on_store (λ s.
      put_result t.run.run_id result
        (put_attempt (record t.attempt { state = state }) (put_run run s)))
    >> pure (some result)

-- After an outcome of the driver.
unfoldable pub conclude : Task → DriverOutcome → Run (Option RunResult)
unfolding verify record_end
conclude t outcome = do
  result ← verify t
  let state = terminal_state outcome result
  on_world (commit t.setup.platform (finished_draft state outcome.reason))
  w ← gets (λ (d : Driver). d.world)
  record_end t (record t.run { state = state }) state
      (record (run_result t state result w) {
        attrition_reason = blocked_by state outcome.limit_hit;
      })

-- `except Exception`: an infrastructure failure. The result holds the record as it was planned.
unfoldable pub fail : Task → RunError → Run (Option RunResult)
unfolding record_end
fail t e = do
  w ← gets (λ (d : Driver). d.world)
  record_end t (record t.run { state = infra_failed }) infra_failed
      (record {
        run = t.run;
        attempt_id = t.attempt.attempt_id;
        state = infra_failed;
        verifier = none;
        scores = none;
        event_count = w.journal.sequence;
        logical_time = w.logical_time;
        attrition_reason = some (t.describe e);
        reproducibility = t.run.reproducibility;
      })

-- What follows `driver.run()`. The death of the controller is recorded and raised again.
unfoldable pub after_run : Task → Outcome RunError (Option DriverOutcome) → Run (Option RunResult)
unfolding conclude fail
after_run t (returned none) = pure none
after_run t (returned (some outcome)) = conclude t outcome
after_run t (raised (controller_death checkpoint_id)) =
    on_store (λ s.
      put_run (record t.run { state = infra_failed })
        (put_attempt (record t.attempt { state = infra_failed }) s))
    >> raise (controller_death checkpoint_id)
after_run t (raised (store_failed e)) = fail t (store_failed e)
after_run t (raised agent_failed) = fail t agent_failed
after_run t (raised no_agent) = fail t no_agent

unfoldable pub try_run : ℕ → Task → Run (Option RunResult)
unfolding after_run
try_run fuel t d =
    let (outcome, e) =
      run_driver t.manifest.world.driver t.manifest.world.env_mode fuel t.setup d in
    after_run t outcome e

-- `_drive`; `none` when the driver's fuel ran out.
unfoldable pub drive : ℕ → Task → Run (Option RunResult)
unfolding try_run
drive fuel t = do
  on_world (commit t.setup.platform (started_draft t))
  for_each
      (λ spec.
        on_world (commit t.setup.platform (registered_draft t.setup.platform spec)) >> pure tt)
      t.manifest.agents
  on_store (λ s.
      put_attempt (record t.attempt { state = running })
        (put_run (record t.run { state = running }) s))
  try_run fuel t
