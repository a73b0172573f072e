-- ===== src/Driver/Ticks.antt =====
-- What a run of `EnvDriver` keeps of the history, and why it ends.
use multi_agent_testbed.Base.{
  ℕ, ◌+◌, ◌≤◌, ◌<◌, String, ◌≡◌, ◌≢◌, refl, Bool, Option, none, some, List, [], ◌∷◌, lookup, ltb,
  leb, Bool-cases, inl, inr, returned, pure, gets, ◌>>=◌, Keeps, Keeps-pure, Keeps-raise,
  Keeps-gets, Keeps-bind, Keeps-if, Gives, Gives-bind, Gives-if, sort_by, arith,
}
use multi_agent_testbed.Contracts.Enums.{EnvMode, aec, parallel}
use multi_agent_testbed.Sdk.{AgentHandle, AgentEvent, WorldAction, handler_for}
use multi_agent_testbed.Journal.Commit.{IsFresh}
use multi_agent_testbed.World.State.{World, agents}
use multi_agent_testbed.World.History.{Follows, Follows-refl, commit-Follows}
use multi_agent_testbed.Driver.State.{Driver, Run, Setup, end_turn}
use multi_agent_testbed.Driver.Steps.{
  HookFollows, At, on_world-At, step-At, maybe_checkpoint-At, end_turn-At, repeat-At,
}
use multi_agent_testbed.Driver.History.{act_by-At}
use multi_agent_testbed.Driver.Loop.{GoesOn, end_turn-GoesOn, Gives-ne, repeat_enough}
use multi_agent_testbed.Driver.Env.{
  commit_action, add_cost, commit_and_go, take_action, take_events, ask, then_ask, ask_all,
  action_le, commit_all, settle_tick, tick, env_round, env_run,
}

module _ (v : World) (s : Setup) (hook : HookFollows v s.checkpoint_hook) where
  commit_action-At : (action : WorldAction) → Keeps (At v) (commit_action s action)
  unfolding commit_action
  commit_action-At action =
      Keeps-bind _ _ (on_world-At v _ (commit-Follows v s.platform _))
        λ _. act_by-At v s hook action (handler_for s.pack action.kind)

  commit_and_go-At :
      {A : Type 0} (action : WorldAction) (rest : Run (Option A))
      → Keeps (At v) rest
      → Keeps (At v) (commit_and_go s action rest)
  unfolding commit_and_go
  commit_and_go-At action rest k = Keeps-bind _ _ (commit_action-At action) λ _.
      Keeps-bind _ _ (maybe_checkpoint-At v s hook)
        λ _. Keeps-bind _ _ (Keeps-gets _) λ finished. Keeps-if _ _ _ (Keeps-pure none) k

  take_action-At :
      (mode : EnvMode) (action : WorldAction) (collected : List WorldAction)
      (rest : List WorldAction → Run (Option (List WorldAction)))
      → ((c : List WorldAction) → Keeps (At v) (rest c))
      → Keeps (At v) (take_action s mode action collected rest)
  unfolding take_action
  take_action-At aec action collected rest k =
      commit_and_go-At action (rest collected) (k collected)
  take_action-At parallel action collected rest k = k _

  take_events-At :
      (mode : EnvMode) (agent_id : String) (es : List AgentEvent) (fails : Bool)
      (collected : List WorldAction)
      → Keeps (At v) (take_events s mode agent_id es fails collected)
  unfolding take_events
  take_events-At mode agent_id [] fails collected = Keeps-if _ _ _ (Keeps-raise _) (Keeps-pure _)
  take_events-At mode agent_id (e ∷ rest) fails collected =
      let others = take_events-At mode agent_id rest fails in
      Keeps-bind _ _ (step-At v (add_cost e) λ d. (refl, refl, refl, refl, refl))
        λ _. Keeps-if _ _ _ (take_action-At mode _ collected _ others) (others collected)

  ask-At :
      (mode : EnvMode) (agent_id : String) (collected : List WorldAction) (o : Option AgentHandle)
      → Keeps (At v) (ask s mode agent_id collected o)
  unfolding ask
  ask-At mode agent_id collected none = Keeps-raise _
  ask-At mode agent_id collected (some handle) =
      Keeps-bind _ _ (step-At v _ λ d. (refl, refl, refl, refl, refl))
        λ _. Keeps-bind _ _ (Keeps-gets _) λ d. take_events-At mode agent_id _ _ collected

  then_ask-At :
      (rest : List WorldAction → Run (Option (List WorldAction)))
      → ((c : List WorldAction) → Keeps (At v) (rest c))
      → (o : Option (List WorldAction)) → Keeps (At v) (then_ask rest o)
  unfolding then_ask
  then_ask-At rest k none = Keeps-pure none
  then_ask-At rest k (some collected) = k collected

  ask_all-At :
      (mode : EnvMode) (ids : List String) (collected : List WorldAction)
      → Keeps (At v) (ask_all s mode ids collected)
  unfolding ask_all
  ask_all-At mode [] collected = Keeps-pure _
  ask_all-At mode (agent_id ∷ ids) collected =
      Keeps-bind _ _ (ask-At mode agent_id collected (lookup agent_id s.agents))
        (then_ask-At _ (ask_all-At mode ids))

  commit_all-At : (actions : List WorldAction) → Keeps (At v) (commit_all s actions)
  unfolding commit_all
  commit_all-At [] = Keeps-pure _
  commit_all-At (action ∷ rest) = commit_and_go-At action (commit_all s rest) (commit_all-At rest)

  settle_tick-At :
      (mode : EnvMode) (o : Option (List WorldAction)) → Keeps (At v) (settle_tick s mode o)
  unfolding settle_tick
  settle_tick-At mode none = Keeps-pure none
  settle_tick-At aec (some collected) = Keeps-pure _
  settle_tick-At parallel (some collected) = commit_all-At (sort_by action_le collected)

  pub tick-At : (mode : EnvMode) → Keeps (At v) (tick s mode)
  unfolding tick
  tick-At mode =
      Keeps-bind _ _ (Keeps-gets _) λ w.
        Keeps-bind _ _ (ask_all-At mode (agents w) []) λ collected. settle_tick-At mode collected

  pub env_round-At : (mode : EnvMode) → Keeps (At v) (env_round s mode)
  unfolding env_round
  env_round-At mode = Keeps-bind _ _ (Keeps-gets _) λ w. Keeps-if w.finished _ _ (Keeps-pure _) (
      Keeps-if (ltb w.manifest.limits.max_logical_time w.logical_time) _ _ (Keeps-pure _) (
        Keeps-if (leb w.manifest.limits.max_events w.journal.sequence) _ _ (Keeps-pure _)
          (Keeps-bind _ _ (tick-At mode) λ _. end_turn-At v s)))

-- However a run of the environment driver ends, its World follows the one it began with. The
-- controller's hook is assumed to keep this.
pub env_run-Follows :
    (fuel : ℕ) (s : Setup) (mode : EnvMode) (d : Driver)
    → HookFollows d.world s.checkpoint_hook
    → Follows d.world d.world
    → Follows d.world (env_run fuel s mode d).1.world
unfolding env_run
env_run-Follows fuel s mode d hook start =
    (repeat-At d.world fuel (env_round s mode) (env_round-At d.world s hook mode)).at d start

env_round-GoesOn :
    (s : Setup) (mode : EnvMode) (d : Driver)
    → HookFollows d.world s.checkpoint_hook
    → IsFresh d.world.journal
    → 0 < d.world.manifest.world.clock_step
    → Gives (env_round s mode d) (GoesOn d.world.logical_time)
unfolding env_round gets pure ◌>>=◌
env_round-GoesOn s mode d hook fresh step =
    let f = (tick-At d.world s hook mode).at d (Follows-refl d.world fresh) in
    Gives-if d.world.finished _ _ d _ (λ _. tt)
      λ _.
        Gives-if (ltb d.world.manifest.limits.max_logical_time d.world.logical_time) _ _ d _
          (λ _. tt)
          λ _.
            Gives-if (leb d.world.manifest.limits.max_events d.world.journal.sequence) _ _ d _
              (λ _. tt)
              λ _.
                Gives-bind (tick s mode) (λ _. end_turn s) d (GoesOn d.world.logical_time)
                  λ _.
                    end_turn-GoesOn s d.world.logical_time (tick s mode d).1 f.time
                      (rw f.manifest step)

late-env_round :
    (s : Setup) (mode : EnvMode) (d : Driver)
    → d.world.manifest.limits.max_logical_time < d.world.logical_time
    → Gives (env_round s mode d) (λ o _. o ≢ none)
unfolding env_round gets pure ◌>>=◌
late-env_round s mode d late =
    Gives-if d.world.finished _ _ d _ (λ _ p. cc)
      λ _.
        Gives-if (ltb d.world.manifest.limits.max_logical_time d.world.logical_time) _ _ d _
          (λ _ p. cc) λ early. absurd (ground (arith, late))

env_round_in_time :
    (s : Setup) (mode : EnvMode) (d : Driver)
    → (env_round s mode d).0 ≡ returned none
    → d.world.logical_time ≤ d.world.manifest.limits.max_logical_time
env_round_in_time s mode d goes_on =
    elim (Bool-cases (ltb d.world.manifest.limits.max_logical_time d.world.logical_time)) [
      | inl e ↦ absurd (
          Gives-ne (env_round s mode d).0 (env_round s mode d).1
            (late-env_round s mode d (ground arith)) goes_on)
      | inr e ↦ ground arith
    ]

-- A run of the environment driver ends: with a clock step of at least one, two rounds more than the
-- manifest's limit on logical time are enough. The controller's hook is assumed to keep the
-- history, and the journal to be ahead of the log at the start.
pub env_run_ends :
    (s : Setup) (mode : EnvMode) (fuel : ℕ) (d : Driver)
    → ((v : World) → HookFollows v s.checkpoint_hook)
    → IsFresh d.world.journal
    → 0 < d.world.manifest.world.clock_step
    → d.world.manifest.limits.max_logical_time + 2 ≤ fuel
    → (env_run fuel s mode d).0 ≢ returned none
unfolding env_run
env_run_ends s mode fuel d hook fresh step enough =
    repeat_enough (env_round s mode) (At d.world) d.world.manifest.limits.max_logical_time
      (env_round-At d.world s (hook d.world) mode)
      (λ e k. env_round-GoesOn s mode e (hook e.world) k.fresh (rw k.manifest step))
      (λ e k goes_on. rw k.manifest at (env_round_in_time s mode e goes_on)) fuel d
      (Follows-refl d.world fresh) (omega (arith, enough)) (omega (arith, enough))
