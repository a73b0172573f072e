-- ===== src/Tests/Runs.antt =====
-- Runs of the drivers at a concrete setup.
use mathlib.Core.Logic.Or
use mathlib.Core.HLevel.{hedberg}
use mathlib.Core.List.{Mem, mem-cons, mem-singleton}
use mathlib.Core.List.Perm
use multi_agent_testbed.Base.{
  String, ◌≡◌, ◌≢◌, sym, ap, ◌∙◌, none, some, [], ◌∷◌, returned, eq_iff, arith,
}
use multi_agent_testbed.Contracts.Enums.{parallel}
use multi_agent_testbed.Sdk.{WorldAction}
use multi_agent_testbed.World.History.{Follows}
use multi_agent_testbed.Driver.Session.{run}
use multi_agent_testbed.Driver.History.{run-Follows}
use multi_agent_testbed.Driver.Progress.{run_ends}
use multi_agent_testbed.Driver.Env.{env_run, settle_tick}
use multi_agent_testbed.Driver.Ticks.{env_run_ends}
use multi_agent_testbed.Driver.Simultaneous.{AreApart, settle_tick_of_perm}
use multi_agent_testbed.Tests.Data.{String-discrete, Json-discrete, setup, driver}

run-Follows_example : Follows driver.world (run 6 setup driver).1.world
run-Follows_example = run-Follows 6 setup driver tt tt

-- With a limit of 4 ticks, six rounds are enough.
run_ends_example : (run 6 setup driver).0 ≢ returned none
run_ends_example = run_ends setup 6 driver (λ v. tt) tt (omega arith) (omega arith)

env_run_ends_example : (env_run 6 setup parallel driver).0 ≢ returned none
env_run_ends_example = env_run_ends setup parallel 6 driver (λ v. tt) tt (omega arith) (omega arith)

abbrev move : String → WorldAction
move actor = record { kind = "move"; actor_id = actor; args = [] }

WorldAction-discrete : Discrete WorldAction
WorldAction-discrete = hlevel (String-discrete, Json-discrete)

WorldAction-set : IsSet WorldAction
WorldAction-set = hedberg WorldAction-discrete

abbrev actor_of : WorldAction → String
actor_of a = a.actor_id

last : {x y : WorldAction} → Mem x (y ∷ []) → x ≡ y
last m = (mem-singleton WorldAction-set).0 m

-- Actions of two agents differ in the agent.
two-AreApart : (a b : WorldAction) → a.actor_id ≢ b.actor_id → AreApart (a ∷ b ∷ [])
two-AreApart a b differ x y mx my kind actor =
    Or.elim (WorldAction-set x y) (mem-cons.0 mx)
      (λ xa.
        Or.elim (WorldAction-set x y) (mem-cons.0 my) (λ ya. xa ∙ sym ya)
          (λ yb. absurd (differ (ap actor_of (sym xa) ∙ actor ∙ ap actor_of (last yb)))))
      (λ xb.
        Or.elim (WorldAction-set x y) (mem-cons.0 my)
          (λ ya. absurd (differ (ap actor_of (sym ya) ∙ sym actor ∙ ap actor_of (last xb))))
          (λ yb. last xb ∙ sym (last yb)))

settle_tick_of_perm_example :
    settle_tick setup parallel (some (move "ada" ∷ move "bob" ∷ []))
    ≡ settle_tick setup parallel (some (move "bob" ∷ move "ada" ∷ []))
settle_tick_of_perm_example =
    settle_tick_of_perm setup (move "ada" ∷ move "bob" ∷ []) (move "bob" ∷ move "ada" ∷ [])
      (two-AreApart (move "ada") (move "bob") (λ e. ground (arith, eq_iff "ada" "bob")))
      (Perm.swap (move "bob") (move "ada") [])
