-- ===== src/Controller/Stored.antt =====
-- What the store holds once an attempt has ended.
use multi_agent_testbed.Base.{
  ℕ, ◌≡◌, refl, ap, ◌∙◌, Bool, true, Option, none, some, List, [], ◌∷◌, find, Bool-cases, inl, inr,
  ◌==◌, ==_refl, Outcome, returned, raised, pure, raise, gets, modify, for_each, ◌>>=◌, Gives,
  Gives-bind, arith,
}
use multi_agent_testbed.Contracts.Enums.{RunState, infra_failed}
use multi_agent_testbed.Contracts.Results.{RunRecord}
use multi_agent_testbed.Records.{RunResult}
use multi_agent_testbed.Store.{Store, upsert, put_run, put_attempt, put_result, get_run, get_result}
use multi_agent_testbed.Driver.State.{
  RunError, store_failed, agent_failed, no_agent, controller_death, DriverOutcome, Driver, on_world,
}
use multi_agent_testbed.Driver.Session.{run}
use multi_agent_testbed.Controller.Outcomes.{terminal_state}
use multi_agent_testbed.Controller.Execution.{
  Task, on_store, record_end, verify, conclude, fail, after_run, try_run, drive,
}

find-upsert :
    {A : Type 0} (clash : A → A → Bool) (p : A → Bool) (row : A) (rows : List A)
    → p row ≡ true
    → ((r : A) → p r ≡ true → clash row r ≡ true)
    → find p (upsert clash row rows) ≡ some row
unfolding upsert
find-upsert clash p row [] hit same = rw hit refl
find-upsert clash p row (r ∷ rows) hit same = elim (Bool-cases (clash row r)) [
  | inl e ↦ rw e (find-upsert clash p row rows hit same)
  | inr e ↦ elim (Bool-cases (p r)) [
    | inl f ↦ absurd (ground (arith, same r f))
    | inr f ↦ rw (e, f) (find-upsert clash p row rows hit same)
  ]
]

-- The stored result is this one, and the stored record of the run is in its state.
abbrev pub IsStored : ℕ → Option RunResult → Driver → Type 0
IsStored run_id none d = Unit
IsStored run_id (some result) d =
    (get_result run_id d.world.journal.store ≡ some result)
    × (get_run run_id d.world.journal.store ≡ returned (record result.run { state = result.state }))

same_run : (r q : ℕ) → (q == r) ≡ true → (r == q) ≡ true
same_run r q h = ground arith

pub get_result-put_result :
    (run_id : ℕ) (r : RunResult) (s : Store) → get_result run_id (put_result run_id r s) ≡ some r
unfolding get_result put_result
get_result-put_result run_id r s =
    rw
      (
        find-upsert (λ (a : ℕ × RunResult) (b : ℕ × RunResult). a.0 == b.0)
            (λ (q : ℕ × RunResult). q.0 == run_id) (run_id, r) s.results (==_refl run_id)
            (λ q e. same_run run_id q.0 e),
        get_result,
      )
      refl

get_run-put_run : (run : RunRecord) (s : Store) → get_run run.run_id (put_run run s) ≡ returned run
unfolding get_run put_run
get_run-put_run run s =
    rw
      (
        find-upsert (λ a b. a.run_id == b.run_id) (λ r. r.run_id == run.run_id) run s.runs
            (==_refl run.run_id) (λ q e. same_run run.run_id q.run_id e),
        get_run,
      )
      refl

record_end-IsStored :
    (t : Task) (state : RunState) (result : RunResult) (d : Driver)
    → record t.run { state = state } ≡ record result.run { state = result.state }
    → Gives (record_end t (record t.run { state = state }) state result d) (IsStored t.run.run_id)
unfolding record_end on_store modify pure ◌>>=◌ put_attempt get_run put_result
record_end-IsStored t state result d same = (
  get_result-put_result t.run.run_id result _,
  get_run-put_run (record t.run { state = state }) d.world.journal.store ∙ ap returned same,
)

conclude-IsStored :
    (t : Task) (outcome : DriverOutcome) (d : Driver)
    → Gives (conclude t outcome d) (IsStored t.run.run_id)
unfolding conclude gets ◌>>=◌
conclude-IsStored t outcome d = Gives-bind (verify t) _ d (IsStored t.run.run_id) λ result.
    Gives-bind (on_world _) _ _ (IsStored t.run.run_id)
      λ _. record_end-IsStored t (terminal_state outcome result) _ _ refl

fail-IsStored : (t : Task) (e : RunError) (d : Driver) → Gives (fail t e d) (IsStored t.run.run_id)
unfolding fail gets ◌>>=◌
fail-IsStored t e d = record_end-IsStored t infra_failed _ d refl

after_run-IsStored :
    (t : Task) (o : Outcome RunError (Option DriverOutcome)) (d : Driver)
    → Gives (after_run t o d) (IsStored t.run.run_id)
unfolding after_run raise pure on_store modify ◌>>=◌
after_run-IsStored t (returned none) d = tt
after_run-IsStored t (returned (some outcome)) d = conclude-IsStored t outcome d
after_run-IsStored t (raised (controller_death checkpoint_id)) d = tt
after_run-IsStored t (raised (store_failed e)) d = fail-IsStored t (store_failed e) d
after_run-IsStored t (raised agent_failed) d = fail-IsStored t agent_failed d
after_run-IsStored t (raised no_agent) d = fail-IsStored t no_agent d

-- When an attempt returns a result, the store has that result for the run, and the run's record in
-- the state of the result, whether the driver ended by an outcome or by an exception.
pub drive-IsStored :
    (fuel : ℕ) (t : Task) (d : Driver) → Gives (drive fuel t d) (IsStored t.run.run_id)
unfolding drive try_run
drive-IsStored fuel t d = Gives-bind (on_world _) _ d (IsStored t.run.run_id) λ _.
    Gives-bind (for_each _ t.manifest.agents) _ _ (IsStored t.run.run_id)
      λ _. Gives-bind (on_store _) _ _ (IsStored t.run.run_id) λ _. after_run-IsStored t _ _
