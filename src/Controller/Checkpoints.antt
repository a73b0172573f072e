-- ===== src/Controller/Checkpoints.antt =====
-- `_start_attempt` and `_write_checkpoint`, outside the tests: without a simulated death of the
-- controller, and with agents that give no snapshot of their own.
use multi_agent_testbed.Base.{
  ℕ, ◌<◌, ◌≡◌, refl, Bool, not, Option, some, List, [], ◌∷◌, ◌++◌, All, filter, filter-append, ◌==◌,
  ==_refl, Bool-cases, inl, inr, Outcome, pure, modify, gets, ◌>>=◌, ◌>>◌, Keeps, Keeps-bind,
  Keeps-pure, arith,
}
use multi_agent_testbed.Contracts.Enums.{world_snapshot_created, provisioning}
use multi_agent_testbed.Contracts.Ids.{Hashing, short_hash, object, num, ref}
use multi_agent_testbed.Contracts.Results.{Attempt, RunRecord}
use multi_agent_testbed.Scheduler.{peek_all}
use multi_agent_testbed.Records.{DriverState, Checkpoint}
use multi_agent_testbed.Store.{
  Store, StoreError, upsert, put_attempt, next_attempt_number, put_checkpoint, latest,
  latest_checkpoint,
}
use multi_agent_testbed.Journal.{Draft, draft}
use multi_agent_testbed.Journal
use multi_agent_testbed.Rng.{Platform}
use multi_agent_testbed.Rng
use multi_agent_testbed.World.State.{World, Act, world_actor, commit}
use multi_agent_testbed.World.Snapshots.{snapshot}
use multi_agent_testbed.World.History.{Follows, commit-Follows}
use multi_agent_testbed.Driver.State.{RunError, as_run_error}
use multi_agent_testbed.Driver.Steps.{HookFollows}

unfoldable pub new_attempt : Hashing → RunRecord → Option ℕ → Store → Attempt
new_attempt h run resumed_from s = record {
  attempt_id =
      short_hash h
        (object (
          ("run", ref "run_" (run.run_id ∷ []))
          ∷ ("n", num (next_attempt_number run.run_id s))
          ∷ []))
        12;
  run_id = run.run_id;
  attempt_number = next_attempt_number run.run_id s;
  state = provisioning;
  resumed_from_checkpoint = resumed_from;
}

unfoldable pub start_attempt : Hashing → RunRecord → Option ℕ → Store → Attempt × Store
unfolding new_attempt
start_attempt h run resumed_from s =
    (new_attempt h run resumed_from s, put_attempt (new_attempt h run resumed_from s) s)

unfoldable pub checkpoint : Platform → ℕ → DriverState → World → Checkpoint
checkpoint p run_id state w = record {
  checkpoint_id =
      short_hash p.hashing
        (object (("run", ref "run_" (run_id ∷ [])) ∷ ("seq", num w.journal.sequence) ∷ [])) 14;
  run_id = run_id;
  attempt_id = w.journal.attempt_id;
  sequence = w.journal.sequence;
  logical_time = w.logical_time;
  world_snapshot = snapshot p.hashing w;
  driver = state;
  journal = Journal.state w.journal;
  pending_deliveries = peek_all p.hashing w.queue;
  rng_state = Rng.state w.rng;
}

abbrev store_checkpoint : Checkpoint → World → World
store_checkpoint c w = record w {
  journal = record w.journal { store = put_checkpoint c w.journal.store };
}

abbrev checkpoint_draft : Checkpoint → World → Draft
checkpoint_draft c w =
    draft world_snapshot_created world_actor w.logical_time
      (("checkpoint_id", ref "ckpt_" (c.checkpoint_id ∷ [])) ∷ ("sequence", num c.sequence) ∷ [])

unfoldable pub write_checkpoint : Platform → ℕ → DriverState → Act Unit
write_checkpoint p run_id state = do
  w ← gets (λ w. w)
  modify (store_checkpoint (checkpoint p run_id state w))
  commit p (checkpoint_draft (checkpoint p run_id state w))
  pure tt

-- The hook that the controller gives to the driver.
unfoldable pub checkpoint_hook : Platform → ℕ → DriverState → World → Outcome RunError Unit × World
checkpoint_hook p run_id state w =
    (as_run_error (write_checkpoint p run_id state w).0, (write_checkpoint p run_id state w).1)

store_checkpoint-Follows :
    (v : World) (c : Checkpoint) → Keeps {E = StoreError} (Follows v) (modify (store_checkpoint c))
unfolding modify put_checkpoint
store_checkpoint-Follows v c = record {
  at = λ w k. record {
    added = k.added;
    log = k.log;
    time = k.time;
    run = k.run;
    roles = k.roles;
    manifest = k.manifest;
    finished = k.finished;
    fresh = k.fresh;
  };
}

-- The controller's hook keeps the history, as the theorems on a whole run assume of it.
pub checkpoint_hook-HookFollows :
    (p : Platform) (run_id : ℕ) (v : World) → HookFollows v (some (checkpoint_hook p run_id))
unfolding checkpoint_hook write_checkpoint gets modify commit ◌>>=◌ pure
checkpoint_hook-HookFollows p run_id v state w f =
    (Keeps-bind _ _ (store_checkpoint-Follows v (checkpoint p run_id state w)) λ _.
        Keeps-bind _ _ (commit-Follows v p (checkpoint_draft (checkpoint p run_id state w)))
          λ _. Keeps-pure tt).at
      w f

latest-snoc :
    (c : Checkpoint) (cs : List Checkpoint)
    → All (λ d. d.sequence < c.sequence) cs
    → latest (cs ++ c ∷ []) ≡ some c
latest-snoc c [] older = refl
latest-snoc c (d ∷ cs) older = rw (latest-snoc c cs older.1) (ground (arith, older.0))

All-filter_twice :
    (P : Checkpoint → Type 0) (p q : Checkpoint → Bool) (cs : List Checkpoint)
    → All P (filter p cs)
    → All P (filter p (filter q cs))
All-filter_twice P p q [] h = tt
All-filter_twice P p q (c ∷ cs) h = elim (Bool-cases (p c)) [
  | inl e ↦ elim (Bool-cases (q c)) [
    | inl f ↦ rw (f, e) ((rw e at h).0, All-filter_twice P p q cs (rw e at h).1)
    | inr f ↦ rw f (All-filter_twice P p q cs (rw e at h).1)
  ]
  | inr e ↦ elim (Bool-cases (q c)) [
    | inl f ↦ rw (f, e) (All-filter_twice P p q cs (rw e at h))
    | inr f ↦ rw f (All-filter_twice P p q cs (rw e at h))
  ]
]

-- Where every stored checkpoint of the run is older, the one that is put last is the one that a
-- resume reads, whole.
pub latest_checkpoint-put_checkpoint :
    (c : Checkpoint) (s : Store)
    → All (λ d. d.sequence < c.sequence) (filter (λ d. d.run_id == c.run_id) s.checkpoints)
    → latest_checkpoint c.run_id (put_checkpoint c s) ≡ some c
unfolding latest_checkpoint put_checkpoint upsert
latest_checkpoint-put_checkpoint c s older =
    let others = filter (λ d. not (c.checkpoint_id == d.checkpoint_id)) s.checkpoints in
    rw (filter-append (λ d. d.run_id == c.run_id) others (c ∷ []), ==_refl c.run_id)
      (latest-snoc c (filter (λ d. d.run_id == c.run_id) others)
        (All-filter_twice _ (λ d. d.run_id == c.run_id) _ s.checkpoints older))
