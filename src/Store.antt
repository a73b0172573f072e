-- ===== src/Store.antt =====
-- src/testbed_store/sqlite.py: the tables as lists of rows in insertion order. A row's JSON body is
-- the record itself. SQLite checks the unique indexes of `events` newest first: the idempotency
-- key, the sequence, the event id.
pub mod Log
pub mod Archive
pub mod Artifacts
use multi_agent_testbed.Base.{
  ℕ, ◌+◌, String, ◌≡◌, Bool, true, false, not, ◌&&◌, ◌||◌, Option, none, some, List, [], ◌∷◌, ◌++◌,
  map, max, length, any, find, filter, sort_by, leb, ltb, str_le, ◌==◌, if◌then◌else◌, str_eq,
  Outcome, returned, raised,
}
use multi_agent_testbed.Contracts.Enums.{RunState}
use multi_agent_testbed.Contracts.Events.{Event}
use multi_agent_testbed.Contracts.Manifest.{ExperimentManifest}
use multi_agent_testbed.Contracts.Results.{Attempt, RunRecord, Score}
use multi_agent_testbed.Records.{Checkpoint, RunResult}

pub record Store : Type 0 where
  pub manifests : List (ℕ × ExperimentManifest)
  pub runs : List RunRecord
  pub attempts : List Attempt
  pub events : List Event
  pub superseded_events : List Event
  pub checkpoints : List Checkpoint
  pub scores : List Score
  pub results : List (ℕ × RunResult)

-- `StoreError` for a sequence that is taken, and the `IntegrityError` of the event id, re-raised.
pub data StoreError : Type 0 where
  sequence_taken event_id_taken no_manifest no_run : StoreError

-- `INSERT OR REPLACE`: the rows that clash with the new one go.
unfoldable pub upsert {ℓ} : {A : Type ℓ} → (A → A → Bool) → A → List A → List A
upsert clash row rows = filter (λ r. not (clash row r)) rows ++ row ∷ []

abbrev pub same_optional : Option ℕ → Option ℕ → Bool
same_optional (some a) (some b) = a == b
same_optional _ _ = false

-- The three unique indexes of the table `events`. A null key clashes with nothing.
abbrev pub same_key : Event → Event → Bool
same_key e f = e.run_id == f.run_id && same_optional e.idempotency_key f.idempotency_key

abbrev pub same_sequence : Event → Event → Bool
same_sequence e f = e.run_id == f.run_id && e.sequence == f.sequence

abbrev pub same_id : Event → Event → Bool
same_id e f = e.event_id == f.event_id

-- `put_manifest`: `INSERT OR IGNORE`
unfoldable pub put_manifest : ℕ → ExperimentManifest → Store → Store
put_manifest hash m s =
    if any (λ (r : ℕ × ExperimentManifest). r.0 == hash) s.manifests
    then s
    else record s { manifests = s.manifests ++ (hash, m) ∷ [] }

unfoldable pub get_manifest : ℕ → Store → Outcome StoreError ExperimentManifest
get_manifest hash s = elim (find (λ (r : ℕ × ExperimentManifest). r.0 == hash) s.manifests) [
  | none ↦ raised no_manifest
  | some r ↦ returned r.1
]

unfoldable pub put_run : RunRecord → Store → Store
unfolding upsert
put_run r s = record s { runs = upsert (λ a b. a.run_id == b.run_id) r s.runs }

unfoldable pub get_run : ℕ → Store → Outcome StoreError RunRecord
get_run run_id s = elim (find (λ r. r.run_id == run_id) s.runs) [
  | none ↦ raised no_run
  | some r ↦ returned r
]

unfoldable pub set_run_state : ℕ → RunState → Store → Outcome StoreError Unit × Store
unfolding get_run put_run
set_run_state run_id state s = elim (get_run run_id s) [
  | raised e ↦ (raised e, s)
  | returned r ↦ (returned tt, put_run (record r { state = state }) s)
]

abbrev pub same_attempt : Attempt → Attempt → Bool
same_attempt a b =
    a.attempt_id == b.attempt_id || (a.run_id == b.run_id && a.attempt_number == b.attempt_number)

unfoldable pub put_attempt : Attempt → Store → Store
unfolding upsert
put_attempt a s = record s { attempts = upsert same_attempt a s.attempts }

unfoldable pub attempts : ℕ → Store → List Attempt
attempts run_id s =
    sort_by (λ a b. leb a.attempt_number b.attempt_number)
      (filter (λ a. a.run_id == run_id) s.attempts)

abbrev pub greatest : List ℕ → ℕ
greatest [] = 0
greatest (n ∷ ns) = max n (greatest ns)

unfoldable pub next_attempt_number : ℕ → Store → ℕ
next_attempt_number run_id s =
    greatest (map (λ a. a.attempt_number) (filter (λ a. a.run_id == run_id) s.attempts)) + 1

-- `append`: false for a key that was already committed.
unfoldable pub append : Event → Store → Outcome StoreError Bool × Store
append e s =
    if any (same_key e) s.events
    then (returned false, s)
    else if any (same_sequence e) s.events
    then (raised sequence_taken, s)
    else if any (same_id e) s.events
    then (raised event_id_taken, s)
    else (returned true, record s { events = s.events ++ e ∷ [] })

abbrev pub of_run : ℕ → List Event → List Event
of_run run_id = filter (λ e. e.run_id == run_id)

unfoldable pub read : ℕ → Store → List Event
read run_id s = sort_by (λ a b. leb a.sequence b.sequence) (of_run run_id s.events)

-- `COALESCE(MAX(sequence), -1) + 1`
unfoldable pub next_sequence : ℕ → Store → ℕ
next_sequence run_id s = greatest (map (λ e. e.sequence + 1) (of_run run_id s.events))

unfoldable pub has_idempotency_key : ℕ → ℕ → Store → Bool
has_idempotency_key run_id key s =
    any (λ e. e.run_id == run_id && same_optional (some key) e.idempotency_key) s.events

-- `run_id = ? AND sequence >= ?`
abbrev pub is_after : ℕ → ℕ → Event → Bool
is_after run_id sequence e = e.run_id == run_id && leb sequence e.sequence

-- The loop of `supersede_from`, over the rows that were selected.
unfoldable pub archive : List Event → List Event → List Event
unfolding upsert
archive [] archived = archived
archive (row ∷ rows) archived = archive rows (upsert same_id row archived)

unfoldable pub supersede_from : ℕ → ℕ → Store → ℕ × Store
supersede_from run_id sequence s =
    let rows = filter (is_after run_id sequence) s.events in
    (
      length rows,
      record s {
        superseded_events = archive rows s.superseded_events;
        events = filter (λ e. not (is_after run_id sequence e)) s.events;
      },
    )

unfoldable pub superseded : ℕ → Store → List Event
superseded run_id s = sort_by (λ a b. leb a.sequence b.sequence) (of_run run_id s.superseded_events)

unfoldable pub put_checkpoint : Checkpoint → Store → Store
unfolding upsert
put_checkpoint c s = record s {
  checkpoints = upsert (λ a b. a.checkpoint_id == b.checkpoint_id) c s.checkpoints;
}

-- The row of the greatest sequence, the first of them.
abbrev pub latest : List Checkpoint → Option Checkpoint
latest [] = none
latest (c ∷ cs) = elim (latest cs) [
  | none ↦ some c
  | some d ↦ if ltb c.sequence d.sequence then some d else some c
]

unfoldable pub latest_checkpoint : ℕ → Store → Option Checkpoint
latest_checkpoint run_id s = latest (filter (λ c. c.run_id == run_id) s.checkpoints)

-- `checkpoints`, and `scores` in the order of their scorers
unfoldable pub checkpoints_of : ℕ → Store → List Checkpoint
checkpoints_of run_id s =
    sort_by (λ a b. leb a.sequence b.sequence) (filter (λ c. c.run_id == run_id) s.checkpoints)

unfoldable pub scores_of : ℕ → Store → List Score
scores_of run_id s =
    sort_by (λ a b. str_le a.scorer b.scorer) (filter (λ c. c.run_id == run_id) s.scores)

abbrev pub same_score : Score → Score → Bool
same_score a b = a.run_id == b.run_id && str_eq a.scorer b.scorer && str_eq a.version b.version

unfoldable pub put_scores : List Score → Store → Store
unfolding upsert
put_scores [] s = s
put_scores (score ∷ scores) s =
    put_scores scores (record s { scores = upsert same_score score s.scores })

unfoldable pub put_result : ℕ → RunResult → Store → Store
unfolding upsert
put_result run_id r s = record s {
  results = upsert (λ (a : ℕ × RunResult) (b : ℕ × RunResult). a.0 == b.0) (run_id, r) s.results;
}

unfoldable pub get_result : ℕ → Store → Option RunResult
get_result run_id s = elim (find (λ (r : ℕ × RunResult). r.0 == run_id) s.results) [
  | none ↦ none
  | some r ↦ some r.1
]

abbrev pub empty_store : Store
empty_store = record {
  manifests = [];
  runs = [];
  attempts = [];
  events = [];
  superseded_events = [];
  checkpoints = [];
  scores = [];
  results = [];
}
