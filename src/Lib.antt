-- ===== src/Lib.antt =====
-- Multi-agent testbed: a kernel that runs teams of agents through tasks and keeps an append-only
-- log of what happened.
--
-- The parts, and the files that model them (paths from the repository's root):
--   * src/testbed_contracts: Contracts. Enums (enums.py), Ids (ids.py), Events (events.py), Hashes
--     (normalize_for_hash and canonical_event_hash), Manifest (manifest.py), Results (results.py);
--     Records has the stored records that span parts.
--   * src/testbed_pack_sdk and the agent port of src/testbed_contracts/ports.py: Sdk.
--   * src/testbed_kernel/scheduler.py: Scheduler, the queue of deliveries in canonical order.
--   * src/testbed_store/sqlite.py: Store, the tables as lists of rows with their unique indexes.
--   * src/testbed_kernel/journal.py: Journal, the only writer of the event log; Commit, Retry
--     and Order (the log as an abstract list) hold proofs.
--   * src/testbed_kernel/rng.py: Rng, labelled streams of random draws.
--   * src/testbed_kernel/world.py: World. State (fields, clock, policy events), Messaging (enqueue,
--     faults, drop_out), Actions (route, apply_change, assign_payoffs, welfare), Snapshots.
--   * src/testbed_plugins/topologies: Topologies.
--   * src/testbed_kernel/drivers.py: Driver. State (what a driver is built from, the end of a turn),
--     Emitted (what an agent's events do), Session (SessionDriver), Env (EnvDriver); Steps, Loop,
--     History, Progress, Ticks and Simultaneous hold proofs.
--   * src/testbed_kernel/controller.py: Controller. Plan, Checkpoints (_start_attempt,
--     _write_checkpoint), Execution (_drive, _verify), Outcomes (_terminal_state), Attempts (_build,
--     execute, resume); Runs and Stored hold proofs.
--   * src/testbed_kernel/measures.py and playback.py: Measures and Playback; Authorised holds
--     proofs.
--   * src/testbed_eval: Eval. Scorers (builtin_scorers.py, judges.py), Scoring (scoring.py), Compare
--     (compare.py and the counts of stats.py); Flags and Pairing hold proofs.
--   * src/testbed_catalog: Catalog. Records (model.py), Registry (registry.py), Availability
--     (availability.py); src/testbed_cli/integrations.py and composition.py: Catalog.Composition;
--     Honesty, Loading and Switching hold proofs.
--   * src/testbed_adapters/agents: Adapters. Templates and Scripted (python/scripted.py), Cli
--     (cli/adapter.py); Script holds proofs. src/testbed_store/artifacts.py: Store.Artifacts.
--   * src/testbed_packs: Packs. Smoke (smoke/pack.py), LmEval (lm_eval/pack.py and source.py),
--     Matching and Answers (lm_eval/metrics.py, and the verifier of pack.py), Python (what they use
--     of Python's str and float); Claims, FewShot and Reference hold proofs.
--   * src/testbed_cli/session.py: Sessions; Rerun and Rescoring hold proofs. src/testbed_cli/paths.py
--     and loader.py: Commands. Paths and Overrides (apply_overrides); Written holds proofs.
-- Base has what they share: Python's dictionaries and sorted, methods that may raise, integers.
--
-- How they interact: the driver takes the due deliveries off the World's queue, hands each to the
-- recipient's agent, and turns what the agent emits into calls of the World. The World asks the
-- topology and the pack what they propose, decides, enqueues, and commits each change through the
-- journal, which numbers it and appends it to the store. A checkpoint saves the World's snapshot
-- with the states of driver, journal and generator. The controller plans the runs, starts an
-- attempt, builds journal, World and driver (from the last checkpoint when it resumes), and stores
-- the result. The stored log is what playback, measures and scorers read; a comparison pairs the
-- results of two experiments. The composition root looks the manifest's plug-ins up and refuses
-- those that the catalog knows and that cannot be used. A session plans the runs of a manifest,
-- executes each in turn with the controller, and scores its result.
--
-- State is passed explicitly. A method is a function of type Exec S E A: it takes the object and
-- gives a result or an exception, and the object as it was left; what was written before an
-- exception stays written. The World owns the journal, which owns the store, so that all of them
-- change together. An operation has the name it has in the source, without a leading underscore.
--
-- Parameters: SHA-256 (Hashing), the generator random.Random (the draws of Platform), Python's
-- str of a JSON value (render), agents, packs, topologies, the hash of a manifest, what is
-- installed, the rounded quotient of two counts, Python's tables of characters, which files
-- exist and what dataset files hold. An agent is a function from a request to the finite list of
-- events it emits and whether its stream then fails.
--
-- Numbers: identifiers such as run_… and evt_… are the numbers that their hexadecimal digits
-- write; money, seconds and scores are counted in millionths; probabilities and draws in units
-- of 2 ^ -53. Decimal texts that are read back as numbers are the lists of their digits. What
-- pydantic dumps and validates again is the value itself, or a dictionary of its fields.
-- Integers that the source never makes negative are natural numbers. Sets of agents are lists.
--
-- Bounds and fuel: the loops on fuel are those of the drivers' run methods and of the rendering of
-- a script; the fuel that is enough is stated with them. Every other loop is over a finite list.
--
-- Not modelled: floating-point statistics (bootstrap, effect size, Gini index); the details of
-- scores; the verdict of the split verifier on claims that are no finite numbers; snapshots that
-- agents give of themselves, and the simulated death at a checkpoint, which only tests use;
-- runners, sandboxes, telemetry, export, printing and file I/O, which are glue; wall-clock times
-- and descriptive settings, which no modelled code reads.
pub mod Adapters
pub mod Eval
pub mod Packs
pub mod Measures
pub mod Playback
pub mod Catalog
pub mod Base
pub mod Contracts
pub mod Sdk
pub mod Scheduler
pub mod Records
pub mod Store
pub mod Journal
pub mod Rng
pub mod World
pub mod Topologies
pub mod Driver
pub mod Controller
pub mod Sessions
pub mod Commands
pub mod Tests
