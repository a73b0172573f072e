-- ===== src/Tests/Logs.antt =====
-- The event log, its views, the journal and the archive at concrete inputs.
use multi_agent_testbed.Base.{
  suc, ◌+◌, map, List, ◌≡◌, ◌≢◌, refl, false, none, [], ◌∷◌, ◌++◌, All, Perm, filter, length,
  returned, raised, eq_iff, arith,
}
use multi_agent_testbed.Contracts.Enums.{is_public, is_private, omniscient_only, agent_message}
use multi_agent_testbed.Contracts.Events.{Event, omniscient_view, visible_to, project, event_view}
use multi_agent_testbed.Contracts.Events.Projection.{
  MayShow, event_view-MayShow, event_view_noninterference,
}
use multi_agent_testbed.Store.{Store, sequence_taken, append, is_after, supersede_from}
use multi_agent_testbed.Store.Log.{IsLog, append-IsLog}
use multi_agent_testbed.Store.Archive.{supersede_from_splits}
use multi_agent_testbed.Journal.{Journal, Draft, draft, build_event, commit}
use multi_agent_testbed.Journal.Commit.{IsFresh, commit-ne-sequence_taken}
use multi_agent_testbed.Journal.Order.{InOrder, committed_now, history, history-commit}
use multi_agent_testbed.Contracts.Hashes.{canonical_event_hash, canonical_event_hash_of_settled}
use multi_agent_testbed.Journal.Retry.{IsRetry, commit_retry}
use multi_agent_testbed.Tests.Data.{hashing, journal, log, store, event}

-- `ada` sees the public event, and the private one with her alone as its viewer.
view_of_ada : event_view log "ada" ≡ event 1 0 is_public [] ∷ event 2 1 is_private ("ada" ∷ []) ∷ []
unfolding event_view project visible_to
view_of_ada = refl

event_view-MayShow_example : All (MayShow "ada") (event_view log "ada")
event_view-MayShow_example =
    event_view-MayShow log "ada" (ground (arith, eq_iff "ada" omniscient_view))

-- The event that only the omniscient view sees might as well not be there.
event_view_noninterference_example :
    event_view log "ada"
    ≡ event_view
        (event 1 0 is_public []
          ∷ event 2 1 is_private ("ada" ∷ "bob" ∷ [])
          ∷ event 9 5 omniscient_only []
          ∷ [])
        "ada"
unfolding visible_to
event_view_noninterference_example =
    event_view_noninterference log
      (event 1 0 is_public []
        ∷ event 2 1 is_private ("ada" ∷ "bob" ∷ [])
        ∷ event 9 5 omniscient_only []
        ∷ [])
      "ada" refl

log-IsLog : IsLog log
log-IsLog = ((refl, (refl, tt)), ((refl, tt), (tt, tt)))

append-IsLog_example : IsLog (append (event 4 3 is_public []) store).1.events
append-IsLog_example = append-IsLog (event 4 3 is_public []) store log-IsLog

-- An earlier resume archived an event of another id.
abbrev resumed : Store
resumed = record store { superseded_events = event 9 2 is_public [] ∷ [] }

supersede_from_splits_example :
    ((supersede_from 12 1 resumed).1.superseded_events
      ≡ resumed.superseded_events ++ filter (is_after 12 1) resumed.events)
    × Perm
        ((supersede_from 12 1 resumed).1.superseded_events
          ++ (supersede_from 12 1 resumed).1.events)
        (resumed.superseded_events ++ resumed.events)
    × All (λ e. is_after 12 1 e ≡ false) (supersede_from 12 1 resumed).1.events
    × (length (supersede_from 12 1 resumed).1.superseded_events
        ≡ length resumed.superseded_events + (supersede_from 12 1 resumed).0)
supersede_from_splits_example =
    supersede_from_splits 12 1 resumed ((refl, (refl, tt)), ((refl, tt), (tt, tt)))

abbrev said : Draft
said = draft agent_message "ada" 0 []

history-commit_example :
    (history (commit hashing said journal).1
      ≡ history journal ++ committed_now (commit hashing said journal).0)
    × InOrder (commit hashing said journal).1
    × IsFresh (commit hashing said journal).1
history-commit_example = history-commit hashing said journal tt tt

-- The same events, written by another attempt under other ids.
abbrev again : Event → Event
again e = record e { event_id = e.event_id + 10; attempt_id = 2 }

abbrev rerun : List Event
rerun = map again log

canonical_event_hash_of_settled_example :
    canonical_event_hash hashing log ≡ canonical_event_hash hashing rerun
canonical_event_hash_of_settled_example = canonical_event_hash_of_settled hashing log rerun refl

commit-ne-sequence_taken_example : (commit hashing said journal).0 ≢ raised sequence_taken
commit-ne-sequence_taken_example = commit-ne-sequence_taken hashing said journal tt

-- Another attempt of the run, which starts its journal over the store of the first.
abbrev second : Journal
second = record journal { store = (commit hashing said journal).1.store; attempt_id = 2 }

said-IsRetry : IsRetry said said journal second
said-IsRetry = record { run = refl; action = refl; kind = refl; actor = refl }

commit_retry_example :
    ((commit hashing said second).0 ≡ returned none)
    × ((commit hashing said second).1.store ≡ second.store)
    × ((commit hashing said second).1.sequence ≡ second.sequence)
    × ((commit hashing said second).1.logical_action_index ≡ suc second.logical_action_index)
unfolding commit append
commit_retry_example =
    commit_retry hashing said said journal second (build_event hashing said journal) said-IsRetry
      refl refl
