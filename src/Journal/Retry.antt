-- ===== src/Journal/Retry.antt =====
-- Why a retry is harmless: the key of a logical action does not see the attempt.
use multi_agent_testbed.Base.{
  ℕ, suc, ◌≡◌, refl, Bool, true, false, none, some, ==_refl, Outcome, returned, raised, arith,
}
use multi_agent_testbed.Contracts.Ids.{Hashing}
use multi_agent_testbed.Contracts.Events.{Event}
use multi_agent_testbed.Store.{Store, StoreError, append, same_key}
use multi_agent_testbed.Store.Log.{append_retry}
use multi_agent_testbed.Journal.{Journal, Draft, commit, build_event, after_append, action_key}

-- The journal of another attempt: the same run and the same logical action.
pub record IsRetry (d e : Draft) (j k : Journal) : Type 0 where
  pub run : k.run_id ≡ j.run_id
  pub action : k.logical_action_index ≡ j.logical_action_index
  pub kind : e.kind ≡ d.kind
  pub actor : e.actor_id ≡ d.actor_id

same_key_of_retry :
    (h : Hashing) (d e : Draft) (j k : Journal)
    → IsRetry d e j k
    → same_key (build_event h e k) (build_event h d j) ≡ true
unfolding build_event
same_key_of_retry h d e j k r =
    rw (r.run, r.action, r.kind, r.actor)
      (ground (
        arith,
        ==_refl j.run_id,
        ==_refl (action_key h j.run_id j.logical_action_index d.kind d.actor_id),
      ))

after_append-returned :
    (e : Event) (key : ℕ) (j : Journal) (r : Outcome StoreError Bool × Store) {f : Event}
    → (after_append e key j r).0 ≡ returned (some f)
    → (r.0 ≡ returned true) × ((after_append e key j r).1.store ≡ r.1)
after_append-returned e key j (raised x, s) p = cc
after_append-returned e key j (returned false, s) p = cc
after_append-returned e key j (returned true, s) p = (refl, refl)

-- Once one attempt has committed a logical action, another attempt of the run that reaches the
-- same action, over the store that the first one left, commits nothing: it gets `none`, the log
-- stays as it is, and it goes on to the next action.
pub commit_retry :
    (h : Hashing) (d e : Draft) (j k : Journal) (f : Event)
    → IsRetry d e j k
    → (commit h d j).0 ≡ returned (some f)
    → k.store ≡ (commit h d j).1.store
    → ((commit h e k).0 ≡ returned none)
      × ((commit h e k).1.store ≡ k.store)
      × ((commit h e k).1.sequence ≡ k.sequence)
      × ((commit h e k).1.logical_action_index ≡ suc k.logical_action_index)
unfolding commit
commit_retry h d e j k f r done left =
    let (accepted, stored) =
      after_append-returned _ _ j (append (build_event h d j) j.store) done in
    let again : append (build_event h e k) k.store ≡ (returned false, k.store) =
      rw (left, stored)
        (append_retry (build_event h d j) (build_event h e k) j.store accepted
          (same_key_of_retry h d e j k r)) in
    rw again (refl, refl, refl, refl)
