-- ===== src/Journal/Commit.antt =====
-- What one commit does to the journal and to the log.
use multi_agent_testbed.Base.{
  ℕ, suc, ◌<◌, ◌≡◌, ◌≢◌, refl, Bool, true, false, ◌⊎◌, inl, inr, List, [], ◌∷◌, ◌++◌, All,
  All-append, All-map, any, Bool-cases, Outcome, returned, raised, arith,
}
use multi_agent_testbed.Contracts.Ids.{Hashing}
use multi_agent_testbed.Contracts.Events.{Event}
use multi_agent_testbed.Store.{
  Store, StoreError, sequence_taken, same_key, same_sequence, same_id, append,
}
use multi_agent_testbed.Journal.{Journal, Draft, commit, build_event, after_append, action_key}

-- Every stored event of the run stands before the journal's next sequence number.
abbrev pub IsFresh : Journal → Type 0
IsFresh j = All (λ e. e.run_id ≡ j.run_id → e.sequence < j.sequence) j.store.events

-- What a commit may have changed: the log is as it was, or one event longer, and the numbers of
-- the journal have moved on with it.
pub data Commits (j k : Journal) : Type 0 where
  unchanged : k.store.events ≡ j.store.events → k.sequence ≡ j.sequence → Commits j k
  appended :
      (e : Event)
      → k.store.events ≡ j.store.events ++ e ∷ []
      → e.run_id ≡ j.run_id
      → e.sequence ≡ j.sequence
      → k.sequence ≡ suc j.sequence
      → Commits j k

pub append_cases :
    (e : Event) (s : Store)
    → (((append e s).1 ≡ s) × ((append e s).0 ≢ returned true))
      ⊎ (((append e s).0 ≡ returned true) × ((append e s).1.events ≡ s.events ++ e ∷ []))
unfolding append
append_cases e s = elim (Bool-cases (any (same_key e) s.events)) [
  | inl k ↦ rw k (inl (refl, λ p. cc))
  | inr k ↦ elim (Bool-cases (any (same_sequence e) s.events)) [
    | inl q ↦ rw (k, q) (inl (refl, λ p. cc))
    | inr q ↦ elim (Bool-cases (any (same_id e) s.events)) [
      | inl i ↦ rw (k, q, i) (inl (refl, λ p. cc))
      | inr i ↦ rw (k, q, i) (inr (refl, refl))
    ]
  ]
]

after_append-Commits :
    (e : Event) (key : ℕ) (j : Journal) (r : Outcome StoreError Bool) (s : Store)
    → e.run_id ≡ j.run_id
    → e.sequence ≡ j.sequence
    → ((s ≡ j.store) × (r ≢ returned true))
      ⊎ ((r ≡ returned true) × (s.events ≡ j.store.events ++ e ∷ []))
    → Commits j (after_append e key j (r, s)).1
after_append-Commits e key j (raised x) s hr hs (inl (same, _)) = unchanged (rw same) refl
after_append-Commits e key j (raised x) s hr hs (inr (bad, _)) = cc
after_append-Commits e key j (returned false) s hr hs (inl (same, _)) = unchanged (rw same) refl
after_append-Commits e key j (returned false) s hr hs (inr (bad, _)) = cc
after_append-Commits e key j (returned true) s hr hs (inl (_, no_way)) = absurd (no_way refl)
after_append-Commits e key j (returned true) s hr hs (inr (_, longer)) =
    appended e longer hr hs refl

-- A commit leaves the log alone or puts one event at its end, with the next sequence number.
pub commit-Commits : (h : Hashing) (d : Draft) (j : Journal) → Commits j (commit h d j).1
unfolding commit
commit-Commits h d j =
    after_append-Commits (build_event h d j)
      (action_key h j.run_id j.logical_action_index d.kind d.actor_id) j
      (append (build_event h d j) j.store).0 (append (build_event h d j) j.store).1 refl refl
      (append_cases (build_event h d j) j.store)

after_append_run :
    (e : Event) (key : ℕ) (j : Journal) (r : Outcome StoreError Bool × Store)
    → ((after_append e key j r).1.run_id ≡ j.run_id) × ((after_append e key j r).1.store ≡ r.1)
after_append_run e key j (raised x, s) = (refl, refl)
after_append_run e key j (returned false, s) = (refl, refl)
after_append_run e key j (returned true, s) = (refl, refl)

pub run_id-commit : (h : Hashing) (d : Draft) (j : Journal) → (commit h d j).1.run_id ≡ j.run_id
unfolding commit
run_id-commit h d j = (after_append_run _ _ j (append (build_event h d j) j.store)).0

IsFresh-of_Commits : {j k : Journal} → k.run_id ≡ j.run_id → Commits j k → IsFresh j → IsFresh k
IsFresh-of_Commits {j} {k} same (unchanged log seq) f = rw (log, seq, same) f
IsFresh-of_Commits {j} {k} same (appended e log run at next) f =
    rw (log, next, same)
      (All-append (λ x. x.run_id ≡ j.run_id → x.sequence < suc j.sequence) j.store.events (e ∷ [])
        (All-map (λ x. x.run_id ≡ j.run_id → x.sequence < j.sequence)
          (λ x. x.run_id ≡ j.run_id → x.sequence < suc j.sequence) (λ x p q. omega (arith, p q))
          j.store.events f)
        (λ q. omega arith, tt))

-- A commit keeps the journal ahead of the log.
pub commit-IsFresh : (h : Hashing) (d : Draft) (j : Journal) → IsFresh j → IsFresh (commit h d j).1
commit-IsFresh h d j f = IsFresh-of_Commits (run_id-commit h d j) (commit-Commits h d j) f

fresh→free :
    (e : Event) (n : ℕ) (es : List Event)
    → e.sequence ≡ n
    → All (λ x. x.run_id ≡ e.run_id → x.sequence < n) es
    → any (same_sequence e) es ≡ false
fresh→free e n [] h f = refl
fresh→free e n (x ∷ es) h f = ground (arith, f.0, fresh→free e n es h f.1)

-- While the journal is ahead of the log, no commit fails because its sequence number is taken.
pub commit-ne-sequence_taken :
    (h : Hashing) (d : Draft) (j : Journal) → IsFresh j → (commit h d j).0 ≢ raised sequence_taken
unfolding commit append
commit-ne-sequence_taken h d j f =
    let free : any (same_sequence (build_event h d j)) j.store.events ≡ false =
      fresh→free (build_event h d j) j.sequence j.store.events refl f in
    elim (Bool-cases (any (same_key (build_event h d j)) j.store.events)) [
      | inl k ↦ rw (k, commit) (λ p. cc)
      | inr k ↦ elim (Bool-cases (any (same_id (build_event h d j)) j.store.events)) [
        | inl i ↦ rw (k, free, i, commit) (λ p. cc)
        | inr i ↦ rw (k, free, i, commit) (λ p. cc)
      ]
    ]
