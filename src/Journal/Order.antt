-- ===== src/Journal/Order.antt =====
-- The log as an abstract list: reading it back gives the events in the order they were committed.
use multi_agent_testbed.Base.{
  ℕ, ◌≤◌, ◌<◌, ◌≡◌, ◌≢◌, refl, sym, ◌∙◌, Bool, true, false, Option, some, List, [], ◌∷◌, ◌++◌, All,
  append-nil, filter-append, sort_by, insert_by, ◌==◌, ==_iff, ==_refl, leb, Bool-cases, inl, inr,
  ◌⊎◌, Outcome, returned, raised, arith,
}
use multi_agent_testbed.Contracts.Ids.{Hashing}
use multi_agent_testbed.Contracts.Events.{Event}
use multi_agent_testbed.Store.{Store, StoreError, append, of_run, read}
use multi_agent_testbed.Journal.{Journal, Draft, commit, build_event, after_append, action_key}
use multi_agent_testbed.Journal.Commit.{IsFresh, append_cases, commit-IsFresh}

-- Each event's sequence number is at most that of every later one.
abbrev pub IsAscending : List Event → Type 0
IsAscending [] = Unit
IsAscending (e ∷ es) = All (λ f. e.sequence ≤ f.sequence) es × IsAscending es

abbrev earlier : Event → Event → Bool
earlier a b = leb a.sequence b.sequence

insert_first :
    (e : Event) (es : List Event)
    → All (λ f. e.sequence ≤ f.sequence) es
    → insert_by earlier e es ≡ e ∷ es
unfolding insert_by
insert_first e [] h = refl
insert_first e (f ∷ es) h = ground (arith, h.0)

sort-ascending : (es : List Event) → IsAscending es → sort_by earlier es ≡ es
unfolding sort_by
sort-ascending [] h = refl
sort-ascending (e ∷ es) h = rw (sort-ascending es h.1) (insert_first e es h.0)

All-snoc-le :
    (e f : Event) (es : List Event)
    → All (λ g. f.sequence ≤ g.sequence) es
    → f.sequence ≤ e.sequence
    → All (λ g. f.sequence ≤ g.sequence) (es ++ e ∷ [])
All-snoc-le e f [] h k = (k, tt)
All-snoc-le e f (g ∷ es) h k = (h.0, All-snoc-le e f es h.1 k)

IsAscending-snoc :
    (e : Event) (es : List Event)
    → IsAscending es
    → All (λ f. f.sequence ≤ e.sequence) es
    → IsAscending (es ++ e ∷ [])
IsAscending-snoc e [] h k = (tt, tt)
IsAscending-snoc e (f ∷ es) h k = (All-snoc-le e f es h.0 k.0, IsAscending-snoc e es h.1 k.1)

-- The run's events stand in the log in the order of their sequence numbers.
abbrev pub InOrder : Journal → Type 0
InOrder j = IsAscending (of_run j.run_id j.store.events)

run_before :
    (run_id n : ℕ) (es : List Event)
    → All (λ e. e.run_id ≡ run_id → e.sequence < n) es
    → All (λ e. e.sequence ≤ n) (of_run run_id es)
run_before run_id n [] h = tt
run_before run_id n (e ∷ es) h = elim (Bool-cases (e.run_id == run_id)) [
  | inl same ↦
      let early = h.0 ((==_iff e.run_id run_id).0 same) in
      rw same (omega (arith, early), run_before run_id n es h.1)
  | inr other ↦ rw other (run_before run_id n es h.1)
]

-- What a commit says it has committed.
abbrev pub committed_now : Outcome StoreError (Option Event) → List Event
committed_now (returned (some e)) = e ∷ []
committed_now _ = []

-- The abstract view of a journal: what its run reads back, in order.
abbrev pub history : Journal → List Event
history j = read j.run_id j.store

of_run-snoc :
    (e : Event) (es : List Event) → of_run e.run_id (es ++ e ∷ []) ≡ of_run e.run_id es ++ e ∷ []
of_run-snoc e es =
    filter-append (λ f. f.run_id == e.run_id) es (e ∷ []) ∙ rw (==_refl e.run_id) refl

after_append-history :
    (e : Event) (key : ℕ) (j : Journal) (r : Outcome StoreError Bool) (s : Store)
    → e.run_id ≡ j.run_id
    → e.sequence ≡ j.sequence
    → IsFresh j
    → InOrder j
    → ((s ≡ j.store) × (r ≢ returned true))
      ⊎ ((r ≡ returned true) × (s.events ≡ j.store.events ++ e ∷ []))
    → (history (after_append e key j (r, s)).1
        ≡ history j ++ committed_now (after_append e key j (r, s)).0)
      × InOrder (after_append e key j (r, s)).1
unfolding read
after_append-history e key j (raised x) s hr hs f o (inl (same, _)) =
    (rw same (sym (append-nil _)), rw same o)
after_append-history e key j (raised x) s hr hs f o (inr (bad, _)) = cc
after_append-history e key j (returned false) s hr hs f o (inl (same, _)) =
    (rw same (sym (append-nil _)), rw same o)
after_append-history e key j (returned false) s hr hs f o (inr (bad, _)) = cc
after_append-history e key j (returned true) s hr hs f o (inl (_, no_way)) = absurd (no_way refl)
after_append-history e key j (returned true) s hr hs f o (inr (_, longer)) =
    let grown : of_run j.run_id s.events ≡ of_run j.run_id j.store.events ++ e ∷ [] =
      rw (longer, sym hr) (of_run-snoc e j.store.events) in
    let ordered : IsAscending (of_run j.run_id j.store.events ++ e ∷ []) =
      IsAscending-snoc e (of_run j.run_id j.store.events) o
        (rw hs (run_before j.run_id j.sequence j.store.events f)) in
    (rw (grown, sort-ascending _ ordered, sort-ascending _ o) refl, rw grown ordered)

-- A commit does to the log what the abstract journal says: from a journal that is ahead of its
-- log, whose events stand in the order of their sequence numbers, the run reads back what it read
-- back before, followed by the event the commit says it has committed, if any; the events
-- stand in order again, and the journal is ahead of the log again.
pub history-commit :
    (h : Hashing) (d : Draft) (j : Journal)
    → IsFresh j
    → InOrder j
    → (history (commit h d j).1 ≡ history j ++ committed_now (commit h d j).0)
      × InOrder (commit h d j).1
      × IsFresh (commit h d j).1
unfolding commit
history-commit h d j f o =
    let (read_back, ordered) =
      after_append-history (build_event h d j)
        (action_key h j.run_id j.logical_action_index d.kind d.actor_id) j
        (append (build_event h d j) j.store).0 (append (build_event h d j) j.store).1 refl refl f o
        (append_cases (build_event h d j) j.store) in
    (read_back, ordered, commit-IsFresh h d j f)
