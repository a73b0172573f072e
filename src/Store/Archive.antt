-- ===== src/Store/Archive.antt =====
-- What `supersede_from` moves to the archive, and what it loses there.
use mathlib.Core.List.Perm
use multi_agent_testbed.Base.{
  ℕ, ◌≡◌, ◌+◌, refl, sym, ap, ◌∙◌, subst, append-nil, append_assoc, length-append, false, not, List,
  [], ◌∷◌, ◌++◌, All, All-filter_of, filter, filter-append-not-perm, Perm, Bool-cases, inl, inr,
  ==_refl, length, arith,
}
use multi_agent_testbed.Contracts.Events.{Event}
use multi_agent_testbed.Store.{Store, same_id, upsert, is_after, archive, supersede_from}

-- No two events have one id.
abbrev pub AreApart : List Event → Type 0
AreApart [] = Unit
AreApart (e ∷ es) = All (λ f. same_id e f ≡ false) es × AreApart es

same_id_comm : (e f : Event) → same_id e f ≡ false → same_id f e ≡ false
same_id_comm e f h = ground arith

-- What stands before an event has another id.
before_apart :
    (es rest : List Event) (e : Event)
    → AreApart (es ++ e ∷ rest)
    → All (λ f. same_id e f ≡ false) es
before_apart [] rest e apart = tt
before_apart (f ∷ es) rest e apart =
    (same_id_comm f e (head es apart.0), before_apart es rest e apart.1)
  where
    head : (xs : List Event) → All (λ g. same_id f g ≡ false) (xs ++ e ∷ rest) → same_id f e ≡ false
    head [] h = h.0
    head (x ∷ xs) h = head xs h.1

filter_kept :
    (e : Event) (es : List Event)
    → All (λ f. same_id e f ≡ false) es
    → filter (λ f. not (same_id e f)) es ≡ es
filter_kept e [] h = refl
filter_kept e (f ∷ es) h = rw (h.0, filter_kept e es h.1) refl

archive-apart : (rows es : List Event) → AreApart (es ++ rows) → archive rows es ≡ es ++ rows
unfolding archive upsert
archive-apart [] es apart = sym (append-nil es)
archive-apart (row ∷ rows) es apart =
    ap (λ kept. archive rows (kept ++ row ∷ []))
      (filter_kept row es (before_apart es rows row apart))
    ∙ archive-apart rows (es ++ row ∷ [])
        (subst AreApart (sym (append_assoc es (row ∷ []) rows)) apart)
    ∙ append_assoc es (row ∷ []) rows

-- None of the run's events at or after the sequence stays.
pub supersede_from-none_after :
    (run_id sequence : ℕ) (s : Store)
    → All (λ e. is_after run_id sequence e ≡ false) (supersede_from run_id sequence s).1.events
unfolding supersede_from
supersede_from-none_after run_id sequence s =
    All-filter_of (λ e. is_after run_id sequence e ≡ false) (λ e. not (is_after run_id sequence e))
      (λ e h. ground arith) s.events

-- Superseding loses nothing: where no two of the events archived before and of the run's at or after
-- the sequence have one id, those of the run are appended to the archive in the order of the log; they
-- and the events that stay are all there were; none of the run's at or after the sequence stays; and
-- the count is that of the events moved.
pub supersede_from_splits :
    (run_id sequence : ℕ) (s : Store)
    → AreApart (s.superseded_events ++ filter (is_after run_id sequence) s.events)
    → ((supersede_from run_id sequence s).1.superseded_events
        ≡ s.superseded_events ++ filter (is_after run_id sequence) s.events)
      × Perm
          ((supersede_from run_id sequence s).1.superseded_events
            ++ (supersede_from run_id sequence s).1.events)
          (s.superseded_events ++ s.events)
      × All (λ e. is_after run_id sequence e ≡ false) (supersede_from run_id sequence s).1.events
      × (length (supersede_from run_id sequence s).1.superseded_events
          ≡ length s.superseded_events + (supersede_from run_id sequence s).0)
unfolding supersede_from
supersede_from_splits run_id sequence s apart =
    let moved = filter (is_after run_id sequence) s.events in
    let archived = archive-apart moved s.superseded_events apart in
    (
      archived,
      rw (archived, append_assoc s.superseded_events moved _)
          (Perm.append_left s.superseded_events
            (filter-append-not-perm (is_after run_id sequence) s.events)),
      supersede_from-none_after run_id sequence s,
      rw archived (length-append s.superseded_events moved),
    )

filter-upsert : (e : Event) (es : List Event) → filter (same_id e) (upsert same_id e es) ≡ e ∷ []
unfolding upsert
filter-upsert e [] = rw (==_refl e.event_id)
filter-upsert e (f ∷ es) = elim (Bool-cases (same_id e f)) [
  | inl h ↦ rw h (filter-upsert e es)
  | inr h ↦ rw (h, h) (filter-upsert e es)
]

archive-snoc :
    (e : Event) (rows es : List Event)
    → archive (rows ++ e ∷ []) es ≡ upsert same_id e (archive rows es)
unfolding archive
archive-snoc e [] es = refl
archive-snoc e (r ∷ rows) es = archive-snoc e rows (upsert same_id r es)

-- The archive keeps one event of an id: when the last event to be archived has the id of an event
-- that an earlier resume archived, the earlier one is no longer there, whatever it held.
pub supersede_from_overwrites :
    (run_id sequence : ℕ) (s : Store) (rows : List Event) (e : Event)
    → filter (is_after run_id sequence) s.events ≡ rows ++ e ∷ []
    → filter (same_id e) (supersede_from run_id sequence s).1.superseded_events ≡ e ∷ []
unfolding supersede_from
supersede_from_overwrites run_id sequence s rows e h =
    rw (h, archive-snoc e rows s.superseded_events)
      (filter-upsert e (archive rows s.superseded_events))
