-- ===== src/Store/Log.antt =====
-- The event log: what `append` and `supersede_from` keep of its three unique indexes.
use multi_agent_testbed.Base.{
  ℕ, ◌≡◌, Bool, true, false, not, ◌||◌, List, [], ◌∷◌, ◌++◌, All, All-filter, any, filter,
  Bool-cases, inl, inr, returned, arith, All-append,
}
use multi_agent_testbed.Contracts.Events.{Event}
use multi_agent_testbed.Store.{
  Store, same_key, same_sequence, same_id, append, is_after, supersede_from,
}

-- Two events that one run cannot both have committed, or that share an id.
abbrev pub clashes : Event → Event → Bool
clashes e f = same_key e f || same_sequence e f || same_id e f

-- Every unique index of the table holds: no two rows clash.
abbrev pub IsLog : List Event → Type 0
IsLog [] = Unit
IsLog (e ∷ es) = All (λ f. clashes e f ≡ false) es × IsLog es

clashes_comm : (e f : Event) → clashes e f ≡ false → clashes f e ≡ false
clashes_comm e f h = ground arith

any-false-All :
    (e : Event) (es : List Event)
    → any (same_key e) es ≡ false
    → any (same_sequence e) es ≡ false
    → any (same_id e) es ≡ false
    → All (λ f. clashes f e ≡ false) es
any-false-All e [] h k l = tt
any-false-All e (f ∷ es) h k l = (
  clashes_comm e f (ground arith),
  any-false-All e es (ground arith) (ground arith) (ground arith),
)

IsLog-snoc :
    (e : Event) (es : List Event)
    → All (λ f. clashes f e ≡ false) es
    → IsLog es
    → IsLog (es ++ e ∷ [])
IsLog-snoc e [] h log = (tt, tt)
IsLog-snoc e (f ∷ es) h log =
    (All-append (λ g. clashes f g ≡ false) es (e ∷ []) log.0 (h.0, tt), IsLog-snoc e es h.1 log.1)

IsLog-filter : (p : Event → Bool) (es : List Event) → IsLog es → IsLog (filter p es)
IsLog-filter p [] log = tt
IsLog-filter p (e ∷ es) log = elim (Bool-cases (p e)) [
  | inl h ↦ rw h (All-filter (λ f. clashes e f ≡ false) p es log.0, IsLog-filter p es log.1)
  | inr h ↦ rw h (IsLog-filter p es log.1)
]

-- `append` keeps every unique index: for one run no idempotency key and no sequence number is ever
-- stored twice, and no event id at all.
pub append-IsLog : (e : Event) (s : Store) → IsLog s.events → IsLog (append e s).1.events
unfolding append
append-IsLog e s log = elim (Bool-cases (any (same_key e) s.events)) [
  | inl k ↦ rw (k, append) log
  | inr k ↦ elim (Bool-cases (any (same_sequence e) s.events)) [
    | inl q ↦ rw (k, q, append) log
    | inr q ↦ elim (Bool-cases (any (same_id e) s.events)) [
      | inl i ↦ rw (k, q, i, append) log
      | inr i ↦ rw (k, q, i, append) (IsLog-snoc e s.events (any-false-All e s.events k q i) log)
    ]
  ]
]

-- So does `supersede_from`.
pub supersede_from-IsLog :
    (run_id sequence : ℕ) (s : Store)
    → IsLog s.events
    → IsLog (supersede_from run_id sequence s).1.events
unfolding supersede_from
supersede_from-IsLog run_id sequence s log =
    IsLog-filter (λ e. not (is_after run_id sequence e)) s.events log

any-snoc :
    (p : Event → Bool) (e : Event) (es : List Event) → p e ≡ true → any p (es ++ e ∷ []) ≡ true
any-snoc p e [] h = ground arith
any-snoc p e (f ∷ es) h = ground (arith, any-snoc p e es h)

-- Once an event is committed, an event of the same run with the same idempotency key is rejected,
-- whatever else differs in it, and changes nothing.
pub append_retry :
    (e f : Event) (s : Store)
    → (append e s).0 ≡ returned true
    → same_key f e ≡ true
    → append f (append e s).1 ≡ (returned false, (append e s).1)
unfolding append
append_retry e f s h k = ground (arith, any-snoc (same_key f) e s.events k)
