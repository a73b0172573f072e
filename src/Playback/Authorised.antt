-- ===== src/Playback/Authorised.antt =====
-- What a view plays back, it was allowed to see.
use multi_agent_testbed.Base.{
  ℕ, String, str_eq, ◌≡◌, refl, true, ◌||◌, Option, none, some, List, [], ◌∷◌, All, All-map,
  ==_refl, Bool-cases, inl, inr, arith, if◌then◌else◌,
}
use multi_agent_testbed.Contracts.Events.{
  Event, omniscient_view, same_visibility, visible_to, project, event_view, cons_some,
}
use multi_agent_testbed.Contracts.Enums.{is_public}
use multi_agent_testbed.Store.{Store, read}
use multi_agent_testbed.Playback.{same_hash, is_allowed, unauthorised_in, unauthorized_payloads}

-- Each event's hash is in the set.
AreAllowed : List Event → String → List Event → Type 0
AreAllowed stored view = All (λ e. is_allowed stored view e.payload_hash ≡ true)

same_hash_refl : (h : Option ℕ) → same_hash h h ≡ true
same_hash_refl none = refl
same_hash_refl (some n) = ==_refl n

-- What the view may see of the list is in the set.
Permitted : List Event → String → List Event → Type 0
Permitted stored view =
    All (λ e. visible_to e view ≡ true → is_allowed stored view e.payload_hash ≡ true)

all-Permitted : (es : List Event) (view : String) → Permitted es view es
unfolding Permitted
all-Permitted [] view = tt
all-Permitted (e ∷ es) view = (
  λ shown. rw (shown, same_hash_refl e.payload_hash) refl,
  All-map _ _ (λ f allowed shown. rw (allowed shown) (ground arith)) es (all-Permitted es view),
)

AllowedOption : List Event → String → Option Event → Type 0
AllowedOption stored view none = Unit
AllowedOption stored view (some e) = is_allowed stored view e.payload_hash ≡ true

project-AllowedOption :
    (stored : List Event) (e : Event) (view : String)
    → (visible_to e view ≡ true → is_allowed stored view e.payload_hash ≡ true)
    → AllowedOption stored view (project e view)
unfolding AllowedOption project
project-AllowedOption stored e view h = elim (Bool-cases (visible_to e view)) [
  | inr hidden ↦ rw hidden tt
  | inl shown ↦
      elim (Bool-cases
        (str_eq view omniscient_view || same_visibility e.visibility_policy is_public)) [
          | inl whole ↦ rw (shown, whole) (h shown)
          | inr cut ↦ rw (shown, cut) (h shown)
        ]
]

cons_some-AreAllowed :
    (stored : List Event) (view : String) (o : Option Event) (es : List Event)
    → AllowedOption stored view o
    → AreAllowed stored view es
    → AreAllowed stored view (cons_some o es)
unfolding AllowedOption AreAllowed
cons_some-AreAllowed stored view none es h hs = hs
cons_some-AreAllowed stored view (some e) es h hs = (h, hs)

event_view-AreAllowed :
    (stored es : List Event) (view : String)
    → Permitted stored view es
    → AreAllowed stored view (event_view es view)
unfolding Permitted AreAllowed event_view
event_view-AreAllowed stored [] view h = tt
event_view-AreAllowed stored (e ∷ es) view h =
    cons_some-AreAllowed stored view (project e view) (event_view es view)
      (project-AllowedOption stored e view h.0) (event_view-AreAllowed stored es view h.1)

unauthorised_in-cons :
    (stored es : List Event) (view : String) (o : Option ℕ)
    → is_allowed stored view o ≡ true
    → unauthorised_in stored view es ≡ []
    → elim o [
      | none ↦ unauthorised_in stored view es
      | some n ↦
          if is_allowed stored view (some n)
          then unauthorised_in stored view es
          else n ∷ unauthorised_in stored view es
    ]
      ≡ []
unauthorised_in-cons stored es view none k h = h
unauthorised_in-cons stored es view (some n) k h = rw k h

unauthorised_in-nil :
    (stored es : List Event) (view : String)
    → AreAllowed stored view es
    → unauthorised_in stored view es ≡ []
unfolding AreAllowed unauthorised_in
unauthorised_in-nil stored [] view h = refl
unauthorised_in-nil stored (e ∷ es) view h =
    unauthorised_in-cons stored es view e.payload_hash h.0 (unauthorised_in-nil stored es view h.1)

-- No view of any run, whatever is stored, holds a payload whose hash is not that of an event which
-- the view may see.
pub unauthorized_payloads-nil :
    (store : Store) (run_id : ℕ) (view : String) → unauthorized_payloads store run_id view ≡ []
unfolding unauthorized_payloads
unauthorized_payloads-nil store run_id view =
    unauthorised_in-nil (read run_id store) (event_view (read run_id store) view) view (
      event_view-AreAllowed (read run_id store) (read run_id store) view
        (all-Permitted (read run_id store) view))
