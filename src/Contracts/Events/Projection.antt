-- ===== src/Contracts/Events/Projection.antt =====
-- What a view of the log contains (testbed_contracts/events.py).
use multi_agent_testbed.Base.{
  String, ◌≡◌, ◌≢◌, refl, sym, ap, ◌∙◌, false, Option, none, some, List, [], ◌∷◌, ◌++◌, All, filter,
  Bool-cases, inl, inr, ◌⊎◌, eq_iff, eq_refl, arith,
}
use multi_agent_testbed.Contracts.Enums.{is_public, omniscient_only}
use multi_agent_testbed.Contracts.Events.{
  Event, omniscient_view, public_view, visible_to, project, event_view, cons_some,
}

-- What an event may look like in a view other than `omniscient`: public, or a non-public event
-- whose list of viewers has been cut down to this one.
abbrev pub MayShow : String → Event → Type 0
MayShow view e =
    (e.visibility_policy ≡ is_public)
    ⊎ ((e.visibility_policy ≢ omniscient_only)
        × (e.authorized_view_ids ≡ view ∷ [])
        × (view ≢ public_view))

abbrev AllShow : String → Option Event → Type 0
AllShow view none = Unit
AllShow view (some e) = MayShow view e

project-AllShow :
    (e : Event) (view : String) → view ≢ omniscient_view → AllShow view (project e view)
unfolding project
project-AllShow e view h = ground (arith, eq_iff view omniscient_view, eq_iff view public_view)

cons_some-All :
    (view : String) (o : Option Event) (es : List Event)
    → AllShow view o
    → All (MayShow view) es
    → All (MayShow view) (cons_some o es)
cons_some-All view none es h hs = hs
cons_some-All view (some e) es h hs = (h, hs)

-- For every view but `omniscient`, each event in it is public, or is not `omniscient_only`, lists
-- this view alone as authorised, and the view is not the public one.
pub event_view-MayShow :
    (es : List Event) (view : String)
    → view ≢ omniscient_view
    → All (MayShow view) (event_view es view)
unfolding event_view
event_view-MayShow [] view h = tt
event_view-MayShow (e ∷ es) view h =
    cons_some-All view (project e view) (event_view es view) (project-AllShow e view h)
      (event_view-MayShow es view h)

project-none : (e : Event) (view : String) → visible_to e view ≡ false → project e view ≡ none
unfolding project
project-none e view h = rw h

event_view-filter :
    (es : List Event) (view : String)
    → event_view (filter (λ e. visible_to e view) es) view ≡ event_view es view
unfolding event_view
event_view-filter [] view = refl
event_view-filter (e ∷ es) view = elim (Bool-cases (visible_to e view)) [
  | inl shown ↦ rw shown (ap (cons_some (project e view)) (event_view-filter es view))
  | inr hidden ↦ rw (hidden, project-none e view hidden) (event_view-filter es view)
]

-- Two logs that agree on the events a view may see give the same view: nothing hidden, not its
-- content, its number nor its place, shows in it.
pub event_view_noninterference :
    (es fs : List Event) (view : String)
    → filter (λ e. visible_to e view) es ≡ filter (λ e. visible_to e view) fs
    → event_view es view ≡ event_view fs view
event_view_noninterference es fs view h =
    sym (event_view-filter es view) ∙ ap (λ l. event_view l view) h ∙ event_view-filter fs view

-- The view `omniscient` is the whole log, unchanged, whatever the visibility of its events.
pub event_view-omniscient : (es : List Event) → event_view es omniscient_view ≡ es
unfolding event_view project visible_to
event_view-omniscient [] = refl
event_view-omniscient (e ∷ es) = ap (◌∷◌ e) (event_view-omniscient es)

cons_some-append :
    (o : Option Event) (es fs : List Event) → cons_some o es ++ fs ≡ cons_some o (es ++ fs)
cons_some-append none es fs = refl
cons_some-append (some e) es fs = refl

-- The view of a longer log extends the view of the shorter one.
event_view-append :
    (es fs : List Event) (view : String)
    → event_view (es ++ fs) view ≡ event_view es view ++ event_view fs view
unfolding event_view
event_view-append [] fs view = refl
event_view-append (e ∷ es) fs view =
    ap (cons_some (project e view)) (event_view-append es fs view)
    ∙ sym (cons_some-append (project e view) (event_view es view) (event_view fs view))

abbrev ProjectsAgain : String → Option Event → Type 0
ProjectsAgain view none = Unit
ProjectsAgain view (some f) = project f view ≡ some f

project-ProjectsAgain : (e : Event) (view : String) → ProjectsAgain view (project e view)
unfolding project
project-ProjectsAgain e view =
    ground
      (arith, eq_iff view omniscient_view, eq_iff view public_view, eq_iff view view, eq_refl view)

again :
    (view : String) (es : List Event) (o : Option Event)
    → ProjectsAgain view o
    → event_view es view ≡ es
    → event_view (cons_some o es) view ≡ cons_some o es
unfolding event_view
again view es none h ih = ih
again view es (some f) h ih = rw h (ap (◌∷◌ f) ih)

-- Projecting a view into itself changes nothing.
event_view_idem :
    (es : List Event) (view : String) → event_view (event_view es view) view ≡ event_view es view
unfolding event_view
event_view_idem [] view = refl
event_view_idem (e ∷ es) view =
    again view (event_view es view) (project e view) (project-ProjectsAgain e view)
      (event_view_idem es view)
