-- ===== src/World/Hidden.antt =====
-- What an agent's observation never shows.
use multi_agent_testbed.Base.{
  String, ◌≡◌, refl, sym, ap, ◌∙◌, true, false, none, some, [], ◌∷◌, Dict, lookup, insert, update,
  filter, if◌then◌else◌, str_eq, str_eq→eq, starts_with, Bool-cases, inl, inr, str_eq_subst,
}
use multi_agent_testbed.Contracts.Ids.{Json, object}
use multi_agent_testbed.World.State.{World, visible_state, is_shown, facts_of}

lookup-insert_ne :
    (k name : String) (v : Json) (d : Dict Json)
    → str_eq name k ≡ false
    → lookup k (insert name v d) ≡ lookup k d
unfolding lookup insert
lookup-insert_ne k name v [] h = rw h refl
lookup-insert_ne k name v ((key, old) ∷ d) h = elim (Bool-cases (str_eq key name)) [
  | inl same ↦
      let differs = sym (str_eq_subst key name k same) ∙ h in rw (same, lookup, differs) refl
  | inr other ↦
      rw (other, lookup)
        (ap (λ o. if str_eq key k then some old else o) (lookup-insert_ne k name v d h))
]

absent-cons :
    (k name : String) (v : Json) (d : Dict Json)
    → lookup k ((name, v) ∷ d) ≡ none
    → (str_eq name k ≡ false) × (lookup k d ≡ none)
unfolding lookup
absent-cons k name v d h = elim (Bool-cases (str_eq name k)) [
  | inl same ↦ let bad = rw same at h in cc
  | inr other ↦ (other, rw other at h)
]

lookup-update-none :
    (k : String) (d e : Dict Json)
    → lookup k d ≡ none
    → lookup k e ≡ none
    → lookup k (update d e) ≡ none
unfolding update
lookup-update-none k d [] h n = h
lookup-update-none k d ((name, v) ∷ e) h n =
    let (differs, rest) = absent-cons k name v e n in
    lookup-update-none k (insert name v d) e (lookup-insert_ne k name v d differs ∙ h) rest

shown-differs :
    (k name : String)
    → starts_with k "_" ≡ true
    → starts_with name "_" ≡ false
    → str_eq name k ≡ false
shown-differs k name h shown = elim (Bool-cases (str_eq name k)) [
  | inl e ↦ let same = ap (λ z. starts_with z "_") (str_eq→eq name k e) in cc
  | inr e ↦ e
]

-- Of the state, no key that begins with an underscore is shown.
lookup-shown-none :
    (k : String) (d : Dict Json) → starts_with k "_" ≡ true → lookup k (filter is_shown d) ≡ none
unfolding lookup
lookup-shown-none k [] h = refl
lookup-shown-none k ((name, v) ∷ d) h = elim (Bool-cases (starts_with name "_")) [
  | inl hidden ↦ rw hidden (lookup-shown-none k d h)
  | inr shown ↦ rw (shown, shown-differs k name h shown) (lookup-shown-none k d h)
]

-- An agent never observes a part of the state whose key begins with an underscore: whatever the
-- World's state holds under such a key, the observation has nothing there, unless the key is that
-- of the agent's own private facts or a public fact has it.
pub visible_state-hides :
    (agent_id : String) (w : World) (k : String)
    → starts_with k "_" ≡ true
    → str_eq "_private" k ≡ false
    → lookup k w.public_facts ≡ none
    → lookup k (visible_state agent_id w) ≡ none
unfolding visible_state lookup
visible_state-hides agent_id w k hidden other public =
    lookup-insert_ne k "_private" (object (facts_of agent_id w.private_facts))
      (update (update [] (filter is_shown w.state)) w.public_facts) other
    ∙ lookup-update-none k (update [] (filter is_shown w.state)) w.public_facts
        (lookup-update-none k [] (filter is_shown w.state) refl
          (lookup-shown-none k w.state hidden))
        public
