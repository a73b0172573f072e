-- ===== src/Contracts/Manifest/Validation.antt =====
-- What the validators of the manifest guarantee, and the reproducibility that a run may claim.
use multi_agent_testbed.Base.{
  ◌≤◌, String, ◌≡◌, ◌≢◌, true, false, not, none, List, [], ◌∷◌, All, any, keys, contains,
  Bool-cases, inl, inr, arith,
}
use multi_agent_testbed.Contracts.Enums.{ReproducibilityLevel, bit_exact, reproducibility_index}
use multi_agent_testbed.Contracts.Manifest.{
  AgentSpec, ExperimentManifest, check_agents, has_duplicates, agent_ids, worst_level,
  declared_reproducibility, weaker,
}

not-any-All :
    (ids ks : List String)
    → any (λ k. not (contains ids k)) ks ≡ false
    → All (λ k. contains ids k ≡ true) ks
not-any-All ids [] h = tt
not-any-All ids (k ∷ ks) h = elim (Bool-cases (contains ids k)) [
  | inl e ↦ (e, not-any-All ids ks (rw e at h))
  | inr e ↦ absurd (ground arith)
]

-- A manifest that the validator accepts has an agent, has no two agents of one id, and addresses
-- private facts to its own agents only.
check_agents_sound :
    (m : ExperimentManifest)
    → check_agents m ≡ none
    → (m.agents ≢ [])
      × (has_duplicates (agent_ids m) ≡ false)
      × All (λ k. contains (agent_ids m) k ≡ true) (keys m.world.information.private_facts)
unfolding check_agents
check_agents_sound m h = (
  λ e. ground (arith),
  ground arith,
  not-any-All (agent_ids m) (keys m.world.information.private_facts) (ground arith),
)

worst_level_bounds :
    (worst : ReproducibilityLevel) (specs : List AgentSpec)
    → (reproducibility_index worst ≤ reproducibility_index (worst_level worst specs))
      × All
          (λ a.
            reproducibility_index a.reproducibility
            ≤ reproducibility_index (worst_level worst specs))
          specs
unfolding worst_level
worst_level_bounds worst [] = (omega arith, tt)
worst_level_bounds worst (a ∷ specs) =
    let (up, rest) = worst_level_bounds (weaker worst a.reproducibility) specs in
    (ground (arith, up), (ground (arith, up), rest))

-- A run never claims more than its weakest agent: the declared level is at least as weak as each
-- agent's.
pub declared_reproducibility_weakest :
    (m : ExperimentManifest)
    → All
        (λ a.
          reproducibility_index a.reproducibility
          ≤ reproducibility_index (declared_reproducibility m))
        m.agents
unfolding declared_reproducibility
declared_reproducibility_weakest m = (worst_level_bounds bit_exact m.agents).1
