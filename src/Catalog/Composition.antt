-- ===== src/Catalog/Composition.antt =====
-- src/testbed_cli/integrations.py and the composition root, src/testbed_cli/composition.py: what a
-- manifest names is looked up, and refused when it is not usable. Left out: discovery through entry
-- points, the workspace and the sandbox object.
use multi_agent_testbed.Base.{
  String, Bool, true, false, Option, none, some, List, [], ◌∷◌, Dict, keys, lookup, if◌then◌else◌,
  Outcome, returned, raised, filter, sort_by, str_le, str_eq,
}
use multi_agent_testbed.Catalog.Availability.{
  Availability, IntegrationState, active, disabled, not_installed, no_adapter, usable,
  IntegrationIndex, for_plugin,
}

pub data CompositionError : Type 0 where
  integration_unavailable : String → String → Availability → CompositionError
  no_plugin : String → String → List String → CompositionError
  configuration_refused : CompositionError

-- `check_available`: a plug-in that no record knows passes.
unfoldable pub check_available : IntegrationIndex → String → String → Outcome CompositionError Unit
unfolding usable for_plugin
check_available index group name = elim (for_plugin index group name) [
  | none ↦ returned tt
  | some status ↦
      if usable status then returned tt else raised (integration_unavailable group name status)
]

abbrev state_text : IntegrationState → String
state_text active = "active"
state_text disabled = "disabled"
state_text not_installed = "not_installed"
state_text no_adapter = "no_adapter"

abbrev has_adapter : IntegrationState → Bool
has_adapter no_adapter = false
has_adapter _ = true

abbrev row_le : String × Availability → String × Availability → Bool
row_le a b =
    if str_eq (state_text a.1.state) (state_text b.1.state)
    then str_le a.0 b.0
    else str_le (state_text a.1.state) (state_text b.1.state)

-- `describe`: every integration that has, or could have, a switch
unfoldable pub describe : IntegrationIndex → List (String × Availability)
describe index = sort_by row_le (filter (λ row. has_adapter row.1.state) index.status)

-- An exception ends the statements that follow it.
infixl 5 ◌then_do◌
abbrev pub ◌then_do◌ : {E A B : Type 0} → Outcome E A → (A → Outcome E B) → Outcome E B
returned a then_do f = f a
raised e then_do f = raised e

abbrev pub registered : {A : Type 0} → Option A → CompositionError → Outcome CompositionError A
registered none error = raised error
registered (some found) error = returned found

-- `_resolve`; the error names the group and lists what there is.
unfoldable pub resolve :
    {A : Type 0} → Dict A → String → String → IntegrationIndex → Outcome CompositionError A
unfolding check_available
resolve registry group name index = check_available index group name then_do λ _.
    registered (lookup name registry) (no_plugin group name (sort_by str_le (keys registry)))

-- The registry of plug-ins, with the kinds of plug-in that a composition uses.
pub record Registry (P T R : Type 0) : Type 0 where
  pub packs : Dict P
  pub topologies : Dict T
  pub runners : Dict R

-- What a manifest names. `compose` does not look at the scorers: `score_run` does, without the
-- catalog.
pub record Named : Type 0 where
  pub task_pack : String
  pub topology : String
  pub runner : String
  pub adapters : List String
  pub scorers : List String

pub record Composed (P T R : Type 0) : Type 0 where
  pub pack : P
  pub topology : T
  pub runner : R

-- `for spec in manifest.agents: check_available(index, "agents", spec.adapter)`
unfoldable pub check_adapters : IntegrationIndex → List String → Outcome CompositionError Unit
unfolding check_available
check_adapters index [] = returned tt
check_adapters index (adapter ∷ rest) =
    check_available index "agents" adapter then_do λ _. check_adapters index rest

-- `compose`; a pack shapes itself to the manifest's configuration by a function of its own.
unfoldable pub compose :
    {P T R : Type 0}
    → (P → Outcome CompositionError P)
    → Registry P T R
    → IntegrationIndex
    → Named
    → Outcome CompositionError (Composed P T R)
unfolding resolve check_adapters
compose configured registry index m =
    resolve registry.packs "packs" m.task_pack index then_do λ found.
    configured found then_do λ pack.
    resolve registry.topologies "topologies" m.topology index then_do λ topology.
    resolve registry.runners "runners" m.runner index then_do λ runner.
    check_adapters index m.adapters then_do λ _.
    returned (record { pack = pack; topology = topology; runner = runner })
