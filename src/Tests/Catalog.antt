-- ===== src/Tests/Catalog.antt =====
-- The catalog, its switches and the composition root at concrete inputs.
use multi_agent_testbed.Base.{
  String, ◌≡◌, ◌↔◌, refl, true, false, ◌&&◌, none, some, [], ◌∷◌, lookup, All, if◌then◌else◌,
  str_eq, returned,
}
use multi_agent_testbed.Contracts.Enums.{experimental, in_process}
use multi_agent_testbed.Catalog.Records.{CatalogRecord}
use multi_agent_testbed.Catalog.Registry.{lanes, verify}
use multi_agent_testbed.Catalog.Honesty.{IsHonest, Covers, verify_iff}
use multi_agent_testbed.Catalog.Availability.{
  Installed, Switches, usable, allows, with_change, availability_of, IntegrationIndex, new_index,
  for_plugin, by_plugin_from, put_plugin, find_plugin, module_present,
}
use multi_agent_testbed.Catalog.Switching.{
  is_installed, usable-with_change, IsOpen, IsComposedOf, compose-IsOpen,
}
use multi_agent_testbed.Catalog.Composition.{
  Registry, Named, Composed, compose, resolve, check_available, check_adapters,
}

abbrev smoke : CatalogRecord
smoke = record {
  record_id = "viznu/smoke";
  lane = 4;
  capabilities = "benchmark" ∷ [];
  runtime = in_process;
  maturity = experimental;
  source_url = none;
  revision = none;
  license = none;
  image_digest = none;
  source_verified = false;
  entry_point = some "testbed_packs.smoke:PACK";
  extra = none;
  requires = [];
  requires_binaries = [];
  plugin_group = some "packs";
  plugin_name = some "smoke";
  default_enabled = true;
}

abbrev installed : Installed
installed = record { find_spec = λ name. some true; which = λ name. true }

abbrev switches : Switches
switches = record { disabled = []; enabled = [] }

usable-with_change_example :
    usable (availability_of installed smoke (with_change "viznu/smoke" false switches))
    ≡ is_installed installed smoke
      && (if str_eq smoke.record_id "viznu/smoke" then false else allows switches smoke)
usable-with_change_example = usable-with_change installed smoke "viznu/smoke" false switches

-- A catalog with one record leaves fourteen lanes uncovered, so it is not honest.
verify_iff_example :
    (verify (smoke ∷ []) ≡ []) ↔ (All IsHonest (smoke ∷ []) × All (Covers (smoke ∷ [])) lanes)
verify_iff_example = verify_iff (smoke ∷ [])

abbrev index : IntegrationIndex
unfolding new_index
index = new_index installed (smoke ∷ []) switches

abbrev registry : Registry String String String
registry = record {
  packs = ("smoke", "the pack") ∷ [];
  topologies = ("mesh", "the mesh") ∷ [];
  runners = ("raw_session", "the runner") ∷ [];
}

abbrev named : Named
named = record {
  task_pack = "smoke";
  topology = "mesh";
  runner = "raw_session";
  adapters = "scripted" ∷ [];
  scorers = "task_success" ∷ [];
}

abbrev composed : Composed String String String
composed = record { pack = "the pack"; topology = "the mesh"; runner = "the runner" }

compose-IsOpen_example :
    IsOpen index "packs" "smoke"
    × IsOpen index "topologies" "mesh"
    × IsOpen index "runners" "raw_session"
    × All (IsOpen index "agents") ("scripted" ∷ [])
    × IsComposedOf returned registry named composed
unfolding new_index by_plugin_from put_plugin availability_of allows module_present compose resolve
    check_available check_adapters for_plugin find_plugin usable lookup
compose-IsOpen_example = compose-IsOpen returned registry index named composed refl
