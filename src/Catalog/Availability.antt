-- ===== src/Catalog/Availability.antt =====
-- src/testbed_catalog/availability.py: the switches, the four states of an integration and the
-- index by plug-in. A set is a list without repetitions; the file of the switches is not modelled.
use Prim.Native.String
use multi_agent_testbed.Base.{
  String, Bool, true, false, not, ◌&&◌, ◌||◌, Option, none, some, List, [], ◌∷◌, ◌++◌, map, Dict,
  values, insert, filter, if◌then◌else◌, str_eq, contains, length, ◌==◌, get_or,
}
use multi_agent_testbed.Contracts.Enums.{Maturity, stub, external}
use multi_agent_testbed.Catalog.Records.{CatalogRecord, is_set}

pub data IntegrationState : Type 0 where
  active disabled not_installed no_adapter : IntegrationState

abbrev pub is_active : IntegrationState → Bool
is_active active = true
is_active _ = false

pub record Availability : Type 0 where
  pub record_id : String
  pub plugin_group : Option String
  pub plugin_name : Option String
  pub state : IntegrationState
  pub missing_modules : List String
  pub missing_binaries : List String
  pub extra : Option String

unfoldable pub usable : Availability → Bool
usable a = is_active a.state

infixr 65 ◌<>◌
abbrev ◌<>◌ : String → String → String
s <> t = String.◌++◌ s t

-- `", ".join(xs)`
abbrev join : List String → String
join [] = ""
join (x ∷ []) = x
join (x ∷ y ∷ rest) = x <> ", " <> join (y ∷ rest)

unfoldable pub reason : Availability → String
reason a = elim a.state [
  | active ↦ "active"
  | disabled ↦ "switched off in integrations.toml"
  | no_adapter ↦ "no adapter exists in this repository (catalog record only)"
  | not_installed ↦
      let missing = a.missing_modules ++ a.missing_binaries in
      let detail =
        if length missing == 0 then "dependencies missing" else "missing " <> join missing in
      if is_set a.extra
      then detail
        <> "; install with: pip install 'multi-agent-testbed["
        <> get_or a.extra ""
        <> "]'"
      else detail <> "; no pip extra is declared for this integration yet"
]

unfoldable pub remediation : Availability → Option String
remediation a = elim a.state [
  | not_installed ↦
      if is_set a.extra
      then some ("pip install 'multi-agent-testbed[" <> get_or a.extra "" <> "]'")
      else none
  | disabled ↦ some ("matb integrations enable " <> a.record_id)
  | _ ↦ none
]

pub record Switches : Type 0 where
  pub disabled : List String
  pub enabled : List String

unfoldable pub allows : Switches → CatalogRecord → Bool
allows s r =
    if contains s.disabled r.record_id
    then false
    else if contains s.enabled r.record_id
    then true
    else r.default_enabled

-- `set.discard`
unfoldable pub discard : String → List String → List String
discard x = filter (λ y. not (str_eq y x))

-- `set.add`
unfoldable pub add : String → List String → List String
add x xs = if contains xs x then xs else xs ++ x ∷ []

unfoldable pub with_change : String → Bool → Switches → Switches
unfolding discard add
with_change record_id true s = record {
  disabled = discard record_id s.disabled;
  enabled = add record_id s.enabled;
}
with_change record_id false s = record {
  disabled = add record_id s.disabled;
  enabled = discard record_id s.enabled;
}

-- What is installed. `find_spec` answers nothing where it raises.
pub record Installed : Type 0 where
  pub find_spec : String → Option Bool
  pub which : String → Bool

unfoldable pub module_present : Installed → String → Bool
module_present i name = get_or (i.find_spec name) false

abbrev pub is_stub_or_external : Maturity → Bool
is_stub_or_external stub = true
is_stub_or_external external = true
is_stub_or_external _ = false

abbrev pub missing_modules : Installed → CatalogRecord → List String
missing_modules i r = filter (λ m. not (module_present i m)) r.requires

abbrev pub missing_binaries : Installed → CatalogRecord → List String
missing_binaries i r = filter (λ b. not (i.which b)) r.requires_binaries

-- `build`
abbrev pub availability :
    CatalogRecord → IntegrationState → List String → List String → Availability
availability r state modules binaries = record {
  record_id = r.record_id;
  plugin_group = r.plugin_group;
  plugin_name = r.plugin_name;
  state = state;
  missing_modules = modules;
  missing_binaries = binaries;
  extra = r.extra;
}

unfoldable pub availability_of : Installed → CatalogRecord → Switches → Availability
unfolding allows module_present
availability_of i r s =
    if is_stub_or_external r.maturity || not (is_set r.entry_point)
    then availability r no_adapter [] []
    else if not (length (missing_modules i r) == 0) || not (length (missing_binaries i r) == 0)
    then availability r not_installed (missing_modules i r) (missing_binaries i r)
    else if not (allows s r)
    then availability r disabled [] []
    else availability r active [] []

-- A dictionary whose keys are pairs of a group and a name.
abbrev pub ByPlugin : Type 0
ByPlugin = List ((String × String) × Availability)

abbrev same_plugin : String × String → String → String → Bool
same_plugin key group name = str_eq key.0 group && str_eq key.1 name

unfoldable pub put_plugin : String → String → Availability → ByPlugin → ByPlugin
put_plugin group name a [] = ((group, name), a) ∷ []
put_plugin group name a ((key, old) ∷ rest) =
    if same_plugin key group name
    then (key, a) ∷ rest
    else (key, old) ∷ put_plugin group name a rest

unfoldable pub find_plugin : String → String → ByPlugin → Option Availability
find_plugin group name [] = none
find_plugin group name ((key, a) ∷ rest) =
    if same_plugin key group name then some a else find_plugin group name rest

pub record IntegrationIndex : Type 0 where
  pub status : Dict Availability
  pub by_plugin : ByPlugin

unfoldable pub status_from :
    Installed → Switches → List CatalogRecord → Dict Availability → Dict Availability
unfolding availability_of
status_from i s [] d = d
status_from i s (r ∷ rest) d = status_from i s rest (insert r.record_id (availability_of i r s) d)

unfoldable pub by_plugin_from : Installed → Switches → List CatalogRecord → ByPlugin → ByPlugin
unfolding availability_of put_plugin
by_plugin_from i s [] d = d
by_plugin_from i s (r ∷ rest) d = by_plugin_from i s rest (
    if is_set r.plugin_group && is_set r.plugin_name
    then put_plugin (get_or r.plugin_group "") (get_or r.plugin_name "") (availability_of i r s) d
    else d)

-- `IntegrationIndex.__init__`, for records with distinct ids, as a catalog's are
unfoldable pub new_index : Installed → List CatalogRecord → Switches → IntegrationIndex
unfolding status_from by_plugin_from
new_index i records s = record {
  status = status_from i s records [];
  by_plugin = by_plugin_from i s records [];
}

unfoldable pub for_plugin : IntegrationIndex → String → String → Option Availability
unfolding find_plugin
for_plugin index group name = find_plugin group name index.by_plugin

unfoldable pub usable_ones : IntegrationIndex → List Availability
unfolding usable
usable_ones index = filter usable (values index.status)

abbrev pub is_blocked : IntegrationState → Bool
is_blocked disabled = true
is_blocked not_installed = true
is_blocked _ = false

unfoldable pub blocked : IntegrationIndex → List Availability
blocked index = filter (λ a. is_blocked a.state) (values index.status)

unfoldable pub disabled_plugin_names : IntegrationIndex → String → List String
unfolding usable
disabled_plugin_names index group =
    map (λ p. p.0.1) (filter (λ p. str_eq p.0.0 group && not (usable p.1)) index.by_plugin)
