-- ===== src/Commands/Paths.antt =====
-- src/testbed_cli/paths.py: where the catalog and the switch file come from. A path is the list of
-- its names, the innermost first; what exists on the disk, the environment's variables and the
-- current directory are parameters.
use multi_agent_testbed.Base.{
  ℕ, zero, suc, ◌≡◌, refl, String, Bool, Option, none, some, List, [], find, map, take, ◌∷◌,
  if◌then◌else◌, str_eq,
}

pub record Places : Type 0 where
  pub exists : List String → Bool
  pub is_dir : List String → Bool
  pub cwd : List String
  pub catalog_env : String
  pub switches_env : String
  pub packaged_catalog : List String
  pub read_path : String → List String

-- The `origin` of a resolved path.
pub data Origin : Type 0 where
  by_option by_environment by_project packaged by_default : Origin

pub record ResolvedPath : Type 0 where
  pub path : List String
  pub origin : Origin

-- The loop of `find_upwards`, with as many turns as the limit.
unfoldable pub search_upwards : Places → String → ℕ → List String → Option (List String)
search_upwards places name zero current = none
search_upwards places name (suc limit) [] =
    if places.exists (name ∷ []) then some (name ∷ []) else none
search_upwards places name (suc limit) (here ∷ above) =
    let rest = search_upwards places name limit above in
    if places.exists (name ∷ here ∷ above) then some (name ∷ here ∷ above) else rest

-- `start or Path.cwd()`
abbrev start_of : Places → Option (List String) → List String
start_of places none = places.cwd
start_of places (some start) = start

unfoldable pub find_upwards : Places → String → Option (List String) → Option (List String)
unfolding search_upwards
find_upwards places name start = search_upwards places name 24 (start_of places start)

abbrev at : List String → Origin → ResolvedPath
at path origin = record { path = path; origin = origin }

abbrev project_catalog : Places → Option (List String) → ResolvedPath
project_catalog places none = at places.packaged_catalog packaged
project_catalog places (some local) =
    if places.is_dir local then at local by_project else at places.packaged_catalog packaged

unfoldable pub resolve_catalog : Places → Option (List String) → Option (List String) → ResolvedPath
unfolding find_upwards
resolve_catalog places (some explicit) start = at explicit by_option
resolve_catalog places none start =
    if str_eq places.catalog_env ""
    then project_catalog places (find_upwards places "catalog" start)
    else at (places.read_path places.catalog_env) by_environment

abbrev project_switches : Places → Option (List String) → Option (List String) → ResolvedPath
project_switches places start none = at ("integrations.toml" ∷ start_of places start) by_default
project_switches places start (some found) = at found by_project

unfoldable pub resolve_switches :
    Places → Option (List String) → Option (List String) → ResolvedPath
unfolding find_upwards
resolve_switches places (some explicit) start = at explicit by_option
resolve_switches places none start =
    if str_eq places.switches_env ""
    then project_switches places start (find_upwards places "integrations.toml" start)
    else at (places.read_path places.switches_env) by_environment

-- A directory and those above it, up to the root.
abbrev ancestors : List String → List (List String)
ancestors [] = [] ∷ []
ancestors (here ∷ above) = (here ∷ above) ∷ ancestors above

-- The search finds the first file of the name that exists, in the directory or in one above it, the
-- nearest first, among as many directories as the limit.
search_upwards-find :
    (places : Places) (name : String) (limit : ℕ) (current : List String)
    → search_upwards places name limit current
      ≡ find places.exists (map (λ directory. name ∷ directory) (take limit (ancestors current)))
unfolding search_upwards
search_upwards-find places name zero [] = refl
search_upwards-find places name zero (here ∷ above) = refl
search_upwards-find places name (suc zero) [] = refl
search_upwards-find places name (suc (suc limit)) [] = refl
search_upwards-find places name (suc limit) (here ∷ above) =
    rw (search_upwards-find places name limit above) refl
