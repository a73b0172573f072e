-- ===== src/Tests/Commands.antt =====
-- The command line at concrete inputs: where files are looked for, and overrides.
use multi_agent_testbed.Base.{
  ◌≡◌, refl, true, false, none, some, [], ◌∷◌, length, ◌==◌, returned, raised,
}
use multi_agent_testbed.Contracts.Ids.{num, text, texts, object, Fields, obj, field, end}
use multi_agent_testbed.Commands.Paths.{
  Places, by_project, by_environment, by_default, packaged, resolve_catalog, resolve_switches,
}
use multi_agent_testbed.Commands.Overrides.{
  apply_override, apply_overrides, no_equals_sign, no_such_index,
}
use multi_agent_testbed.Commands.Written.{Then, IsWritten, apply_override-reads}

-- A disk with one directory, two levels above the current one.
abbrev places : Places
places = record {
  exists = λ path. length path == 2;
  is_dir = λ path. true;
  cwd = "src" ∷ "repo" ∷ "home" ∷ [];
  catalog_env = "";
  switches_env = "";
  packaged_catalog = "data" ∷ [];
  read_path = λ s. s ∷ [];
}

nearest :
    resolve_catalog places none none
    ≡ record { path = "catalog" ∷ "home" ∷ []; origin = by_project }
unfolding resolve_catalog
nearest = refl

environment_first :
    resolve_catalog (record places { catalog_env = "elsewhere" }) none none
    ≡ record { path = "elsewhere" ∷ []; origin = by_environment }
unfolding resolve_catalog
environment_first = refl

no_switches :
    resolve_switches (record places { exists = λ path. false }) none none
    ≡ record { path = "integrations.toml" ∷ "src" ∷ "repo" ∷ "home" ∷ []; origin = by_default }
unfolding resolve_switches
no_switches = refl

not_a_directory :
    resolve_catalog (record places { is_dir = λ path. false }) none none
    ≡ record { path = "data" ∷ []; origin = packaged }
unfolding resolve_catalog
not_a_directory = refl

overridden :
    apply_overrides
      (λ s. some (num 5))
      ("limits.events=5" ∷ [])
      (object (("limits", object (("events", num 9) ∷ [])) ∷ ("name", text "a") ∷ []))
    ≡ returned (object (("limits", object (("events", num 5) ∷ [])) ∷ ("name", text "a") ∷ []))
unfolding apply_overrides
overridden = refl

in_a_list :
    apply_overrides (λ s. none) ("tasks.1=z" ∷ []) (object (("tasks", texts ("x" ∷ "y" ∷ [])) ∷ []))
    ≡ returned (object (("tasks", texts ("x" ∷ "z" ∷ [])) ∷ []))
unfolding apply_overrides
in_a_list = refl

past_the_end :
    apply_overrides (λ s. none) ("tasks.2=z" ∷ []) (object (("tasks", texts ("x" ∷ "y" ∷ [])) ∷ []))
    ≡ raised no_such_index
unfolding apply_overrides
past_the_end = refl

malformed : apply_overrides (λ s. none) ("tasks" ∷ []) (object []) ≡ raised no_equals_sign
unfolding apply_overrides
malformed = refl

abbrev limits : Fields
limits = field "limits" (object (("events", num 9) ∷ [])) (field "name" (text "a") end)

apply_override-reads_example :
    Then
      (apply_override (λ s. some (num 5)) "limits.events=5" (obj limits))
      (IsWritten "limits" ("events" ∷ []) (num 5) "name" limits)
apply_override-reads_example =
    apply_override-reads (λ s. some (num 5)) "limits.events=5" "limits.events" "5" "name" limits
      refl refl
