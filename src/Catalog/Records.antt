-- ===== src/Catalog/Records.antt =====
-- src/testbed_catalog/model.py: one record, its validators and what it lacks to be certified. Left
-- out of the record: the fields that no code reads (title, data terms, cost, notes, drivers,
-- contamination notes).
use multi_agent_testbed.Base.{
  ℕ, String, Bool, true, false, not, ◌&&◌, ◌||◌, Option, none, some, List, [], ◌∷◌, ◌++◌,
  if◌then◌else◌, str_eq, contains, length, ◌==◌, leb, is_some,
}
use multi_agent_testbed.Contracts.Enums.{Maturity, experimental, certified, Runtime, oci}
use text.Mathlib.Text.{find?}

pub record CatalogRecord : Type 0 where
  pub record_id : String
  pub lane : ℕ
  pub capabilities : List String
  pub runtime : Runtime
  pub maturity : Maturity
  pub source_url : Option String
  pub revision : Option String
  pub license : Option String
  pub image_digest : Option String
  pub source_verified : Bool
  pub entry_point : Option String
  pub extra : Option String
  pub requires : List String
  pub requires_binaries : List String
  pub plugin_group : Option String
  pub plugin_name : Option String
  pub default_enabled : Bool

-- Python's truth of an optional text.
abbrev pub is_set : Option String → Bool
is_set none = false
is_set (some s) = not (str_eq s "")

abbrev pub is_oci : Runtime → Bool
is_oci oci = true
is_oci _ = false

-- Why pydantic refuses a record: `Field(ge=1, le=15)`, then the two validators.
pub data RecordError : Type 0 where
  no_such_lane not_publisher_qualified plugin_fields_disagree plugin_without_entry_point :
      RecordError

abbrev same_bool : Bool → Bool → Bool
same_bool true b = b
same_bool false b = not b

-- `_plugin_fields_agree`, then `_publisher_qualified`.
unfoldable pub validated : CatalogRecord → Option RecordError
validated r =
    if not (leb 1 r.lane && leb r.lane 15)
    then some no_such_lane
    else if not (same_bool (is_set r.plugin_group) (is_set r.plugin_name))
    then some plugin_fields_disagree
    else if is_set r.plugin_name && not (is_set r.entry_point)
    then some plugin_without_entry_point
    else if not (is_some (find? r.record_id "/"))
    then some not_publisher_qualified
    else none

unfoldable pub is_runnable_here : CatalogRecord → Bool
is_runnable_here r = elim r.maturity [ certified ↦ true | experimental ↦ true | _ ↦ false ]

-- What a record lacks to be certified; one constructor for each of the source's texts.
pub data Gap : Type 0 where
  no_source_url unverified_source no_pinned_revision no_license no_image_digest : Gap
  no_entry_point no_capabilities : Gap

-- `gaps.append(gap)` under an `if`
abbrev pub when {ℓ} : {A : Type ℓ} → Bool → A → List A
when true x = x ∷ []
when false x = []

-- A revision that is not a pin: none, or a branch that moves.
abbrev pub is_moving : Option String → Bool
is_moving none = true
is_moving (some s) = str_eq s "" || contains ("main" ∷ "master" ∷ "latest" ∷ []) s

unfoldable pub certification_gaps : CatalogRecord → List Gap
certification_gaps r =
    (if not (is_set r.source_url)
      then no_source_url ∷ []
      else when (not r.source_verified) unverified_source)
    ++ when (is_moving r.revision) no_pinned_revision
    ++ when (not (is_set r.license)) no_license
    ++ when (is_oci r.runtime && not (is_set r.image_digest)) no_image_digest
    ++ when (not (is_set r.entry_point)) no_entry_point
    ++ when (length r.capabilities == 0) no_capabilities
