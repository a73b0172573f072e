-- ===== src/Catalog/Registry.antt =====
-- src/testbed_catalog/registry.py: the loaded catalog and what `verify` finds wrong with it.
use multi_agent_testbed.Base.{
  ℕ, String, Bool, true, false, not, ◌&&◌, Option, none, some, List, [], ◌∷◌, ◌++◌, map, filter,
  any, find, if◌then◌else◌, str_eq, contains, length, ◌==◌, ltb, str_le, sort_by, Outcome, returned,
  raised,
}
use multi_agent_testbed.Contracts.Enums.{Maturity, certified, external}
use multi_agent_testbed.Catalog.Records.{
  CatalogRecord, Gap, certification_gaps, is_runnable_here, is_set, when, RecordError, validated,
}

-- `(r.lane, r.record_id)`, compared as a tuple
unfoldable pub record_le : CatalogRecord → CatalogRecord → Bool
record_le a b =
    if ltb a.lane b.lane
    then true
    else if ltb b.lane a.lane
    then false
    else str_le a.record_id b.record_id

-- The loop of `_duplicates`; a set is a list without repetitions.
unfoldable pub duplicates_from : List String → List String → List String → List String
duplicates_from seen dupes [] = dupes
duplicates_from seen dupes (value ∷ rest) =
    duplicates_from (if contains seen value then seen else seen ++ value ∷ [])
      (if contains seen value && not (contains dupes value) then dupes ++ value ∷ [] else dupes)
      rest

unfoldable pub duplicates : List String → List String
unfolding duplicates_from
duplicates values = duplicates_from [] [] values

pub data CatalogError : Type 0 where
  duplicate_ids : List String → CatalogError
  invalid_record : RecordError → CatalogError

-- `Catalog.__init__`
unfoldable pub new_catalog : List CatalogRecord → Outcome CatalogError (List CatalogRecord)
unfolding duplicates
new_catalog records =
    let sorted = sort_by record_le records in
    let repeated = duplicates (map (λ r. r.record_id) sorted) in
    if length repeated == 0
    then returned sorted
    else raised (duplicate_ids (sort_by str_le repeated))

-- The entries of the files, each validated; the first that is not valid is the error.
unfoldable pub first_invalid : List CatalogRecord → Option RecordError
first_invalid [] = none
first_invalid (r ∷ rest) = elim (validated r) [
  | none ↦ first_invalid rest
  | some error ↦ some error
]

-- `load_catalog`, from the entries of its files in the order they are read
unfoldable pub load_catalog : List CatalogRecord → Outcome CatalogError (List CatalogRecord)
unfolding new_catalog first_invalid
load_catalog entries = elim (first_invalid entries) [
  | none ↦ new_catalog entries
  | some error ↦ raised (invalid_record error)
]

unfoldable pub by_lane : ℕ → List CatalogRecord → List CatalogRecord
by_lane lane = filter (λ r. r.lane == lane)

-- `Catalog.get`; `none` is the `KeyError`
unfoldable pub get : String → List CatalogRecord → Option CatalogRecord
get record_id = find (λ r. str_eq r.record_id record_id)

unfoldable pub runnable : List CatalogRecord → List CatalogRecord
unfolding is_runnable_here
runnable = filter is_runnable_here

-- The keys of `LANES_BY_NUMBER`.
abbrev pub lanes : List ℕ
lanes = 1 ∷ 2 ∷ 3 ∷ 4 ∷ 5 ∷ 6 ∷ 7 ∷ 8 ∷ 9 ∷ 10 ∷ 11 ∷ 12 ∷ 13 ∷ 14 ∷ 15 ∷ []

unfoldable pub uncovered_lanes : List CatalogRecord → List ℕ
uncovered_lanes records = filter (λ n. not (any (λ r. r.lane == n) records)) lanes

-- What `verify` reports; one constructor for each of the source's texts.
pub data Problem : Type 0 where
  claims_certified : String → List Gap → Problem
  external_with_entry_point runnable_without_entry_point : String → Problem
  uncovered_lane : ℕ → Problem

abbrev pub is_certified : Maturity → Bool
is_certified certified = true
is_certified _ = false

abbrev pub certification_problems : CatalogRecord → List Problem
certification_problems r =
    when (is_certified r.maturity && not (length (certification_gaps r) == 0))
      (claims_certified r.record_id (certification_gaps r))

abbrev pub is_external : Maturity → Bool
is_external external = true
is_external _ = false

unfoldable pub record_problems : CatalogRecord → List Problem
unfolding certification_gaps is_runnable_here
record_problems r =
    certification_problems r
    ++ when (is_external r.maturity && is_set r.entry_point) (external_with_entry_point r.record_id)
    ++ when (is_runnable_here r && not (is_set r.entry_point))
        (runnable_without_entry_point r.record_id)

abbrev pub all_problems : List CatalogRecord → List Problem
all_problems [] = []
all_problems (r ∷ rest) = record_problems r ++ all_problems rest

unfoldable pub verify : List CatalogRecord → List Problem
unfolding record_problems uncovered_lanes
verify records = all_problems records ++ map uncovered_lane (uncovered_lanes records)
