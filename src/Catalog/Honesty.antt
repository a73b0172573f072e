-- ===== src/Catalog/Honesty.antt =====
-- What a catalog that `verify` finds nothing wrong with says of its records, and that loading does
-- not see the order of the files.
use multi_agent_testbed.Base.{
  ℕ, ◌≡◌, ◌↔◌, refl, ap, Bool, true, false, not, ◌&&◌, List, [], ◌∷◌, ◌++◌, map, filter, any, All,
  length, ◌==◌, Bool-cases, inl, inr, arith,
}
use multi_agent_testbed.Contracts.Enums.{Maturity, certified, experimental, stub, external}
use multi_agent_testbed.Catalog.Records.{
  CatalogRecord, certification_gaps, is_runnable_here, is_set, when,
}
use multi_agent_testbed.Catalog.Registry.{
  lanes, uncovered_lanes, Problem, uncovered_lane, record_problems, all_problems, verify,
  is_external, certification_problems, is_certified, external_with_entry_point,
  runnable_without_entry_point,
}

-- What a record says of itself is so.
pub record IsHonest (r : CatalogRecord) : Type 0 where
  pub certified_has_no_gaps : r.maturity ≡ certified → certification_gaps r ≡ []
  pub external_has_no_entry : r.maturity ≡ external → is_set r.entry_point ≡ false
  pub runnable_has_entry : is_runnable_here r ≡ true → is_set r.entry_point ≡ true

nil-append : {A : Type 0} (xs ys : List A) → xs ++ ys ≡ [] → (xs ≡ []) × (ys ≡ [])
nil-append [] ys h = (refl, h)
nil-append (x ∷ xs) ys h = cc

when-nil : {A : Type 0} (b : Bool) (x : A) → when b x ≡ [] → b ≡ false
when-nil true x h = cc
when-nil false x h = refl

nil-of_length : {A : Type 0} (xs : List A) → (length xs == 0) ≡ true → xs ≡ []
nil-of_length [] h = refl
nil-of_length (x ∷ xs) h = ground arith

is_certified_iff : (m : Maturity) → (is_certified m ≡ true) ↔ (m ≡ certified)
is_certified_iff certified = (λ h. refl, λ h. refl)
is_certified_iff experimental = (λ h. cc, λ h. cc)
is_certified_iff stub = (λ h. cc, λ h. cc)
is_certified_iff external = (λ h. cc, λ h. cc)

is_external_iff : (m : Maturity) → (is_external m ≡ true) ↔ (m ≡ external)
is_external_iff certified = (λ h. cc, λ h. cc)
is_external_iff experimental = (λ h. cc, λ h. cc)
is_external_iff stub = (λ h. cc, λ h. cc)
is_external_iff external = (λ h. refl, λ h. refl)

and-false : (a b : Bool) → (a ≡ true → b ≡ false) → (a && b) ≡ false
and-false true b h = h refl
and-false false b h = refl

of_and-false : (a b : Bool) → (a && b) ≡ false → a ≡ true → b ≡ false
of_and-false a b h k = ground arith

abbrev external_problems : CatalogRecord → List Problem
external_problems r =
    when (is_external r.maturity && is_set r.entry_point) (external_with_entry_point r.record_id)

abbrev entry_problems : CatalogRecord → List Problem
entry_problems r =
    when (is_runnable_here r && not (is_set r.entry_point))
      (runnable_without_entry_point r.record_id)

not-false : (b : Bool) → not b ≡ false → b ≡ true
not-false true h = refl
not-false false h = cc

record_problems→IsHonest : (r : CatalogRecord) → record_problems r ≡ [] → IsHonest r
unfolding record_problems
record_problems→IsHonest r h =
    let third = nil-append (certification_problems r ++ external_problems r) (entry_problems r) h in
    let second = nil-append (certification_problems r) (external_problems r) third.0 in
    let gaps = of_and-false _ _ (when-nil _ _ second.0) in
    let entry = of_and-false _ _ (when-nil _ (external_with_entry_point r.record_id) second.1) in
    let no_entry =
      of_and-false _ _ (when-nil _ (runnable_without_entry_point r.record_id) third.1) in
    record {
      certified_has_no_gaps =
          λ is. nil-of_length _ (not-false _ (gaps ((is_certified_iff r.maturity).1 is)));
      external_has_no_entry = λ is. entry ((is_external_iff r.maturity).1 is);
      runnable_has_entry = λ is. not-false _ (no_entry is);
    }

IsHonest→record_problems : (r : CatalogRecord) → IsHonest r → record_problems r ≡ []
unfolding record_problems
IsHonest→record_problems r h =
    let gaps =
      and-false (is_certified r.maturity) (not (length (certification_gaps r) == 0))
        (λ e. rw (h.certified_has_no_gaps ((is_certified_iff r.maturity).0 e)) refl) in
    let entry =
      and-false (is_external r.maturity) (is_set r.entry_point)
        (λ e. h.external_has_no_entry ((is_external_iff r.maturity).0 e)) in
    let no_entry =
      and-false (is_runnable_here r) (not (is_set r.entry_point))
        (λ e. ap not (h.runnable_has_entry e)) in
    rw (gaps, entry, no_entry) refl

all_problems_iff : (rs : List CatalogRecord) → (all_problems rs ≡ []) ↔ All IsHonest rs
all_problems_iff [] = (λ h. tt, λ h. refl)
all_problems_iff (r ∷ rs) = (
  λ h.
      let parts = nil-append (record_problems r) (all_problems rs) h in
      (record_problems→IsHonest r parts.0, (all_problems_iff rs).0 parts.1),
  λ h. rw (IsHonest→record_problems r h.0) ((all_problems_iff rs).1 h.1),
)

-- The catalog has a record of the lane.
abbrev pub Covers : List CatalogRecord → ℕ → Type 0
Covers rs n = any (λ r. r.lane == n) rs ≡ true

uncovered_iff :
    (rs : List CatalogRecord) (ns : List ℕ)
    → (map uncovered_lane (filter (λ n. not (any (λ r. r.lane == n) rs)) ns) ≡ [])
      ↔ All (Covers rs) ns
uncovered_iff rs [] = (λ h. tt, λ h. refl)
uncovered_iff rs (n ∷ ns) = elim (Bool-cases (any (λ r. r.lane == n) rs)) [
  | inl e ↦ rw e (λ h. (refl, (uncovered_iff rs ns).0 h), λ h. (uncovered_iff rs ns).1 h.1)
  | inr e ↦ rw e (λ h. cc, λ h. cc)
]

-- `verify` finds nothing wrong with a catalog exactly when it is honest: every record that claims
-- to be certified lacks nothing, no external record declares an entry point, every record that can
-- be run here declares one, and each of the fifteen lanes has a record.
pub verify_iff :
    (rs : List CatalogRecord) → (verify rs ≡ []) ↔ (All IsHonest rs × All (Covers rs) lanes)
unfolding verify uncovered_lanes
verify_iff rs = (
  λ h.
      let parts = nil-append (all_problems rs) _ h in
      ((all_problems_iff rs).0 parts.0, (uncovered_iff rs lanes).0 parts.1),
  λ h. rw ((all_problems_iff rs).1 h.0) ((uncovered_iff rs lanes).1 h.1),
)
