-- ===== src/Sessions/Rerun.antt =====
-- Which runs a rerun is made of, and which of them were planned before.
use mathlib.Core.Logic.Or
use mathlib.Core.List.{
  Mem, not-mem-nil, not-mem-nil, not-mem-nil, not-mem-nil, mem-cons_self, mem-cons_of_mem,
  mem-append_left, mem-append_right, mem-map_of_mem, eq-or-mem_of_mem-cons,
}
use multi_agent_testbed.Base.{
  ℕ, zero, suc, ◌+◌, ◌<◌, ◌≤◌, ◌≡◌, ◌↔◌, sym, subst, Option, List, [], ◌∷◌, String, map, All,
  All-append, All-map, true, leb, arith,
}
use multi_agent_testbed.Contracts.Ids.{Hashing}
use multi_agent_testbed.Contracts.Manifest.{ExperimentManifest}
use multi_agent_testbed.Contracts.Results.{RunRecord}
use multi_agent_testbed.Sdk.{TaskCase}
use multi_agent_testbed.Controller.Plan.{
  flat_map, range_from, perturbations, run_record, plan_cases,
}
use multi_agent_testbed.Sessions.{offset_record, offset_records}

module _ {A B : Type 0} (P : B → Type 0) where
  -- What holds of the elements of each part, all of which stand in the whole, holds of all.
  All-flat_map :
      (f : A → List B) (whole : List B) (xs : List A)
      → ((y : B) → Mem y (flat_map f xs) → Mem y whole)
      → ((x : A) → ((y : B) → Mem y (f x) → Mem y whole) → All P (f x))
      → All P (flat_map f xs)
  unfolding flat_map
  All-flat_map f whole [] inside each = tt
  All-flat_map f whole (x ∷ xs) inside each =
      All-append P (f x) (flat_map f xs)
        (each x (λ y m. inside y (mem-append_left (flat_map f xs) m)))
        (All-flat_map f whole xs (λ y m. inside y (mem-append_right (f x) m)) each)

  All-image :
      (g : A → B) (Q : A → Type 0)
      → ((x : A) → Q x → P (g x))
      → (xs : List A) → All Q xs
      → All P (map g xs)
  All-image g Q h [] all = tt
  All-image g Q h (x ∷ xs) all = (h x all.0, All-image g Q h xs all.1)

module _ {B : Type 0} (P : B → Type 0) (prop : (y : B) → IsProp (P y)) where
  at : (ys : List B) → All P ys → {y : B} → Mem y ys → P y
  at [] all m = absurd (not-mem-nil m)
  at (x ∷ ys) all {y} m =
      Or.elim (prop y) (eq-or-mem_of_mem-cons m) (λ e. subst P (sym e) all.0)
        (λ later. at ys all.1 later)

All-range_from : (bound start n : ℕ) → start + n ≤ bound → All (λ k. k < bound) (range_from start n)
unfolding range_from
All-range_from bound start zero h = tt
All-range_from bound start (suc n) h =
    (omega arith, All-range_from bound (suc start) n (omega arith))

mem-range_from : (start n k : ℕ) → k < n → Mem (start + k) (range_from start n)
unfolding range_from
mem-range_from start zero k h = absurd (omega arith)
mem-range_from start (suc n) zero h =
    let same : start + zero ≡ start = omega arith in rw same mem-cons_self
mem-range_from start (suc n) (suc k) h =
    let same : start + suc k ≡ suc start + k = omega arith in
    rw same (mem-cons_of_mem start (mem-range_from (suc start) n k (omega arith)))

mem-range : (n k : ℕ) → k < n → Mem k (range_from 0 n)
mem-range n k h =
    let same : 0 + k ≡ k = omega arith in
    subst (λ j. Mem j (range_from 0 n)) same (mem-range_from 0 n k h)

bounded_at :
    (bound : ℕ) (rs : List RunRecord) (r : RunRecord)
    → All (λ r. r.repetition < bound) rs
    → Mem r rs
    → r.repetition < bound
bounded_at bound rs r all here =
    let tested =
      at (λ r. leb (suc r.repetition) bound ≡ true) (λ r. hlevel) rs
        (All-map _ _ (λ r l. ground arith) rs all) here in
    ground arith

module _ (h : Hashing) (manifest_hash : ExperimentManifest → ℕ) (m : ExperimentManifest)
    (cases : List TaskCase) where
  -- The four loops of `plan_cases`, for what holds of a run that stands in the plan.
  All-plan_cases :
      (P : RunRecord → Type 0)
      → ((case : TaskCase) (seed : ℕ) (perturbation : Option String) (k : ℕ)
          → k < m.repetitions
          → ((j : ℕ)
              → j < m.repetitions
              → Mem
                  (run_record h manifest_hash m case seed perturbation j)
                  (plan_cases h manifest_hash m cases))
          → P (run_record h manifest_hash m case seed perturbation k))
      → All P (plan_cases h manifest_hash m cases)
  unfolding plan_cases
  All-plan_cases P each =
      let whole = plan_cases h manifest_hash m cases in
      All-flat_map P _ whole cases (λ y s. s)
        λ case in_case. All-flat_map P _ whole m.seeds in_case λ seed in_seed.
          All-flat_map P _ whole (perturbations m) in_seed λ perturbation inside.
            let run = run_record h manifest_hash m case seed perturbation in
            All-image P run (λ k. k < m.repetitions)
              (λ k below.
                each case seed perturbation k below
                  (λ j l. inside (run j) (mem-map_of_mem run (mem-range m.repetitions j l))))
              (range_from 0 m.repetitions)
              (All-range_from m.repetitions 0 m.repetitions (omega arith))

  -- A rerun's run repeats none of the repetitions below the offset. It is one of the runs that were
  -- planned, its identity included, exactly where its repetition is below the manifest's number of
  -- repetitions.
  pub offset_records-planned :
      (offset : ℕ)
      → All
          (λ r.
            (offset ≤ r.repetition)
            × (Mem r (plan_cases h manifest_hash m cases) ↔ r.repetition < m.repetitions))
          (offset_records h offset (plan_cases h manifest_hash m cases))
  unfolding offset_records run_record
  offset_records-planned offset =
      let planned = plan_cases h manifest_hash m cases in
      let bounded =
        All-plan_cases (λ r. r.repetition < m.repetitions) (λ case seed p k below inside. below) in
      All-image _ (offset_record h offset) _ (λ r q. q) planned
        (All-plan_cases _ λ case seed perturbation k below inside. (
          omega arith,
          ((λ here. bounded_at m.repetitions planned _ bounded here), (λ l. inside (k + offset) l)),
        ))
