-- ===== src/Base/Sorting.antt =====
-- `sorted(xs, key=…)` as a stable insertion sort over a Boolean order, and why the result depends
-- only on which items there are.
use mathlib.Core.Path.{◌≡◌, ap₂, sym, subst}
use mathlib.Core.Logic.Or
use mathlib.Core.Logic.{inl, inr}
use mathlib.Core.Bool.{Bool, true, false, Bool-set}
use mathlib.Core.List.{
  List, [], ◌∷◌, Mem, Perm, mem-cons_self, mem-cons, mem-cons_of_mem, not-mem-nil,
}
use mathlib.Core.List.Perm
use multi_agent_testbed.Base.Tests.{if◌then◌else◌, Bool-cases}

module _ {ℓ} {A : Type ℓ} (le : A → A → Bool) where
  -- Before the first item that is not smaller: equal keys keep their order.
  unfoldable pub insert_by : A → List A → List A
  insert_by x [] = x ∷ []
  insert_by x (y ∷ ys) = if le x y then x ∷ y ∷ ys else y ∷ insert_by x ys

  unfoldable pub sort_by : List A → List A
  unfolding insert_by
  sort_by [] = []
  sort_by (x ∷ xs) = insert_by x (sort_by xs)

  -- Every item is at most each later one.
  abbrev pub IsSortedBy : List A → Type ℓ
  IsSortedBy [] = Unit
  IsSortedBy (x ∷ xs) = ((y : A) → Mem y xs → le x y ≡ true) × IsSortedBy xs

  pub insert_by-perm : (x : A) (xs : List A) → Perm (insert_by x xs) (x ∷ xs)
  unfolding insert_by
  insert_by-perm x [] = Perm.rfl
  insert_by-perm x (y ∷ ys) = elim (Bool-cases (le x y)) [
    | inl e ↦ rw (e, insert_by) Perm.rfl
    | inr e ↦ rw (e, insert_by) (Perm.trans (Perm.cons y (insert_by-perm x ys)) (Perm.swap x y ys))
  ]

  pub sort_by-perm : (xs : List A) → Perm (sort_by xs) xs
  unfolding sort_by
  sort_by-perm [] = Perm.rfl
  sort_by-perm (x ∷ xs) = Perm.trans (insert_by-perm x (sort_by xs)) (Perm.cons x (sort_by-perm xs))

-- A total preorder, as Python's comparison of key tuples is.
pub record IsPreorder {ℓ} {A : Type ℓ} (le : A → A → Bool) : Type ℓ where
  pub total : (x y : A) → le x y ≡ false → le y x ≡ true
  pub trans : (x y z : A) → le x y ≡ true → le y z ≡ true → le x z ≡ true

module _ {ℓ} {A : Type ℓ} (le : A → A → Bool) (order : IsPreorder le) where
  le_refl : (x : A) → le x x ≡ true
  le_refl x = elim (Bool-cases (le x x)) [ inl e ↦ e | inr e ↦ order.total x x e ]

  below_cons :
      (x y : A) (ys : List A)
      → le x y ≡ true
      → ((z : A) → Mem z ys → le x z ≡ true)
      → (z : A) → Mem z (y ∷ ys)
      → le x z ≡ true
  below_cons x y ys h rest z m =
      Or.elim (Bool-set _ _) (mem-cons.0 m) (λ e. subst (λ w. le x w ≡ true) (sym e) h) (rest z)

  insert_by-IsSortedBy :
      (x : A) (xs : List A) → IsSortedBy le xs → IsSortedBy le (insert_by le x xs)
  unfolding insert_by
  insert_by-IsSortedBy x [] h = (λ y m. absurd (not-mem-nil m), tt)
  insert_by-IsSortedBy x (y ∷ ys) h = elim (Bool-cases (le x y)) [
    | inl e ↦ rw (e, insert_by) (below_cons x y ys e (λ z m. order.trans x y z e (h.0 z m)), h)
    | inr e ↦
        rw (e, insert_by)
          (
            λ z m.
                below_cons y x ys (order.total x y e) h.0 z
                  ((Perm.mem_iff (insert_by-perm le x ys)).0 m),
            insert_by-IsSortedBy x ys h.1,
          )
  ]

  pub sort_by-IsSortedBy : (xs : List A) → IsSortedBy le (sort_by le xs)
  unfolding sort_by
  sort_by-IsSortedBy [] = tt
  sort_by-IsSortedBy (x ∷ xs) = insert_by-IsSortedBy x (sort_by le xs) (sort_by-IsSortedBy xs)

  head_le :
      (x y : A) (xs ys : List A) → IsSortedBy le (x ∷ xs) → Perm (y ∷ ys) (x ∷ xs) → le x y ≡ true
  head_le x y xs ys s p = below_cons x x xs (le_refl x) s.0 y ((Perm.mem_iff p).0 mem-cons_self)

  -- Where equal keys mean equal items, a list has one sorted rearrangement.
  pub IsSortedBy-unique :
      (xs ys : List A)
      → ((x y : A) → Mem x xs → Mem y xs → le x y ≡ true → le y x ≡ true → x ≡ y)
      → IsSortedBy le xs
      → IsSortedBy le ys
      → Perm xs ys
      → xs ≡ ys
  IsSortedBy-unique [] ys anti sx sy p = Perm.nil-eq p
  IsSortedBy-unique (x ∷ xs) [] anti sx sy p = Perm.eq-nil p
  IsSortedBy-unique (x ∷ xs) (y ∷ ys) anti sx sy p =
      let heads : x ≡ y =
        anti x y mem-cons_self ((Perm.mem_iff (Perm.symm p)).0 mem-cons_self)
          (head_le x y xs ys sx (Perm.symm p)) (head_le y x ys xs sy p) in
      let tails = Perm.cons_inv (Perm.trans p (Perm.symm (Perm.cons' heads Perm.rfl))) in
      ap₂ ◌∷◌ heads (
        IsSortedBy-unique xs ys
          (λ a b ma mb. anti a b (mem-cons_of_mem x ma) (mem-cons_of_mem x mb)) sx.1 sy.1 tails)

  -- Sorting does not see the order in which the items came.
  pub sort_by_of_perm :
      (xs ys : List A)
      → ((x y : A) → Mem x xs → Mem y xs → le x y ≡ true → le y x ≡ true → x ≡ y)
      → Perm xs ys
      → sort_by le xs ≡ sort_by le ys
  sort_by_of_perm xs ys anti p =
      IsSortedBy-unique (sort_by le xs) (sort_by le ys)
        (λ a b ma mb.
          anti a b ((Perm.mem_iff (sort_by-perm le xs)).0 ma)
            ((Perm.mem_iff (sort_by-perm le xs)).0 mb))
        (sort_by-IsSortedBy xs) (sort_by-IsSortedBy ys)
        (Perm.trans (sort_by-perm le xs) (Perm.trans p (Perm.symm (sort_by-perm le ys))))
