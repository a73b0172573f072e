-- ===== src/Commands/Written.antt =====
-- What an override writes is what is read back at its path.
use multi_agent_testbed.Base.{
  ℕ, zero, suc, ◌≡◌, refl, sym, subst, String, true, false, Option, none, some, List, [], ◌∷◌,
  str_eq, eq_iff, Outcome, returned, raised, arith,
}
use multi_agent_testbed.Contracts.Ids.{
  Json, Items, Fields, null, bool, num, real, text, ref, arr, obj, nil, cons, end, field,
  not_finite,
}
use multi_agent_testbed.Commands.Overrides.{
  OverrideError, partition, split_path, as_index, item_at, value_of, child, child_at, put_item,
  put_field, assign, indexed, as_array, after_item, then_with, write, coerce, write_parted,
  apply_override,
}

-- What holds of a result, if there is one.
abbrev pub Then : {A : Type 0} → Outcome OverrideError A → (A → Type 0) → Type 0
Then (raised e) Q = Unit
Then (returned a) Q = Q a

-- The value at the end of a path.
abbrev pub reads : String → List String → Json → Outcome OverrideError Json
reads part [] node = child part node
reads part (next ∷ more) node = then_with (child part node) (reads next more)

item_at-put_item :
    (xs : Items) (i : ℕ) (v : Json) → Then (put_item xs i v) (λ ys. item_at ys i ≡ returned v)
item_at-put_item nil i v = tt
item_at-put_item (cons x xs) zero v = refl
item_at-put_item (cons x xs) (suc i) v = later (put_item xs i v) (item_at-put_item xs i v)
  where
    later :
        (o : Outcome OverrideError Items)
        → Then o (λ ys. item_at ys i ≡ returned v)
        → Then (after_item x o) (λ ys. item_at ys (suc i) ≡ returned v)
    later (raised e) h = tt
    later (returned ys) h = h

key_refl : (key : String) → str_eq key key ≡ true
key_refl key = (eq_iff key key).1 refl

value_of-put_field :
    (key : String) (v : Json) (fs : Fields) → value_of key (put_field key v fs) ≡ returned v
value_of-put_field key v end = rw (key_refl key) refl
value_of-put_field key v (field k old rest) =
    ground (arith, value_of-put_field key v rest, eq_iff key key)

value_of-put_field_ne :
    (q key : String) (v : Json) (fs : Fields)
    → str_eq key q ≡ false
    → value_of q (put_field key v fs) ≡ value_of q fs
value_of-put_field_ne q key v end h = rw h refl
value_of-put_field_ne q key v (field k old rest) h =
    ground (arith, value_of-put_field_ne q key v rest h, eq_iff k key, eq_iff k q, eq_iff key q)

child_at-put_item :
    (index : Option ℕ) (part : String) (items : Items) (v : Json)
    → Then
        (indexed index (λ i. as_array (put_item items i v)))
        (λ w. child_at index part w ≡ returned v)
child_at-put_item none part items v = tt
child_at-put_item (some i) part items v = made (put_item items i v) (item_at-put_item items i v)
  where
    made :
        (o : Outcome OverrideError Items)
        → Then o (λ ys. item_at ys i ≡ returned v)
        → Then (as_array o) (λ w. child_at (some i) part w ≡ returned v)
    made (raised e) h = tt
    made (returned ys) h = h

child-assign :
    (part : String) (v node : Json) → Then (assign part v node) (λ w. child part w ≡ returned v)
unfolding child assign
child-assign part v (arr items) = child_at-put_item (as_index part) part items v
child-assign part v (obj fs) = value_of-put_field part v fs
child-assign part v null = tt
child-assign part v (bool b) = tt
child-assign part v (num n) = tt
child-assign part v (real x) = tt
child-assign part v (not_finite x) = tt
child-assign part v (text s) = tt
child-assign part v (ref s ns) = tt

reads-write :
    (part : String) (more : List String) (v node : Json)
    → Then (write part more v node) (λ w. reads part more w ≡ returned v)
unfolding write
reads-write part [] v node = child-assign part v node
reads-write part (next ∷ more) v node =
    through (child part node) (λ below. reads-write next more v below)
  where
    kept :
        (changed : Json)
        → reads next more changed ≡ returned v
        → (o : Outcome OverrideError Json) → Then o (λ w. child part w ≡ returned changed)
        → Then o (λ w. then_with (child part w) (reads next more) ≡ returned v)
    kept changed h (raised e) found = tt
    kept changed h (returned w) found = rw found h

    changed_below :
        (o : Outcome OverrideError Json)
        → Then o (λ changed. reads next more changed ≡ returned v)
        → Then
            (then_with o (λ changed. assign part changed node))
            (λ w. then_with (child part w) (reads next more) ≡ returned v)
    changed_below (raised e) h = tt
    changed_below (returned changed) h =
        kept changed h (assign part changed node) (child-assign part changed node)

    through :
        (o : Outcome OverrideError Json)
        → ((below : Json)
            → Then (write next more v below) (λ changed. reads next more changed ≡ returned v))
        → Then
            (then_with o
              (λ below. then_with (write next more v below) (λ changed. assign part changed node)))
            (λ w. then_with (child part w) (reads next more) ≡ returned v)
    through (raised e) ih = tt
    through (returned below) ih = changed_below (write next more v below) (ih below)

assign-keeps :
    (part q : String) (v : Json) (fs : Fields)
    → str_eq part q ≡ false
    → Then (assign part v (obj fs)) (λ w. child q w ≡ child q (obj fs))
unfolding child assign
assign-keeps part q v fs h = value_of-put_field_ne q part v fs h

through_write :
    (part q : String) (fs : Fields) (o : Outcome OverrideError Json)
    → str_eq part q ≡ false
    → Then
        (then_with o (λ changed. assign part changed (obj fs)))
        (λ w. child q w ≡ child q (obj fs))
through_write part q fs (raised e) h = tt
through_write part q fs (returned changed) h = assign-keeps part q changed fs h

write-keeps :
    (part q : String) (more : List String) (v : Json) (fs : Fields)
    → str_eq part q ≡ false
    → Then (write part more v (obj fs)) (λ w. child q w ≡ child q (obj fs))
unfolding write
write-keeps part q [] v fs h = assign-keeps part q v fs h
write-keeps part q (next ∷ more) v fs h = below (child part (obj fs))
  where
    below :
        (o : Outcome OverrideError Json)
        → Then
            (then_with o
              (λ b. then_with (write next more v b) (λ changed. assign part changed (obj fs))))
            (λ w. child q w ≡ child q (obj fs))
    below (raised e) = tt
    below (returned b) = through_write part q fs (write next more v b) h

-- Both of two things that hold of a result.
both :
    {A : Type 0} (Q R : A → Type 0) (o : Outcome OverrideError A)
    → Then o Q
    → Then o R
    → Then o (λ a. Q a × R a)
both Q R (raised e) q r = tt
both Q R (returned a) q r = (q, r)

-- The value is read back at the path, and the entry of another key at the top is what it was.
abbrev pub IsWritten : String → List String → Json → String → Fields → Json → Type 0
IsWritten part more v q fs w = (reads part more w ≡ returned v) × (child q w ≡ child q (obj fs))

module _ (loads : String → Option Json) where
  -- Where an override of the form path=value is applied to a manifest's form, the value is what is
  -- read back at the path, and every other entry at the top is what it was.
  pub apply_override-reads :
      (override path value q : String) (fs : Fields)
      → partition override ≡ some (path, value)
      → str_eq (split_path path).0 q ≡ false
      → Then
          (apply_override loads override (obj fs))
          (IsWritten (split_path path).0 (split_path path).1 (coerce loads value) q fs)
  unfolding apply_override
  apply_override-reads override path value q fs parted other =
      let first = (split_path path).0 in
      let more = (split_path path).1 in
      subst
        (λ parts.
          Then (write_parted loads parts (obj fs)) (IsWritten first more (coerce loads value) q fs))
        (sym parted)
        (both _ _ (write first more (coerce loads value) (obj fs))
          (reads-write first more (coerce loads value) (obj fs))
          (write-keeps first q more (coerce loads value) fs other))
