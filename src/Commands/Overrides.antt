-- ===== src/Commands/Overrides.antt =====
-- `apply_overrides` of src/testbed_cli/loader.py: each override writes one value into the JSON form
-- of a manifest. The form is what pydantic writes, and the validation that follows is pydantic's: both
-- are parameters, and so is `json.loads`.
use Prim.Native.Char.{code}
use multi_agent_testbed.Base.{
  ℕ, zero, suc, ◌+◌, ◌*◌, ◌-◌, String, Option, none, some, List, [], ◌∷◌, ◌==◌, leb, if◌then◌else◌,
  str_eq, Outcome, returned, raised,
}
use multi_agent_testbed.Contracts.Ids.{Json, Items, Fields, text, arr, obj, nil, cons, end, field}

pub data OverrideError : Type 0 where
  no_equals_sign no_such_key no_such_index not_a_container : OverrideError

-- `part.isdigit()` with `int(part)`, of ASCII digits, from the value of those before.
abbrev digits_from : ℕ → String → Option ℕ
digits_from n String.[] = some n
digits_from n (String.◌∷◌ c s) =
    let rest = digits_from (10 * n + (code c - 48)) s in
    if leb 48 (code c) then if leb (code c) 57 then rest else none else none

abbrev pub as_index : String → Option ℕ
as_index String.[] = none
as_index (String.◌∷◌ c s) = digits_from 0 (String.◌∷◌ c s)

-- `override.partition("=")`: `none` where there is no such sign
abbrev with_first : Prim.Native.Char.Char → Option (String × String) → Option (String × String)
with_first c none = none
with_first c (some (path, value)) = some (String.◌∷◌ c path, value)

abbrev pub partition : String → Option (String × String)
partition String.[] = none
partition (String.◌∷◌ c s) =
    let rest = partition s in if code c == 61 then some ("", s) else with_first c rest

abbrev pushed : Prim.Native.Char.Char → String × List String → String × List String
pushed c (first, rest) = (String.◌∷◌ c first, rest)

-- `path.split(".")`, the first part and the others
abbrev pub split_path : String → String × List String
split_path String.[] = ("", [])
split_path (String.◌∷◌ c s) =
    let rest = split_path s in if code c == 46 then ("", rest.0 ∷ rest.1) else pushed c rest

abbrev pub item_at : Items → ℕ → Outcome OverrideError Json
item_at nil i = raised no_such_index
item_at (cons x xs) zero = returned x
item_at (cons x xs) (suc i) = item_at xs i

abbrev pub value_of : String → Fields → Outcome OverrideError Json
value_of key end = raised no_such_key
value_of key (field k v rest) = if str_eq k key then returned v else value_of key rest

abbrev pub indexed : Option ℕ → (ℕ → Outcome OverrideError Json) → Outcome OverrideError Json
indexed none f = raised not_a_container
indexed (some i) f = f i

-- `node[int(part)]` or `node[part]`
abbrev pub child_at : Option ℕ → String → Json → Outcome OverrideError Json
child_at index part (arr items) = indexed index (item_at items)
child_at index part (obj fields) = value_of part fields
child_at index part _ = raised not_a_container

unfoldable pub child : String → Json → Outcome OverrideError Json
child part node = child_at (as_index part) part node

abbrev pub after_item : Json → Outcome OverrideError Items → Outcome OverrideError Items
after_item x (raised e) = raised e
after_item x (returned xs) = returned (cons x xs)

abbrev pub put_item : Items → ℕ → Json → Outcome OverrideError Items
put_item nil i v = raised no_such_index
put_item (cons x xs) zero v = returned (cons v xs)
put_item (cons x xs) (suc i) v = after_item x (put_item xs i v)

abbrev pub put_field : String → Json → Fields → Fields
put_field key v end = field key v end
put_field key v (field k old rest) =
    if str_eq k key then field k v rest else field k old (put_field key v rest)

abbrev pub as_array : Outcome OverrideError Items → Outcome OverrideError Json
as_array (raised e) = raised e
as_array (returned xs) = returned (arr xs)

-- `node[…] = value`, as the node that is left
unfoldable pub assign : String → Json → Json → Outcome OverrideError Json
assign part v (arr items) = indexed (as_index part) (λ i. as_array (put_item items i v))
assign part v (obj fields) = returned (obj (put_field part v fields))
assign part v _ = raised not_a_container

-- What follows a result; an exception passes through.
abbrev pub then_with :
    {A : Type 0}
    → Outcome OverrideError A
    → (A → Outcome OverrideError Json)
    → Outcome OverrideError Json
then_with (raised e) f = raised e
then_with (returned a) f = f a

-- The walk to the node before the last part, and the assignment there. The nodes on the way change in
-- place, so each is the same node with its new child.
unfoldable pub write : String → List String → Json → Json → Outcome OverrideError Json
unfolding child assign
write part [] v node = assign part v node
write part (next ∷ more) v node =
    then_with (child part node)
      (λ below. then_with (write next more v below) (λ changed. assign part changed node))

module _ (loads : String → Option Json) where
  -- `_coerce`
  abbrev pub coerce : String → Json
  coerce value = elim (loads value) [ none ↦ text value | some v ↦ v ]

  abbrev pub write_parted : Option (String × String) → Json → Outcome OverrideError Json
  write_parted none raw = raised no_equals_sign
  write_parted (some (path, value)) raw =
      write (split_path path).0 (split_path path).1 (coerce value) raw

  -- One turn of the loop.
  unfoldable pub apply_override : String → Json → Outcome OverrideError Json
  unfolding write
  apply_override override raw = write_parted (partition override) raw

  -- `apply_overrides`, from the dumped manifest to the form that is validated
  unfoldable pub apply_overrides : List String → Json → Outcome OverrideError Json
  unfolding apply_override
  apply_overrides [] raw = returned raw
  apply_overrides (override ∷ rest) raw =
      then_with (apply_override override raw) (λ changed. apply_overrides rest changed)
