-- ===== src/Catalog/Switching.antt =====
-- What the switches do to an integration, and what a composition may then be made of.
use multi_agent_testbed.Base.{
  String, ◌≡◌, refl, sym, ◌∙◌, ap, Bool, true, false, not, ◌&&◌, ◌||◌, ◌⊎◌, Option, none, some,
  List, [], ◌∷◌, ◌++◌, filter, all, All, if◌then◌else◌, str_eq, contains, length, ◌==◌, Bool-cases,
  inl, inr, str_eq→eq, str_eq_comm, str_eq_subst, Outcome, returned, raised, lookup, arith, Dict,
}
use multi_agent_testbed.Catalog.Records.{CatalogRecord, is_set}
use multi_agent_testbed.Catalog.Availability.{
  Availability, Installed, Switches, usable, allows, with_change, discard, add, availability_of,
  is_stub_or_external, module_present, IntegrationIndex, for_plugin,
}
use multi_agent_testbed.Catalog.Composition.{
  CompositionError, integration_unavailable, check_available, resolve, check_adapters, compose,
  Registry, Named, Composed, registered, ◌then_do◌,
}

contains-discard :
    (x y : String) (xs : List String)
    → contains (discard x xs) y ≡ contains xs y && not (str_eq y x)
unfolding discard
contains-discard x y [] = refl
contains-discard x y (z ∷ zs) = ground (arith, contains-discard x y zs, str_eq_subst z y x)

contains-snoc :
    (x y : String) (xs : List String) → contains (xs ++ x ∷ []) y ≡ contains xs y || str_eq x y
contains-snoc x y [] = ground arith
contains-snoc x y (z ∷ zs) = ground (arith, contains-snoc x y zs)

contains-add :
    (x y : String) (xs : List String) → contains (add x xs) y ≡ contains xs y || str_eq x y
unfolding add
contains-add x y xs = elim (Bool-cases (contains xs x)) [
  | inl there ↦ rw there (elim (Bool-cases (str_eq x y)) [
    | inl same ↦ rw (same, sym (str_eq→eq x y same), there) refl
    | inr other ↦ rw other ground arith
  ])
  | inr absent ↦ rw absent (contains-snoc x y xs)
]

-- The switch decides for its own record, and leaves every other as it was.
allows-with_change :
    (record_id : String) (on : Bool) (s : Switches) (r : CatalogRecord)
    → allows (with_change record_id on s) r
      ≡ (if str_eq r.record_id record_id then on else allows s r)
unfolding allows with_change
allows-with_change record_id true s r =
    rw
      (
        contains-discard record_id r.record_id s.disabled,
        contains-add record_id r.record_id s.enabled,
      )
      (rw (str_eq_comm record_id r.record_id) ground arith)
allows-with_change record_id false s r =
    rw
      (
        contains-add record_id r.record_id s.disabled,
        contains-discard record_id r.record_id s.enabled,
      )
      (rw (str_eq_comm record_id r.record_id) ground arith)

-- An adapter exists, and everything it requires is there.
unfoldable pub is_installed : Installed → CatalogRecord → Bool
is_installed i r =
    not (is_stub_or_external r.maturity)
    && is_set r.entry_point
    && all (module_present i) r.requires
    && all i.which r.requires_binaries

length-filter-not :
    {A : Type 0} (p : A → Bool) (xs : List A)
    → (length (filter (λ x. not (p x)) xs) == 0) ≡ all p xs
length-filter-not p [] = refl
length-filter-not p (x ∷ xs) = ground (arith, length-filter-not p xs)

usable-availability_of :
    (i : Installed) (r : CatalogRecord) (s : Switches)
    → usable (availability_of i r s) ≡ is_installed i r && allows s r
unfolding usable availability_of is_installed
usable-availability_of i r s =
    rw
      (
        length-filter-not (module_present i) r.requires,
        length-filter-not i.which r.requires_binaries,
      )
      ground arith

-- An integration can be used exactly when its adapter exists, everything it requires is installed
-- and it is switched on; after a change the switch is what the change says for the record it names,
-- and what it was for every other.
pub usable-with_change :
    (i : Installed) (r : CatalogRecord) (record_id : String) (on : Bool) (s : Switches)
    → usable (availability_of i r (with_change record_id on s))
      ≡ is_installed i r && (if str_eq r.record_id record_id then on else allows s r)
usable-with_change i r record_id on s =
    usable-availability_of i r (with_change record_id on s)
    ∙ ap (λ b. is_installed i r && b) (allows-with_change record_id on s r)

-- The catalog does not know the plug-in, or says that it can be used.
abbrev pub IsOpen : IntegrationIndex → String → String → Type 0
IsOpen index group name =
    (for_plugin index group name ≡ none)
    ⊎ ((a : Availability) × (for_plugin index group name ≡ some a) × (usable a ≡ true))

passed→usable :
    (group name : String) (a : Availability)
    → (if usable a then returned tt else raised (integration_unavailable group name a))
      ≡ returned tt
    → usable a ≡ true
passed→usable group name a h = ground arith

check_available-IsOpen :
    (index : IntegrationIndex) (group name : String)
    → check_available index group name ≡ returned tt
    → IsOpen index group name
unfolding check_available
check_available-IsOpen index group name h = go (for_plugin index group name) refl h
  where
    go :
        (o : Option Availability)
        → for_plugin index group name ≡ o
        → elim o [
          | none ↦ returned tt
          | some a ↦ if usable a then returned tt else raised (integration_unavailable group name a)
        ]
          ≡ returned tt
        → IsOpen index group name
    go none e k = inl e
    go (some a) e k = inr (a, e, passed→usable group name a k)

-- Every statement before the one that returns has returned.
then_do-returned :
    {E A B : Type 0} (m : Outcome E A) (f : A → Outcome E B) (b : B)
    → m then_do f ≡ returned b
    → (a : A) × (m ≡ returned a) × (f a ≡ returned b)
then_do-returned (returned a) f b h = (a, refl, h)
then_do-returned (raised e) f b h = cc

returned-injective :
    {A : Type 0} (o : Outcome CompositionError A) (a b : A)
    → o ≡ returned a
    → o ≡ returned b
    → a ≡ b
returned-injective o a b h k = cc

found-of_registered :
    {A : Type 0} (found : Option A) (e : CompositionError) (a : A)
    → registered found e ≡ returned a
    → found ≡ some a
found-of_registered none e a h = cc
found-of_registered (some b) e a h = cc

resolve-IsOpen :
    {A : Type 0} (registry : Dict A) (group name : String) (index : IntegrationIndex) (a : A)
    → resolve registry group name index ≡ returned a
    → IsOpen index group name × (lookup name registry ≡ some a)
unfolding resolve
resolve-IsOpen registry group name index a h =
    let (_, open_, found) = then_do-returned (check_available index group name) _ a h in
    (
      check_available-IsOpen index group name open_,
      found-of_registered (lookup name registry) _ a found,
    )

check_adapters-IsOpen :
    (index : IntegrationIndex) (adapters : List String)
    → check_adapters index adapters ≡ returned tt
    → All (IsOpen index "agents") adapters
unfolding check_adapters
check_adapters-IsOpen index [] h = tt
check_adapters-IsOpen index (a ∷ rest) h =
    let (_, open_, later) = then_do-returned (check_available index "agents" a) _ tt h in
    (check_available-IsOpen index "agents" a open_, check_adapters-IsOpen index rest later)

-- What a composition is made of: plug-ins of the registry, under the names of the manifest.
pub record IsComposedOf {P T R : Type 0} (configured : P → Outcome CompositionError P)
    (registry : Registry P T R) (m : Named) (c : Composed P T R) : Type 0 where
  pub found : P
  pub pack_found : lookup m.task_pack registry.packs ≡ some found
  pub pack_configured : configured found ≡ returned c.pack
  pub topology_found : lookup m.topology registry.topologies ≡ some c.topology
  pub runner_found : lookup m.runner registry.runners ≡ some c.runner

-- Nothing switched off or not installed is ever composed: when the composition root returns, the
-- task pack, the topology, the runner and each agent's adapter that the manifest names are unknown
-- to the catalog or usable, and the composition is made of the plug-ins registered under those
-- names, the pack in its configured form. The manifest's scorers are not among them.
pub compose-IsOpen :
    {P T R : Type 0} (configured : P → Outcome CompositionError P) (registry : Registry P T R)
    (index : IntegrationIndex) (m : Named) (c : Composed P T R)
    → compose configured registry index m ≡ returned c
    → IsOpen index "packs" m.task_pack
      × IsOpen index "topologies" m.topology
      × IsOpen index "runners" m.runner
      × All (IsOpen index "agents") m.adapters
      × IsComposedOf configured registry m c
unfolding compose
compose-IsOpen configured registry index m c h =
    let (found, hp, h1) =
      then_do-returned (resolve registry.packs "packs" m.task_pack index) _ c h in
    let (pack, hc, h2) = then_do-returned (configured found) _ c h1 in
    let (topology, ht, h3) =
      then_do-returned (resolve registry.topologies "topologies" m.topology index) _ c h2 in
    let (runner, hr, h4) =
      then_do-returned (resolve registry.runners "runners" m.runner index) _ c h3 in
    let (_, ha, h5) = then_do-returned (check_adapters index m.adapters) _ c h4 in
    let (open_p, found_p) = resolve-IsOpen registry.packs "packs" m.task_pack index found hp in
    let (open_t, found_t) =
      resolve-IsOpen registry.topologies "topologies" m.topology index topology ht in
    let (open_r, found_r) = resolve-IsOpen registry.runners "runners" m.runner index runner hr in
    let made = returned-injective _ _ _ refl h5 in
    (
      open_p,
      open_t,
      open_r,
      check_adapters-IsOpen index m.adapters ha,
      record {
        found = found;
        pack_found = found_p;
        pack_configured = hc ∙ ap (λ d. returned d.pack) made;
        topology_found = found_t ∙ ap (λ d. some d.topology) made;
        runner_found = found_r ∙ ap (λ d. some d.runner) made;
      },
    )
