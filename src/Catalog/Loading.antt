-- ===== src/Catalog/Loading.antt =====
-- Loading a catalog does not see the order in which its files are read.
use multi_agent_testbed.Base.{
  ◌≡◌, refl, true, List, Perm, str_le_total, str_le_trans, str_le_antisymm, IsPreorder,
  sort_by_of_perm, arith,
}
use mathlib.Core.List.{Mem}
use multi_agent_testbed.Catalog.Records.{CatalogRecord}
use multi_agent_testbed.Catalog.Registry.{record_le, new_catalog}

record_le-IsPreorder : IsPreorder record_le
unfolding record_le
record_le-IsPreorder = record {
  total = λ x y h. ground (arith, str_le_total x.record_id y.record_id);
  trans = λ x y z h k. ground (arith, str_le_trans x.record_id y.record_id z.record_id);
}

-- No two different records have one id.
abbrev pub AreNamedApart : List CatalogRecord → Type 0
AreNamedApart rs = (x y : CatalogRecord) → Mem x rs → Mem y rs → x.record_id ≡ y.record_id → x ≡ y

same_id_of_le :
    (x y : CatalogRecord) → record_le x y ≡ true → record_le y x ≡ true → x.record_id ≡ y.record_id
unfolding record_le
same_id_of_le x y h k = str_le_antisymm x.record_id y.record_id (ground arith) (ground arith)

-- A catalog is the same whatever order its records were read in, and so is the error where an id
-- repeats, provided that no two different records have one id.
pub new_catalog_of_perm :
    (xs ys : List CatalogRecord) → AreNamedApart xs → Perm xs ys → new_catalog xs ≡ new_catalog ys
unfolding new_catalog
new_catalog_of_perm xs ys apart p =
    rw
      (sort_by_of_perm record_le record_le-IsPreorder xs ys
        (λ x y mx my h k. apart x y mx my (same_id_of_le x y h k)) p)
      refl
