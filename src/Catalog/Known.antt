-- ===== src/Catalog/Known.antt =====
-- dbt_catalog_adapter.py and dataform_catalog_adapter.py: the known objects, by name.
use clean_data_platform_airf.Prelude.{
  ℕ, ◌+◌, ◌≡◌, refl, String, Bool-cases, inl, inr, Option, none, some, List, [], ◌∷◌, ◌==◌, arith,
  All, eq_iff, filter, map, length,
}
use clean_data_platform_airf.Prelude.Dict.{Dict, lookup, insert, insert_all, dict_by}
use clean_data_platform_airf.Objects.Element.{DataObject, DataElement, ElementType}
use clean_data_platform_airf.Objects.Service.{Objects}
use clean_data_platform_airf.Objects.Repository.{find_by_asset_id, elements_of}
use clean_data_platform_airf.Catalog.Sync.{
  Column, Model, SyncResult, Ids, Adapter, dbt_catalog_adapter, dataform_catalog_adapter, tool_of,
  build_elements, dbt_object, resolve_or_create_object, synced_object, known, known_after,
}

-- An object of the asset with a name.
abbrev pub IsObjectOf : String → String → DataObject → Type 0
IsObjectOf asset_id name o = (o.name ≡ name) × (o.asset_id ≡ asset_id)

-- What is known under a name are objects of the asset with that name.
abbrev pub AreKnown : String → Dict DataObject → Type 0
AreKnown asset_id [] = Unit
AreKnown asset_id ((name, o) ∷ d) = IsObjectOf asset_id name o × AreKnown asset_id d

insert-AreKnown :
    (asset_id name : String) (o : DataObject) (d : Dict DataObject)
    → IsObjectOf asset_id name o
    → AreKnown asset_id d
    → AreKnown asset_id (insert name o d)
unfolding insert
insert-AreKnown asset_id name o [] new h = (new, tt)
insert-AreKnown asset_id name o ((j, w) ∷ d) new h = elim (Bool-cases (j == name)) [
  | inl same ↦ let e : j ≡ name = (eq_iff j name).0 same in rw same (rw e (new, h.1))
  | inr other ↦ rw other (h.0, insert-AreKnown asset_id name o d new h.1)
]

insert_all-AreKnown :
    (asset_id : String) (os : List DataObject) (d : Dict DataObject)
    → All (λ (o : DataObject). o.asset_id ≡ asset_id) os
    → AreKnown asset_id d
    → AreKnown asset_id (insert_all (λ (o : DataObject). o.name) os d)
unfolding insert_all
insert_all-AreKnown asset_id [] d all h = h
insert_all-AreKnown asset_id (o ∷ os) d all h =
    insert_all-AreKnown asset_id os (insert o.name o d) all.1
      (insert-AreKnown asset_id o.name o d (refl, all.0) h)

of_asset :
    (asset_id : String) (s : Objects) (rows : List DataObject)
    → All
        (λ (o : DataObject). o.asset_id ≡ asset_id)
        (map {A = DataObject}
          (λ row. record row { elements = elements_of row.id s })
          (filter (λ (row : DataObject). row.asset_id == asset_id) rows))
of_asset asset_id s [] = tt
of_asset asset_id s (row ∷ rows) = elim (Bool-cases (row.asset_id == asset_id)) [
  | inl same ↦ rw same ((eq_iff row.asset_id asset_id).0 same, of_asset asset_id s rows)
  | inr other ↦ rw other (of_asset asset_id s rows)
]

pub dict_by-AreKnown :
    (asset_id : String) (s : Objects)
    → AreKnown asset_id (dict_by (λ (o : DataObject). o.name) (find_by_asset_id asset_id s))
unfolding dict_by find_by_asset_id
dict_by-AreKnown asset_id s =
    insert_all-AreKnown asset_id (find_by_asset_id asset_id s) [] (of_asset asset_id s s.objects) tt

abbrev IsFound : String → String → Option DataObject → Type 0
IsFound asset_id name none = Unit
IsFound asset_id name (some o) = IsObjectOf asset_id name o

lookup-IsFound :
    (asset_id name : String) (d : Dict DataObject)
    → AreKnown asset_id d
    → IsFound asset_id name (lookup name d)
unfolding lookup
lookup-IsFound asset_id name [] h = tt
lookup-IsFound asset_id name ((j, o) ∷ d) h = elim (Bool-cases (j == name)) [
  | inl same ↦ rw same (rw (← (eq_iff j name).0 same) h.0)
  | inr other ↦ rw other (lookup-IsFound asset_id name d h.1)
]

pub length-build_elements :
    (to_type : String → ElementType) (new_id : ℕ → String) (n : ℕ) (cols : List Column)
    → length (build_elements to_type new_id n cols) ≡ length cols
unfolding build_elements
length-build_elements to_type new_id n [] = refl
length-build_elements to_type new_id n (col ∷ cols) =
    omega (arith, length-build_elements to_type new_id (n + 1) cols)

dbt_object-IsObjectOf :
    (object_id asset_id : String) (model : Model) (es : List DataElement)
    (found : Option DataObject)
    → IsFound asset_id model.name found
    → IsObjectOf asset_id model.name (dbt_object object_id asset_id model es found)
unfolding dbt_object
dbt_object-IsObjectOf object_id asset_id model es none h = (refl, refl)
dbt_object-IsObjectOf object_id asset_id model es (some o) h = h

resolve_or_create_object-IsObjectOf :
    (object_id asset_id : String) (model : Model) (es : List DataElement)
    (found : Option DataObject)
    → IsFound asset_id model.name found
    → IsObjectOf asset_id model.name (resolve_or_create_object object_id asset_id model es found)
unfolding resolve_or_create_object
resolve_or_create_object-IsObjectOf object_id asset_id model es none h = (refl, refl)
resolve_or_create_object-IsObjectOf object_id asset_id model es (some o) h = h

object_of-IsObjectOf :
    (adapter : Adapter) (object_id asset_id : String) (model : Model) (es : List DataElement)
    (found : Option DataObject)
    → IsFound asset_id model.name found
    → IsObjectOf asset_id model.name ((tool_of adapter).object_of object_id asset_id model es found)
object_of-IsObjectOf dbt_catalog_adapter = dbt_object-IsObjectOf
object_of-IsObjectOf dataform_catalog_adapter = resolve_or_create_object-IsObjectOf

module _ (adapter : Adapter) (ids : Ids) where
  pub synced_object-IsObjectOf :
      (counts : SyncResult) (asset_id : String) (existing : Dict DataObject) (model : Model)
      → AreKnown asset_id existing
      → IsObjectOf asset_id model.name
          (synced_object (tool_of adapter) ids counts asset_id existing model)
  synced_object-IsObjectOf counts asset_id existing model h =
      object_of-IsObjectOf adapter _ asset_id model _ (lookup model.name existing)
        (lookup-IsFound asset_id model.name existing h)

  known-AreKnown :
      (asset_id name : String) (o : DataObject) (found : Option DataObject) (d : Dict DataObject)
      → IsObjectOf asset_id name o
      → AreKnown asset_id d
      → AreKnown asset_id (known (tool_of adapter) ids name o found d)
  known-AreKnown asset_id name o none d new h = h
  known-AreKnown asset_id name o (some old) d new h = insert-AreKnown asset_id name o d new h

  pub known_after-AreKnown :
      (counts : SyncResult) (asset_id : String) (existing : Dict DataObject) (model : Model)
      → AreKnown asset_id existing
      → AreKnown asset_id (known_after (tool_of adapter) ids counts asset_id existing model)
  known_after-AreKnown counts asset_id existing model h =
      known-AreKnown asset_id model.name _ (lookup model.name existing) existing
        (synced_object-IsObjectOf counts asset_id existing model h) h
