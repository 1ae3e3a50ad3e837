-- ===== src/Objects/Repository.antt =====
-- sql_data_object_repository.py: saving a whole object, and the objects of an asset. The elements
-- of the object that the table has are looked up by name, the last of a name standing for it; an
-- element without an id gets a new one.
use clean_data_platform_airf.Prelude.{
  ℕ, ◌+◌, ◌≡◌, refl, String, Bool, true, Option, none, some, List, [], ◌∷◌, ◌++◌, ◌==◌,
  if◌then◌else◌, filter, is_text, is_some, map, arith, eq_iff,
}
use clean_data_platform_airf.Prelude.Dict.{Dict, lookup, dict_by}
use clean_data_platform_airf.Objects.Element.{DataElement, DataObject, ElementType}
use clean_data_platform_airf.Objects.Service.{Objects, find_row}

-- The row of an object, without its elements.
abbrev pub row_of : DataObject → DataObject
row_of obj = record obj { elements = [] }

unfoldable pub save_row : DataObject → List DataObject → List DataObject
save_row obj [] = row_of obj ∷ []
save_row obj (row ∷ rows) = if row.id == obj.id then row_of obj ∷ rows else row ∷ save_row obj rows

-- `_element_to_model`
abbrev pub element_row : (ℕ → String) → ℕ → String → DataElement → DataElement
element_row new_id created object_id e = record e {
  id = if is_text e.id then e.id else new_id created;
  object_id = object_id;
}

abbrev pub kept_source : Option ElementType → Option ElementType → Option ElementType
kept_source none stored = stored
kept_source (some t) stored = some t

-- The writes to the element that stands for the name.
abbrev pub written_element : DataElement → DataElement → DataElement
written_element e row = record row {
  destination_type = e.destination_type;
  nullable = e.nullable;
  required = e.required;
  is_primary_key = e.is_primary_key;
  source_type = kept_source e.source_type row.source_type;
}

unfoldable pub write_element : String → DataElement → List DataElement → List DataElement
write_element element_id e [] = []
write_element element_id e (row ∷ rows) =
    if row.id == element_id
    then written_element e row ∷ rows
    else row ∷ write_element element_id e rows

-- One round of the loop over the elements.
unfoldable pub save_element :
    (ℕ → String) → String → Option DataElement → DataElement → Objects → Objects
unfolding write_element
save_element new_id object_id none e s = record s {
  elements = s.elements ++ element_row new_id s.created object_id e ∷ [];
  created = s.created + 1;
}
save_element new_id object_id (some curr) e s = record s {
  elements = write_element curr.id e s.elements;
}

unfoldable pub save_elements :
    (ℕ → String) → String → Dict DataElement → List DataElement → Objects → Objects
unfolding save_element
save_elements new_id object_id existing [] s = s
save_elements new_id object_id existing (e ∷ es) s =
    save_elements new_id object_id existing es
      (save_element new_id object_id (lookup e.name existing) e s)

abbrev pub elements_of : String → Objects → List DataElement
elements_of object_id s = filter (λ e. e.object_id == object_id) s.elements

-- `SqlDataObjectRepository.save`, with the object read back.
unfoldable pub save_object : (ℕ → String) → DataObject → Objects → Objects × DataObject
unfolding save_row save_elements
save_object new_id obj s =
    let existing = dict_by (λ e. e.name) (elements_of obj.id s) in
    let s' =
      save_elements new_id obj.id existing obj.elements
        (record s { objects = save_row obj s.objects }) in
    (s', record obj { elements = elements_of obj.id s' })

-- `find_by_asset_id`
unfoldable pub find_by_asset_id : String → Objects → List DataObject
find_by_asset_id asset_id s =
    map {A = DataObject} (λ row. record row { elements = elements_of row.id s })
      (filter (λ row. row.asset_id == asset_id) s.objects)

-- Which objects the table has.
abbrev pub has_row : String → Objects → Bool
has_row object_id s = is_some (find_row object_id s.objects)

save_element-objects :
    (new_id : ℕ → String) (object_id : String) (found : Option DataElement) (e : DataElement)
    (s : Objects)
    → (save_element new_id object_id found e s).objects ≡ s.objects
unfolding save_element
save_element-objects new_id object_id none e s = refl
save_element-objects new_id object_id (some curr) e s = refl

save_elements-objects :
    (new_id : ℕ → String) (object_id : String) (existing : Dict DataElement) (es : List DataElement)
    (s : Objects)
    → (save_elements new_id object_id existing es s).objects ≡ s.objects
unfolding save_elements
save_elements-objects new_id object_id existing [] s = refl
save_elements-objects new_id object_id existing (e ∷ es) s = ground (
  arith,
  save_elements-objects new_id object_id existing es
      (save_element new_id object_id (lookup e.name existing) e s),
  save_element-objects new_id object_id (lookup e.name existing) e s,
)

find_row-save_row :
    (wanted : String) (obj : DataObject) (rows : List DataObject)
    → is_some (find_row wanted (save_row obj rows))
      ≡ (if obj.id == wanted then true else is_some (find_row wanted rows))
unfolding find_row save_row
find_row-save_row wanted obj [] = ground arith
find_row-save_row wanted obj (row ∷ rows) = ground (
  arith,
  find_row-save_row wanted obj rows,
  eq_iff row.id obj.id,
  eq_iff row.id wanted,
  eq_iff obj.id wanted,
)

-- Saving an object writes its row, and no other.
pub save_object-objects :
    (new_id : ℕ → String) (obj : DataObject) (s : Objects)
    → (save_object new_id obj s).0.objects ≡ save_row obj s.objects
unfolding save_object
save_object-objects new_id obj s =
    save_elements-objects new_id obj.id (dict_by (λ e. e.name) (elements_of obj.id s)) obj.elements
      (record s { objects = save_row obj s.objects })

-- Saving an object adds its row, and takes none away.
pub has_row-save_object :
    (new_id : ℕ → String) (wanted : String) (obj : DataObject) (s : Objects)
    → has_row wanted (save_object new_id obj s).0
      ≡ (if obj.id == wanted then true else has_row wanted s)
unfolding save_object
has_row-save_object new_id wanted obj s =
    rw
      (save_elements-objects new_id obj.id (dict_by (λ e. e.name) (elements_of obj.id s))
        obj.elements (record s { objects = save_row obj s.objects }))
      (find_row-save_row wanted obj s.objects)

pub saved-id :
    (new_id : ℕ → String) (obj : DataObject) (s : Objects)
    → (save_object new_id obj s).1.id ≡ obj.id
unfolding save_object
saved-id new_id obj s = refl
