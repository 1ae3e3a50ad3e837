-- ===== src/Objects/Service.antt =====
-- app/domain/objects/object_service.py over the tables of sql_data_object_repository.py. A row of an
-- object holds no elements: `find_by_id` reads them from their own table, where the session's
-- identity map is left out. `new_id` gives the uuid for the n-th element that is created.
pub mod Healing
use clean_data_platform_airf.Prelude.{
  ℕ, ◌+◌, String, Bool, true, false, not, ◌&&◌, ◌||◌, Option, none, some, List, [], ◌∷◌, ◌++◌, ◌==◌,
  if◌then◌else◌, format, filter,
}
use clean_data_platform_airf.Prelude.Dict.{Dict, lookup, dict_by}
use clean_data_platform_airf.Errors.{
  Result, ok, err, not_found_error, destructive_override, value_error, ◌>>=◌,
}
use clean_data_platform_airf.Discovery.Schema.{SchemaField, SchemaSnapshot}
use clean_data_platform_airf.Objects.Element.{
  ElementType, string, integer, bigint, float, date, timestamp, boolean, type_text, parse_type,
  same_type, DataElement, DataObject,
}

pub record Objects : Type 0 where
  pub objects : List DataObject
  pub elements : List DataElement
  pub created : ℕ

unfoldable pub find_row : String → List DataObject → Option DataObject
find_row object_id [] = none
find_row object_id (row ∷ rows) = if row.id == object_id then some row else find_row object_id rows

abbrev pub with_elements : List DataElement → Option DataObject → Option DataObject
with_elements elements none = none
with_elements elements (some row) = some (record row { elements = elements })

unfoldable pub find_by_id : String → Objects → Option DataObject
unfolding find_row
find_by_id object_id s =
    with_elements (filter (λ e. e.object_id == object_id) s.elements) (find_row object_id s.objects)

-- `_require_object`
unfoldable pub require_object : String → Objects → Result DataObject
require_object object_id s = elim (find_by_id object_id s) [
  | none ↦ err (not_found_error (format ("DataObject not found: id='" ∷ object_id ∷ "'" ∷ [])))
  | some obj ↦ ok obj
]

-- `DataObjectService.add_element`
unfoldable pub add_element : String → DataElement → Objects → Result Objects
unfolding require_object
add_element object_id element s = do
  obj ← require_object object_id s
  ok (record s {
    elements = s.elements ++ record element { object_id = object_id } ∷ [];
    created = s.created + 1;
  })

-- `_DESTRUCTIVE_OVERRIDES`
unfoldable pub is_destructive : ElementType → ElementType → Bool
is_destructive string integer = true
is_destructive string bigint = true
is_destructive string float = true
is_destructive string date = true
is_destructive string timestamp = true
is_destructive string boolean = true
is_destructive source destination = false

-- `update_element_destination_type`
unfoldable pub update_element :
    String → ElementType → Bool → Bool → List DataElement → Result (List DataElement)
update_element element_id destination_type required nullable [] =
    err (value_error (format ("DataElement not found: " ∷ element_id ∷ [])))
update_element element_id destination_type required nullable (e ∷ rest) =
    let others = update_element element_id destination_type required nullable rest in
    if e.id == element_id
    then ok (
        record e { destination_type = destination_type; required = required; nullable = nullable }
        ∷ rest)
    else (others >>= λ es. ok (e ∷ es))

abbrev pub is_lossy : Option ElementType → ElementType → Bool
is_lossy none destination = false
is_lossy (some source) destination = is_destructive source destination

abbrev pub shown_type : Option ElementType → String
shown_type none = "None"
shown_type (some t) = type_text t

-- `override_element_destination`; the message names the types by their values.
unfoldable pub override_element_destination :
    String
    → String
    → String
    → Option ElementType
    → ElementType
    → Bool
    → Bool
    → Objects
    → Result Objects
unfolding require_object is_destructive update_element
override_element_destination object_id element_id name source destination required nullable s = do
  obj ← require_object object_id s
  elements ←
      if is_lossy source destination
      then err (
          destructive_override (
            format (
              "Destructive type override on element '"
              ∷ name
              ∷ "': source_type="
              ∷ shown_type source
              ∷ " -> destination_type="
              ∷ type_text destination
              ∷ ". Explicit AE confirmation required before deploy."
              ∷ [])))
      else update_element element_id destination required nullable s.elements
  ok (record s { elements = elements })

-- `ElementType(field.normalized_type)`, or STRING.
abbrev pub type_or_string : Option ElementType → ElementType
type_or_string none = string
type_or_string (some t) = t

abbrev pub destination_of : SchemaField → ElementType
destination_of f = type_or_string (parse_type f.normalized_type)

abbrev pub text_or_empty : Option String → String
text_or_empty none = ""
text_or_empty (some s) = s

abbrev pub same_bool : Bool → Bool → Bool
same_bool true b = b
same_bool false b = not b

abbrev pub new_element : (ℕ → String) → String → SchemaField → Objects → DataElement
new_element new_id object_id f s = record {
  id = new_id s.created;
  object_id = object_id;
  name = f.name;
  source_type = some (destination_of f);
  destination_type = destination_of f;
  required = not f.nullable;
  nullable = f.nullable;
  is_primary_key = false;
  description = text_or_empty f.description;
  policy_tag = none;
  auto_generated = false;
  is_computed = false;
}

-- The element already is as the field says.
abbrev pub fits : SchemaField → DataElement → Bool
fits f e = same_type e.destination_type (destination_of f) && same_bool e.nullable f.nullable

-- One round of the loop over the snapshot's fields.
unfoldable pub heal_field :
    (ℕ → String) → String → Option DataElement → SchemaField → Objects → Result Objects
heal_field new_id object_id none f s = add_element object_id (new_element new_id object_id f s) s
heal_field new_id object_id (some e) f s =
    if fits f e
    then ok s
    else override_element_destination object_id e.id f.name e.source_type (destination_of f)
        (not f.nullable) f.nullable s

unfoldable pub heal_fields :
    (ℕ → String) → String → Dict DataElement → List SchemaField → Objects → Result Objects
heal_fields new_id object_id existing [] s = ok s
heal_fields new_id object_id existing (f ∷ rest) s = do
  s' ← heal_field new_id object_id (lookup f.name existing) f s
  heal_fields new_id object_id existing rest s'

-- `apply_schema_snapshot`
unfoldable pub apply_schema_snapshot :
    (ℕ → String) → String → SchemaSnapshot → Objects → Result (Objects × DataObject)
apply_schema_snapshot new_id object_id snapshot s = do
  obj ← require_object object_id s
  s' ← heal_fields new_id object_id (dict_by (λ e. e.name) obj.elements) snapshot.fields s
  obj' ← require_object object_id s'
  ok (s', obj')
