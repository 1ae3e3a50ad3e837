-- ===== src/Objects/Service/Healing.antt =====
-- object_service.py: what healing an object's elements keeps.
use clean_data_platform_airf.Prelude.{
  ℕ, ◌≡◌, refl, String, Bool, true, false, Option, none, some, List, [], ◌∷◌, arith, All,
}
use clean_data_platform_airf.Prelude.Dict.{Dict, lookup, dict_by}
use clean_data_platform_airf.Errors.{ok}
use clean_data_platform_airf.Discovery.Schema.{SchemaField, SchemaSnapshot}
use clean_data_platform_airf.Objects.Element.{DataElement, DataObject}
use clean_data_platform_airf.Objects.Service.{
  Objects, find_by_id, require_object, fits, heal_field, heal_fields, apply_schema_snapshot,
}

abbrev pub element_fits : SchemaField → Option DataElement → Bool
element_fits f none = false
element_fits f (some e) = fits f e

heal_fields-fits :
    (new_id : ℕ → String) (i : String) (existing : Dict DataElement) (fs : List SchemaField)
    (s : Objects)
    → All (λ f. element_fits f (lookup f.name existing) ≡ true) fs
    → heal_fields new_id i existing fs s ≡ ok s
unfolding heal_fields heal_field
heal_fields-fits new_id i existing [] s h = refl
heal_fields-fits new_id i existing (f ∷ fs) s h =
    ground (arith, heal_fields-fits new_id i existing fs s h.1)

require_object-found :
    (i : String) (s : Objects) (obj : DataObject)
    → find_by_id i s ≡ some obj
    → require_object i s ≡ ok obj
unfolding require_object
require_object-found i s obj found = ground arith

-- Applying a snapshot whose every field has an element of its name, type and nullability changes
-- nothing and returns the object.
pub apply_schema_snapshot-fits :
    (new_id : ℕ → String) (i : String) (snapshot : SchemaSnapshot) (s : Objects) (obj : DataObject)
    → find_by_id i s ≡ some obj
    → All
        (λ f. element_fits f (lookup f.name (dict_by (λ e. e.name) obj.elements)) ≡ true)
        snapshot.fields
    → apply_schema_snapshot new_id i snapshot s ≡ ok (s, obj)
unfolding apply_schema_snapshot
apply_schema_snapshot-fits new_id i snapshot s obj found h = ground (
  arith,
  require_object-found i s obj,
  heal_fields-fits new_id i (dict_by (λ e. e.name) obj.elements) snapshot.fields s h,
)
