-- ===== src/Extraction/Json.antt =====
-- app/infrastructure/adapters/compute/rest_api_helpers.py, `resolve_jsonpath` and
-- `extract_envelope_items`: reading an answer. A path comes as the parts between its dots; numbers
-- have no sign and no fraction.
use clean_data_platform_airf.Prelude.{
  ℕ, String, Bool, true, false, not, List, [], ◌∷◌, ◌==◌, if◌then◌else◌, eqb, is_text,
}

mutual
  pub data Value : Type 0 where
    null : Value
    boolean : Bool → Value
    number : ℕ → Value
    text : String → Value
    array : Items → Value
    object : Fields → Value

  pub data Items : Type 0 where
    nil : Items
    cons : Value → Items → Items

  pub data Fields : Type 0 where
    end : Fields
    field : String → Value → Fields → Fields

-- `d.get(name)`
unfoldable pub get : String → Fields → Value
get name end = null
get name (field key value rest) =
    let others = get name rest in if key == name then value else others

-- One round of the loop over the parts; on anything but an object it returns None.
abbrev pub get_part : String → Value → Value
get_part part (object fields) = get part fields
get_part part _ = null

unfoldable pub resolve_jsonpath : Value → List String → Value
unfolding get
resolve_jsonpath current [] = current
resolve_jsonpath current (part ∷ path) = resolve_jsonpath (get_part part current) path

-- Python's truth value.
abbrev pub is_truthy : Value → Bool
is_truthy null = false
is_truthy (boolean b) = b
is_truthy (number n) = not (eqb n 0)
is_truthy (text s) = is_text s
is_truthy (array nil) = false
is_truthy (array (cons x xs)) = true
is_truthy (object end) = false
is_truthy (object (field key value rest)) = true

-- `[item for item in raw if isinstance(item, dict)]`
unfoldable pub objects_in : Items → List Fields
objects_in nil = []
objects_in (cons (object fields) rest) = fields ∷ objects_in rest
objects_in (cons _ rest) = objects_in rest

abbrev list_or : Value → List Fields → List Fields
list_or (array items) others = objects_in items
list_or _ others = others

-- The first key of the envelope that holds a list.
unfoldable pub unwrap : List String → Fields → List Fields
unfolding get objects_in
unwrap [] fields = []
unwrap (key ∷ keys) fields = let others = unwrap keys fields in list_or (get key fields) others

abbrev pub wrapper_keys : List String
wrapper_keys = "data" ∷ "items" ∷ "results" ∷ "records" ∷ "content" ∷ []

unfoldable pub extract_envelope_items : Value → List Fields
unfolding objects_in unwrap
extract_envelope_items raw = elim raw [
  | array items ↦ objects_in items
  | object fields ↦ unwrap wrapper_keys fields
  | _ ↦ []
]
