-- ===== src/Objects/Tests.antt =====
-- The objects' theorem at an object with two elements.
use clean_data_platform_airf.Prelude.{◌≡◌, refl, String, true, false, none, some, List, [], ◌∷◌}
use clean_data_platform_airf.Discovery.Schema.{SchemaField, SchemaSnapshot}
use clean_data_platform_airf.Objects.Element.{
  ElementType, string, integer, table, fresh, DataElement, DataObject,
}
use clean_data_platform_airf.Objects.Service.{Objects, find_row, find_by_id}

abbrev element_of : String → ElementType → DataElement
element_of name type_ = record {
  id = name;
  object_id = "orders";
  name = name;
  source_type = some type_;
  destination_type = type_;
  required = false;
  nullable = true;
  is_primary_key = false;
  description = "";
  policy_tag = none;
  auto_generated = false;
  is_computed = false;
}

abbrev elements : List DataElement
elements = element_of "id" integer ∷ element_of "note" string ∷ []

abbrev orders : DataObject
orders = record {
  id = "orders";
  asset_id = "a1";
  name = "orders";
  type_ = table;
  description = "";
  policy_tags = [];
  last_run = none;
  last_success = none;
  freshness_status = fresh;
  elements = elements;
  auto_generated_description = false;
}

abbrev store : Objects
store = record { objects = orders ∷ []; elements = elements; created = 0 }

abbrev field_of : String → String → SchemaField
field_of name type_ = record {
  name = name;
  source_type = type_;
  normalized_type = type_;
  nullable = true;
  is_primary_key = false;
  description = none;
}

abbrev snapshot : SchemaSnapshot
snapshot = record {
  object_id = "orders";
  fields = field_of "id" "integer" ∷ field_of "note" "clob" ∷ [];
  captured_at = 5;
  object_name = "orders";
  row_count_estimate = none;
}

orders_found : find_by_id "orders" store ≡ some orders
unfolding find_by_id find_row
orders_found = refl
