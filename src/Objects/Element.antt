-- ===== src/Objects/Element.antt =====
-- app/domain/objects: element_type.py, object_type.py, freshness_status.py, data_element.py and
-- data_object.py. The structural metadata of an object is left out, which nothing here reads.
use clean_data_platform_airf.Prelude.{
  ℕ, String, Bool, true, Option, none, some, List, [], ◌∷◌, ◌==◌, if◌then◌else◌,
}
use clean_data_platform_airf.Discovery.Tags.{PolicyTag}

pub data ElementType : Type 0 where
  string integer bigint float decimal : ElementType
  date timestamp boolean bytes json : ElementType

-- `element_type.value`
abbrev pub type_text : ElementType → String
type_text string = "string"
type_text integer = "integer"
type_text bigint = "bigint"
type_text float = "float"
type_text decimal = "decimal"
type_text date = "date"
type_text timestamp = "timestamp"
type_text boolean = "boolean"
type_text bytes = "bytes"
type_text json = "json"

abbrev pub find_type : String → List ElementType → Option ElementType
find_type s [] = none
find_type s (t ∷ rest) = if type_text t == s then some t else find_type s rest

abbrev pub all_types : List ElementType
all_types =
    string ∷ integer ∷ bigint ∷ float ∷ decimal ∷ date ∷ timestamp ∷ boolean ∷ bytes ∷ json ∷ []

-- `ElementType(value)`
unfoldable pub parse_type : String → Option ElementType
parse_type s = find_type s all_types

abbrev pub same_type : ElementType → ElementType → Bool
same_type a b = type_text a == type_text b

pub data ObjectType : Type 0 where
  table view file api_resource collection : ObjectType

pub data FreshnessStatus : Type 0 where
  fresh stale unknown : FreshnessStatus

pub record DataElement : Type 0 where
  pub id : String
  pub object_id : String
  pub name : String
  pub source_type : Option ElementType
  pub destination_type : ElementType
  pub required : Bool
  pub nullable : Bool
  pub is_primary_key : Bool
  pub description : String
  pub policy_tag : Option PolicyTag
  pub auto_generated : Bool
  pub is_computed : Bool

pub record DataObject : Type 0 where
  pub id : String
  pub asset_id : String
  pub name : String
  pub type_ : ObjectType
  pub description : String
  pub policy_tags : List PolicyTag
  pub last_run : Option ℕ
  pub last_success : Option ℕ
  pub freshness_status : FreshnessStatus
  pub elements : List DataElement
  pub auto_generated_description : Bool

-- `DataObject.create_from_discovery`
abbrev pub create_from_discovery : String → String → String → String → DataObject
create_from_discovery new_id asset_id name description = record {
  id = new_id;
  asset_id = asset_id;
  name = name;
  type_ = table;
  description = description;
  policy_tags = [];
  last_run = none;
  last_success = none;
  freshness_status = unknown;
  elements = [];
  auto_generated_description = true;
}
