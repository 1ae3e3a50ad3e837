-- ===== src/Catalog/Sync.antt =====
-- dbt_catalog_adapter.py and dataform_catalog_adapter.py: the models of a manifest become objects of
-- an asset. The uuid of the n-th column and of the n-th model are parameters. Models and tables have
-- the fields that the adapters read.
use clean_data_platform_airf.Prelude.{
  ℕ, ◌+◌, String, true, false, Option, none, some, List, [], ◌∷◌, ◌==◌, if◌then◌else◌, format,
  is_text, length,
}
use clean_data_platform_airf.Prelude.Dict.{Dict, lookup, insert, dict_by}
use clean_data_platform_airf.Errors.{Result, ok, err, not_found_error}
use clean_data_platform_airf.Persistence.UnitOfWork.{
  Action, and_then, query, execute, commit, within,
}
use clean_data_platform_airf.Assets.Asset.{DataAsset}
use clean_data_platform_airf.Assets.Table.{Table, find_by_name}
use clean_data_platform_airf.Objects.Element.{
  ElementType, DataElement, DataObject, ObjectType, table, view, unknown,
}
use clean_data_platform_airf.Objects.Service.{Objects}
use clean_data_platform_airf.Objects.Repository.{save_object, find_by_asset_id}
use clean_data_platform_airf.Catalog.Types.{map_type, map_dataform_type_to_element_type}

-- `DbtColumnMetadata` and `DataformColumnMetadata`
pub record Column : Type 0 where
  pub name : String
  pub data_type : String
  pub description : String

-- `DbtNodeMetadata` and `DataformTableMetadata`; a node of dbt has no type.
pub record Model : Type 0 where
  pub name : String
  pub type_ : String
  pub description : String
  pub columns : List Column

pub record SyncResult : Type 0 where
  pub objects_synced : ℕ
  pub elements_synced : ℕ

pub record Tables : Type 0 where
  pub assets : Table
  pub store : Objects

pub record Ids : Type 0 where
  pub new_element_id : ℕ → String
  pub new_object_id : ℕ → String

-- `_build_elements`, from the n-th column on
unfoldable pub build_elements :
    (String → ElementType) → (ℕ → String) → ℕ → List Column → List DataElement
build_elements to_type new_id n [] = []
build_elements to_type new_id n (col ∷ cols) =
    record {
      id = new_id n;
      object_id = "";
      name = col.name;
      source_type = some (to_type col.data_type);
      destination_type = to_type col.data_type;
      required = false;
      nullable = true;
      is_primary_key = false;
      description = col.description;
      policy_tag = none;
      auto_generated = true;
      is_computed = false;
    }
    ∷ build_elements to_type new_id (n + 1) cols

abbrev pub or_text : String → String → String
or_text s other = if is_text s then s else other

abbrev pub created_object :
    String → String → String → ObjectType → String → List DataElement → DataObject
created_object object_id asset_id name t description elements = record {
  id = object_id;
  asset_id = asset_id;
  name = name;
  type_ = t;
  description = description;
  policy_tags = [];
  last_run = none;
  last_success = none;
  freshness_status = unknown;
  elements = elements;
  auto_generated_description = false;
}

-- The object of a model of dbt: a known one takes the elements, and the description if there is one.
unfoldable pub dbt_object :
    String → String → Model → List DataElement → Option DataObject → DataObject
dbt_object object_id asset_id model elements none =
    created_object object_id asset_id model.name table
      (or_text model.description (format ("dbt model " ∷ model.name ∷ []))) elements
dbt_object object_id asset_id model elements (some obj) = record obj {
  elements = elements;
  description = or_text model.description obj.description;
}

abbrev pub resolved_type : String → ObjectType
resolved_type t = if t == "view" then view else table

-- `_resolve_or_create_object` of Dataform: a known object stays as it is.
unfoldable pub resolve_or_create_object :
    String → String → Model → List DataElement → Option DataObject → DataObject
resolve_or_create_object object_id asset_id model elements (some obj) = obj
resolve_or_create_object object_id asset_id model elements none =
    created_object object_id asset_id model.name (resolved_type model.type_)
      (or_text model.description (format ("Dataform model " ∷ model.name ∷ []))) elements

-- What the two adapters do differently.
pub record Tool : Type 0 where
  pub to_type : String → ElementType
  pub object_of : String → String → Model → List DataElement → Option DataObject → DataObject

abbrev pub dbt : Tool
dbt = record { to_type = map_type; object_of = dbt_object }

abbrev pub dataform : Tool
dataform = record {
  to_type = map_dataform_type_to_element_type;
  object_of = resolve_or_create_object;
}

-- The adapter of each tool.
pub data Adapter : Type 0 where
  dbt_catalog_adapter dataform_catalog_adapter : Adapter

abbrev pub tool_of : Adapter → Tool
tool_of dbt_catalog_adapter = dbt
tool_of dataform_catalog_adapter = dataform

abbrev pub counted : List DataElement → SyncResult → SyncResult
counted elements counts = record {
  objects_synced = counts.objects_synced + 1;
  elements_synced = counts.elements_synced + length elements;
}

module _ (tool : Tool) (ids : Ids) where
  -- The elements of a model, after as many others as are counted.
  abbrev pub elements_of_model : SyncResult → Model → List DataElement
  elements_of_model counts model =
      build_elements tool.to_type ids.new_element_id counts.elements_synced model.columns

  -- The object of a model, after as many others as are counted.
  abbrev pub synced_object : SyncResult → String → Dict DataObject → Model → DataObject
  synced_object counts asset_id existing model =
      tool.object_of (ids.new_object_id counts.objects_synced) asset_id model
        (elements_of_model counts model) (lookup model.name existing)

  -- A known object is changed in place, and stays known by its name.
  abbrev pub known : String → DataObject → Option DataObject → Dict DataObject → Dict DataObject
  known name obj none existing = existing
  known name obj (some old) existing = insert name obj existing

  abbrev pub known_after : SyncResult → String → Dict DataObject → Model → Dict DataObject
  known_after counts asset_id existing model =
      known model.name (synced_object counts asset_id existing model) (lookup model.name existing)
        existing

  -- The loop over the models, with the counters, which number the uuids too.
  unfoldable pub sync_models :
      String → Dict DataObject → List Model → SyncResult → Objects → Objects × SyncResult
  unfolding build_elements
  sync_models asset_id existing [] counts s = (s, counts)
  sync_models asset_id existing (model ∷ models) counts s =
      sync_models asset_id (known_after counts asset_id existing model) models
        (counted (elements_of_model counts model) counts)
        (save_object ids.new_element_id (synced_object counts asset_id existing model) s).0

  abbrev pub no_counts : SyncResult
  no_counts = record { objects_synced = 0; elements_synced = 0 }

  -- The loop on the tables.
  unfoldable pub sync_in : List Model → DataAsset → Tables → Tables × SyncResult
  sync_in models asset t =
      let existing = dict_by (λ o. o.name) (find_by_asset_id asset.id t.store) in
      let (s, counts) = sync_models asset.id existing models no_counts t.store in
      (record t { store = s }, counts)

  abbrev pub required_asset : String → Option DataAsset → Result DataAsset
  required_asset name none = err (
      not_found_error (
        format (
          "DataAsset '" ∷ name
          ∷ "' not found in catalog. Assets must be registered before synchronizing transformation metadata."
          ∷ [])))
  required_asset name (some a) = ok a

  -- `sync_manifest` and `sync_metadata`
  unfoldable pub sync : String → List Model → Action Tables (Unit {0}) SyncResult
  sync asset_name models = within (
      and_then (query λ t. required_asset asset_name (find_by_name asset_name t.assets))
        λ asset. and_then (execute λ t. ok (sync_in models asset t)) λ counts. commit counts)
