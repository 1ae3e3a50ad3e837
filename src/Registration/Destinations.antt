-- ===== src/Registration/Destinations.antt =====
-- register_pipeline.py: `_provision_destination_objects` and `_link_objects`, on the tables.
use Prim.Native.Char.{code}
use Prim.Native.String.{String}
use clean_data_platform_airf.Prelude.{
  ℕ, ◌+◌, Bool, false, ◌||◌, Option, none, some, List, [], ◌∷◌, ◌==◌, map, if◌then◌else◌, format,
  eqb, contains,
}
use clean_data_platform_airf.Errors.{Result, ok, ◌>>=◌}
use clean_data_platform_airf.Extraction.Json.{text, end, field, is_truthy}
use clean_data_platform_airf.Assets.Asset.{DataAsset}
use clean_data_platform_airf.Objects.Element.{DataObject, table, unknown}
use clean_data_platform_airf.Objects.Service.{Objects}
use clean_data_platform_airf.Objects.Repository.{save_object, find_by_asset_id}
use clean_data_platform_airf.Registration.Aggregate.{DestinationObjectConfig}
use clean_data_platform_airf.Registration.Repository.Reading.{link_object, PipelineObjectRow}
use clean_data_platform_airf.Registration.UseCase.{Ports, DwhProvisioner}

abbrev pub provisioned_text : String → String
provisioned_text name = format ("Auto-provisioned for pipeline '" ∷ name ∷ "'" ∷ [])

-- The `DataObject(...)` of a destination that is not there.
abbrev pub new_object : String → String → String → String → DataObject
new_object object_id asset_id name pipeline_name = record {
  id = object_id;
  asset_id = asset_id;
  name = name;
  type_ = table;
  description = provisioned_text pipeline_name;
  policy_tags = [];
  last_run = none;
  last_success = none;
  freshness_status = unknown;
  elements = [];
  auto_generated_description = false;
}

abbrev pub dataset_ensured : Option DwhProvisioner → String → Result (Unit {0})
dataset_ensured none dataset_name = ok tt
dataset_ensured (some dwh) dataset_name = dwh.ensure_dataset_exists dataset_name

abbrev pub table_ensured :
    Option DwhProvisioner → String → String → DestinationObjectConfig → Result (Unit {0})
table_ensured none dataset_name pipeline_name cfg = ok tt
table_ensured (some dwh) dataset_name pipeline_name cfg =
    dwh.ensure_table_exists dataset_name cfg.object_name (provisioned_text pipeline_name)
      (field "managed_by" (text "clean_data_platform") (field "pipeline" (text pipeline_name) end))
      cfg.schema_fields

abbrev pub names_of : Option DataAsset → Objects → List String
names_of none s = []
names_of (some asset) s = map {A = DataObject} (λ o. o.name) (find_by_asset_id asset.id s)

-- The object of a destination, if it is missing, with the names that exist then.
unfoldable pub add_missing :
    Ports
    → ℕ
    → Option DataAsset
    → String
    → DestinationObjectConfig
    → List String
    → Objects
    → List String × Objects
unfolding save_object
add_missing ports n none pipeline_name cfg existing s = (existing, s)
add_missing ports n (some asset) pipeline_name cfg existing s =
    if contains cfg.object_name existing then (existing, s) else (
      cfg.object_name ∷ existing,
      (save_object ports.new_element_id
          (new_object (ports.new_object_id n) asset.id cfg.object_name pipeline_name) s).0,
    )

-- The loop over the destinations, from the n-th on.
unfoldable pub provision_objects :
    Ports
    → ℕ
    → String
    → Option DataAsset
    → String
    → List DestinationObjectConfig
    → List String
    → Objects
    → Result Objects
unfolding add_missing
provision_objects ports n dataset_name asset pipeline_name [] existing s = ok s
provision_objects ports n dataset_name asset pipeline_name (cfg ∷ cfgs) existing s =
    let wanted = is_truthy cfg.create_if_not_exists in
    let (existing', s') =
      if wanted then add_missing ports n asset pipeline_name cfg existing s else (existing, s) in
    let rest = provision_objects ports (n + 1) dataset_name asset pipeline_name cfgs existing' s' in
    if wanted
    then (table_ensured ports.dwh_provisioner dataset_name pipeline_name cfg >>= λ _. rest)
    else rest

-- `_provision_destination_objects`
unfoldable pub provision_destination_objects :
    Ports
    → String
    → Option DataAsset
    → String
    → List DestinationObjectConfig
    → Objects
    → Result Objects
unfolding provision_objects find_by_asset_id
provision_destination_objects ports dataset_name asset pipeline_name cfgs s = do
  _ ← dataset_ensured ports.dwh_provisioner dataset_name
  provision_objects ports 0 dataset_name asset pipeline_name cfgs (names_of asset s) s

unfoldable pub has_dot : String → Bool
has_dot String.[] = false
has_dot (String.◌∷◌ c s) = eqb (code c) 46 || has_dot s

-- `name.split(".")[-1]`
unfoldable pub last_part : String → String
unfolding has_dot
last_part String.[] = String.[]
last_part (String.◌∷◌ c s) =
    let rest = last_part s in
    if has_dot s then rest else if eqb (code c) 46 then s else String.◌∷◌ c s

-- `o.name in (name, clean_name)`
abbrev pub is_named : String → DataObject → Bool
is_named name o = o.name == name || o.name == last_part name

unfoldable pub first_named : String → List DataObject → Option DataObject
unfolding last_part
first_named name [] = none
first_named name (o ∷ os) = if is_named name o then some o else first_named name os

abbrev pub link_matched :
    String → String → Option DataObject → List PipelineObjectRow → List PipelineObjectRow
link_matched pipeline_id role none links = links
link_matched pipeline_id role (some o) links = link_object pipeline_id o.id role links

-- The loop over the names.
unfoldable pub link_names :
    String
    → String
    → List DataObject
    → List String
    → List PipelineObjectRow
    → List PipelineObjectRow
unfolding first_named link_object
link_names pipeline_id role objects [] links = links
link_names pipeline_id role objects (name ∷ names) links =
    link_names pipeline_id role objects names
      (link_matched pipeline_id role (first_named name objects) links)

-- `_link_objects`, if there is an asset
unfoldable pub link_objects :
    String
    → Option DataAsset
    → List String
    → String
    → Objects
    → List PipelineObjectRow
    → List PipelineObjectRow
unfolding link_names find_by_asset_id
link_objects pipeline_id none names role s links = links
link_objects pipeline_id (some asset) names role s links =
    link_names pipeline_id role (find_by_asset_id asset.id s) names links
