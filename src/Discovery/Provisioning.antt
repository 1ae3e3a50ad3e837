-- ===== src/Discovery/Provisioning.antt =====
-- app/application/discovery/discovery_provisioning_service.py: an object for every snapshot of a
-- discovery. `new_id` and `new_object_id` give the uuids of elements and objects. The structural
-- metadata from the runner's `extra` is left out, and with it the TypeError of an index or a foreign
-- key with other keys than its class has.
use clean_data_platform_airf.Prelude.{
  ℕ, suc, String, true, false, Option, none, some, List, [], ◌∷◌, if◌then◌else◌, is_text,
}
use clean_data_platform_airf.Prelude.Dict.{Dict, lookup, insert, dict_by}
use clean_data_platform_airf.Errors.{Result, ok, err, key_error, ◌>>=◌}
use clean_data_platform_airf.Discovery.Schema.{SchemaField, SchemaSnapshot}
use clean_data_platform_airf.Objects.Element.{
  DataElement, DataObject, ElementType, parse_type, create_from_discovery,
}
use clean_data_platform_airf.Objects.Service.{Objects, type_or_string}
use clean_data_platform_airf.Objects.Repository.{save_object}

-- `ElementType(f.normalized_type or "string")`, or STRING.
abbrev pub provisioned_type : SchemaField → ElementType
provisioned_type f =
    type_or_string (parse_type (if is_text f.normalized_type then f.normalized_type else "string"))

-- `_build_data_elements`, the first element taking the n-th uuid.
unfoldable pub build_data_elements : (ℕ → String) → ℕ → String → List SchemaField → List DataElement
build_data_elements new_id n object_id [] = []
build_data_elements new_id n object_id (f ∷ fs) =
    record {
      id = new_id n;
      object_id = object_id;
      name = f.name;
      source_type = some (provisioned_type f);
      destination_type = provisioned_type f;
      required = false;
      nullable = f.nullable;
      is_primary_key = f.is_primary_key;
      description = "";
      policy_tag = none;
      auto_generated = true;
      is_computed = false;
    }
    ∷ build_data_elements new_id (suc n) object_id fs

abbrev pub named : String → Option DataObject → Result DataObject
named name none = err (key_error name)
named name (some obj) = ok obj

-- The second loop.
unfoldable pub update_snapshots :
    Dict DataObject → List SchemaSnapshot → Result (List SchemaSnapshot)
update_snapshots names [] = ok []
update_snapshots names (snap ∷ rest) = do
  obj ← named snap.object_name (lookup snap.object_name names)
  updated ← update_snapshots names rest
  ok (record snap { object_id = obj.id } ∷ updated)

module _ (new_id new_object_id : ℕ → String) (asset_id : String) where
  abbrev pub new_object : ℕ → SchemaSnapshot → Objects → DataObject
  new_object n snap s =
      record (create_from_discovery (new_object_id n) asset_id snap.object_name
        "Auto-discovered by discovery run") {
          elements = build_data_elements new_id s.created (new_object_id n) snap.fields;
        }

  -- One round of the first loop: what it adds to the tables and to `existing_names`.
  unfoldable pub provision_object :
      ℕ → SchemaSnapshot → Option DataObject → Objects × Dict DataObject → Objects × Dict DataObject
  provision_object n snap (some obj) (s, names) = (s, names)
  provision_object n snap none (s, names) =
      let (s', saved) = save_object new_id (new_object n snap s) s in
      (s', insert snap.object_name saved names)

  -- The first loop; every round takes a uuid.
  unfoldable pub provision_objects :
      ℕ → List SchemaSnapshot → Objects × Dict DataObject → Objects × Dict DataObject
  unfolding build_data_elements provision_object
  provision_objects n [] p = p
  provision_objects n (snap ∷ rest) p =
      provision_objects (suc n) rest (provision_object n snap (lookup snap.object_name p.1) p)

  -- `provision_missing_objects`
  unfoldable pub provision_missing_objects :
      List SchemaSnapshot → List DataObject → Objects → Result (Objects × List SchemaSnapshot)
  unfolding provision_objects update_snapshots
  provision_missing_objects snapshots existing_objects s = do
    let done = provision_objects 0 snapshots (s, dict_by (λ o. o.name) existing_objects)
    updated ← update_snapshots done.1 snapshots
    ok (done.0, updated)
