-- ===== src/Discovery/Differ.antt =====
-- app/domain/discovery/services/schema_differ.py: the drift events between two snapshots of one
-- object.
pub mod PerField
pub mod Severity
use clean_data_platform_airf.Prelude.{
  String, not, Option, none, some, List, [], ◌∷◌, ◌++◌, ◌&&◌, ◌==◌, if◌then◌else◌, format,
}
use clean_data_platform_airf.Prelude.Dict.{Dict, lookup}
use clean_data_platform_airf.Discovery.Schema.{
  SchemaField, SchemaSnapshot, is_compatible_with, fields_by_name,
}
use clean_data_platform_airf.Discovery.Drift.{
  DriftEvent, field_added, field_removed, type_widened, type_incompatible, nullable_to_required,
  required_to_nullable, object_added, object_removed,
}

-- `_check_type_change`
unfoldable pub check_type_change : String → SchemaField → SchemaField → List DriftEvent
check_type_change object_id prev_f curr_f =
    if curr_f.normalized_type == prev_f.normalized_type
    then []
    else if is_compatible_with curr_f prev_f
    then record {
      object_id = object_id;
      change_type = type_widened;
      description = format (
          "Type widened from " ∷ prev_f.normalized_type ∷ " to " ∷ curr_f.normalized_type ∷ "."
          ∷ []);
      field_name = some curr_f.name;
      previous_value = some prev_f.normalized_type;
      current_value = some curr_f.normalized_type;
    }
      ∷ []
    else record {
      object_id = object_id;
      change_type = type_incompatible;
      description = format (
          "Incompatible type change from " ∷ prev_f.normalized_type ∷ " to "
          ∷ curr_f.normalized_type ∷ "." ∷ []);
      field_name = some curr_f.name;
      previous_value = some prev_f.normalized_type;
      current_value = some curr_f.normalized_type;
    }
      ∷ []

-- `_check_nullability_change`
unfoldable pub check_nullability_change : String → SchemaField → SchemaField → List DriftEvent
check_nullability_change object_id prev_f curr_f =
    if prev_f.nullable && not curr_f.nullable
    then record {
      object_id = object_id;
      change_type = nullable_to_required;
      description = format ("Field " ∷ curr_f.name ∷ " changed from nullable to required." ∷ []);
      field_name = some curr_f.name;
      previous_value = none;
      current_value = none;
    }
      ∷ []
    else if not prev_f.nullable && curr_f.nullable
    then record {
      object_id = object_id;
      change_type = required_to_nullable;
      description = format ("Field " ∷ curr_f.name ∷ " changed from required to nullable." ∷ []);
      field_name = some curr_f.name;
      previous_value = none;
      current_value = none;
    }
      ∷ []
    else []

-- One round of the loop over the current fields.
unfoldable pub check_current_field :
    String → Option SchemaField → String → SchemaField → List DriftEvent
check_current_field object_id none name curr_f =
    record {
      object_id = object_id;
      change_type = field_added;
      description = format ("Field " ∷ name ∷ " added." ∷ []);
      field_name = some name;
      previous_value = none;
      current_value = some curr_f.normalized_type;
    }
    ∷ []
check_current_field object_id (some prev_f) name curr_f =
    check_type_change object_id prev_f curr_f ++ check_nullability_change object_id prev_f curr_f

unfoldable pub added_and_changed : String → Dict SchemaField → Dict SchemaField → List DriftEvent
added_and_changed object_id prev_fields [] = []
added_and_changed object_id prev_fields ((name, curr_f) ∷ rest) =
    check_current_field object_id (lookup name prev_fields) name curr_f
    ++ added_and_changed object_id prev_fields rest

-- `_check_added_and_changed_fields`
unfoldable pub check_added_and_changed_fields : SchemaSnapshot → SchemaSnapshot → List DriftEvent
check_added_and_changed_fields previous current =
    added_and_changed current.object_id (fields_by_name previous) (fields_by_name current)

-- One round of the loop over the previous fields.
unfoldable pub check_previous_field :
    String → Option SchemaField → String → SchemaField → List DriftEvent
check_previous_field object_id (some curr_f) name prev_f = []
check_previous_field object_id none name prev_f =
    record {
      object_id = object_id;
      change_type = field_removed;
      description = format ("Field " ∷ name ∷ " removed." ∷ []);
      field_name = some name;
      previous_value = some prev_f.normalized_type;
      current_value = none;
    }
    ∷ []

unfoldable pub removed : String → Dict SchemaField → Dict SchemaField → List DriftEvent
removed object_id curr_fields [] = []
removed object_id curr_fields ((name, prev_f) ∷ rest) =
    check_previous_field object_id (lookup name curr_fields) name prev_f
    ++ removed object_id curr_fields rest

-- `_check_removed_fields`
unfoldable pub check_removed_fields : SchemaSnapshot → SchemaSnapshot → List DriftEvent
check_removed_fields previous current =
    removed previous.object_id (fields_by_name current) (fields_by_name previous)

-- `SchemaDiffer.diff`
unfoldable pub diff : Option SchemaSnapshot → Option SchemaSnapshot → List DriftEvent
unfolding check_added_and_changed_fields check_removed_fields
diff none none = []
diff none (some current) =
    record {
      object_id = current.object_id;
      change_type = object_added;
      description = format ("Object " ∷ current.object_id ∷ " added to source." ∷ []);
      field_name = none;
      previous_value = none;
      current_value = none;
    }
    ∷ []
diff (some previous) none =
    record {
      object_id = previous.object_id;
      change_type = object_removed;
      description = format ("Object " ∷ previous.object_id ∷ " removed from source." ∷ []);
      field_name = none;
      previous_value = none;
      current_value = none;
    }
    ∷ []
diff (some previous) (some current) =
    check_added_and_changed_fields previous current ++ check_removed_fields previous current
