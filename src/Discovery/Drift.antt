-- ===== src/Discovery/Drift.antt =====
-- app/domain/discovery/drift_change_type.py, drift_severity.py and drift_event.py: the kinds of
-- schema change, their severities, and one detected change.
use clean_data_platform_airf.Prelude.{String, Option, Bool, true, false}

pub data DriftChangeType : Type 0 where
  field_added field_removed type_widened type_incompatible : DriftChangeType
  nullable_to_required required_to_nullable object_added object_removed : DriftChangeType

pub data DriftSeverity : Type 0 where
  informative critical : DriftSeverity

-- `_SEVERITY_MAP`
unfoldable pub severity_map : DriftChangeType → DriftSeverity
severity_map field_added = informative
severity_map field_removed = critical
severity_map type_widened = informative
severity_map type_incompatible = critical
severity_map nullable_to_required = critical
severity_map required_to_nullable = informative
severity_map object_added = informative
severity_map object_removed = critical

pub record DriftEvent : Type 0 where
  pub object_id : String
  pub change_type : DriftChangeType
  pub description : String
  pub field_name : Option String
  pub previous_value : Option String
  pub current_value : Option String

unfoldable pub is_critical_severity : DriftSeverity → Bool
is_critical_severity critical = true
is_critical_severity informative = false

-- `severity == CRITICAL`
unfoldable pub is_critical : DriftEvent → Bool
unfolding severity_map is_critical_severity
is_critical e = is_critical_severity (severity_map e.change_type)
