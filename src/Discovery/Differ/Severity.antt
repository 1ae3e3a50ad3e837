-- ===== src/Discovery/Differ/Severity.antt =====
-- What schema_differ.py reports as critical, and when it reports nothing.
use clean_data_platform_airf.Prelude.{
  String, ◌≡◌, refl, ◌∙◌, Bool, true, false, not, Option, none, some, [], ◌∷◌, ◌&&◌, ◌||◌, ◌==◌,
  eq_refl, arith, any, any-append, All,
}
use clean_data_platform_airf.Prelude.Dict.{Dict, lookup, dict_by-IsUnique, All-lookup_self}
use clean_data_platform_airf.Discovery.Schema.{
  SchemaField, SchemaSnapshot, is_compatible_with, fields_by_name,
}
use clean_data_platform_airf.Discovery.Drift.{is_critical}
use clean_data_platform_airf.Discovery.Differ.{
  check_type_change, check_nullability_change, check_current_field, check_previous_field,
  added_and_changed, removed, diff,
}
use clean_data_platform_airf.Discovery.Differ.PerField.{
  about, column_drift, about-diff, retyped, nullability_drift,
}

-- The rule for a change that the owner must decide on: a column that is gone, a type that is
-- neither the same nor wider, or a column that may no longer be null.
unfoldable pub needs_decision : Option SchemaField → Option SchemaField → Bool
needs_decision none c = false
needs_decision (some p) none = true
needs_decision (some p) (some c) =
    not (c.normalized_type == p.normalized_type || is_compatible_with c p)
    || p.nullable && not c.nullable

critical-type :
    (oid n : String) (p c : SchemaField)
    → any is_critical (retyped oid n p c)
      ≡ not (c.normalized_type == p.normalized_type || is_compatible_with c p)
unfolding is_critical
critical-type oid n p c = ground arith

critical-nullability :
    (oid n : String) (before after : Bool)
    → any is_critical (nullability_drift oid n before after) ≡ before && not after
unfolding is_critical
critical-nullability oid n before after = ground arith

critical-column_drift :
    (n : String) (previous current : SchemaSnapshot) (p c : Option SchemaField)
    → any is_critical (column_drift n previous current p c) ≡ needs_decision p c
unfolding column_drift needs_decision is_critical
critical-column_drift n previous current none none = refl
critical-column_drift n previous current none (some c) = refl
critical-column_drift n previous current (some p) none = refl
critical-column_drift n previous current (some p) (some c) =
    any-append is_critical (retyped _ n p c) _
    ∙ ground (
      arith,
      critical-type current.object_id n p c,
      critical-nullability current.object_id n p.nullable c.nullable,
    )

-- A critical event concerns a column exactly if the column is gone, has a type that is neither the
-- same nor compatible, or went from nullable to required.
critical_iff_needs_decision :
    (n : String) (previous current : SchemaSnapshot)
    → any is_critical (about n (diff (some previous) (some current)))
      ≡ needs_decision (lookup n (fields_by_name previous)) (lookup n (fields_by_name current))
critical_iff_needs_decision n previous current =
    rw about-diff (critical-column_drift n previous current _ _)

unchanged : (oid name : String) (f : SchemaField) → check_current_field oid (some f) name f ≡ []
unfolding check_current_field check_type_change check_nullability_change
unchanged oid name f = ground (arith, eq_refl f.normalized_type)

added_and_changed-nil :
    (oid : String) (d m : Dict SchemaField)
    → All (λ e. lookup e.0 d ≡ some e.1) m
    → added_and_changed oid d m ≡ []
unfolding added_and_changed
added_and_changed-nil oid d [] h = refl
added_and_changed-nil oid d ((name, f) ∷ m) h =
    rw (h.0, unchanged oid name f) (added_and_changed-nil oid d m h.1)

removed-nil :
    (oid : String) (d m : Dict SchemaField)
    → All (λ e. lookup e.0 d ≡ some e.1) m
    → removed oid d m ≡ []
unfolding removed check_previous_field
removed-nil oid d [] h = refl
removed-nil oid d ((name, f) ∷ m) h = rw h.0 (removed-nil oid d m h.1)

-- Two snapshots with the same fields have no drift, whatever their other data are.
pub diff-same_fields :
    (previous current : SchemaSnapshot)
    → previous.fields ≡ current.fields
    → diff (some previous) (some current) ≡ []
unfolding diff
diff-same_fields previous current h =
    let own = All-lookup_self (fields_by_name current) (dict_by-IsUnique _ current.fields) in
    rw h (
      rw
        (
          added_and_changed-nil current.object_id (fields_by_name current) (fields_by_name current)
              own,
          removed-nil previous.object_id (fields_by_name current) (fields_by_name current) own,
        )
        refl)
