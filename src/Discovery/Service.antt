-- ===== src/Discovery/Service.antt =====
-- app/domain/discovery/services/schema_drift_service.py and app/infrastructure/drift_classifier.py:
-- the drift of a whole discovery, and the test whether a pipeline may go on after a change. The
-- classifier's payloads are snapshots that were parsed already.
use clean_data_platform_airf.Prelude.{
  ◌≡◌, refl, String, Bool, true, false, not, Option, none, some, List, [], ◌∷◌, ◌++◌, format,
  filter, any, All, if◌then◌else◌, non_empty, arith, ◌||◌, ◌==◌, any-append, sym, ap, ◌∙◌,
}
use clean_data_platform_airf.Prelude.Dict.{Dict, lookup}
use clean_data_platform_airf.Discovery.Schema.{
  SchemaField, SchemaSnapshot, is_compatible_with, fields_by_name,
}
use clean_data_platform_airf.Discovery.Drift.{
  DriftEvent, DriftChangeType, field_added, field_removed, type_widened, type_incompatible,
  nullable_to_required, required_to_nullable, object_added, object_removed,
}
use clean_data_platform_airf.Discovery.Tags.{PolicyTagSuggestion, infer}
use clean_data_platform_airf.Discovery.Differ.{diff}
use clean_data_platform_airf.Discovery.Differ.PerField.{
  names, column_drift, about-diff, retyped, nullability_drift,
}
use clean_data_platform_airf.Discovery.Differ.Severity.{diff-same_fields}

-- The inner loop over a snapshot's fields.
unfoldable pub infer_fields : List SchemaField → List PolicyTagSuggestion
infer_fields [] = []
infer_fields (f ∷ rest) = elim (infer f.name) [
  | none ↦ infer_fields rest
  | some s ↦ s ∷ infer_fields rest
]

unfoldable pub compute_drifts_and_tags :
    Dict SchemaSnapshot → List SchemaSnapshot → List DriftEvent × List PolicyTagSuggestion
compute_drifts_and_tags prev_snapshots [] = ([], [])
compute_drifts_and_tags prev_snapshots (snap ∷ rest) =
    let (events, suggestions) = compute_drifts_and_tags prev_snapshots rest in
    (
      diff (lookup snap.object_id prev_snapshots) (some snap) ++ events,
      infer_fields snap.fields ++ suggestions,
    )

abbrev pub Had : Option SchemaSnapshot → List SchemaField → Type 0
Had none fields = ⊥
Had (some prev) fields = prev.fields ≡ fields

no_drift :
    (previous : Option SchemaSnapshot) (s : SchemaSnapshot)
    → Had previous s.fields
    → diff previous (some s) ≡ []
no_drift none s h = absurd h
no_drift (some previous) s h = diff-same_fields previous s h

-- A discovery that finds every object with the fields that its previous snapshot has reports no
-- drift.
pub compute_drifts-quiet :
    (prev : Dict SchemaSnapshot) (snaps : List SchemaSnapshot)
    → All (λ s. Had (lookup s.object_id prev) s.fields) snaps
    → (compute_drifts_and_tags prev snaps).0 ≡ []
unfolding compute_drifts_and_tags
compute_drifts-quiet prev [] h = refl
compute_drifts-quiet prev (s ∷ snaps) h =
    rw (no_drift (lookup s.object_id prev) s h.0) (compute_drifts-quiet prev snaps h.1)

-- `e.change_type in _BLOCKING_CHANGE_TYPES`
unfoldable pub is_blocking : DriftEvent → Bool
is_blocking e = elim e.change_type [ field_removed ↦ true | type_incompatible ↦ true | _ ↦ false ]

abbrev pub change_text : DriftChangeType → String
change_text field_added = "field_added"
change_text field_removed = "field_removed"
change_text type_widened = "type_widened"
change_text type_incompatible = "type_incompatible"
change_text nullable_to_required = "nullable_to_required"
change_text required_to_nullable = "required_to_nullable"
change_text object_added = "object_added"
change_text object_removed = "object_removed"

abbrev pub field_text : Option String → String
field_text none = "None"
field_text (some name) = name

-- `"; ".join(...)`
unfoldable pub reasons : List DriftEvent → String
reasons [] = ""
reasons (e ∷ []) = format (field_text e.field_name ∷ ": " ∷ change_text e.change_type ∷ [])
reasons (e ∷ f ∷ rest) =
    format
      (field_text e.field_name ∷ ": " ∷ change_text e.change_type ∷ "; " ∷ reasons (f ∷ rest) ∷ [])

pub record Verdict : Type 0 where
  pub can_proceed : Bool
  pub blocked_reason : String

unfoldable pub classify_models : Option SchemaSnapshot → Option SchemaSnapshot → Verdict
unfolding reasons is_blocking
classify_models none curr = record { can_proceed = true; blocked_reason = "" }
classify_models (some prev) none = record { can_proceed = true; blocked_reason = "" }
classify_models (some prev) (some curr) =
    let blocking = filter is_blocking (diff (some prev) (some curr)) in
    if non_empty blocking
    then record {
      can_proceed = false;
      blocked_reason = format ("Incompatible drift detected: " ∷ reasons blocking ∷ []);
    }
    else record { can_proceed = true; blocked_reason = "" }

-- A column that is gone or has a type that is neither the same nor wider.
unfoldable pub is_broken : Option SchemaField → Option SchemaField → Bool
is_broken none c = false
is_broken (some p) none = true
is_broken (some p) (some c) = not (c.normalized_type == p.normalized_type || is_compatible_with c p)

blocking-type :
    (oid n : String) (p c : SchemaField)
    → any is_blocking (retyped oid n p c)
      ≡ not (c.normalized_type == p.normalized_type || is_compatible_with c p)
unfolding is_blocking
blocking-type oid n p c = ground arith

blocking-nullability :
    (oid n : String) (before after : Bool)
    → any is_blocking (nullability_drift oid n before after) ≡ false
unfolding is_blocking
blocking-nullability oid n before after = ground arith

blocking-column_drift :
    (n : String) (previous current : SchemaSnapshot) (p c : Option SchemaField)
    → any is_blocking (column_drift n previous current p c) ≡ is_broken p c
unfolding column_drift is_broken is_blocking
blocking-column_drift n previous current none none = refl
blocking-column_drift n previous current none (some c) = refl
blocking-column_drift n previous current (some p) none = refl
blocking-column_drift n previous current (some p) (some c) = ground (
  arith,
  any-append is_blocking (retyped current.object_id n p c)
      (nullability_drift current.object_id n p.nullable c.nullable),
  blocking-type current.object_id n p c,
  blocking-nullability current.object_id n p.nullable c.nullable,
)

any-filter :
    (q p : DriftEvent → Bool) (es : List DriftEvent)
    → any p es ≡ false
    → any p (filter q es) ≡ false
any-filter q p [] h = refl
any-filter q p (e ∷ es) h = ground (arith, any-filter q p es)

non_empty-filter :
    (p : DriftEvent → Bool) (es : List DriftEvent) → non_empty (filter p es) ≡ any p es
non_empty-filter p [] = refl
non_empty-filter p (e ∷ es) = ground (arith, non_empty-filter p es)

-- If a pipeline may go on after a change of its source, then no column of the source is gone and
-- none has a type that is neither the same nor wider.
pub proceeds_unbroken :
    (n : String) (prev curr : SchemaSnapshot)
    → (classify_models (some prev) (some curr)).can_proceed ≡ true
    → is_broken (lookup n (fields_by_name prev)) (lookup n (fields_by_name curr)) ≡ false
unfolding classify_models
proceeds_unbroken n prev curr h =
    let events = diff (some prev) (some curr) in
    let none_blocks : any is_blocking events ≡ false =
      ground (arith, non_empty-filter is_blocking events) in
    sym (blocking-column_drift n prev curr _ _)
    ∙ ap (any is_blocking) (sym (about-diff n prev curr))
    ∙ any-filter (λ e. names n e.field_name) is_blocking events none_blocks
