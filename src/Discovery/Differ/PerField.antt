-- ===== src/Discovery/Differ/PerField.antt =====
-- schema_differ.py read column by column.
use mathlib.Core.List.{append-nil}
use clean_data_platform_airf.Prelude.{
  String, ◌≡◌, refl, ◌∙◌, ap, Bool, true, false, format, Bool-cases, inl, inr, Option, none, some,
  List, [], ◌∷◌, ◌++◌, ◌==◌, if◌then◌else◌, eq_iff, arith, filter, filter-append,
}
use clean_data_platform_airf.Prelude.Dict.{
  Dict, lookup, IsUnique, IsKeyed, dict_by-IsKeyed, dict_by-IsUnique,
}
use clean_data_platform_airf.Discovery.Schema.{
  SchemaField, SchemaSnapshot, is_compatible_with, fields_by_name,
}
use clean_data_platform_airf.Discovery.Drift.{
  DriftEvent, DriftChangeType, field_added, field_removed, type_widened, type_incompatible,
  nullable_to_required, required_to_nullable,
}
use clean_data_platform_airf.Discovery.Differ.{
  check_type_change, check_nullability_change, check_current_field, added_and_changed,
  check_previous_field, removed, diff,
}

abbrev pub names : String → Option String → Bool
names n none = false
names n (some m) = m == n

-- The events that concern the column `n`.
abbrev pub about : String → List DriftEvent → List DriftEvent
about n events = filter (λ e. names n e.field_name) events

abbrev pub drift :
    String → DriftChangeType → String → String → Option String → Option String → DriftEvent
drift object_id change_type description n previous_value current_value = record {
  object_id = object_id;
  change_type = change_type;
  description = description;
  field_name = some n;
  previous_value = previous_value;
  current_value = current_value;
}

abbrev pub type_drift : String → String → String → String → Bool → DriftEvent
type_drift object_id n before after true =
    drift object_id type_widened
      (format ("Type widened from " ∷ before ∷ " to " ∷ after ∷ "." ∷ [])) n (some before)
      (some after)
type_drift object_id n before after false =
    drift object_id type_incompatible
      (format ("Incompatible type change from " ∷ before ∷ " to " ∷ after ∷ "." ∷ [])) n
      (some before) (some after)

abbrev pub nullability_drift : String → String → Bool → Bool → List DriftEvent
nullability_drift object_id n true false =
    drift object_id nullable_to_required
      (format ("Field " ∷ n ∷ " changed from nullable to required." ∷ [])) n none none
    ∷ []
nullability_drift object_id n false true =
    drift object_id required_to_nullable
      (format ("Field " ∷ n ∷ " changed from required to nullable." ∷ [])) n none none
    ∷ []
nullability_drift object_id n _ _ = []

abbrev pub retyped : String → String → SchemaField → SchemaField → List DriftEvent
retyped object_id n p c =
    if c.normalized_type == p.normalized_type
    then []
    else type_drift object_id n p.normalized_type c.normalized_type (is_compatible_with c p) ∷ []

-- What is to be reported of a column, from what each snapshot holds under its name.
unfoldable pub column_drift :
    String
    → SchemaSnapshot
    → SchemaSnapshot
    → Option SchemaField
    → Option SchemaField
    → List DriftEvent
unfolding check_current_field check_previous_field
column_drift n previous current none none = []
column_drift n previous current (some p) none =
    drift previous.object_id field_removed (format ("Field " ∷ n ∷ " removed." ∷ [])) n
      (some p.normalized_type) none
    ∷ []
column_drift n previous current none (some c) =
    drift current.object_id field_added (format ("Field " ∷ n ∷ " added." ∷ [])) n none
      (some c.normalized_type)
    ∷ []
column_drift n previous current (some p) (some c) =
    retyped current.object_id n p c ++ nullability_drift current.object_id n p.nullable c.nullable

about-type :
    (oid n : String) (p c : SchemaField)
    → about n (check_type_change oid p c) ≡ (if c.name == n then check_type_change oid p c else [])
unfolding check_type_change
about-type oid n p c = ground arith

about-nullability :
    (oid n : String) (p c : SchemaField)
    → about n (check_nullability_change oid p c)
      ≡ (if c.name == n then check_nullability_change oid p c else [])
unfolding check_nullability_change
about-nullability oid n p c = ground arith

about-current :
    (oid n name : String) (p : Option SchemaField) (c : SchemaField)
    → c.name ≡ name
    → about n (check_current_field oid p name c)
      ≡ (if name == n then check_current_field oid p name c else [])
unfolding check_current_field
about-current oid n name none c h = ground arith
about-current oid n name (some p) c h =
    filter-append _ (check_type_change oid p c) _
    ∙ ground (arith, about-type oid n p c, about-nullability oid n p c)

about-previous :
    (oid n name : String) (c : Option SchemaField) (p : SchemaField)
    → about n (check_previous_field oid c name p)
      ≡ (if name == n then check_previous_field oid c name p else [])
unfolding check_previous_field
about-previous oid n name (some c) p = ground arith
about-previous oid n name none p = ground arith

current_at : String → String → Option SchemaField → Option SchemaField → List DriftEvent
current_at oid n p none = []
current_at oid n p (some c) = check_current_field oid p n c

about-added_and_changed :
    (oid n : String) (prev m : Dict SchemaField)
    → IsUnique m
    → IsKeyed (λ f. f.name) m
    → about n (added_and_changed oid prev m) ≡ current_at oid n (lookup n prev) (lookup n m)
unfolding added_and_changed current_at lookup
about-added_and_changed oid n prev [] u k = refl
about-added_and_changed oid n prev ((name, c) ∷ m) u k =
    filter-append _ (check_current_field oid (lookup name prev) name c) _
    ∙ ground (
      arith,
      about-current oid n name (lookup name prev) c k.0,
      about-added_and_changed oid n prev m u.1 k.1,
      eq_iff name n,
      append-nil (check_current_field oid (lookup n prev) n c),
    )

previous_at : String → String → Option SchemaField → Option SchemaField → List DriftEvent
previous_at oid n c none = []
previous_at oid n c (some p) = check_previous_field oid c n p

about-removed :
    (oid n : String) (curr m : Dict SchemaField)
    → IsUnique m
    → about n (removed oid curr m) ≡ previous_at oid n (lookup n curr) (lookup n m)
unfolding removed previous_at lookup
about-removed oid n curr [] u = refl
about-removed oid n curr ((name, p) ∷ m) u =
    filter-append _ (check_previous_field oid (lookup name curr) name p) _
    ∙ ground (
      arith,
      about-previous oid n name (lookup name curr) p,
      about-removed oid n curr m u.1,
      eq_iff name n,
      append-nil (check_previous_field oid (lookup n curr) n p),
    )

retyped-check :
    (oid : String) (p c : SchemaField) → check_type_change oid p c ≡ retyped oid c.name p c
unfolding check_type_change
retyped-check oid p c = ground arith

nullability-check :
    (oid : String) (p c : SchemaField)
    → check_nullability_change oid p c ≡ nullability_drift oid c.name p.nullable c.nullable
unfolding check_nullability_change
nullability-check oid p c = ground arith

-- The field that is found under a name has that name.
abbrev IsNamed : String → Option SchemaField → Type 0
IsNamed n none = Unit
IsNamed n (some c) = c.name ≡ n

lookup-IsNamed :
    (n : String) (m : Dict SchemaField) → IsKeyed (λ f. f.name) m → IsNamed n (lookup n m)
unfolding lookup
lookup-IsNamed n [] k = tt
lookup-IsNamed n ((name, c) ∷ m) k = elim (Bool-cases (name == n)) [
  | inl e ↦ rw e (k.0 ∙ (eq_iff name n).0 e)
  | inr e ↦ rw e (lookup-IsNamed n m k.1)
]

both_at :
    (n : String) (previous current : SchemaSnapshot) (p c : Option SchemaField)
    → IsNamed n c
    → current_at current.object_id n p c ++ previous_at previous.object_id n c p
      ≡ column_drift n previous current p c
unfolding current_at previous_at column_drift check_current_field check_previous_field
both_at n previous current none none named = refl
both_at n previous current (some p) none named = refl
both_at n previous current none (some c) named = refl
both_at n previous current (some p) (some c) named =
    append-nil _
    ∙ rw (retyped-check current.object_id p c, nullability-check current.object_id p c)
        (ap
          (λ m.
            retyped current.object_id m p c
            ++ nullability_drift current.object_id m p.nullable c.nullable)
          named)

pub about-diff :
    (n : String) (previous current : SchemaSnapshot)
    → about n (diff (some previous) (some current))
      ≡ column_drift n previous current
          (lookup n (fields_by_name previous))
          (lookup n (fields_by_name current))
unfolding diff
about-diff n previous current =
    filter-append _ (added_and_changed _ _ _) _
    ∙ rw
        (
          about-added_and_changed current.object_id n (fields_by_name previous)
              (fields_by_name current) (dict_by-IsUnique _ current.fields)
              (dict_by-IsKeyed _ current.fields),
          about-removed previous.object_id n (fields_by_name current) (fields_by_name previous)
              (dict_by-IsUnique _ previous.fields),
        )
        (both_at n previous current _ _
          (lookup-IsNamed n (fields_by_name current) (dict_by-IsKeyed _ current.fields)))
