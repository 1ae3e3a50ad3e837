-- ===== src/Discovery/Schema.antt =====
-- app/domain/discovery/schema_field.py and schema_snapshot.py: one column of a discovered object,
-- which type changes count as a widening, and the snapshot of an object's columns.
-- The opaque `extra` dictionaries are left out, and so is the snapshot's `runner_type`: the parts
-- modelled here only carry them along.
use clean_data_platform_airf.Prelude.{
  ℕ, String, Bool, Option, none, some, List, [], ◌∷◌, ◌||◌, ◌==◌, lower, contains,
}
use clean_data_platform_airf.Prelude.Dict.{Dict, lookup, dict_by}

pub record SchemaField : Type 0 where
  pub name : String
  pub source_type : String
  pub normalized_type : String
  pub nullable : Bool
  pub is_primary_key : Bool
  pub description : Option String

-- `_WIDENING_MAP`
abbrev pub widening_map : Dict (List String)
widening_map =
    ("integer", "bigint" ∷ "float" ∷ "decimal" ∷ [])
    ∷ ("bigint", "float" ∷ "decimal" ∷ [])
    ∷ ("float", "decimal" ∷ [])
    ∷ ("string", "string" ∷ [])
    ∷ []

-- `d.get(k, set())`
abbrev get_or_empty : Option (List String) → List String
get_or_empty none = []
get_or_empty (some xs) = xs

-- `self.is_compatible_with(other)`
unfoldable pub is_compatible_with : SchemaField → SchemaField → Bool
unfolding lookup
is_compatible_with self other =
    let base_other = lower other.normalized_type in
    let base_self = lower self.normalized_type in
    base_self == base_other || contains base_self (get_or_empty (lookup base_other widening_map))

pub record SchemaSnapshot : Type 0 where
  pub object_id : String
  pub fields : List SchemaField
  pub captured_at : ℕ
  pub object_name : String
  pub row_count_estimate : Option ℕ

-- `{f.name: f for f in snapshot.fields}`
abbrev pub fields_by_name : SchemaSnapshot → Dict SchemaField
fields_by_name s = dict_by (λ f. f.name) s.fields
