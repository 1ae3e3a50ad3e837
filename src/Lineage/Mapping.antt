-- ===== src/Lineage/Mapping.antt =====
-- app/domain/lineage/lineage_mapping.py: which source column feeds which destination column.
use clean_data_platform_airf.Prelude.{
  ℕ, ◌≡◌, String, not, Option, List, [], ◌∷◌, ◌++◌, filter, filter-append, is_some,
}

pub record ElementLineage : Type 0 where
  pub source_column : String
  pub destination_column : String
  pub transformation_expression : Option String

pub record LineageMapping : Type 0 where
  pub id : String
  pub pipeline_id : String
  pub source_object_id : String
  pub destination_object_id : String
  pub column_mappings : List ElementLineage
  pub updated_at : ℕ

unfoldable pub add_mapping :
    String → String → Option String → ℕ → LineageMapping → LineageMapping × ElementLineage
add_mapping source_column destination_column transformation_expression touched m =
    let mapping : ElementLineage = record {
      source_column = source_column;
      destination_column = destination_column;
      transformation_expression = transformation_expression;
    } in
    (
      record m { column_mappings = m.column_mappings ++ mapping ∷ []; updated_at = touched },
      mapping,
    )

unfoldable pub direct_mappings : LineageMapping → List ElementLineage
direct_mappings m = filter (λ e. not (is_some e.transformation_expression)) m.column_mappings

unfoldable pub transformed_mappings : LineageMapping → List ElementLineage
transformed_mappings m = filter (λ e. is_some e.transformation_expression) m.column_mappings

-- A new mapping is listed last among the direct ones if it has no transformation and last among the
-- transformed ones if it has one, and the other list stays as it was.
pub add_mapping_sorted :
    (source destination : String) (expression : Option String) (touched : ℕ) (m : LineageMapping)
    → let (m', e) = add_mapping source destination expression touched m in
      (direct_mappings m'
        ≡ direct_mappings m ++ filter (λ x. not (is_some x.transformation_expression)) (e ∷ []))
      × (transformed_mappings m'
          ≡ transformed_mappings m ++ filter (λ x. is_some x.transformation_expression) (e ∷ []))
unfolding add_mapping direct_mappings transformed_mappings
add_mapping_sorted source destination expression touched m =
    (filter-append _ m.column_mappings _, filter-append _ m.column_mappings _)
