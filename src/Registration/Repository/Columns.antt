-- ===== src/Registration/Repository/Columns.antt =====
-- sql_pipeline_repository.py: what comes back from the columns of a row, one by one.
use clean_data_platform_airf.Prelude.{
  true, ◌≡◌, refl, Option, none, some, List, [], ◌∷◌, map, All, is_text,
}
use clean_data_platform_airf.Errors.{ok}
use clean_data_platform_airf.Pipelines.Watermark.{
  WatermarkType, integer, float, timestamp, date, string,
}
use clean_data_platform_airf.Prelude.Dict.{lookup}
use clean_data_platform_airf.Extraction.Json.{get}
use clean_data_platform_airf.Registration.Values.{Python, find}
use clean_data_platform_airf.Registration.Members.{
  to_load_strategy-value, to_compute_engine-value, to_rule_type-value,
}
use clean_data_platform_airf.Registration.Defaults.{platform_defaults}
use clean_data_platform_airf.Registration.Aggregate.{
  ExtractionConfig, DestinationObjectConfig, ComputeConfig, QualityRule,
}
use clean_data_platform_airf.Registration.Normalizer.{
  normalize_source, normalize_extraction, normalize_destination_objects, normalize_compute,
  normalize_rule, normalize_quality_rules, watermark_type_of,
}
use clean_data_platform_airf.Registration.Repository.{
  source_item, destination_item, compute_fields, rule_fields, optional_type,
}

abbrev pub without_sensor : ExtractionConfig → ExtractionConfig
without_sensor s = record s { sensor = none }

module _ (py : Python) where
  watermark_type_of-optional :
      (t : Option WatermarkType) → watermark_type_of py (optional_type t) ≡ ok t
  unfolding lookup
  watermark_type_of-optional none = refl
  watermark_type_of-optional (some integer) = refl
  watermark_type_of-optional (some float) = refl
  watermark_type_of-optional (some timestamp) = refl
  watermark_type_of-optional (some date) = refl
  watermark_type_of-optional (some string) = refl

  normalize_source-item :
      (s : ExtractionConfig)
      → normalize_source platform_defaults py (source_item s) ≡ ok (without_sensor s)
  unfolding normalize_source find get
  normalize_source-item s =
      rw (to_load_strategy-value py s.load_strategy)
        (rw (watermark_type_of-optional s.watermark_type) refl)

  pub normalize_extraction-items :
      (ss : List ExtractionConfig)
      → normalize_extraction platform_defaults py (map source_item ss) ≡ ok (map without_sensor ss)
  unfolding normalize_extraction
  normalize_extraction-items [] = refl
  normalize_extraction-items (s ∷ ss) =
      rw (normalize_source-item s) (rw (normalize_extraction-items ss) refl)

  pub normalize_compute-fields :
      (c : ComputeConfig) → normalize_compute platform_defaults py (compute_fields c) ≡ ok c
  unfolding normalize_compute find get
  normalize_compute-fields c = rw (to_compute_engine-value py c.engine) refl

  normalize_rule-fields : (r : QualityRule) → normalize_rule py (rule_fields r) ≡ ok r
  unfolding normalize_rule find get
  normalize_rule-fields r = rw (to_rule_type-value py r.type_) refl

  pub normalize_quality_rules-fields :
      (rs : List QualityRule) → normalize_quality_rules py (map rule_fields rs) ≡ ok rs
  unfolding normalize_quality_rules
  normalize_quality_rules-fields [] = refl
  normalize_quality_rules-fields (r ∷ rs) =
      rw (normalize_rule-fields r) (rw (normalize_quality_rules-fields rs) refl)

  pub normalize_destination_objects-items :
      (os : List DestinationObjectConfig)
      → All (λ o. is_text o.object_name ≡ true) os
      → normalize_destination_objects py (map destination_item os) ≡ os
  unfolding normalize_destination_objects find get
  normalize_destination_objects-items [] h = refl
  normalize_destination_objects-items (o ∷ os) h =
      rw (h.0) (rw (normalize_destination_objects-items os h.1) refl)
