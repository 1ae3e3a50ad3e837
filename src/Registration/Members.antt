-- ===== src/Registration/Members.antt =====
-- The members of app/domain/pipelines' enumerations with their values, and `Enum(value)`.
use clean_data_platform_airf.Prelude.{String, Option, none, some, [], ◌∷◌, ◌≡◌, refl, format}
use clean_data_platform_airf.Prelude.Dict.{Dict, lookup}
use clean_data_platform_airf.Errors.{Result, ok, err, value_error}
use clean_data_platform_airf.Extraction.Json.{Value, text}
use clean_data_platform_airf.Pipelines.Watermark.{
  WatermarkType, integer, float, timestamp, date, string, type_value,
}
use clean_data_platform_airf.Pipelines.Config.{
  LoadStrategy, full_load, incremental, cdc, ComputeEngine, duckdb, spark, dataflow, default,
  rest_api, omnibeam, dbt, dataform,
}
use clean_data_platform_airf.Registration.Values.{Python}

pub data PipelineType : Type 0 where
  ingestion etl transformation export : PipelineType

pub data QualityRuleType : Type 0 where
  not_null row_count_min unique : QualityRuleType
  accepted_values referential_integrity checksum : QualityRuleType

pub data ScheduleMode : Type 0 where
  cron trigger trigger_with_gate : ScheduleMode

abbrev member_found : {A : Type 0} → Python → String → Value → Option A → Result A
member_found py cls v none = err (value_error (format (py.repr v ∷ " is not a valid " ∷ cls ∷ [])))
member_found py cls v (some a) = ok a

-- `cls(value)` of an enumeration of texts.
abbrev pub member : {A : Type 0} → String → Dict A → Python → Value → Result A
member cls members py (text s) = member_found py cls (text s) (lookup s members)
member cls members py v = member_found py cls v none

abbrev pub pipeline_type_value : PipelineType → String
pipeline_type_value ingestion = "ingestion"
pipeline_type_value etl = "etl"
pipeline_type_value transformation = "transformation"
pipeline_type_value export = "export"

abbrev pub to_pipeline_type : Python → Value → Result PipelineType
to_pipeline_type = member "PipelineType" (
    ("ingestion", ingestion)
    ∷ ("etl", etl)
    ∷ ("transformation", transformation)
    ∷ ("export", export)
    ∷ [])

abbrev pub schedule_mode_value : ScheduleMode → String
schedule_mode_value cron = "cron"
schedule_mode_value trigger = "trigger"
schedule_mode_value trigger_with_gate = "trigger_with_gate"

abbrev pub to_schedule_mode : Python → Value → Result ScheduleMode
to_schedule_mode =
    member "ScheduleMode"
      (("cron", cron) ∷ ("trigger", trigger) ∷ ("trigger_with_gate", trigger_with_gate) ∷ [])

abbrev pub load_strategy_value : LoadStrategy → String
load_strategy_value full_load = "full_load"
load_strategy_value incremental = "incremental"
load_strategy_value cdc = "cdc"

abbrev pub to_load_strategy : Python → Value → Result LoadStrategy
to_load_strategy =
    member "LoadStrategy"
      (("full_load", full_load) ∷ ("incremental", incremental) ∷ ("cdc", cdc) ∷ [])

abbrev pub to_watermark_type : Python → Value → Result WatermarkType
to_watermark_type = member "WatermarkType" (
    ("integer", integer)
    ∷ ("float", float)
    ∷ ("timestamp", timestamp)
    ∷ ("date", date)
    ∷ ("string", string)
    ∷ [])

abbrev pub engine_value : ComputeEngine → String
engine_value duckdb = "duckdb"
engine_value spark = "spark"
engine_value dataflow = "dataflow"
engine_value default = "default"
engine_value rest_api = "rest_api"
engine_value omnibeam = "omnibeam"
engine_value dbt = "dbt"
engine_value dataform = "dataform"

abbrev pub to_compute_engine : Python → Value → Result ComputeEngine
to_compute_engine = member "ComputeEngine" (
    ("duckdb", duckdb)
    ∷ ("spark", spark)
    ∷ ("dataflow", dataflow)
    ∷ ("default", default)
    ∷ ("rest_api", rest_api)
    ∷ ("omnibeam", omnibeam)
    ∷ ("dbt", dbt)
    ∷ ("dataform", dataform)
    ∷ [])

abbrev pub rule_type_value : QualityRuleType → String
rule_type_value not_null = "not_null"
rule_type_value row_count_min = "row_count_min"
rule_type_value unique = "unique"
rule_type_value accepted_values = "accepted_values"
rule_type_value referential_integrity = "referential_integrity"
rule_type_value checksum = "checksum"

abbrev pub to_rule_type : Python → Value → Result QualityRuleType
to_rule_type = member "QualityRuleType" (
    ("not_null", not_null)
    ∷ ("row_count_min", row_count_min)
    ∷ ("unique", unique)
    ∷ ("accepted_values", accepted_values)
    ∷ ("referential_integrity", referential_integrity)
    ∷ ("checksum", checksum)
    ∷ [])

-- Every member is found by its value.
module _ (py : Python) where
  pub to_pipeline_type-value :
      (t : PipelineType) → to_pipeline_type py (text (pipeline_type_value t)) ≡ ok t
  unfolding lookup
  to_pipeline_type-value ingestion = refl
  to_pipeline_type-value etl = refl
  to_pipeline_type-value transformation = refl
  to_pipeline_type-value export = refl

  pub to_schedule_mode-value :
      (m : ScheduleMode) → to_schedule_mode py (text (schedule_mode_value m)) ≡ ok m
  unfolding lookup
  to_schedule_mode-value cron = refl
  to_schedule_mode-value trigger = refl
  to_schedule_mode-value trigger_with_gate = refl

  pub to_load_strategy-value :
      (s : LoadStrategy) → to_load_strategy py (text (load_strategy_value s)) ≡ ok s
  unfolding lookup
  to_load_strategy-value full_load = refl
  to_load_strategy-value incremental = refl
  to_load_strategy-value cdc = refl

  pub to_watermark_type-value :
      (t : WatermarkType) → to_watermark_type py (text (type_value t)) ≡ ok t
  unfolding lookup
  to_watermark_type-value integer = refl
  to_watermark_type-value float = refl
  to_watermark_type-value timestamp = refl
  to_watermark_type-value date = refl
  to_watermark_type-value string = refl

  pub to_compute_engine-value :
      (e : ComputeEngine) → to_compute_engine py (text (engine_value e)) ≡ ok e
  unfolding lookup
  to_compute_engine-value duckdb = refl
  to_compute_engine-value spark = refl
  to_compute_engine-value dataflow = refl
  to_compute_engine-value default = refl
  to_compute_engine-value rest_api = refl
  to_compute_engine-value omnibeam = refl
  to_compute_engine-value dbt = refl
  to_compute_engine-value dataform = refl

  pub to_rule_type-value : (t : QualityRuleType) → to_rule_type py (text (rule_type_value t)) ≡ ok t
  unfolding lookup
  to_rule_type-value not_null = refl
  to_rule_type-value row_count_min = refl
  to_rule_type-value unique = refl
  to_rule_type-value accepted_values = refl
  to_rule_type-value referential_integrity = refl
  to_rule_type-value checksum = refl
