-- ===== src/Registration/Aggregate.antt =====
-- app/domain/pipelines/pipeline.py with the configurations that it holds: the whole aggregate. The
-- times of `Auditable` are left out. A field that the code fills from a payload without a check holds
-- whatever JSON value was given.
use clean_data_platform_airf.Prelude.{
  ℕ, String, Bool, true, false, not, ◌&&◌, Option, none, some, List, [], ◌∷◌, map, if◌then◌else◌,
  format, is_text,
}
use clean_data_platform_airf.Errors.{Result, ok, err, value_error, ◌>>=◌}
use clean_data_platform_airf.Extraction.Json.{
  Value, Items, Fields, number, text, boolean, end, field, is_truthy,
}
use clean_data_platform_airf.Pipelines.Watermark.{WatermarkType}
use clean_data_platform_airf.Pipelines.Config
use clean_data_platform_airf.Pipelines.Config.{
  LoadStrategy, ComputeEngine, default, SensorConfig, PipelineConfig, has_text, validate_invariants,
}
use clean_data_platform_airf.Registration.Values.{Python, str}
use clean_data_platform_airf.Registration.Members.{PipelineType, QualityRuleType}
use clean_data_platform_airf.Registration.Schedule.{ScheduleConfig}

pub record ExtractionConfig : Type 0 where
  pub object_name : String
  pub load_strategy : LoadStrategy
  pub watermark_column : Value
  pub watermark_type : Option WatermarkType
  pub watermark_initial_value : Value
  pub page_size : ℕ
  pub partition_column : Value
  pub compression : Value
  pub encoding : Value
  pub extraction_query : Value
  pub credential_ref : Value
  pub sensor : Option SensorConfig

pub record DestinationObjectConfig : Type 0 where
  pub object_name : String
  pub create_if_not_exists : Value
  pub schema_fields : Value

pub record ComputeConfig : Type 0 where
  pub engine : ComputeEngine
  pub num_workers : ℕ
  pub machine_type : String
  pub staging_bucket : String
  pub select : String
  pub source_type : String
  pub credential_ref : String
  pub driver : String
  pub endpoint : String
  pub records_path : String
  pub format_ : String
  pub multiline : Bool

abbrev text_entry : String → String → Fields → Fields
text_entry key s rest = if is_text s then field key (text s) rest else rest

-- `ComputeConfig.to_engine_config`
unfoldable pub to_engine_config : ComputeConfig → Fields
to_engine_config c = field "num_workers" (number c.num_workers) (
    field "machine_type" (text c.machine_type) (
      text_entry "source_type" c.source_type (
        text_entry "credential_ref" c.credential_ref (
          text_entry "driver" c.driver (
            text_entry "endpoint" c.endpoint (
              text_entry "records_path" c.records_path (
                text_entry "format" c.format_
                  (if c.multiline then field "multiline" (boolean true) end else end))))))))

pub record AirflowConfig : Type 0 where
  pub retries : ℕ
  pub retry_delay_minutes : ℕ
  pub execution_timeout_minutes : ℕ
  pub sla_minutes : ℕ
  pub tags : Items
  pub pool : String

pub record QualityRule : Type 0 where
  pub type_ : QualityRuleType
  pub column : Value
  pub value : Value

-- The member NONE is `no_engine`.
pub data TransformEngine : Type 0 where
  dbt_engine dataform_engine no_engine : TransformEngine

pub record TransformConfig : Type 0 where
  pub engine : TransformEngine
  pub ref : Option String

abbrev pub engine_repr : TransformEngine → String
engine_repr dbt_engine = "<TransformEngine.DBT: 'dbt'>"
engine_repr dataform_engine = "<TransformEngine.DATAFORM: 'dataform'>"
engine_repr no_engine = "<TransformEngine.NONE: 'none'>"

abbrev pub is_engine : TransformEngine → Bool
is_engine no_engine = false
is_engine _ = true

-- `TransformConfig.__post_init__`
unfoldable pub transform_config : TransformConfig → Result TransformConfig
transform_config c =
    if is_engine c.engine && not (has_text c.ref)
    then err (
        value_error
          (format ("TransformConfig(engine=" ∷ engine_repr c.engine ∷ ") requires ref" ∷ [])))
    else ok c

pub data OnCriticalChange : Type 0 where
  block self_heal alert_only : OnCriticalChange

pub record DiscoveryTaskConfig : Type 0 where
  pub enabled : Bool
  pub on_critical_change : OnCriticalChange

pub record Pipeline : Type 0 where
  pub id : String
  pub name : String
  pub type_ : PipelineType
  pub owner : String
  pub schedule : ScheduleConfig
  pub schema_version : String
  pub source_asset_name : String
  pub source_objects : List ExtractionConfig
  pub destination_asset_name : String
  pub destination_objects : List DestinationObjectConfig
  pub transform : TransformConfig
  pub compute : ComputeConfig
  pub quality_rules : List QualityRule
  pub airflow : AirflowConfig
  pub discovery_task : DiscoveryTaskConfig

-- `TransformConfig()` and `DiscoveryTaskConfig()`
abbrev pub no_transform : TransformConfig
no_transform = record { engine = no_engine; ref = none }

abbrev pub default_discovery_task : DiscoveryTaskConfig
default_discovery_task = record { enabled = true; on_critical_change = block }

-- A value as the invariants read it: what Python takes for false is none, all else its text.
abbrev pub as_text : Python → Value → Option String
as_text py v = if is_truthy v then some (str py v) else none

-- The part of a source and of a pipeline that the invariants read.
abbrev pub source_config : Python → ExtractionConfig → Config.ExtractionConfig
source_config py s = record {
  object_name = s.object_name;
  load_strategy = s.load_strategy;
  watermark_column = as_text py s.watermark_column;
  watermark_type = s.watermark_type;
  watermark_initial_value = as_text py s.watermark_initial_value;
  sensor = s.sensor;
}

abbrev pub pipeline_config : Python → Pipeline → PipelineConfig
pipeline_config py p = record {
  name = p.name;
  source_objects = map {A = ExtractionConfig} (source_config py) p.source_objects;
  engine = p.compute.engine;
  execution_timeout_minutes = p.airflow.execution_timeout_minutes;
}

-- `str` of a number
abbrev pub render : Python → ℕ → String
render py n = py.str_of (number n)

-- `Pipeline(...)`: a pipeline exists only if its invariants hold.
unfoldable pub new_pipeline : Python → Pipeline → Result Pipeline
unfolding validate_invariants
new_pipeline py p = do _ ← validate_invariants py.reads (render py) (pipeline_config py p); ok p
