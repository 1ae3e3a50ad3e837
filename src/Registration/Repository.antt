-- ===== src/Registration/Repository.antt =====
-- app/infrastructure/persistence/repositories/sql_pipeline_repository.py over the tables `pipelines`
-- and `pipeline_objects`. The columns hold what `dataclasses.asdict` gives; a schedule's column is
-- as `save` writes it. The times of a row are left out.
pub mod Reading
pub mod Columns
pub mod RoundTrip
use clean_data_platform_airf.Prelude.{
  ℕ, String, Bool, true, false, ◌&&◌, Option, none, some, List, [], ◌∷◌, ◌++◌, ◌==◌, map, any,
  if◌then◌else◌, format, is_text,
}
use clean_data_platform_airf.Errors.{Result, ok, err, not_found_error, ◌>>=◌}
use clean_data_platform_airf.Extraction.Json.{
  Value, Items, Fields, null, boolean, number, text, array, object, nil, end, field, get,
}
use clean_data_platform_airf.Pipelines.Watermark.{WatermarkType, type_value}
use clean_data_platform_airf.Registration.Values.{Python, email_address, cron_schedule}
use clean_data_platform_airf.Registration.Members.{
  to_pipeline_type, pipeline_type_value, to_schedule_mode, schedule_mode_value, load_strategy_value,
  engine_value, rule_type_value,
}
use clean_data_platform_airf.Registration.Schedule.{
  ScheduleConfig, PipelineDependency, DependencyType, dataset, external_event, manual,
  schedule_config,
}
use clean_data_platform_airf.Registration.Defaults.{platform_defaults}
use clean_data_platform_airf.Registration.Aggregate.{
  Pipeline, ExtractionConfig, DestinationObjectConfig, ComputeConfig, AirflowConfig, QualityRule,
  TransformConfig, TransformEngine, dbt_engine, dataform_engine, no_engine, DiscoveryTaskConfig,
  OnCriticalChange, block, self_heal, alert_only, no_transform, default_discovery_task,
  new_pipeline,
}
use clean_data_platform_airf.Registration.Normalizer.{
  Item, normalize_extraction, normalize_destination_objects, normalize_compute,
  normalize_quality_rules, normalize_airflow,
}
use clean_data_platform_airf.Pipelines.Config.{SensorConfig}

pub record DependencyRow : Type 0 where
  pub pipeline_id : String
  pub require_same_day : Option Bool
  pub dependency_type : String

pub record ScheduleRow : Type 0 where
  pub mode : String
  pub cron_schedule : Option String
  pub depends_on : List DependencyRow

-- `PipelineModel`; the lengths of its columns and its key are the database's, which `flush` of the use
-- case's ports speaks for.
pub record PipelineRow : Type 0 where
  pub id : String
  pub name : String
  pub type_ : String
  pub owner_email : String
  pub schema_version : String
  pub source_asset_name : String
  pub destination_asset_name : String
  pub schedule : ScheduleRow
  pub source_objects : List Item
  pub destination_objects : List Item
  pub transform : Fields
  pub compute : Fields
  pub quality_rules : List Fields
  pub airflow : Fields
  pub discovery_task : Fields

abbrev pub dependency_value : DependencyType → String
dependency_value dataset = "dataset"
dependency_value external_event = "external_event"
dependency_value manual = "manual"

abbrev pub dependency_row : PipelineDependency → DependencyRow
dependency_row d = record {
  pipeline_id = d.pipeline_id;
  require_same_day = some d.require_same_day;
  dependency_type = dependency_value d.dependency_type;
}

abbrev pub schedule_row : ScheduleConfig → ScheduleRow
schedule_row s = record {
  mode = schedule_mode_value s.mode;
  cron_schedule = s.cron_schedule;
  depends_on = map {A = PipelineDependency} dependency_row s.depends_on;
}

abbrev pub optional_type : Option WatermarkType → Value
optional_type none = null
optional_type (some t) = text (type_value t)

abbrev pub sensor_value : Option SensorConfig → Value
sensor_value none = null
sensor_value (some s) = object (
    field "query" (text s.query) (
      field "timeout_minutes" (number s.timeout_minutes)
        (field "poke_interval_seconds" (number s.poke_interval_seconds) end)))

abbrev pub source_item : ExtractionConfig → Item
source_item s = record {
  object_name = some s.object_name;
  others = field "load_strategy" (text (load_strategy_value s.load_strategy)) (
      field "watermark_column" s.watermark_column (
        field "watermark_type" (optional_type s.watermark_type) (
          field "watermark_initial_value" s.watermark_initial_value (
            field "page_size" (number s.page_size) (
              field "partition_column" s.partition_column (
                field "compression" s.compression (
                  field "encoding" s.encoding (
                    field "extraction_query" s.extraction_query (
                      field "credential_ref" s.credential_ref
                        (field "sensor" (sensor_value s.sensor) end))))))))));
}

abbrev pub destination_item : DestinationObjectConfig → Item
destination_item o = record {
  object_name = some o.object_name;
  others =
      field "create_if_not_exists" o.create_if_not_exists
        (field "schema_fields" o.schema_fields end);
}

abbrev pub compute_fields : ComputeConfig → Fields
compute_fields c = field "engine" (text (engine_value c.engine)) (
    field "num_workers" (number c.num_workers) (
      field "machine_type" (text c.machine_type) (
        field "staging_bucket" (text c.staging_bucket) (
          field "select" (text c.select) (
            field "source_type" (text c.source_type) (
              field "credential_ref" (text c.credential_ref) (
                field "driver" (text c.driver) (
                  field "endpoint" (text c.endpoint) (
                    field "records_path" (text c.records_path) (
                      field "format" (text c.format_)
                        (field "multiline" (boolean c.multiline) end)))))))))))

abbrev pub rule_fields : QualityRule → Fields
rule_fields r =
    field "type" (text (rule_type_value r.type_))
      (field "column" r.column (field "value" r.value end))

abbrev pub airflow_fields : AirflowConfig → Fields
airflow_fields a = field "retries" (number a.retries) (
    field "retry_delay_minutes" (number a.retry_delay_minutes) (
      field "execution_timeout_minutes" (number a.execution_timeout_minutes) (
        field "sla_minutes" (number a.sla_minutes)
          (field "tags" (array a.tags) (field "pool" (text a.pool) end)))))

abbrev pub transform_value : TransformEngine → String
transform_value dbt_engine = "dbt"
transform_value dataform_engine = "dataform"
transform_value no_engine = "none"

abbrev pub optional_text : Option String → Value
optional_text none = null
optional_text (some s) = text s

abbrev pub transform_fields : TransformConfig → Fields
transform_fields c =
    field "engine" (text (transform_value c.engine)) (field "ref" (optional_text c.ref) end)

abbrev pub change_value : OnCriticalChange → String
change_value block = "block"
change_value self_heal = "self_heal"
change_value alert_only = "alert_only"

abbrev pub discovery_fields : DiscoveryTaskConfig → Fields
discovery_fields c =
    field "enabled" (boolean c.enabled)
      (field "on_critical_change" (text (change_value c.on_critical_change)) end)

-- `_to_model`
unfoldable pub to_model : Pipeline → PipelineRow
to_model p = record {
  id = p.id;
  name = p.name;
  type_ = pipeline_type_value p.type_;
  owner_email = p.owner;
  schema_version = p.schema_version;
  source_asset_name = p.source_asset_name;
  destination_asset_name = p.destination_asset_name;
  schedule = schedule_row p.schedule;
  source_objects = map {A = ExtractionConfig} source_item p.source_objects;
  destination_objects = map {A = DestinationObjectConfig} destination_item p.destination_objects;
  transform = transform_fields p.transform;
  compute = compute_fields p.compute;
  quality_rules = map {A = QualityRule} rule_fields p.quality_rules;
  airflow = airflow_fields p.airflow;
  discovery_task = discovery_fields p.discovery_task;
}
