-- ===== src/Registration/UseCase.antt =====
-- app/application/pipelines/register_pipeline.py with commands.py: a pipeline is registered in one
-- transaction, and its DAG file written after the commit. A list or a dictionary of the command that
-- is None is empty here. The warehouse's provisioner, the generators, the file system, new uuids and
-- the database's constraints are ports; the variable of the actions is the files of the DAG folder.
use Prim.Native.String.{String}
use clean_data_platform_airf.Prelude.{
  ℕ, false, Option, none, some, List, [], ◌∷◌, if◌then◌else◌, is_text,
}
use clean_data_platform_airf.Errors.{PlatformError, Result, ◌>>=◌}
use clean_data_platform_airf.Extraction.Json.{Value, Fields, text}
use clean_data_platform_airf.Assets.Asset.{DataAsset}
use clean_data_platform_airf.Assets.Table.{Table, find_by_name}
use clean_data_platform_airf.Objects.Service.{Objects}
use clean_data_platform_airf.Registration.Values.{Python, email_address, cron_schedule}
use clean_data_platform_airf.Registration.Members.{cron, trigger, to_pipeline_type, PipelineType}
use clean_data_platform_airf.Registration.Schedule.{ScheduleConfig, dataset, schedule_config}
use clean_data_platform_airf.Registration.Defaults.{PlatformDefaults}
use clean_data_platform_airf.Registration.Aggregate.{
  Pipeline, no_transform, default_discovery_task, new_pipeline, ExtractionConfig, ComputeConfig,
  QualityRule, AirflowConfig,
}
use clean_data_platform_airf.Registration.Normalizer.{
  Item, normalize_extraction, normalize_destination_objects, normalize_compute,
  normalize_quality_rules, normalize_airflow,
}
use clean_data_platform_airf.Registration.Repository.{PipelineRow}
use clean_data_platform_airf.Registration.Repository.Reading.{PipelineObjectRow}

-- `RegisterPipelineCommand`
pub record Command : Type 0 where
  pub name : String
  pub pipeline_type : String
  pub owner_email : String
  pub source_asset_name : String
  pub cron_schedule : String
  pub destination_asset_name : String
  pub destination_objects : List Item
  pub source_objects : List Item
  pub compute : Fields
  pub quality_rules : List Fields
  pub airflow_config : Fields

-- The columns of `AuditLogModel` that `save` writes.
pub record AuditLog : Type 0 where
  pub event_type : String
  pub entity_type : String
  pub entity_id : String
  pub actor_id : String
  pub actor_email : String
  pub payload : Fields
  pub description : String

pub record Tables : Type 0 where
  pub assets : Table
  pub store : Objects
  pub pipelines : List PipelineRow
  pub links : List PipelineObjectRow
  pub audit_logs : List AuditLog

pub record DwhProvisioner : Type 0 where
  pub ensure_dataset_exists : String → Result (Unit {0})
  -- The dataset, the table, its description, labels and fields.
  pub ensure_table_exists : String → String → String → Fields → Value → Result (Unit {0})

-- How `Path.write_text` ends: it returns; it cannot open the file; or it raises once the file is
-- emptied, which then holds what was written of it.
pub data WriteOutcome : Type 0 where
  written : WriteOutcome
  unopened : PlatformError → WriteOutcome
  torn : String → PlatformError → WriteOutcome

-- `flush` is whether the database takes the tables: the keys, the unique names and the lengths of
-- the columns are its own.
pub record Ports : Type 0 where
  pub flush : Tables → Result (Unit {0})
  pub dwh_provisioner : Option DwhProvisioner
  pub yaml_generator : Option (Pipeline → Result String)
  pub dag_generator : Option (String → Result String)
  pub dags_path : String
  pub mkdir : String → Result (Unit {0})
  pub write_text : String → String → WriteOutcome
  pub pipeline_id : String
  pub new_object_id : ℕ → String
  pub new_element_id : ℕ → String

abbrev pub or_upstream : String → String
or_upstream s = if is_text s then s else "upstream_asset"

-- The schedule of a pipeline without a cron expression.
abbrev pub trigger_schedule : String → ScheduleConfig
trigger_schedule source_asset_name = record {
  mode = trigger;
  cron_schedule = none;
  depends_on =
      record {
        pipeline_id = or_upstream source_asset_name;
        require_same_day = false;
        dependency_type = dataset;
      }
      ∷ [];
}

-- `_build_schedule_config`
unfoldable pub build_schedule_config : Python → Command → Result ScheduleConfig
build_schedule_config py cmd =
    if is_text cmd.cron_schedule
    then (cron_schedule py cmd.cron_schedule >>= λ expression.
        schedule_config (record { mode = cron; cron_schedule = some expression; depends_on = [] }))
    else schedule_config (trigger_schedule cmd.source_asset_name)

-- The fields of the `Pipeline(...)` of a command.
abbrev pub assembled :
    Python
    → String
    → Command
    → ScheduleConfig
    → List ExtractionConfig
    → PipelineType
    → String
    → ComputeConfig
    → List QualityRule
    → AirflowConfig
    → Pipeline
assembled py pipeline_id cmd schedule sources t owner compute rules airflow = record {
  id = pipeline_id;
  name = cmd.name;
  type_ = t;
  owner = owner;
  schedule = schedule;
  schema_version = "1.0";
  source_asset_name = cmd.source_asset_name;
  source_objects = sources;
  destination_asset_name = cmd.destination_asset_name;
  destination_objects = normalize_destination_objects py cmd.destination_objects;
  transform = no_transform;
  compute = compute;
  quality_rules = rules;
  airflow = airflow;
  discovery_task = default_discovery_task;
}

-- `execute` before its transaction
unfoldable pub prepare : Python → PlatformDefaults → String → Command → Result Pipeline
prepare py d pipeline_id cmd = do
  schedule ← build_schedule_config py cmd
  sources ← normalize_extraction d py cmd.source_objects
  t ← to_pipeline_type py (text cmd.pipeline_type)
  owner ← email_address py cmd.owner_email
  compute ← normalize_compute d py cmd.compute
  rules ← normalize_quality_rules py cmd.quality_rules
  airflow ← normalize_airflow d py cmd.airflow_config
  new_pipeline py (assembled py pipeline_id cmd schedule sources t owner compute rules airflow)

-- `_resolve_asset`
unfoldable pub resolve_asset : String → Table → Option DataAsset
unfolding find_by_name
resolve_asset name assets = if is_text name then find_by_name name assets else none
