-- ===== src/Registration/Repository/Reading.antt =====
-- sql_pipeline_repository.py: reading rows back, and the operations of the repository.
use clean_data_platform_airf.Prelude.{
  String, Bool, true, ◌&&◌, Option, none, some, List, [], ◌∷◌, ◌++◌, ◌==◌, map, any, if◌then◌else◌,
  format, is_text,
}
use clean_data_platform_airf.Errors.{Result, ok, err, not_found_error, ◌>>=◌}
use clean_data_platform_airf.Extraction.Json.{text}
use clean_data_platform_airf.Registration.Values.{Python, email_address, cron_schedule}
use clean_data_platform_airf.Registration.Members.{to_pipeline_type, to_schedule_mode}
use clean_data_platform_airf.Registration.Schedule.{
  ScheduleConfig, PipelineDependency, dataset, schedule_config,
}
use clean_data_platform_airf.Registration.Defaults.{platform_defaults}
use clean_data_platform_airf.Registration.Aggregate.{
  Pipeline, no_transform, default_discovery_task, new_pipeline,
}
use clean_data_platform_airf.Registration.Normalizer.{
  normalize_extraction, normalize_destination_objects, normalize_compute, normalize_quality_rules,
  normalize_airflow,
}
use clean_data_platform_airf.Registration.Repository.{
  DependencyRow, ScheduleRow, PipelineRow, to_model,
}

abbrev pub same_day : Option Bool → Bool
same_day none = true
same_day (some b) = b

abbrev pub dependency_of : DependencyRow → PipelineDependency
dependency_of d = record {
  pipeline_id = d.pipeline_id;
  require_same_day = same_day d.require_same_day;
  dependency_type = dataset;
}

-- `CronSchedule(cron_expr) if cron_expr else None`
abbrev pub cron_of : Python → Option String → Result (Option String)
cron_of py none = ok none
cron_of py (some s) = if is_text s then (cron_schedule py s >>= λ c. ok (some c)) else ok none

-- `_build_schedule`
unfoldable pub build_schedule : Python → ScheduleRow → Result ScheduleConfig
unfolding schedule_config cron_schedule
build_schedule py s = do
  mode ← to_schedule_mode py (text s.mode)
  cron ← cron_of py s.cron_schedule
  schedule_config (record {
    mode = mode;
    cron_schedule = cron;
    depends_on = map {A = DependencyRow} dependency_of s.depends_on;
  })

-- `_to_domain`
unfoldable pub to_domain : Python → PipelineRow → Result Pipeline
unfolding email_address build_schedule normalize_extraction normalize_destination_objects
    normalize_compute normalize_quality_rules normalize_airflow new_pipeline
to_domain py m = do
  type_ ← to_pipeline_type py (text m.type_)
  owner ← email_address py m.owner_email
  schedule ← build_schedule py m.schedule
  sources ← normalize_extraction platform_defaults py m.source_objects
  compute ← normalize_compute platform_defaults py m.compute
  rules ← normalize_quality_rules py m.quality_rules
  airflow ← normalize_airflow platform_defaults py m.airflow
  new_pipeline py (record {
    id = m.id;
    name = m.name;
    type_ = type_;
    owner = owner;
    schedule = schedule;
    schema_version = m.schema_version;
    source_asset_name = m.source_asset_name;
    source_objects = sources;
    destination_asset_name = m.destination_asset_name;
    destination_objects = normalize_destination_objects py m.destination_objects;
    transform = no_transform;
    compute = compute;
    quality_rules = rules;
    airflow = airflow;
    discovery_task = default_discovery_task;
  })

-- `SqlPipelineRepository.save`, if the database takes the row.
abbrev pub save_pipeline : Pipeline → List PipelineRow → List PipelineRow
save_pipeline p rows = rows ++ to_model p ∷ []

unfoldable pub row_by_name : String → List PipelineRow → Option PipelineRow
row_by_name name [] = none
row_by_name name (row ∷ rows) = if row.name == name then some row else row_by_name name rows

unfoldable pub row_by_id : String → List PipelineRow → Option PipelineRow
row_by_id pid [] = none
row_by_id pid (row ∷ rows) = if row.id == pid then some row else row_by_id pid rows

-- `_to_domain(m) if m else None`
abbrev pub read_row : Python → Option PipelineRow → Result (Option Pipeline)
read_row py none = ok none
read_row py (some row) = to_domain py row >>= λ p. ok (some p)

-- `find_by_name`, where names are unique
unfoldable pub find_pipeline_by_name : Python → String → List PipelineRow → Result (Option Pipeline)
unfolding row_by_name to_domain
find_pipeline_by_name py name rows = read_row py (row_by_name name rows)

-- `find_by_id`
unfoldable pub find_pipeline_by_id : Python → String → List PipelineRow → Result (Option Pipeline)
unfolding row_by_id to_domain
find_pipeline_by_id py pid rows = read_row py (row_by_id pid rows)

-- `find_all`
unfoldable pub find_all : Python → List PipelineRow → Result (List Pipeline)
unfolding to_domain
find_all py [] = ok []
find_all py (row ∷ rows) = do p ← to_domain py row; ps ← find_all py rows; ok (p ∷ ps)

unfoldable pub write_version : String → String → List PipelineRow → List PipelineRow
write_version pid sv [] = []
write_version pid sv (row ∷ rows) =
    if row.id == pid
    then record row { schema_version = sv } ∷ rows
    else row ∷ write_version pid sv rows

-- `update_schema_version`; the row is read before and after the write.
unfoldable pub update_schema_version :
    Python → String → String → List PipelineRow → Result (List PipelineRow × Pipeline)
unfolding row_by_id write_version to_domain
update_schema_version py pid sv rows = elim (row_by_id pid rows) [
  | none ↦ err (not_found_error (format ("Pipeline not found: " ∷ pid ∷ [])))
  | some row ↦ do
    _ ← to_domain py row
    p ← to_domain py (record row { schema_version = sv })
    ok (write_version pid sv rows, p)
]

-- `PipelineObjectModel`
pub record PipelineObjectRow : Type 0 where
  pub pipeline_id : String
  pub object_id : String
  pub role_in_pipeline : String

abbrev pub is_linked : String → String → List PipelineObjectRow → Bool
is_linked pipeline_id object_id links =
    any (λ l. l.pipeline_id == pipeline_id && l.object_id == object_id) links

-- `link_object`
unfoldable pub link_object :
    String → String → String → List PipelineObjectRow → List PipelineObjectRow
link_object pipeline_id object_id role links =
    if is_linked pipeline_id object_id links
    then links
    else links
      ++ record { pipeline_id = pipeline_id; object_id = object_id; role_in_pipeline = role } ∷ []
