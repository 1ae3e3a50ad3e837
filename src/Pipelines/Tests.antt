-- ===== src/Pipelines/Tests.antt =====
-- The pipelines' theorems at one pipeline and its runs.
use Prim.Native.String
use clean_data_platform_airf.Prelude.{
  is_text, length, filter, ◌≤◌, All, ℕ, ◌≡◌, refl, String, Bool, true, false, Option, none, some,
  List, [], ◌∷◌, strip, lstrip, rstrip, is_blank, format, non_empty, any,
}
use clean_data_platform_airf.Prelude.Dict.{Dict, lookup}
use clean_data_platform_airf.Errors.{ok, err, value_error}
use clean_data_platform_airf.Pipelines.Watermark.{
  timestamp, Watermark, WatermarkType, string, parse, as_sql_literal, read_literal,
  read_literal-as_sql_literal,
}
use clean_data_platform_airf.Pipelines.Quality.{
  Value, number, nan, QualityRule, evaluate, evaluate_rule, row_count_min, column_rule, not_null,
  precedes,
}
use clean_data_platform_airf.Pipelines.Gate.{is_broken, evaluate-is_broken}
use clean_data_platform_airf.Pipelines.Run.{PipelineRun, PipelineRunStatus, success, failed}
use clean_data_platform_airf.Pipelines.Table.{
  Runs, find_by_id, find_latest_watermark_by_pipeline_id,
}
use clean_data_platform_airf.Pipelines.Trigger.{
  Pipeline, find_pipeline, Platform, Ports, Request, new_run, trigger,
}
use clean_data_platform_airf.Pipelines.Idempotent.{trigger_again}
use clean_data_platform_airf.Pipelines.Record.{
  Report, Store, parse_status, record_run, record_run_failed,
}
use clean_data_platform_airf.Pipelines.Config.{
  PipelineConfig, ExtractionConfig, incremental, full_load, duckdb, is_incremental, check_initial,
  check_incremental, check_sensor, check_source, check_sources, validate_invariants,
}
use clean_data_platform_airf.Pipelines.Config.Invariants.{
  source_is_sound, validate_invariants_sound,
}

abbrev reads_all : WatermarkType → String → Bool
reads_all t s = true

abbrev mark : Watermark
mark = record { value = "O'Neil"; type_ = string }

mark_parsed : parse reads_all (some " O'Neil ") string ≡ ok mark
unfolding parse strip lstrip rstrip is_blank
mark_parsed = refl

read_literal-as_sql_literal_example :
    read_literal (String.◌++◌ (as_sql_literal mark) " AND 1=1") ≡ some ("O'Neil", " AND 1=1")
read_literal-as_sql_literal_example = read_literal-as_sql_literal mark " AND 1=1" refl refl

abbrev shown_as : ℕ → String
shown_as n = "7"

abbrev metrics : Dict Value
metrics = ("row_count", number 7) ∷ ("null_count_id", number 0) ∷ []

abbrev rules : List QualityRule
rules =
    record { type_ = "row_count_min"; column = ""; value = some (number 9) }
    ∷ record { type_ = "not_null"; column = "id"; value = none }
    ∷ []

abbrev found_violations : List String
found_violations = "VIOLATION row_count_min: got 7, expected >= 7" ∷ []

evaluated : evaluate shown_as metrics rules ≡ ok found_violations
unfolding evaluate evaluate_rule row_count_min column_rule not_null lookup format
evaluated = refl

evaluate-is_broken_example : non_empty found_violations ≡ any (is_broken shown_as metrics) rules
unfolding lookup format
evaluate-is_broken_example =
    evaluate-is_broken shown_as metrics rules found_violations evaluated
      ((refl, (refl, (refl, (refl, tt)))), ((refl, (refl, (refl, (refl, tt)))), tt))

-- A NaN as a count of nulls is not reported.
nan_unreported :
    evaluate shown_as
      (("null_count_id", nan) ∷ [])
      (record { type_ = "not_null"; column = "id"; value = none } ∷ [])
    ≡ ok []
unfolding evaluate evaluate_rule column_rule not_null lookup format
nan_unreported = refl

-- Texts are compared by their code points.
text_below : precedes "5" "9" ≡ true
unfolding precedes
text_below = refl

abbrev run_of : String → PipelineRunStatus → Option Watermark → PipelineRun
run_of id status watermark = record {
  id = id;
  pipeline_id = "p1";
  pipeline_name = "orders";
  pipeline_type = "ingestion";
  dag_run_id = "d1";
  status = status;
  started_at = 5;
  finished_at = none;
  failed_task = none;
  optional_failures = [];
  quality_violations = [];
  metrics = record { watermark = none; others = [] };
  watermark = watermark;
  sla_breached = false;
  sla_minutes = 90;
  idempotency_key = none;
  updated_at = 5;
}

abbrev rows : Runs
rows =
    record { run = run_of "r1" success (some mark); last_run_at = 6; last_success_at = some 6 } ∷ []

r2_fresh : find_by_id "r2" rows ≡ none
unfolding find_by_id
r2_fresh = refl

abbrev orders : Pipeline
orders = record { id = "p1"; name = "orders & more"; type_ = "ingestion" }

abbrev platform : Platform
platform = record { pipelines = orders ∷ []; runs = rows; effects = [] }

-- Ports that all work, and ports whose orchestrator is down.
abbrev working : Ports
working = record {
  generate_yaml = λ p. ok p.name;
  generate_dag = λ yaml. ok yaml;
  write_text = λ path code. ok tt;
  trigger_dag = λ p r d n w. ok tt;
}

abbrev down : Ports
down = record working { trigger_dag = λ p r d n w. err (value_error "down") }

abbrev request : Request
request = record {
  pipeline_id = "p1";
  triggered_by = "ana";
  idempotency_key = some "k1";
  watermark_override = none;
  new_id = "r2";
  stamp = "20260101";
  started_at = 8;
  now = 8;
}

orders_found : find_pipeline "p1" (orders ∷ []) ≡ some orders
unfolding find_pipeline
orders_found = refl

trigger_again_example :
    let s1 = (trigger down "/dags" request platform).0 in
    trigger working "/dags" (record request { new_id = "r3"; now = 9 }) s1
    ≡ (s1, ok (new_run request orders))
trigger_again_example =
    trigger_again down working "/dags" request (record request { new_id = "r3"; now = 9 }) "k1"
      orders platform orders_found refl refl refl refl r2_fresh refl

abbrev report : Report
report = record {
  pipeline_id = "p1";
  pipeline_name = "orders";
  run_id = some "r2";
  pipeline_type = "ingestion";
  dag_run_id = "d1";
  status = "failed";
  started_at = 8;
  finished_at = some 9;
  failed_task = some "extract";
  optional_failures = [];
  quality_violations = [];
  metrics = record { watermark = some (some "x", some "no type"); others = [] };
  sla_minutes = 90;
  sla_breached = false;
  files = [];
}

abbrev store : Store
store = record { runs = rows; files = [] }

failed_parsed : parse_status "failed" ≡ some failed
unfolding parse_status
failed_parsed = refl

record_run_failed_example :
    (s' : Store) × (run : PipelineRun) × (record_run reads_all "r9" 9 report store ≡ ok (s', run))
    × (run.status ≡ failed)
    × (find_latest_watermark_by_pipeline_id "p1" s'.runs
        ≡ find_latest_watermark_by_pipeline_id "p1" store.runs)
record_run_failed_example =
    record_run_failed reads_all "r9" 9 report store failed "p1" failed_parsed refl
      (rw r2_fresh refl)

abbrev source : ExtractionConfig
source = record {
  object_name = "orders";
  load_strategy = incremental;
  watermark_column = some "updated_at";
  watermark_type = some timestamp;
  watermark_initial_value = some "2026-01-01";
  sensor = some (record { query = "SELECT 1"; timeout_minutes = 60; poke_interval_seconds = 60 });
}

abbrev config : PipelineConfig
config = record {
  name = "orders";
  source_objects = source ∷ record source { load_strategy = full_load } ∷ [];
  engine = duckdb;
  execution_timeout_minutes = 120;
}

config_valid : validate_invariants reads_all shown_as config ≡ ok tt
unfolding validate_invariants check_sources check_source check_incremental check_initial
    check_sensor parse strip lstrip rstrip is_blank
config_valid = refl

validate_invariants_sound_example :
    (is_text (strip config.name) ≡ true)
    × (length (filter is_incremental config.source_objects) ≤ 1)
    × All (λ s. source_is_sound config s ≡ true) config.source_objects
validate_invariants_sound_example = validate_invariants_sound reads_all shown_as config config_valid
