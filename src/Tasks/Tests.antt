-- ===== src/Tasks/Tests.antt =====
-- The theorems about the tasks at small inputs.
use Prim.Native.String
use clean_data_platform_airf.Prelude.{
  ℕ, ◌≡◌, ◌≢◌, ◌++◌, refl, String, Bool, true, false, none, some, List, [], ◌∷◌, ◌==◌, map, strip,
  lstrip, rstrip, is_blank, arith,
}
use clean_data_platform_airf.Prelude.Dict.{Dict}
use clean_data_platform_airf.Errors.{ok}
use clean_data_platform_airf.Pipelines.Watermark.{Watermark, WatermarkType, string, date, parse}
use clean_data_platform_airf.Pipelines.Quality.{Value, number, QualityRule}
use clean_data_platform_airf.Pipelines.Run.{PipelineRun, success}
use clean_data_platform_airf.Pipelines.Table.{
  Runs, find_by_id, latest, find_latest_watermark_by_pipeline_id,
}
use clean_data_platform_airf.Pipelines.Record.{
  Report, Store, parse_status, parse_type, watermark_in, record_run,
}
use clean_data_platform_airf.Pipelines.Files.{Entry}
use clean_data_platform_airf.Tasks.Context.{context, get_last_watermark, resolve_watermark_context}
use clean_data_platform_airf.Tasks.Context.Valid.{IsValid, resolve_watermark_context-IsValid}
use clean_data_platform_airf.Tasks.Context.Resumes.{next_run_resumes}
use clean_data_platform_airf.Tasks.Checks.{Dependency}
use clean_data_platform_airf.Tasks.Files.{pending_files, second_scan}

abbrev reads_all : WatermarkType → String → Bool
reads_all t s = true

abbrev mark : Watermark
mark = record { value = "2026-01-31"; type_ = string }

abbrev report : Report
report = record {
  pipeline_id = "p1";
  pipeline_name = "orders";
  run_id = some "r2";
  pipeline_type = "ingestion";
  dag_run_id = "d2";
  status = "success";
  started_at = 8;
  finished_at = some 9;
  failed_task = none;
  optional_failures = [];
  quality_violations = [];
  metrics = record { watermark = some (some " 2026-01-31", some "string"); others = [] };
  sla_minutes = 90;
  sla_breached = false;
  files = [];
}

abbrev stored_run : PipelineRun
stored_run = record {
  id = "r1";
  pipeline_id = "p1";
  pipeline_name = "orders";
  pipeline_type = "ingestion";
  dag_run_id = "d1";
  status = success;
  started_at = 3;
  finished_at = some 4;
  failed_task = none;
  optional_failures = [];
  quality_violations = [];
  metrics = record { watermark = none; others = [] };
  watermark = some mark;
  sla_breached = false;
  sla_minutes = 90;
  idempotency_key = none;
  updated_at = 4;
}

abbrev rows : Runs
rows = record { run = stored_run; last_run_at = 4; last_success_at = some 4 } ∷ []

abbrev store : Store
store = record { runs = rows; files = [] }

report_parsed : parse_status report.status ≡ some success
unfolding parse_status
report_parsed = refl

report_marked : watermark_in reads_all report.metrics.watermark ≡ ok (some mark)
unfolding parse parse_type strip lstrip rstrip is_blank
report_marked = refl

r2_fresh : find_by_id "r2" store.runs ≡ none
unfolding find_by_id
r2_fresh = refl

next_run_resumes_example :
    (s' : Store) × (run : PipelineRun) × (record_run reads_all "r9" 9 report store ≡ ok (s', run))
    × (resolve_watermark_context reads_all "day" mark.type_ none
          (some "2020-01-01")
          (get_last_watermark reads_all report.pipeline_id s'.runs)
        ≡ ok (some (context "day" mark)))
next_run_resumes_example =
    next_run_resumes reads_all "r9" 9 report store mark "day" none (some "2020-01-01") report_parsed
      report_marked r2_fresh ((λ counts. omega arith), tt) refl

rows_marked : find_latest_watermark_by_pipeline_id "p1" rows ≡ some mark
unfolding find_latest_watermark_by_pipeline_id latest
rows_marked = refl

mark_parsed : parse reads_all (some "2026-01-31") string ≡ ok mark
unfolding parse strip lstrip rstrip is_blank
mark_parsed = refl

string-date : mark.type_ ≢ date
string-date h = cc

rows_resolved :
    resolve_watermark_context reads_all "day" string none none
      (get_last_watermark reads_all "p1" rows)
    ≡ ok (some (context "day" mark))
unfolding resolve_watermark_context get_last_watermark find_latest_watermark_by_pipeline_id latest
    parse strip lstrip rstrip is_blank
rows_resolved = refl

resolve_watermark_context-IsValid_example : IsValid reads_all "day" string (context "day" mark)
resolve_watermark_context-IsValid_example =
    resolve_watermark_context-IsValid reads_all "day" string none none "p1" rows
      (context "day" mark) rows_resolved

abbrev shown_as : ℕ → String
shown_as n = "7"

abbrev only_first : String → Bool → ℕ → String → Bool
only_first pipeline_id same_day day type_ = pipeline_id == "p1"

abbrev upstream : String → Dependency
upstream i = record { pipeline_id = i; require_same_day = true; dependency_type = none }

abbrev dependencies : List Dependency
dependencies = upstream "p1" ∷ upstream "p2" ∷ []

abbrev metrics : Dict Value
metrics = ("row_count", number 9) ∷ []

abbrev rules : List QualityRule
rules = record { type_ = "row_count_min"; column = ""; value = some (number 5) } ∷ []

abbrev joined : List String → String
joined texts = "[]"

abbrev entry : String → String → Entry
entry name content = record {
  name = name;
  rel = name;
  path = name;
  content = content;
  is_file = true;
  size = 3;
  mtime = 4;
}

abbrev same_text : String → String → Bool
same_text name pattern = name == pattern

abbrev digest : String → String
digest content = String.◌++◌ "md5 " content

abbrev landing : List Entry
landing = entry "a.csv" "x" ∷ entry "b.csv" "y" ∷ []

abbrev numbered : ℕ → String
numbered n = "f"

second_scan_example :
    pending_files same_text digest numbered 2 6
      ("a.csv" ∷ "b.csv" ∷ [])
      []
      (map
          (λ f. f.hash_md5)
          (pending_files same_text digest numbered 0 5
            ("a.csv" ∷ "b.csv" ∷ [])
            []
            ("md5 y" ∷ [])
            landing)
        ++ "md5 y" ∷ [])
      landing
    ≡ []
second_scan_example =
    second_scan same_text digest numbered 0 2 5 6 ("a.csv" ∷ "b.csv" ∷ []) [] ("md5 y" ∷ []) landing
