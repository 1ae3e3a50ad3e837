-- ===== src/Pipelines/Record.antt =====
-- app/application/pipelines/record_pipeline_run_use_case.py: a report about a run becomes a record.
-- `reads` is what Python's constructors accept as a watermark's value.
use clean_data_platform_airf.Prelude.{
  ℕ, ◌≡◌, refl, String, Bool, false, Option, none, some, List, [], ◌∷◌, ◌==◌, map, if◌then◌else◌,
  format, is_text, arith,
}
use clean_data_platform_airf.Errors.{
  Result, ok, err, validation_error, ◌>>=◌, PlatformError, value_error,
}
use clean_data_platform_airf.Pipelines.Watermark.{
  Watermark, WatermarkType, integer, float, timestamp, date, string, parse,
}
use clean_data_platform_airf.Pipelines.Run.{
  PipelineRun, PipelineRunFile, PipelineRunStatus, running, success, failed, quality_failed,
  partial, Metrics, is_success,
}
use clean_data_platform_airf.Pipelines.Table.{
  Runs, save, save_files, find_by_id, find_latest_watermark_by_pipeline_id,
}
use clean_data_platform_airf.Pipelines.Stored.{saved_row, succeeded, watermark-save}

pub record Report : Type 0 where
  pub pipeline_id : String
  pub pipeline_name : String
  pub run_id : Option String
  pub pipeline_type : String
  pub dag_run_id : String
  pub status : String
  pub started_at : ℕ
  pub finished_at : Option ℕ
  pub failed_task : Option String
  pub optional_failures : List String
  pub quality_violations : List String
  pub metrics : Metrics
  pub sla_minutes : ℕ
  pub sla_breached : Bool
  pub files : List PipelineRunFile

pub record Store : Type 0 where
  pub runs : Runs
  pub files : List PipelineRunFile

-- `PipelineRunStatus(status)`
unfoldable pub parse_status : String → Option PipelineRunStatus
parse_status s =
    if s == "running"
    then some running
    else if s == "success"
    then some success
    else if s == "failed"
    then some failed
    else if s == "quality_failed"
    then some quality_failed
    else if s == "partial"
    then some partial
    else none

-- `WatermarkType(wm_type_str)`
unfoldable pub parse_type : String → Result WatermarkType
parse_type s =
    if s == "integer"
    then ok integer
    else if s == "float"
    then ok float
    else if s == "timestamp"
    then ok timestamp
    else if s == "date"
    then ok date
    else if s == "string"
    then ok string
    else err (value_error (format ("'" ∷ s ∷ "' is not a valid WatermarkType" ∷ [])))

abbrev pub message : PlatformError → String
message (value_error m) = m
message e = ""

-- `except (ValueError, KeyError) as exc`
abbrev pub wrapped : Result Watermark → Result (Option Watermark)
wrapped (ok w) = ok (some w)
wrapped (err e) =
    err (validation_error (format ("Invalid watermark in metrics: " ∷ message e ∷ [])))

abbrev pub watermark_in :
    (WatermarkType → String → Bool)
    → Option (Option String × Option String)
    → Result (Option Watermark)
watermark_in reads none = ok none
watermark_in reads (some (none, t)) = ok none
watermark_in reads (some (some value, none)) = ok none
watermark_in reads (some (some value, some t)) =
    if is_text t
    then wrapped (parse_type t >>= λ type_. parse reads (some value) type_)
    else ok none

-- `run_id or str(uuid.uuid4())`
abbrev pub id_or : String → Option String → String
id_or new_id none = new_id
id_or new_id (some i) = if is_text i then i else new_id

unfoldable pub status_or_error : String → Result PipelineRunStatus
status_or_error s = elim (parse_status s) [
  | some status ↦ ok status
  | none ↦ err (
      validation_error (
        format (
          "Invalid pipeline run status: '" ∷ s
          ∷ "'. Valid values: ['running', 'success', 'failed', 'quality_failed', 'partial']" ∷ [])))
]

abbrev pub recorded_run : String → ℕ → Report → PipelineRunStatus → Option Watermark → PipelineRun
recorded_run new_id now q status watermark = record {
  id = id_or new_id q.run_id;
  pipeline_id = q.pipeline_id;
  pipeline_name = q.pipeline_name;
  pipeline_type = q.pipeline_type;
  dag_run_id = q.dag_run_id;
  status = status;
  started_at = q.started_at;
  finished_at = q.finished_at;
  failed_task = q.failed_task;
  optional_failures = q.optional_failures;
  quality_violations = q.quality_violations;
  metrics = q.metrics;
  watermark = watermark;
  sla_breached = q.sla_breached;
  sla_minutes = q.sla_minutes;
  idempotency_key = none;
  updated_at = now;
}

-- `f.pipeline_run_id = saved_run.id`
abbrev pub assign_run : String → PipelineRunFile → PipelineRunFile
assign_run i f = record f { pipeline_run_id = i }

-- `RecordPipelineRunUseCase.execute`
unfoldable pub record_run :
    (WatermarkType → String → Bool) → String → ℕ → Report → Store → Result (Store × PipelineRun)
record_run reads new_id now q s = do
  status ← status_or_error q.status
  watermark ← (if is_success status then watermark_in reads q.metrics.watermark else ok none)
  let run = recorded_run new_id now q status watermark
  let saved = (saved_row now run (find_by_id run.id s.runs)).run
  ok (
    record {
      runs = save now run s.runs;
      files = save_files (map (assign_run saved.id) q.files) s.files;
    },
    saved,
  )

pub status-found :
    (s : String) (status : PipelineRunStatus)
    → parse_status s ≡ some status
    → status_or_error s ≡ ok status
unfolding status_or_error
status-found s status h = ground arith

-- A report with a status that is known and no success is never refused for its watermark, is
-- recorded with that status, and moves no pipeline's watermark, unless the run had succeeded
-- before.
pub record_run_failed :
    (reads : WatermarkType → String → Bool) (new_id : String) (now : ℕ) (q : Report) (s : Store)
    (status : PipelineRunStatus) (p : String)
    → parse_status q.status ≡ some status
    → is_success status ≡ false
    → succeeded (find_by_id (id_or new_id q.run_id) s.runs) ≡ false
    → (s' : Store) × (run : PipelineRun) × (record_run reads new_id now q s ≡ ok (s', run))
      × (run.status ≡ status)
      × (find_latest_watermark_by_pipeline_id p s'.runs
          ≡ find_latest_watermark_by_pipeline_id p s.runs)
unfolding record_run
record_run_failed reads new_id now q s status p parsed bad before =
    let run = recorded_run new_id now q status none in
    (
      record {
        runs = save now run s.runs;
        files =
            save_files
              (map (assign_run (saved_row now run (find_by_id run.id s.runs)).run.id) q.files)
              s.files;
      },
      (saved_row now run (find_by_id run.id s.runs)).run,
      rw (status-found q.status status parsed, bad) refl,
      ground arith,
      watermark-save p now run s.runs bad before,
    )
