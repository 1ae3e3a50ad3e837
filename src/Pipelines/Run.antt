-- ===== src/Pipelines/Run.antt =====
-- app/domain/pipelines/pipeline_run_status.py, pipeline_run.py and pipeline_run_file.py: the record
-- of one execution. The metrics are their watermark, as a raw value and a raw type, and texts.
use clean_data_platform_airf.Prelude.{
  ℕ, String, Bool, true, false, Option, some, List, if◌then◌else◌, non_empty,
}
use clean_data_platform_airf.Prelude.Dict.{Dict}
use clean_data_platform_airf.Pipelines.Watermark.{Watermark}

pub data PipelineRunStatus : Type 0 where
  running success failed quality_failed partial : PipelineRunStatus

pub record Metrics : Type 0 where
  pub watermark : Option (Option String × Option String)
  pub others : Dict String

pub record PipelineRun : Type 0 where
  pub id : String
  pub pipeline_id : String
  pub pipeline_name : String
  pub pipeline_type : String
  pub dag_run_id : String
  pub status : PipelineRunStatus
  pub started_at : ℕ
  pub finished_at : Option ℕ
  pub failed_task : Option String
  pub optional_failures : List String
  pub quality_violations : List String
  pub metrics : Metrics
  pub watermark : Option Watermark
  pub sla_breached : Bool
  pub sla_minutes : ℕ
  pub idempotency_key : Option String
  pub updated_at : ℕ

unfoldable pub mark_success : ℕ → Metrics → ℕ → PipelineRun → PipelineRun
mark_success finished_at metrics touched r = record r {
  finished_at = some finished_at;
  metrics = metrics;
  status = if non_empty r.optional_failures then partial else success;
  updated_at = touched;
}

unfoldable pub mark_failed : ℕ → String → ℕ → PipelineRun → PipelineRun
mark_failed finished_at failed_task touched r = record r {
  finished_at = some finished_at;
  failed_task = some failed_task;
  status = failed;
  updated_at = touched;
}

unfoldable pub mark_quality_failed : ℕ → List String → ℕ → PipelineRun → PipelineRun
mark_quality_failed finished_at violations touched r = record r {
  finished_at = some finished_at;
  quality_violations = violations;
  status = quality_failed;
  updated_at = touched;
}

-- `status in (SUCCESS, PARTIAL)`
abbrev pub is_success : PipelineRunStatus → Bool
is_success success = true
is_success partial = true
is_success _ = false

pub record PipelineRunFile : Type 0 where
  pub id : String
  pub pipeline_run_id : String
  pub file_path : String
  pub file_name : String
  pub file_size_bytes : ℕ
  pub mtime : ℕ
  pub hash_md5 : String
  pub status : String
  pub processed_at : Option ℕ
  pub updated_at : ℕ

unfoldable pub mark_processed : ℕ → ℕ → PipelineRunFile → PipelineRunFile
mark_processed now touched f = record f {
  status = "PROCESSED";
  processed_at = some now;
  updated_at = touched;
}

unfoldable pub mark_file_failed : ℕ → PipelineRunFile → PipelineRunFile
mark_file_failed touched f = record f { status = "FAILED"; updated_at = touched }
