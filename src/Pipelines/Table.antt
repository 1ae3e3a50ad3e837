-- ===== src/Pipelines/Table.antt =====
-- app/infrastructure/persistence/repositories/sql_pipeline_run_repository.py: the tables of runs and
-- of their files. Of rows with the same start the first one in the table counts as the latest, where
-- SQL leaves the order open. Two rows with one idempotency key are an error of the query.
use clean_data_platform_airf.Prelude.{
  ℕ, String, Bool, false, ◌&&◌, Option, none, some, List, [], ◌∷◌, ◌==◌, if◌then◌else◌, is_some,
  is_text, ltb, filter,
}
use clean_data_platform_airf.Errors.{Result, ok, err, multiple_results}
use clean_data_platform_airf.Pipelines.Watermark.{Watermark}
use clean_data_platform_airf.Pipelines.Run.{PipelineRun, PipelineRunFile, is_success}

-- A row: the run and the two times that the repository stamps.
pub record RunRow : Type 0 where
  pub run : PipelineRun
  pub last_run_at : ℕ
  pub last_success_at : Option ℕ

abbrev pub Runs : Type 0
Runs = List RunRow

abbrev pub or_kept {ℓ} : {A : Type ℓ} → Option A → Option A → Option A
or_kept none kept = kept
or_kept (some a) kept = some a

-- The row of a run that is new.
abbrev pub new_row : ℕ → PipelineRun → RunRow
new_row now run = record {
  run = run;
  last_run_at = now;
  last_success_at = if is_success run.status then some now else none;
}

-- The row of a run that was there: its watermark is kept if the run has none, and its idempotency
-- key is never written.
abbrev pub updated_row : ℕ → PipelineRun → RunRow → RunRow
updated_row now run row = record {
  run = record run {
    watermark = or_kept run.watermark row.run.watermark;
    idempotency_key = row.run.idempotency_key;
  };
  last_run_at = now;
  last_success_at = if is_success run.status then some now else row.last_success_at;
}

unfoldable pub save : ℕ → PipelineRun → Runs → Runs
save now run [] = new_row now run ∷ []
save now run (row ∷ rows) =
    if row.run.id == run.id then updated_row now run row ∷ rows else row ∷ save now run rows

unfoldable pub find_by_id : String → Runs → Option RunRow
find_by_id run_id [] = none
find_by_id run_id (row ∷ rows) = if row.run.id == run_id then some row else find_by_id run_id rows

-- The later of two rows by their start.
abbrev pub later : RunRow → Option RunRow → RunRow
later row none = row
later row (some other) = if ltb row.run.started_at other.run.started_at then other else row

-- The first row of `ORDER BY started_at DESC` among those that the query selects.
unfoldable pub latest : (RunRow → Bool) → Runs → Option RunRow
latest selected [] = none
latest selected (row ∷ rows) =
    let rest = latest selected rows in if selected row then some (later row rest) else rest

unfoldable pub find_latest_by_pipeline_id : String → Runs → Option RunRow
unfolding latest
find_latest_by_pipeline_id pipeline_id rows = latest (λ r. r.run.pipeline_id == pipeline_id) rows

-- The rows that count for the watermark of a pipeline.
abbrev pub has_watermark : String → RunRow → Bool
has_watermark pipeline_id r =
    r.run.pipeline_id == pipeline_id && is_success r.run.status && is_some r.run.watermark

-- A row with an empty value has no watermark.
abbrev pub nonempty_watermark : Option Watermark → Option Watermark
nonempty_watermark none = none
nonempty_watermark (some w) = if is_text w.value then some w else none

abbrev pub watermark_of : Option RunRow → Option Watermark
watermark_of none = none
watermark_of (some r) = nonempty_watermark r.run.watermark

unfoldable pub find_latest_watermark_by_pipeline_id : String → Runs → Option Watermark
unfolding latest
find_latest_watermark_by_pipeline_id pipeline_id rows =
    watermark_of (latest (has_watermark pipeline_id) rows)

abbrev pub same_key : String → Option String → Bool
same_key k none = false
same_key k (some stored) = stored == k

abbrev pub has_key : String → String → RunRow → Bool
has_key pipeline_id k r = r.run.pipeline_id == pipeline_id && same_key k r.run.idempotency_key

abbrev pub one_or_none : Runs → Result (Option RunRow)
one_or_none [] = ok none
one_or_none (row ∷ []) = ok (some row)
one_or_none (row ∷ other ∷ rest) =
    err (multiple_results "Multiple rows were found when one or none was required")

unfoldable pub find_by_idempotency_key : String → String → Runs → Result (Option RunRow)
find_by_idempotency_key pipeline_id k rows = one_or_none (filter (has_key pipeline_id k) rows)

unfoldable pub save_file : PipelineRunFile → List PipelineRunFile → List PipelineRunFile
save_file f [] = f ∷ []
save_file f (row ∷ rows) =
    if row.id == f.id
    then record row { status = f.status; processed_at = f.processed_at } ∷ rows
    else row ∷ save_file f rows

unfoldable pub save_files : List PipelineRunFile → List PipelineRunFile → List PipelineRunFile
unfolding save_file
save_files [] rows = rows
save_files (f ∷ fs) rows = save_files fs (save_file f rows)
