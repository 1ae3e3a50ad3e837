-- ===== src/Tasks/Context.antt =====
-- app/infrastructure/airflow_callbacks/ingestion_callbacks.py, `resolve_watermark_context`: from
-- where an incremental run goes on. The stored watermark comes through pipeline_run_api_client.py
-- and the route of http/routers/pipeline_router.py from the table of runs.
pub mod Valid
pub mod Resumes
use clean_data_platform_airf.Prelude.{
  ℕ, suc, ◌<◌, ◌≡◌, refl, ap, ◌∙◌, String, Bool, true, false, not, ◌&&◌, Option, none, some, List,
  [], ◌∷◌, ◌++◌, ◌==◌, if◌then◌else◌, format, is_text, strip, ltb, arith, All, strip-strip,
}
use clean_data_platform_airf.Errors.{Result, ok, err, value_error, ◌>>=◌, PlatformError, >>=-eq-ok}
use clean_data_platform_airf.Pipelines.Watermark.{
  Watermark, WatermarkType, parse, as_param_value, parse-as_param_value, type_value, accepts,
}
use clean_data_platform_airf.Pipelines.Run.{PipelineRun, is_success}
use clean_data_platform_airf.Pipelines.Table.{
  RunRow, Runs, save, new_row, find_by_id, latest, has_watermark, watermark_of,
  find_latest_watermark_by_pipeline_id,
}

pub record WatermarkContext : Type 0 where
  pub column : String
  pub value : String
  pub type_ : String

-- `{"column": column, "value": wm.value, "type": wm.type.value}`
abbrev pub context : String → Watermark → WatermarkContext
context column w = record { column = column; value = w.value; type_ = type_value w.type_ }

-- `value is not None and str(value).strip() != ""`
abbrev pub given : Option String → Bool
given none = false
given (some s) = is_text (strip s)

abbrev pub conflict : Watermark → WatermarkType → PlatformError
conflict w declared_type = value_error (
    format (
      "Stored watermark type '"
      ∷ type_value w.type_
      ∷ "' does not match declared type '"
      ∷ type_value declared_type
      ∷ "'"
      ∷ []))

module _ (reads : WatermarkType → String → Bool) where
  abbrev pub reparsed : Option Watermark → Result (Option Watermark)
  reparsed none = ok none
  reparsed (some w) = parse reads (some w.value) w.type_ >>= λ v. ok (some v)

  -- `PipelineRunApiClient.get_last_watermark`, over the route's answer.
  unfoldable pub get_last_watermark : String → Runs → Result (Option Watermark)
  unfolding parse find_latest_watermark_by_pipeline_id
  get_last_watermark pipeline_id rows =
      reparsed (find_latest_watermark_by_pipeline_id pipeline_id rows)

  abbrev pub parsed_context :
      String → Option String → WatermarkType → Result (Option WatermarkContext)
  parsed_context column raw declared_type =
      parse reads raw declared_type >>= λ w. ok (some (context column w))

  -- With a stored watermark, and without one.
  abbrev pub from_stored :
      String → WatermarkType → Option String → Option Watermark → Result (Option WatermarkContext)
  from_stored column declared_type initial_value (some w) =
      if not (type_value w.type_ == type_value declared_type)
      then err (conflict w declared_type)
      else ok (some (context column w))
  from_stored column declared_type initial_value none =
      if given initial_value then parsed_context column initial_value declared_type else ok none

  unfoldable pub resolve_watermark_context :
      String
      → WatermarkType
      → Option String
      → Option String
      → Result (Option Watermark)
      → Result (Option WatermarkContext)
  unfolding parse
  resolve_watermark_context column declared_type override initial_value stored =
      if given override
      then parsed_context column override declared_type
      else (stored >>= from_stored column declared_type initial_value)
