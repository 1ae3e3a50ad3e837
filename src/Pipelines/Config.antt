-- ===== src/Pipelines/Config.antt =====
-- app/domain/pipelines: pipeline.py with load_strategy.py, compute_engine.py, extraction_config.py
-- and sensor_config.py. Of the aggregate the fields that its invariants read are kept; `render` is
-- Python's `str` of a number, and a query that is not given is none.
pub mod Invariants
use clean_data_platform_airf.Prelude.{
  ℕ, String, Bool, true, false, not, ◌&&◌, ◌||◌, Option, none, some, List, [], ◌∷◌, if◌then◌else◌,
  ltb, leb, eqb, format, filter, length, strip, is_text, is_some,
}
use clean_data_platform_airf.Errors.{Result, ok, err, value_error, ◌>>=◌}
use clean_data_platform_airf.Pipelines.Watermark.{WatermarkType, Watermark, parse}

pub data LoadStrategy : Type 0 where
  full_load incremental cdc : LoadStrategy

pub data ComputeEngine : Type 0 where
  duckdb spark dataflow default : ComputeEngine
  rest_api omnibeam dbt dataform : ComputeEngine

pub record SensorConfig : Type 0 where
  pub query : String
  pub timeout_minutes : ℕ
  pub poke_interval_seconds : ℕ

-- `SensorConfig.__post_init__`; a negative number is refused like zero.
unfoldable pub new_sensor : String → ℕ → ℕ → Result SensorConfig
new_sensor query timeout_minutes poke_interval_seconds =
    if not (is_text (strip query))
    then err (value_error "SensorConfig.query cannot be empty")
    else if eqb timeout_minutes 0
    then err (value_error "SensorConfig.timeout_minutes must be > 0")
    else if eqb poke_interval_seconds 0
    then err (value_error "SensorConfig.poke_interval_seconds must be > 0")
    else ok (record {
      query = query;
      timeout_minutes = timeout_minutes;
      poke_interval_seconds = poke_interval_seconds;
    })

pub record ExtractionConfig : Type 0 where
  pub object_name : String
  pub load_strategy : LoadStrategy
  pub watermark_column : Option String
  pub watermark_type : Option WatermarkType
  pub watermark_initial_value : Option String
  pub sensor : Option SensorConfig

pub record PipelineConfig : Type 0 where
  pub name : String
  pub source_objects : List ExtractionConfig
  pub engine : ComputeEngine
  pub execution_timeout_minutes : ℕ

abbrev pub is_incremental : ExtractionConfig → Bool
is_incremental s = elim s.load_strategy [ incremental ↦ true | _ ↦ false ]

abbrev pub is_dataflow : ComputeEngine → Bool
is_dataflow dataflow = true
is_dataflow _ = false

-- Python's truth value of a text or None.
abbrev pub has_text : Option String → Bool
has_text none = false
has_text (some s) = is_text s

module _ (reads : WatermarkType → String → Bool) (render : ℕ → String) where
  -- `if source.watermark_initial_value: Watermark.parse(...)`
  unfoldable pub check_initial : Option String → WatermarkType → Result (Unit {0})
  unfolding parse
  check_initial none t = ok tt
  check_initial (some v) t = if is_text v then (parse reads (some v) t >>= λ _. ok tt) else ok tt

  abbrev pub missing_watermark : ExtractionConfig → Result (Unit {0})
  missing_watermark s = err (
      value_error (
        format (
          "watermark_column and watermark_type are required for incremental source '"
          ∷ s.object_name ∷ "'." ∷ [])))

  -- The checks of an incremental source.
  unfoldable pub check_incremental : ComputeEngine → ExtractionConfig → Result (Unit {0})
  check_incremental engine s = elim s.watermark_type [
    | none ↦ missing_watermark s
    | some t ↦
        if not (has_text s.watermark_column)
        then missing_watermark s
        else (check_initial s.watermark_initial_value t >>= λ _.
            if is_dataflow engine
            then err
                (value_error "Incremental watermark not supported on Dataflow template engine.")
            else ok tt)
  ]

  unfoldable pub check_sensor : ℕ → Option SensorConfig → Result (Unit {0})
  check_sensor execution_timeout none = ok tt
  check_sensor execution_timeout (some sensor) =
      if ltb execution_timeout sensor.timeout_minutes
      then err (
          value_error (
            format (
              "sensor timeout ("
              ∷ render sensor.timeout_minutes
              ∷ "m) cannot exceed pipeline execution timeout ("
              ∷ render execution_timeout
              ∷ "m)"
              ∷ [])))
      else ok tt

  -- One round of the loop over the sources.
  unfoldable pub check_source : PipelineConfig → ExtractionConfig → Result (Unit {0})
  check_source p s = do
    _ ← (if is_incremental s then check_incremental p.engine s else ok tt)
    check_sensor p.execution_timeout_minutes s.sensor

  unfoldable pub check_sources : PipelineConfig → List ExtractionConfig → Result (Unit {0})
  check_sources p [] = ok tt
  check_sources p (s ∷ rest) = do _ ← check_source p s; check_sources p rest

  -- `validate_invariants`
  unfoldable pub validate_invariants : PipelineConfig → Result (Unit {0})
  validate_invariants p =
      if not (is_text (strip p.name))
      then err (value_error "Pipeline name cannot be empty")
      else if ltb 1 (length (filter is_incremental p.source_objects))
      then err (value_error "At most one incremental source object is supported per pipeline.")
      else check_sources p p.source_objects
