-- ===== src/Pipelines/Config/Invariants.antt =====
-- pipeline.py: what a pipeline that exists satisfies.
use clean_data_platform_airf.Prelude.{
  ℕ, ◌≤◌, ◌≡◌, String, Bool, true, not, ◌&&◌, ◌||◌, Option, none, some, List, [], ◌∷◌, leb, arith,
  filter, length, strip, is_text, is_some, All,
}
use clean_data_platform_airf.Errors.{ok, >>=-eq-ok}
use clean_data_platform_airf.Pipelines.Watermark.{WatermarkType}
use clean_data_platform_airf.Pipelines.Config.{
  PipelineConfig, ExtractionConfig, SensorConfig, is_incremental, is_dataflow, has_text,
  check_incremental, check_sensor, check_source, check_sources, validate_invariants,
}

abbrev pub sensor_fits : ℕ → Option SensorConfig → Bool
sensor_fits limit none = true
sensor_fits limit (some sensor) = leb sensor.timeout_minutes limit

-- An incremental source has a watermark column with a type, and no Dataflow engine; and a sensor
-- waits no longer than the pipeline may run.
abbrev pub source_is_sound : PipelineConfig → ExtractionConfig → Bool
source_is_sound p s =
    (not (is_incremental s)
      || has_text s.watermark_column && is_some s.watermark_type && not (is_dataflow p.engine))
    && sensor_fits p.execution_timeout_minutes s.sensor

module _ (reads : WatermarkType → String → Bool) (render : ℕ → String) where
  check_source_sound :
      (p : PipelineConfig) (s : ExtractionConfig)
      → check_source reads render p s ≡ ok tt
      → source_is_sound p s ≡ true
  unfolding check_source check_incremental check_sensor
  check_source_sound p s h = ground arith

  check_sources_sound :
      (p : PipelineConfig) (ss : List ExtractionConfig)
      → check_sources reads render p ss ≡ ok tt
      → All (λ s. source_is_sound p s ≡ true) ss
  unfolding check_sources
  check_sources_sound p [] h = tt
  check_sources_sound p (s ∷ ss) h =
      let (u, first, rest) = >>=-eq-ok _ (check_source reads render p s) h in
      (check_source_sound p s first, check_sources_sound p ss rest)

  -- A pipeline whose invariants hold has a name that is not blank and at most one incremental
  -- source; each incremental source has a watermark column and type and does not run on Dataflow;
  -- and no sensor waits longer than the pipeline may run.
  pub validate_invariants_sound :
      (p : PipelineConfig)
      → validate_invariants reads render p ≡ ok tt
      → (is_text (strip p.name) ≡ true)
        × (length (filter is_incremental p.source_objects) ≤ 1)
        × All (λ s. source_is_sound p s ≡ true) p.source_objects
  unfolding validate_invariants
  validate_invariants_sound p h =
      (ground arith, ground arith, check_sources_sound p p.source_objects (ground arith))
