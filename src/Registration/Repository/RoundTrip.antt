-- ===== src/Registration/Repository/RoundTrip.antt =====
-- sql_pipeline_repository.py: what of a pipeline comes back from its row.
use clean_data_platform_airf.Prelude.{
  suc, true, ◌≡◌, refl, none, List, [], ◌∷◌, map, arith, All, filter, length, is_text, non_empty,
  Bool-cases, inl, inr, ap, ◌∙◌,
}
use clean_data_platform_airf.Errors.{ok, >>=-eq-ok}
use clean_data_platform_airf.Registration.Repository.{DependencyRow}
use clean_data_platform_airf.Pipelines.Config
use clean_data_platform_airf.Pipelines.Config.{
  PipelineConfig, is_incremental, check_source, check_sources, check_sensor, check_incremental,
  validate_invariants, full_load, incremental, cdc,
}
use clean_data_platform_airf.Registration.Values.{Python, email_address}
use clean_data_platform_airf.Registration.Members.{to_pipeline_type-value, to_schedule_mode-value}
use clean_data_platform_airf.Registration.Schedule.{
  ScheduleConfig, PipelineDependency, dataset, schedule_config,
}
use clean_data_platform_airf.Registration.Aggregate.{
  Pipeline, ExtractionConfig, no_transform, default_discovery_task, new_pipeline, source_config,
  pipeline_config, render,
}
use clean_data_platform_airf.Registration.Repository.{to_model, schedule_row, dependency_row}
use clean_data_platform_airf.Registration.Repository.Reading.{
  to_domain, build_schedule, cron_of, dependency_of,
}
use clean_data_platform_airf.Registration.Repository.Columns.{
  without_sensor, normalize_extraction-items, normalize_compute-fields,
  normalize_quality_rules-fields, normalize_destination_objects-items,
}

abbrev pub on_dataset : PipelineDependency → PipelineDependency
on_dataset d = record d { dependency_type = dataset }

abbrev pub restored_schedule : ScheduleConfig → ScheduleConfig
restored_schedule s = record s { depends_on = map {A = PipelineDependency} on_dataset s.depends_on }

-- What a row keeps of a pipeline: all but the sensors, the transformation, the discovery task and
-- the types of the dependencies.
abbrev pub restored : Pipeline → Pipeline
restored p = record p {
  schedule = restored_schedule p.schedule;
  source_objects = map {A = ExtractionConfig} without_sensor p.source_objects;
  transform = no_transform;
  discovery_task = default_discovery_task;
}

module _ (py : Python) where
  -- The schedule is a cron expression that croniter takes, if there is one, and is complete.
  abbrev pub IsScheduled : ScheduleConfig → Type 0
  IsScheduled s = (cron_of py s.cron_schedule ≡ ok s.cron_schedule) × (schedule_config s ≡ ok s)

  schedule_config-with :
      (s : ScheduleConfig) (ds : List PipelineDependency)
      → non_empty ds ≡ non_empty s.depends_on
      → schedule_config s ≡ ok s
      → schedule_config (record s { depends_on = ds }) ≡ ok (record s { depends_on = ds })
  unfolding schedule_config
  schedule_config-with s ds e h = ground arith

  non_empty-restored :
      (ds : List PipelineDependency)
      → non_empty (map {A = PipelineDependency} on_dataset ds) ≡ non_empty ds
  non_empty-restored [] = refl
  non_empty-restored (d ∷ ds) = refl

  depends_on-restored :
      (ds : List PipelineDependency)
      → map {A = DependencyRow} dependency_of (map {A = PipelineDependency} dependency_row ds)
        ≡ map {A = PipelineDependency} on_dataset ds
  depends_on-restored [] = refl
  depends_on-restored (d ∷ ds) = rw (depends_on-restored ds) refl

  build_schedule-row :
      (s : ScheduleConfig)
      → IsScheduled s
      → build_schedule py (schedule_row s) ≡ ok (restored_schedule s)
  unfolding build_schedule
  build_schedule-row s h = rw (to_schedule_mode-value py s.mode) (
      rw h.0 (
        ap (λ (ds : List PipelineDependency). schedule_config (record s { depends_on = ds }))
          (depends_on-restored s.depends_on)
        ∙ schedule_config-with s (map {A = PipelineDependency} on_dataset s.depends_on)
            (non_empty-restored s.depends_on) h.1))

  -- A pipeline's other sources play no part in the check of one.
  check_source-without_sensor :
      (p : PipelineConfig) (qs : List Config.ExtractionConfig) (s : Config.ExtractionConfig)
      → check_source py.reads (render py) p s ≡ ok tt
      → check_source py.reads
          (render py)
          (record p { source_objects = qs })
          (record s { sensor = none })
        ≡ ok tt
  unfolding check_source check_sensor check_incremental
  check_source-without_sensor p qs s h = ground arith

  check_sources-without_sensor :
      (p : PipelineConfig) (qs : List Config.ExtractionConfig) (ss : List ExtractionConfig)
      → check_sources py.reads (render py) p (map {A = ExtractionConfig} (source_config py) ss)
        ≡ ok tt
      → check_sources py.reads
          (render py)
          (record p { source_objects = qs })
          (map {A = ExtractionConfig}
            (source_config py)
            (map {A = ExtractionConfig} without_sensor ss))
        ≡ ok tt
  unfolding check_sources
  check_sources-without_sensor p qs [] h = refl
  check_sources-without_sensor p qs (s ∷ ss) h =
      let (u, first, rest) =
        >>=-eq-ok _ (check_source py.reads (render py) p (source_config py s)) h in
      rw (check_source-without_sensor p qs (source_config py s) first)
        (check_sources-without_sensor p qs ss rest)

  incremental-without_sensor :
      (ss : List ExtractionConfig)
      → length (
          filter is_incremental (
            map {A = ExtractionConfig}
              (source_config py)
              (map {A = ExtractionConfig} without_sensor ss)))
        ≡ length (filter is_incremental (map {A = ExtractionConfig} (source_config py) ss))
  incremental-without_sensor [] = refl
  incremental-without_sensor (s ∷ ss) = elim (Bool-cases (is_incremental (source_config py s))) [
    | inl h ↦ rw h (ap suc (incremental-without_sensor ss))
    | inr h ↦ rw h (incremental-without_sensor ss)
  ]

  validate_invariants-restored :
      (p : Pipeline)
      → validate_invariants py.reads (render py) (pipeline_config py p) ≡ ok tt
      → validate_invariants py.reads (render py) (pipeline_config py (restored p)) ≡ ok tt
  unfolding validate_invariants
  validate_invariants-restored p h = rw (incremental-without_sensor p.source_objects) (
      ground (
        arith,
        check_sources-without_sensor (pipeline_config py p)
            (map {A = ExtractionConfig} (source_config py)
              (map {A = ExtractionConfig} without_sensor p.source_objects))
            p.source_objects,
      ))

  new_pipeline-restored :
      (p : Pipeline) → new_pipeline py p ≡ ok p → new_pipeline py (restored p) ≡ ok (restored p)
  unfolding new_pipeline
  new_pipeline-restored p h =
      let (u, valid, _) =
        >>=-eq-ok _ (validate_invariants py.reads (render py) (pipeline_config py p)) h in
      rw (validate_invariants-restored p valid) refl

  -- What the code has checked when it made the pipeline.
  abbrev pub IsBuilt : Pipeline → Type 0
  IsBuilt p =
      (email_address py p.owner ≡ ok p.owner)
      × IsScheduled p.schedule
      × All (λ o. is_text o.object_name ≡ true) p.destination_objects
      × (new_pipeline py p ≡ ok p)

  -- A pipeline with a valid owner and schedule, named destinations and invariants that hold is read
  -- back from its row as it was, but without sensors, transformation and discovery task, and with
  -- every dependency on a dataset.
  pub to_domain-to_model : (p : Pipeline) → IsBuilt p → to_domain py (to_model p) ≡ ok (restored p)
  unfolding to_domain to_model
  to_domain-to_model p h = rw (to_pipeline_type-value py p.type_) (
      rw h.0 (
        rw (build_schedule-row p.schedule h.1) (
          rw (normalize_extraction-items py p.source_objects) (
            rw (normalize_compute-fields py p.compute) (
              rw (normalize_quality_rules-fields py p.quality_rules) (
                rw (normalize_destination_objects-items py p.destination_objects h.2)
                  (new_pipeline-restored p h.3)))))))
