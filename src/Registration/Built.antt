-- ===== src/Registration/Built.antt =====
-- register_pipeline.py: what `execute` has checked before its transaction.
use clean_data_platform_airf.Prelude.{
  ◌≡◌, refl, String, true, Option, none, some, List, [], ◌∷◌, arith, All, is_text, inl, inr,
  Bool-cases,
}
use clean_data_platform_airf.Errors.{ok, ◌>>=◌, >>=-eq-ok}
use clean_data_platform_airf.Extraction.Json.{text, Fields}
use clean_data_platform_airf.Pipelines.Config.{validate_invariants}
use clean_data_platform_airf.Registration.Values.{Python, email_address, cron_schedule}
use clean_data_platform_airf.Registration.Members.{to_pipeline_type, cron}
use clean_data_platform_airf.Registration.Schedule.{ScheduleConfig, schedule_config}
use clean_data_platform_airf.Registration.Defaults.{PlatformDefaults}
use clean_data_platform_airf.Registration.Aggregate.{
  Pipeline, DestinationObjectConfig, new_pipeline, pipeline_config, render,
}
use clean_data_platform_airf.Registration.Normalizer.{
  Item, normalize_destination_objects, normalize_extraction, normalize_compute,
  normalize_quality_rules, normalize_airflow, keep_named,
}
use clean_data_platform_airf.Registration.Repository.Reading.{cron_of}
use clean_data_platform_airf.Registration.Repository.RoundTrip.{IsScheduled, IsBuilt}
use clean_data_platform_airf.Registration.UseCase.{
  trigger_schedule, Command, build_schedule_config, prepare, assembled,
}

module _ (py : Python) where
  email_address-ok : (s r : String) → email_address py s ≡ ok r → email_address py r ≡ ok r
  unfolding email_address
  email_address-ok s r h = ground arith

  cron_schedule-ok :
      (s r : String) → cron_schedule py s ≡ ok r → (r ≡ s) × (cron_schedule py r ≡ ok r)
  unfolding cron_schedule
  cron_schedule-ok s r h = ground arith

  schedule_config-ok :
      (s r : ScheduleConfig) → schedule_config s ≡ ok r → (r ≡ s) × (schedule_config r ≡ ok r)
  unfolding schedule_config
  schedule_config-ok s r h = ground arith

  cron_of-ok :
      (e c : String)
      → is_text e ≡ true
      → cron_schedule py e ≡ ok c
      → cron_of py (some c) ≡ ok (some c)
  cron_of-ok e c t h =
      let (same, valid) = cron_schedule-ok e c h in rw (same, t) (rw (← same) (rw valid refl))

  abbrev cron_config : String → ScheduleConfig
  cron_config c = record { mode = cron; cron_schedule = some c; depends_on = [] }

  cron_config-IsScheduled :
      (e : String) (s : ScheduleConfig)
      → is_text e ≡ true
      → (cron_schedule py e >>= λ c. schedule_config (cron_config c)) ≡ ok s
      → IsScheduled py s
  cron_config-IsScheduled e s t h =
      let (c, made, complete) =
        >>=-eq-ok (λ c. schedule_config (cron_config c)) (cron_schedule py e) h in
      let (same, valid) = schedule_config-ok (cron_config c) s complete in
      (rw same (cron_of-ok e c t made), valid)

  trigger_config-IsScheduled :
      (s r : ScheduleConfig) → s.cron_schedule ≡ none → schedule_config s ≡ ok r → IsScheduled py r
  trigger_config-IsScheduled s r e h =
      let (same, valid) = schedule_config-ok s r h in (rw (same, e) refl, valid)

  -- A schedule that the use case makes is complete, and its cron expression is valid.
  build_schedule_config-IsScheduled :
      (cmd : Command) (s : ScheduleConfig) → build_schedule_config py cmd ≡ ok s → IsScheduled py s
  unfolding build_schedule_config
  build_schedule_config-IsScheduled cmd s h = elim (Bool-cases (is_text cmd.cron_schedule)) [
    | inl e ↦ cron_config-IsScheduled cmd.cron_schedule s e (rw e at h)
    | inr e ↦ trigger_config-IsScheduled (trigger_schedule cmd.source_asset_name) s refl (rw e at h)
  ]

  keep_named-named :
      (name : Option String) (others : Fields) (os : List DestinationObjectConfig)
      → All (λ o. is_text o.object_name ≡ true) os
      → All (λ o. is_text o.object_name ≡ true) (keep_named py name others os)
  keep_named-named none others os h = h
  keep_named-named (some name) others os h = elim (Bool-cases (is_text name)) [
    | inl e ↦ rw e (e, h)
    | inr e ↦ rw e h
  ]

  normalize_destination_objects-named :
      (items : List Item)
      → All (λ o. is_text o.object_name ≡ true) (normalize_destination_objects py items)
  unfolding normalize_destination_objects
  normalize_destination_objects-named [] = tt
  normalize_destination_objects-named (item ∷ items) =
      keep_named-named item.object_name item.others (normalize_destination_objects py items)
        (normalize_destination_objects-named items)

  new_pipeline-ok :
      (p q : Pipeline) → new_pipeline py p ≡ ok q → (q ≡ p) × (new_pipeline py q ≡ ok q)
  unfolding new_pipeline
  new_pipeline-ok p q h =
      let (u, valid, same) =
        >>=-eq-ok _ (validate_invariants py.reads (render py) (pipeline_config py p)) h in
      let q_same : q ≡ p = ground arith in (q_same, rw q_same (rw valid refl))

module _ (py : Python) (d : PlatformDefaults) where
  -- A pipeline that the use case makes has passed the checks, and the name of the command.
  pub prepare-IsBuilt :
      (pipeline_id : String) (cmd : Command) (p : Pipeline)
      → prepare py d pipeline_id cmd ≡ ok p
      → IsBuilt py p × (p.name ≡ cmd.name) × (p.destination_asset_name ≡ cmd.destination_asset_name)
  unfolding prepare
  prepare-IsBuilt pipeline_id cmd p h =
      let (schedule, scheduled, h1) = >>=-eq-ok _ (build_schedule_config py cmd) h in
      let (sources, _, h2) = >>=-eq-ok _ (normalize_extraction d py cmd.source_objects) h1 in
      let (t, _, h3) = >>=-eq-ok _ (to_pipeline_type py (text cmd.pipeline_type)) h2 in
      let (owner, owned, h4) = >>=-eq-ok _ (email_address py cmd.owner_email) h3 in
      let (compute, _, h5) = >>=-eq-ok _ (normalize_compute d py cmd.compute) h4 in
      let (rules, _, h6) = >>=-eq-ok _ (normalize_quality_rules py cmd.quality_rules) h5 in
      let (airflow, _, h7) = >>=-eq-ok _ (normalize_airflow d py cmd.airflow_config) h6 in
      let (same, valid) =
        new_pipeline-ok py
          (assembled py pipeline_id cmd schedule sources t owner compute rules airflow) p h7 in
      (
        (
          rw same (email_address-ok py cmd.owner_email owner owned),
          rw same (build_schedule_config-IsScheduled py cmd schedule scheduled),
          rw same (normalize_destination_objects-named py cmd.destination_objects),
          valid,
        ),
        rw same refl,
        rw same refl,
      )
