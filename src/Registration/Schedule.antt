-- ===== src/Registration/Schedule.antt =====
-- app/domain/pipelines/schedule_config.py and pipeline_dependency.py: when a pipeline runs.
use clean_data_platform_airf.Prelude.{
  String, Bool, not, Option, List, if◌then◌else◌, is_some, non_empty,
}
use clean_data_platform_airf.Errors.{Result, ok, err, value_error}
use clean_data_platform_airf.Registration.Members.{ScheduleMode, cron, trigger, trigger_with_gate}

pub data DependencyType : Type 0 where
  dataset external_event manual : DependencyType

pub record PipelineDependency : Type 0 where
  pub pipeline_id : String
  pub require_same_day : Bool
  pub dependency_type : DependencyType

-- The cron expression is the text of a `CronSchedule`.
pub record ScheduleConfig : Type 0 where
  pub mode : ScheduleMode
  pub cron_schedule : Option String
  pub depends_on : List PipelineDependency

-- `ScheduleConfig.__post_init__`
unfoldable pub schedule_config : ScheduleConfig → Result ScheduleConfig
schedule_config s = elim s.mode [
  | cron ↦
      if is_some s.cron_schedule
      then ok s
      else err (value_error "ScheduleConfig(mode='cron') requires cron_schedule")
  | trigger ↦
      if non_empty s.depends_on
      then ok s
      else err (value_error "ScheduleConfig(mode='trigger') requires at least one depends_on entry")
  | trigger_with_gate ↦
      if not (is_some s.cron_schedule)
      then err (value_error "ScheduleConfig(mode='trigger_with_gate') requires cron_schedule")
      else if non_empty s.depends_on
      then ok s
      else err (
          value_error
            "ScheduleConfig(mode='trigger_with_gate') requires at least one depends_on entry")
]
