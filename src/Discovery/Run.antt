-- ===== src/Discovery/Run.antt =====
-- app/domain/discovery/discovery_run_status.py and discovery_run.py: one execution of discovery. A
-- method that raises does so before it writes, so it returns a new run or an error. The clock is
-- read by the caller: `now` for the field that a method stamps, `touched` for `updated_at`.
pub mod Lifecycle
pub mod Events
use clean_data_platform_airf.Prelude.{
  ℕ, ◌+◌, String, Bool, true, false, not, Option, none, some, List, [], ◌∷◌, length, filter, any,
  non_empty, format, if◌then◌else◌,
}
use clean_data_platform_airf.Prelude.Dict.{Dict}
use clean_data_platform_airf.Errors.{Result, ok, err, value_error, or_else}
use clean_data_platform_airf.Discovery.Schema.{SchemaSnapshot}
use clean_data_platform_airf.Discovery.Drift.{DriftEvent, is_critical}
use clean_data_platform_airf.Discovery.Tags.{PolicyTagSuggestion}

pub data DiscoveryRunStatus : Type 0 where
  pending running completed failed partial : DiscoveryRunStatus

pub record DiscoveryRun : Type 0 where
  pub id : String
  pub asset_id : String
  pub triggered_by : String
  pub status : DiscoveryRunStatus
  pub started_at : Option ℕ
  pub completed_at : Option ℕ
  pub error_message : Option String
  pub snapshots : List SchemaSnapshot
  pub drift_events : List DriftEvent
  pub policy_tag_suggestions : List PolicyTagSuggestion
  pub auto_generated_descriptions : Dict String
  pub objects_discovered : ℕ
  pub fields_discovered : ℕ
  pub soft_failures : List String
  pub updated_at : ℕ

-- `DiscoveryRun(id=..., asset_id=..., triggered_by=...)`
abbrev pub new_run : String → String → String → ℕ → DiscoveryRun
new_run id asset_id triggered_by now = record {
  id = id;
  asset_id = asset_id;
  triggered_by = triggered_by;
  status = pending;
  started_at = none;
  completed_at = none;
  error_message = none;
  snapshots = [];
  drift_events = [];
  policy_tag_suggestions = [];
  auto_generated_descriptions = [];
  objects_discovered = 0;
  fields_discovered = 0;
  soft_failures = [];
  updated_at = now;
}

-- `repr(status)`
abbrev pub repr : DiscoveryRunStatus → String
repr pending = "<DiscoveryRunStatus.PENDING: 'pending'>"
repr running = "<DiscoveryRunStatus.RUNNING: 'running'>"
repr completed = "<DiscoveryRunStatus.COMPLETED: 'completed'>"
repr failed = "<DiscoveryRunStatus.FAILED: 'failed'>"
repr partial = "<DiscoveryRunStatus.PARTIAL: 'partial'>"

abbrev pub is_pending : DiscoveryRunStatus → Bool
is_pending pending = true
is_pending _ = false

abbrev pub is_running : DiscoveryRunStatus → Bool
is_running running = true
is_running _ = false

unfoldable pub start : ℕ → ℕ → DiscoveryRun → Result DiscoveryRun
start now touched r =
    if not (is_pending r.status)
    then err (value_error (format ("Cannot start a run in status=" ∷ repr r.status ∷ [])))
    else ok (record r { status = running; started_at = some now; updated_at = touched })

-- `sum(len(s.fields) for s in snapshots)`
abbrev pub count_fields : List SchemaSnapshot → ℕ
count_fields [] = 0
count_fields (s ∷ rest) = length s.fields + count_fields rest

-- What a runner found, as `complete` takes it; `soft_failures=None` is the empty list.
pub record Findings : Type 0 where
  pub snapshots : List SchemaSnapshot
  pub drift_events : List DriftEvent
  pub policy_tag_suggestions : List PolicyTagSuggestion
  pub auto_generated_descriptions : Dict String
  pub soft_failures : List String

unfoldable pub complete : Findings → ℕ → ℕ → DiscoveryRun → Result DiscoveryRun
complete f now touched r =
    if not (is_running r.status)
    then err (value_error (format ("Cannot complete a run in status=" ∷ repr r.status ∷ [])))
    else ok (record r {
      snapshots = f.snapshots;
      drift_events = f.drift_events;
      policy_tag_suggestions = f.policy_tag_suggestions;
      auto_generated_descriptions = f.auto_generated_descriptions;
      soft_failures = f.soft_failures;
      objects_discovered = length f.snapshots;
      fields_discovered = count_fields f.snapshots;
      completed_at = some now;
      status = if non_empty f.soft_failures then partial else completed;
      updated_at = touched;
    })

unfoldable pub fail : String → ℕ → ℕ → DiscoveryRun → Result DiscoveryRun
fail error_message now touched r =
    if not (is_running r.status)
    then err (value_error (format ("Cannot fail a run in status=" ∷ repr r.status ∷ [])))
    else ok (record r {
      status = failed;
      error_message = some error_message;
      completed_at = some now;
      updated_at = touched;
    })

unfoldable pub has_critical_drift : DiscoveryRun → Bool
has_critical_drift r = any is_critical r.drift_events

unfoldable pub critical_events : DiscoveryRun → List DriftEvent
critical_events r = filter is_critical r.drift_events

unfoldable pub informative_events : DiscoveryRun → List DriftEvent
informative_events r = filter (λ e. not (is_critical e)) r.drift_events

unfoldable pub is_terminal : DiscoveryRunStatus → Bool
is_terminal completed = true
is_terminal failed = true
is_terminal partial = true
is_terminal _ = false

-- A call on a run, with its two clock readings.
pub data Call : Type 0 where
  call_start : ℕ → ℕ → Call
  call_complete : Findings → ℕ → ℕ → Call
  call_fail : String → ℕ → ℕ → Call

unfoldable pub apply_call : Call → DiscoveryRun → Result DiscoveryRun
unfolding start complete fail
apply_call (call_start now touched) r = start now touched r
apply_call (call_complete f now touched) r = complete f now touched r
apply_call (call_fail message now touched) r = fail message now touched r

-- Calls in turn on one run; a call that raises leaves it as it was.
unfoldable pub run_calls : List Call → DiscoveryRun → DiscoveryRun
run_calls [] r = r
run_calls (c ∷ rest) r = run_calls rest (or_else r (apply_call c r))
