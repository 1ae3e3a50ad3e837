-- ===== src/Discovery/Execution.antt =====
-- app/application/discovery/run_discovery_use_case.py over sql_discovery_run_repository.py: one
-- discovery of an asset, in one transaction. Ports are what makes a runner and what the runner
-- finds, both of which may raise, and the uuids. The variable `run` of `execute` is the variable of
-- the unit of work's actions. Logging is left out. A saved run reads back as it was stored.
pub mod UseCase
pub mod Outcome
mod Tests
use clean_data_platform_airf.Prelude.{
  ℕ, String, Bool, true, false, ◌&&◌, Option, none, some, List, [], ◌∷◌, ◌==◌, if◌then◌else◌,
  is_text, ltb, non_empty, format,
}
use clean_data_platform_airf.Prelude.Dict.{Dict, dict_by}
use clean_data_platform_airf.Errors.{
  PlatformError, Result, ok, err, ◌>>=◌, not_found_error, validation_error, key_error, message,
}
use clean_data_platform_airf.Persistence.UnitOfWork.{
  Uow, Action, and_then, lift, query, execute, assign, commit, within,
}
use clean_data_platform_airf.Persistence.Endpoints.{Endpoint, find_endpoint}
use clean_data_platform_airf.Assets.Asset.{DataAsset}
use clean_data_platform_airf.Assets.Table.{Table, find_by_id, find_by_name}
use clean_data_platform_airf.Objects.Element.{DataObject}
use clean_data_platform_airf.Objects.Repository.{find_by_asset_id}
use clean_data_platform_airf.Discovery.Schema.{SchemaSnapshot}
use clean_data_platform_airf.Discovery.Drift.{DriftEvent}
use clean_data_platform_airf.Discovery.Tags.{PolicyTagSuggestion}
use clean_data_platform_airf.Discovery.Run.{
  DiscoveryRun, DiscoveryRunStatus, completed, partial, new_run, start, complete, fail, Findings,
}
use clean_data_platform_airf.Discovery.Service.{compute_drifts_and_tags}
use clean_data_platform_airf.Discovery.Healing.{Store, apply_self_healing_and_approvals}
use clean_data_platform_airf.Discovery.Provisioning.{provision_missing_objects}

-- The tables that the use case reads and writes.
pub record Tables : Type 0 where
  pub assets : Table
  pub endpoints : List Endpoint
  pub store : Store

abbrev pub Runner : Type 0
Runner = String → List String → List String → Endpoint → Result (List SchemaSnapshot)

pub record Ports : Type 0 where
  pub create : Endpoint → Result Runner
  pub new_id : ℕ → String
  pub new_object_id : ℕ → String
  pub new_approval_id : ℕ → String

-- The arguments, with the uuid of the run and the clock readings of the execution.
pub record Request : Type 0 where
  pub asset_id : Option String
  pub triggered_by : String
  pub asset_name : Option String
  pub run_id : String
  pub started_at : ℕ
  pub completed_at : ℕ
  pub failed_at : ℕ

-- `SqlDiscoveryRunRepository.save`: the row of an id is written, or added.
unfoldable pub save_run : DiscoveryRun → List DiscoveryRun → List DiscoveryRun
save_run run [] = run ∷ []
save_run run (row ∷ rows) = if row.id == run.id then run ∷ rows else row ∷ save_run run rows

-- `status.in_(["completed", "partial"])`
abbrev pub is_baseline : DiscoveryRunStatus → Bool
is_baseline completed = true
is_baseline partial = true
is_baseline _ = false

-- Whether the first time is before the second; PostgreSQL sorts a missing time after all others.
abbrev pub is_before : Option ℕ → Option ℕ → Bool
is_before none _ = false
is_before (some a) none = true
is_before (some a) (some b) = ltb a b

abbrev pub later_run : DiscoveryRun → Option DiscoveryRun → DiscoveryRun
later_run row none = row
later_run row (some other) = if is_before row.completed_at other.completed_at then other else row

-- `find_latest_by_asset_id`; of rows with the same time the first one in the table is taken.
unfoldable pub find_latest_by_asset_id : String → List DiscoveryRun → Option DiscoveryRun
find_latest_by_asset_id asset_id [] = none
find_latest_by_asset_id asset_id (row ∷ rows) =
    let rest = find_latest_by_asset_id asset_id rows in
    if row.asset_id == asset_id && is_baseline row.status then some (later_run row rest) else rest

abbrev given : Option String → Option String
given none = none
given (some s) = if is_text s then some s else none

abbrev found_or : String → String → Option DataAsset → Result DataAsset
found_or what i none = err (not_found_error (format (what ∷ i ∷ [])))
found_or what i (some a) = ok a

-- The asset, by its name if one is given, else by its id.
unfoldable pub requested_asset : Request → Table → Result DataAsset
unfolding find_by_id find_by_name
requested_asset q assets = elim (given q.asset_name) [
  | some name ↦ found_or "Asset not found: " name (find_by_name name assets)
  | none ↦ elim (given q.asset_id) [
    | some i ↦ found_or "Asset not found: " i (find_by_id i assets)
    | none ↦ err (validation_error "Either asset_id or asset_name must be provided")
  ]
]

-- `_validate_asset`
unfoldable pub validate_asset : DataAsset → Result String
validate_asset a = elim (given a.endpoint_id) [
  | none ↦ err (validation_error (format ("Asset has no endpoint: " ∷ a.id ∷ [])))
  | some endpoint_id ↦ ok endpoint_id
]

abbrev found_endpoint : String → Option Endpoint → Result Endpoint
found_endpoint i none = err (not_found_error (format ("Endpoint not found: " ∷ i ∷ [])))
found_endpoint i (some e) = ok e

-- What the first part of `execute` reads and makes.
pub record Job : Type 0 where
  pub asset : DataAsset
  pub endpoint : Endpoint
  pub objects : List DataObject
  pub run : DiscoveryRun

-- Up to `run.start()`
unfoldable pub initialize : Request → Tables → Result Job
unfolding requested_asset validate_asset find_endpoint find_by_asset_id start
initialize q t = do
  asset ← requested_asset q t.assets
  endpoint_id ← validate_asset asset
  endpoint ← found_endpoint endpoint_id (find_endpoint endpoint_id t.endpoints)
  run ← start q.started_at q.started_at (new_run q.run_id asset.id q.triggered_by q.started_at)
  ok (record {
    asset = asset;
    endpoint = endpoint;
    objects = find_by_asset_id asset.id t.store.objects;
    run = run;
  })

-- `await uow.discovery_runs.save(run)`
abbrev pub save_in : DiscoveryRun → Tables → Tables
save_in run t = record t { store = record t.store { runs = save_run run t.store.runs } }

abbrev or_all : List String → List String
or_all [] = "*" ∷ []
or_all (s ∷ scope) = s ∷ scope

-- The runner on the asset's scope.
unfoldable pub extract : Ports → Job → Result (List SchemaSnapshot)
extract ports job = do
  runner ← ports.create job.endpoint
  runner job.asset.id (or_all job.asset.discovery_scope.include) job.asset.discovery_scope.exclude
      job.endpoint

-- `provision_missing_objects`, on the tables.
unfoldable pub provision :
    Ports → Job → List SchemaSnapshot → Tables → Result (Tables × List SchemaSnapshot)
unfolding provision_missing_objects
provision ports job snapshots t = do
  (objects, updated) ←
      provision_missing_objects ports.new_id ports.new_object_id job.asset.id snapshots job.objects
        t.store.objects
  ok (record t { store = record t.store { objects = objects } }, updated)

abbrev snapshots_of : Option DiscoveryRun → List SchemaSnapshot
snapshots_of none = []
snapshots_of (some run) = run.snapshots

-- The snapshots of the latest run before, by object.
unfoldable pub baseline : Job → Tables → Dict SchemaSnapshot
unfolding find_latest_by_asset_id
baseline job t =
    dict_by (λ s. s.object_id) (snapshots_of (find_latest_by_asset_id job.asset.id t.store.runs))

-- What `run.complete` takes.
unfoldable pub findings : Dict SchemaSnapshot → List SchemaSnapshot → Findings
unfolding compute_drifts_and_tags
findings prev snapshots =
    let (events, suggestions) = compute_drifts_and_tags prev snapshots in
    record {
      snapshots = snapshots;
      drift_events = events;
      policy_tag_suggestions = suggestions;
      auto_generated_descriptions = [];
      soft_failures = [];
    }

-- `apply_self_healing_and_approvals`, on the tables.
unfoldable pub heal :
    Ports → Request → Job → Findings → Dict SchemaSnapshot → Tables → Result Tables
unfolding apply_self_healing_and_approvals
heal ports q job f prev t = do
  store ←
      apply_self_healing_and_approvals ports.new_id ports.new_approval_id q.completed_at
        job.asset.id job.run.id f.snapshots f.drift_events prev t.store
  ok (record t { store = store })
