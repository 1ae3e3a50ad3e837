-- ===== src/Discovery/Healing.antt =====
-- app/application/discovery/metadata_self_healing_service.py and approve_drift_use_case.py: what a
-- discovery changes by itself, and what waits for a decision. `new_id` and `new_approval_id` give
-- the uuids of new elements and approvals; an exception rolls everything back.
pub mod Waiting
use clean_data_platform_airf.Prelude.{
  ℕ, ◌≡◌, refl, String, Bool, true, false, not, ◌||◌, Option, none, some, List, [], ◌∷◌, ◌==◌,
  if◌then◌else◌, format, filter, non_empty, length, arith,
}
use clean_data_platform_airf.Prelude.Dict.{Dict}
use clean_data_platform_airf.Errors.{Result, ok, err, not_found_error, ◌>>=◌}
use clean_data_platform_airf.Discovery.Schema.{SchemaSnapshot}
use clean_data_platform_airf.Discovery.Drift.{DriftEvent, is_critical}
use clean_data_platform_airf.Discovery.Run.{DiscoveryRun}
use clean_data_platform_airf.Discovery.Approval.{DriftApproval, pending, approve, reject}
use clean_data_platform_airf.Objects.Service.{Objects, apply_schema_snapshot}

pub record Store : Type 0 where
  pub objects : Objects
  pub approvals : List DriftApproval
  pub runs : List DiscoveryRun

-- The repository of approvals: `save` writes the row of an id, or adds one.
unfoldable pub save_approval : DriftApproval → List DriftApproval → List DriftApproval
save_approval a [] = a ∷ []
save_approval a (row ∷ rows) = if row.id == a.id then a ∷ rows else row ∷ save_approval a rows

unfoldable pub find_approval : String → List DriftApproval → Option DriftApproval
find_approval i [] = none
find_approval i (row ∷ rows) = if row.id == i then some row else find_approval i rows

unfoldable pub find_run : String → List DiscoveryRun → Option DiscoveryRun
find_run i [] = none
find_run i (row ∷ rows) = if row.id == i then some row else find_run i rows

abbrev pub approval_of : String → String → String → String → ℕ → DriftEvent → DriftApproval
approval_of new_id asset_id run_id object_id now e = record {
  id = new_id;
  discovery_run_id = run_id;
  asset_id = asset_id;
  object_id = object_id;
  change_type = e.change_type;
  severity_description = e.description;
  field_name = e.field_name;
  decision = pending;
  decided_by = none;
  decided_at = none;
  owner_notes = none;
  updated_at = now;
}

abbrev pub new_approvals :
    (ℕ → String)
    → String
    → String
    → String
    → ℕ
    → List DriftEvent
    → List DriftApproval
    → List DriftApproval
new_approvals new_approval_id asset_id run_id object_id now [] rows = rows
new_approvals new_approval_id asset_id run_id object_id now (e ∷ rest) rows =
    new_approvals new_approval_id asset_id run_id object_id now rest (
      save_approval (approval_of (new_approval_id (length rows)) asset_id run_id object_id now e)
        rows)

abbrev pub events_of : SchemaSnapshot → List DriftEvent → List DriftEvent
events_of snap events = filter (λ e. e.object_id == snap.object_id) events

module _ (new_id new_approval_id : ℕ → String) (now : ℕ) where
  -- `if informative_events or not prev_snapshots: apply_schema_snapshot`
  unfoldable pub heal_object : Bool → SchemaSnapshot → Objects → Result Objects
  heal_object heals snap objects =
      if heals
      then (apply_schema_snapshot new_id snap.object_id snap objects >>= λ done. ok done.0)
      else ok objects

  -- `apply_self_healing_and_approvals`
  unfoldable pub apply_self_healing_and_approvals :
      String
      → String
      → List SchemaSnapshot
      → List DriftEvent
      → Dict SchemaSnapshot
      → Store
      → Result Store
  unfolding heal_object save_approval
  apply_self_healing_and_approvals asset_id run_id [] events prev_snapshots s = ok s
  apply_self_healing_and_approvals asset_id run_id (snap ∷ rest) events prev_snapshots s = do
    let obj_events = events_of snap events
    let informative_events = filter (λ e. not (is_critical e)) obj_events
    objects ←
        heal_object (non_empty informative_events || not (non_empty prev_snapshots)) snap s.objects
    apply_self_healing_and_approvals asset_id run_id rest events prev_snapshots (record s {
      objects = objects;
      approvals =
          new_approvals new_approval_id asset_id run_id snap.object_id now
            (filter is_critical obj_events) s.approvals;
    })

  abbrev pub found_approval : String → List DriftApproval → Result DriftApproval
  found_approval i rows = elim (find_approval i rows) [
    | none ↦ err (not_found_error (format ("DriftApproval not found: " ∷ i ∷ [])))
    | some a ↦ ok a
  ]

  -- `next((s for s in run.snapshots if s.object_id == object_id), None)`
  abbrev pub first_snapshot : String → List SchemaSnapshot → Option SchemaSnapshot
  first_snapshot i [] = none
  first_snapshot i (s ∷ rest) = if s.object_id == i then some s else first_snapshot i rest

  abbrev pub snapshot_in : String → Option DiscoveryRun → Option SchemaSnapshot
  snapshot_in i none = none
  snapshot_in i (some run) = first_snapshot i run.snapshots

  -- `_apply_approved_schema`
  unfoldable pub apply_approved_schema : DriftApproval → Store → Result Store
  unfolding find_run
  apply_approved_schema a s = elim (snapshot_in a.object_id (find_run a.discovery_run_id s.runs)) [
    | none ↦ ok s
    | some snap ↦ do
      done ← apply_schema_snapshot new_id a.object_id snap s.objects
      ok (record s { objects = done.0 })
  ]

  -- `ApproveDriftUseCase.approve`
  unfoldable pub approve_drift :
      String → String → Option String → ℕ → Store → Result (Store × DriftApproval)
  approve_drift approval_id decided_by notes touched s = do
    found ← found_approval approval_id s.approvals
    approval ← approve decided_by notes now touched found
    s' ←
        apply_approved_schema approval (record s { approvals = save_approval approval s.approvals })
    ok (s', approval)

  -- `ApproveDriftUseCase.reject`
  unfoldable pub reject_drift :
      String → String → Option String → ℕ → Store → Result (Store × DriftApproval)
  reject_drift approval_id decided_by notes touched s = do
    found ← found_approval approval_id s.approvals
    approval ← reject decided_by notes now touched found
    ok (record s { approvals = save_approval approval s.approvals }, approval)

  -- A rejection that returns leaves every object and element as it was.
  pub reject_drift_keeps_objects :
      (approval_id by : String) (notes : Option String) (touched : ℕ) (s s' : Store)
      (a : DriftApproval)
      → reject_drift approval_id by notes touched s ≡ ok (s', a)
      → (s'.objects ≡ s.objects) × (s'.approvals ≡ save_approval a s.approvals)
  unfolding reject_drift
  reject_drift_keeps_objects approval_id by notes touched s s' a h = (ground arith, ground arith)
