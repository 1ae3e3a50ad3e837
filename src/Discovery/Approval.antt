-- ===== src/Discovery/Approval.antt =====
-- app/domain/discovery/drift_approval_decision.py and drift_approval.py: the owner's decision on a
-- critical drift event.
pub mod Once
use clean_data_platform_airf.Prelude.{
  ℕ, String, Bool, true, false, not, Option, none, some, List, [], ◌∷◌, format, if◌then◌else◌,
}
use clean_data_platform_airf.Errors.{Result, ok, err, value_error, or_else}
use clean_data_platform_airf.Discovery.Drift.{DriftChangeType}

pub data DriftApprovalDecision : Type 0 where
  approved rejected pending : DriftApprovalDecision

pub record DriftApproval : Type 0 where
  pub id : String
  pub discovery_run_id : String
  pub asset_id : String
  pub object_id : String
  pub change_type : DriftChangeType
  pub severity_description : String
  pub field_name : Option String
  pub decision : DriftApprovalDecision
  pub decided_by : Option String
  pub decided_at : Option ℕ
  pub owner_notes : Option String
  pub updated_at : ℕ

abbrev pub repr : DriftApprovalDecision → String
repr approved = "<DriftApprovalDecision.APPROVED: 'approved'>"
repr rejected = "<DriftApprovalDecision.REJECTED: 'rejected'>"
repr pending = "<DriftApprovalDecision.PENDING: 'pending'>"

-- `decision == PENDING`
abbrev pub is_pending : DriftApprovalDecision → Bool
is_pending pending = true
is_pending _ = false

unfoldable pub approve : String → Option String → ℕ → ℕ → DriftApproval → Result DriftApproval
approve decided_by notes now touched a =
    if not (is_pending a.decision)
    then err (value_error (format ("DriftApproval already decided: " ∷ repr a.decision ∷ [])))
    else ok (record a {
      decision = approved;
      decided_by = some decided_by;
      decided_at = some now;
      owner_notes = notes;
      updated_at = touched;
    })

unfoldable pub reject : String → Option String → ℕ → ℕ → DriftApproval → Result DriftApproval
reject decided_by notes now touched a =
    if not (is_pending a.decision)
    then err (value_error (format ("DriftApproval already decided: " ∷ repr a.decision ∷ [])))
    else ok (record a {
      decision = rejected;
      decided_by = some decided_by;
      decided_at = some now;
      owner_notes = notes;
      updated_at = touched;
    })

-- An attempt to decide: which way, by whom, with which notes, and the two clock readings.
pub record Attempt : Type 0 where
  pub approves : Bool
  pub by : String
  pub notes : Option String
  pub now : ℕ
  pub touched : ℕ

unfoldable pub attempt : Attempt → DriftApproval → Result DriftApproval
unfolding approve reject
attempt t a =
    if t.approves
    then approve t.by t.notes t.now t.touched a
    else reject t.by t.notes t.now t.touched a

-- Attempts in turn; one that raises leaves the approval as it was.
unfoldable pub attempts : List Attempt → DriftApproval → DriftApproval
attempts [] a = a
attempts (t ∷ rest) a = attempts rest (or_else a (attempt t a))
