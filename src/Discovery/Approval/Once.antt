-- ===== src/Discovery/Approval/Once.antt =====
-- drift_approval.py: a decision is taken once.
use clean_data_platform_airf.Prelude.{
  ◌≡◌, refl, true, false, some, List, [], ◌∷◌, arith, if◌then◌else◌,
}
use clean_data_platform_airf.Errors.{or_else}
use clean_data_platform_airf.Discovery.Approval.{
  DriftApproval, approved, rejected, is_pending, Attempt, attempt, attempts,
}

decided_keeps :
    (t : Attempt) (a : DriftApproval) → is_pending a.decision ≡ false → or_else a (attempt t a) ≡ a
unfolding attempt
decided_keeps t a h = ground arith

attempts_decided :
    (ts : List Attempt) (a : DriftApproval) → is_pending a.decision ≡ false → attempts ts a ≡ a
unfolding attempts
attempts_decided [] a h = refl
attempts_decided (t ∷ ts) a h = rw (decided_keeps t a h) (attempts_decided ts a h)

-- The approval as the attempt `t` leaves it.
abbrev pub decided : Attempt → DriftApproval → DriftApproval
decided t a = record a {
  decision = if t.approves then approved else rejected;
  decided_by = some t.by;
  decided_at = some t.now;
  owner_notes = t.notes;
  updated_at = t.touched;
}

first_attempt :
    (t : Attempt) (a : DriftApproval)
    → is_pending a.decision ≡ true
    → or_else a (attempt t a) ≡ decided t a
unfolding attempt
first_attempt t a h = ground arith

not_pending : (t : Attempt) (a : DriftApproval) → is_pending (decided t a).decision ≡ false
not_pending t a = ground arith

-- Of any attempts to approve or reject a pending approval the first one stands, with its author,
-- time and notes, and the later ones change nothing.
first_attempt_stands :
    (t : Attempt) (ts : List Attempt) (a : DriftApproval)
    → is_pending a.decision ≡ true
    → attempts (t ∷ ts) a ≡ decided t a
unfolding attempts
first_attempt_stands t ts a h =
    rw (first_attempt t a h) (attempts_decided ts (decided t a) (not_pending t a))
