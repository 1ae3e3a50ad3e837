-- ===== src/Discovery/Run/Lifecycle.antt =====
-- discovery_run.py: the states that a run goes through.
use clean_data_platform_airf.Prelude.{
  ℕ, String, ◌≡◌, refl, Bool, true, false, List, [], ◌∷◌, length, non_empty, arith, is_some,
}
use clean_data_platform_airf.Errors.{ok, or_else}
use clean_data_platform_airf.Discovery.Run.{
  DiscoveryRun, DiscoveryRunStatus, pending, running, completed, failed, partial, Call, call_start,
  call_complete, call_fail, apply_call, run_calls, is_terminal, count_fields, new_run,
}

-- What holds of a run's other fields in each status.
abbrev pub Fits : DiscoveryRunStatus → DiscoveryRun → Type 0
Fits pending r =
    (is_some r.started_at ≡ false)
    × (is_some r.completed_at ≡ false)
    × (is_some r.error_message ≡ false)
Fits running r =
    (is_some r.started_at ≡ true)
    × (is_some r.completed_at ≡ false)
    × (is_some r.error_message ≡ false)
Fits completed r =
    (is_some r.started_at ≡ true)
    × (is_some r.completed_at ≡ true)
    × (is_some r.error_message ≡ false)
    × (non_empty r.soft_failures ≡ false)
    × (r.objects_discovered ≡ length r.snapshots)
    × (r.fields_discovered ≡ count_fields r.snapshots)
Fits partial r =
    (is_some r.started_at ≡ true)
    × (is_some r.completed_at ≡ true)
    × (is_some r.error_message ≡ false)
    × (non_empty r.soft_failures ≡ true)
    × (r.objects_discovered ≡ length r.snapshots)
    × (r.fields_discovered ≡ count_fields r.snapshots)
Fits failed r =
    (is_some r.started_at ≡ true)
    × (is_some r.completed_at ≡ true)
    × (is_some r.error_message ≡ true)

abbrev pub IsConsistent : DiscoveryRun → Type 0
IsConsistent r = Fits r.status r

apply_call-IsConsistent :
    (c : Call) (r : DiscoveryRun) → IsConsistent r → IsConsistent (or_else r (apply_call c r))
unfolding apply_call
apply_call-IsConsistent (call_start now touched) r h = ground arith
apply_call-IsConsistent (call_complete f now touched) r h = ground arith
apply_call-IsConsistent (call_fail message now touched) r h = ground arith

run_calls_from :
    (cs : List Call) (r : DiscoveryRun) → IsConsistent r → IsConsistent (run_calls cs r)
unfolding run_calls
run_calls_from [] r h = h
run_calls_from (c ∷ cs) r h = run_calls_from cs _ (apply_call-IsConsistent c r h)

-- After any calls on a new run, in any order and whether or not they raise, its fields agree with
-- its status: it has a start time exactly if it was started, an end time exactly in a terminal
-- status, an error message exactly if it failed; COMPLETED has no soft failures and PARTIAL has
-- some; and both count the objects and fields of the snapshots they hold.
pub run_calls-IsConsistent :
    (cs : List Call) (id asset_id triggered_by : String) (now : ℕ)
    → IsConsistent (run_calls cs (new_run id asset_id triggered_by now))
run_calls-IsConsistent cs id asset_id triggered_by now =
    run_calls_from cs (new_run id asset_id triggered_by now) (refl, refl, refl)

terminal_keeps :
    (c : Call) (r : DiscoveryRun) → is_terminal r.status ≡ true → or_else r (apply_call c r) ≡ r
unfolding apply_call is_terminal
terminal_keeps (call_start now touched) r h = ground arith
terminal_keeps (call_complete f now touched) r h = ground arith
terminal_keeps (call_fail message now touched) r h = ground arith

-- A run in a terminal status is never changed again: every later call raises.
pub run_calls_terminal :
    (cs : List Call) (r : DiscoveryRun) → is_terminal r.status ≡ true → run_calls cs r ≡ r
unfolding run_calls
run_calls_terminal [] r h = refl
run_calls_terminal (c ∷ cs) r h = rw (terminal_keeps c r h) (run_calls_terminal cs r h)

-- The status changes that are meant to happen.
abbrev pub is_allowed : DiscoveryRunStatus → DiscoveryRunStatus → Bool
is_allowed pending running = true
is_allowed running completed = true
is_allowed running partial = true
is_allowed running failed = true
is_allowed _ _ = false

-- A call that returns has changed the status from PENDING to RUNNING, or from RUNNING to one of
-- COMPLETED, PARTIAL and FAILED, and has kept the run's identity.
apply_call_allowed :
    (c : Call) (r r' : DiscoveryRun)
    → apply_call c r ≡ ok r'
    → (is_allowed r.status r'.status ≡ true) × (r'.id ≡ r.id) × (r'.asset_id ≡ r.asset_id)
unfolding apply_call
apply_call_allowed (call_start now touched) r r' h = (ground arith, ground arith, ground arith)
apply_call_allowed (call_complete f now touched) r r' h = (ground arith, ground arith, ground arith)
apply_call_allowed (call_fail message now touched) r r' h =
    (ground arith, ground arith, ground arith)
