-- ===== src/Discovery/Execution/UseCase.antt =====
-- run_discovery_use_case.py: `execute` and `_fail_run_if_started` as transactions.
use clean_data_platform_airf.Prelude.{String, Option, none, some, [], ◌∷◌, format}
use clean_data_platform_airf.Errors.{
  PlatformError, Result, ok, err, value_error, key_error, type_error, not_found_error,
  validation_error, invalid_state_transition, destructive_override, circuit_breaker_open,
  multiple_results, runtime_error, message,
}
use clean_data_platform_airf.Persistence.UnitOfWork.{
  Uow, Action, and_then, lift, query, execute, assign, commit, within,
}
use clean_data_platform_airf.Discovery.Run.{DiscoveryRun, complete, fail}
use clean_data_platform_airf.Discovery.Execution.{
  Tables, Ports, Request, Job, initialize, save_in, extract, provision, baseline, findings, heal,
}

-- A transaction over the tables, beside the variable `run`.
abbrev pub Step : Type 0 → Type 0
Step A = Action Tables (Option DiscoveryRun) A

-- A save of the run, and the run read back into the variable.
abbrev pub save_started : DiscoveryRun → Step DiscoveryRun
save_started run = execute λ t. ok (save_in run t, run)

-- A statement without an answer.
abbrev pub written : Result Tables → Result (Tables × Unit {0})
written (err e) = err e
written (ok t) = ok (t, tt)

-- The part after the first save, up to the commit.
unfoldable pub process : Ports → Request → Job → Step DiscoveryRun
unfolding extract provision baseline findings heal complete
process ports q job = and_then (lift (extract ports job)) λ found.
    and_then (execute (provision ports job found)) λ snapshots.
      and_then (query λ t. ok (baseline job t)) λ prev.
        let f = findings prev snapshots in
        and_then (lift (complete f q.completed_at q.completed_at job.run)) λ done.
          and_then (assign (λ _. some done)) λ _.
            and_then (execute λ t. written (heal ports q job f prev t))
              λ _. and_then (save_started done) λ _. commit done

-- The body of the block.
unfoldable pub body : Ports → Request → Step DiscoveryRun
unfolding initialize process
body ports q = and_then (query (initialize q)) λ job.
    and_then (assign (λ _. some job.run))
      λ _. and_then (save_started job.run) λ _. process ports q job

-- What `execute` raises for what its block raised.
abbrev pub raised : PlatformError → PlatformError
raised (key_error k) =
    not_found_error
      (format ("Configuration or credential not found: " ∷ message (key_error k) ∷ []))
raised (value_error s) = value_error s
raised (type_error s) = type_error s
raised (not_found_error s) = not_found_error s
raised (validation_error s) = validation_error s
raised (invalid_state_transition s) = invalid_state_transition s
raised (destructive_override s) = destructive_override s
raised (circuit_breaker_open s) = circuit_breaker_open s
raised (multiple_results s) = multiple_results s
raised (runtime_error s) = runtime_error s

-- The block of `_fail_run_if_started`
unfoldable pub fail_block : String → Request → DiscoveryRun → Step DiscoveryRun
unfolding fail
fail_block reason q run = and_then (lift (fail reason q.failed_at q.failed_at run)) λ failed.
    and_then (assign (λ _. some failed)) λ _. and_then (save_started failed) λ _. commit failed

-- `_fail_run_if_started`: what the block raises is only logged.
unfoldable pub fail_run_if_started :
    String → Request → Uow Tables × Option DiscoveryRun → Uow Tables × Option DiscoveryRun
unfolding within fail_block
fail_run_if_started reason q (u, none) = (u, none)
fail_run_if_started reason q (u, some run) = (within (fail_block reason q run) (u, some run)).0

abbrev pub handled :
    Request
    → (Uow Tables × Option DiscoveryRun) × Result DiscoveryRun
    → (Uow Tables × Option DiscoveryRun) × Result DiscoveryRun
handled q (s, ok run) = (s, ok run)
handled q (s, err e) = (fail_run_if_started (message (raised e)) q s, err (raised e))

-- `RunDiscoveryUseCase.execute`
unfoldable pub run_discovery : Ports → Request → Step DiscoveryRun
unfolding within body fail_run_if_started
run_discovery ports q s = handled q (within (body ports q) s)
