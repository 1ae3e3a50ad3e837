-- ===== src/Discovery/Execution/Outcome.antt =====
-- run_discovery_use_case.py: the four ways in which a discovery ends.
use clean_data_platform_airf.Prelude.{◌≡◌, refl, String, Option, none, some, arith, inl, inr}
use clean_data_platform_airf.Errors.{Result, ok, err, ◌>>=◌, message, Result-cases}
use clean_data_platform_airf.Persistence.UnitOfWork.{
  Uow, new_uow, require_session, enter, exit, rollback_session, commit_session, execute, query,
  commit, within, leave,
}
use clean_data_platform_airf.Discovery.Run.{
  DiscoveryRun, running, completed, failed, start, complete, fail,
}
use clean_data_platform_airf.Discovery.Execution.{
  Tables, Ports, Request, Job, initialize, save_in, extract, provision, baseline, findings, heal,
}
use clean_data_platform_airf.Discovery.Execution.UseCase.{
  process, body, raised, fail_block, fail_run_if_started, run_discovery, handled,
}

-- The part before `complete`, which may fail with the run still RUNNING.
abbrev pub Discovered : Type 0
Discovered = Tables × DiscoveryRun × (Tables → Result Tables)

unfoldable pub discovered : Ports → Request → Job → Tables → Result Discovered
unfolding extract provision baseline findings heal complete
discovered ports q job t = do
  found ← extract ports job
  (t', snapshots) ← provision ports job found t
  let prev = baseline job t'
  let f = findings prev snapshots
  done ← complete f q.completed_at q.completed_at job.run
  ok (t', done, heal ports q job f prev)

abbrev opened : Tables → Tables → Uow Tables
opened c w = record { committed = c; session = some w; depth = 1 }

abbrev healed_outcome :
    Tables → DiscoveryRun → Result Tables → (Uow Tables × Option DiscoveryRun) × Result DiscoveryRun
healed_outcome c done (err e) = ((new_uow c, some done), err e)
healed_outcome c done (ok t) = ((new_uow (save_in done t), some done), ok done)

abbrev concluded :
    Tables
    → Option DiscoveryRun
    → Result Discovered
    → (Uow Tables × Option DiscoveryRun) × Result DiscoveryRun
concluded c v (err e) = ((new_uow c, v), err e)
concluded c v (ok (t, done, healing)) = healed_outcome c done (healing t)

process-concluded :
    (ports : Ports) (q : Request) (job : Job) (c w : Tables) (v : Option DiscoveryRun)
    → leave (process ports q job (opened c w, v)) ≡ concluded c v (discovered ports q job w)
unfolding process discovered execute query commit commit_session require_session leave exit
    rollback_session
process-concluded ports q job c w v = ground arith

abbrev started :
    Ports → Request → Tables → Result Job → (Uow Tables × Option DiscoveryRun) × Result DiscoveryRun
started ports q t (err e) = ((new_uow t, none), err e)
started ports q t (ok job) = concluded t (some job.run) (discovered ports q job (save_in job.run t))

body-started :
    (ports : Ports) (q : Request) (t : Tables)
    → within (body ports q) (new_uow t, none) ≡ started ports q t (initialize q t)
unfolding within enter body execute query require_session leave exit rollback_session
body-started ports q t = elim (Result-cases (initialize q t)) [
  | inl (e, h) ↦ ground arith
  | inr (job, h) ↦
      ground (arith, process-concluded ports q job t (save_in job.run t) (some job.run))
]

initialize-running :
    (q : Request) (t : Tables) (job : Job) → initialize q t ≡ ok job → job.run.status ≡ running
unfolding initialize start
initialize-running q t job h = ground arith

discovered-completed :
    (ports : Ports) (q : Request) (job : Job) (t t' : Tables) (done : DiscoveryRun)
    (healing : Tables → Result Tables)
    → discovered ports q job t ≡ ok (t', done, healing)
    → done.status ≡ completed
unfolding discovered complete
discovered-completed ports q job t t' done healing h = ground arith

unfoldable pub failed_run : String → Request → DiscoveryRun → DiscoveryRun
failed_run reason q run = record run {
  status = failed;
  error_message = some reason;
  completed_at = some q.failed_at;
  updated_at = q.failed_at;
}

fail_run_if_started-running :
    (reason : String) (q : Request) (run : DiscoveryRun) (t : Tables)
    → run.status ≡ running
    → (fail_run_if_started reason q (new_uow t, some run)).0
      ≡ new_uow (save_in (failed_run reason q run) t)
unfolding fail_run_if_started fail_block fail failed_run within enter execute commit commit_session
    require_session leave exit rollback_session
fail_run_if_started-running reason q run t h = ground arith

fail_run_if_started-completed :
    (reason : String) (q : Request) (run : DiscoveryRun) (t : Tables)
    → run.status ≡ completed
    → (fail_run_if_started reason q (new_uow t, some run)).0 ≡ new_uow t
unfolding fail_run_if_started fail_block fail failed_run within enter execute commit commit_session
    require_session leave exit rollback_session
fail_run_if_started-completed reason q run t h = ground arith

-- The database and the answer that `execute` leaves.
abbrev pub completed_outcome : Tables → DiscoveryRun → Result Tables → Tables × Result DiscoveryRun
completed_outcome t done (err e) = (t, err (raised e))
completed_outcome t done (ok healed) = (save_in done healed, ok done)

abbrev pub job_outcome :
    Request → Tables → DiscoveryRun → Result Discovered → Tables × Result DiscoveryRun
job_outcome q t run (err e) = (save_in (failed_run (message (raised e)) q run) t, err (raised e))
job_outcome q t run (ok (found, done, healing)) = completed_outcome t done (healing found)

abbrev pub outcome : Ports → Request → Tables → Result Job → Tables × Result DiscoveryRun
outcome ports q t (err e) = (t, err (raised e))
outcome ports q t (ok job) = job_outcome q t job.run (discovered ports q job (save_in job.run t))

abbrev pub Leaves :
    Tables × Result DiscoveryRun → (Uow Tables × Option DiscoveryRun) × Result DiscoveryRun → Type 0
Leaves (t, r) ((u, v), r') = (u ≡ new_uow t) × (r' ≡ r)

handled-completed :
    (q : Request) (t : Tables) (done : DiscoveryRun) (r : Result Tables)
    → done.status ≡ completed
    → Leaves (completed_outcome t done r) (handled q (healed_outcome t done r))
handled-completed q t done (err e) h =
    (fail_run_if_started-completed (message (raised e)) q done t h, refl)
handled-completed q t done (ok healed) h = (refl, refl)

handled-job :
    (q : Request) (t : Tables) (run : DiscoveryRun) (r : Result Discovered)
    → run.status ≡ running
    → ((found : Tables) (done : DiscoveryRun) (healing : Tables → Result Tables)
        → r ≡ ok (found, done, healing)
        → done.status ≡ completed)
    → Leaves (job_outcome q t run r) (handled q (concluded t (some run) r))
handled-job q t run (err e) h c = (fail_run_if_started-running (message (raised e)) q run t h, refl)
handled-job q t run (ok (found, done, healing)) h c =
    handled-completed q t done (healing found) (c found done healing refl)

handled-started :
    (ports : Ports) (q : Request) (t : Tables) (r : Result Job)
    → ((job : Job) → r ≡ ok job → job.run.status ≡ running)
    → Leaves (outcome ports q t r) (handled q (started ports q t r))
unfolding fail_run_if_started
handled-started ports q t (err e) h = (refl, refl)
handled-started ports q t (ok job) h =
    handled-job q t job.run (discovered ports q job (save_in job.run t)) (h job refl)
      (λ found done healing.
        discovered-completed ports q job (save_in job.run t) found done healing)

-- A discovery ends in one of four ways, and always with the unit of work closed. If the asset, its
-- endpoint or the request is at fault, nothing is written and the exception is raised. If the
-- runner, the provisioning or the comparison raises, the database has the failed run with the reason
-- added and is otherwise unchanged. If self-healing raises, which comes after `complete`, the
-- database is as it was before, without any run. Else the healed tables with the completed run are
-- committed, and that run is returned.
pub run_discovery-Leaves :
    (ports : Ports) (q : Request) (t : Tables)
    → Leaves (outcome ports q t (initialize q t)) (run_discovery ports q (new_uow t, none))
unfolding run_discovery
run_discovery-Leaves ports q t =
    rw (body-started ports q t)
      (handled-started ports q t (initialize q t) (initialize-running q t))
