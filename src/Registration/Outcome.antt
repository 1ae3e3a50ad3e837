-- ===== src/Registration/Outcome.antt =====
-- register_pipeline.py: what a registration leaves in the database and in the DAG folder.
use clean_data_platform_airf.Prelude.{◌≡◌, refl, Option, some, arith}
use clean_data_platform_airf.Errors.{Result, ok, err, ◌>>=◌}
use clean_data_platform_airf.Persistence.UnitOfWork.{
  Uow, new_uow, require_session, enter, exit, rollback_session, commit_session, execute, query,
  commit, within, leave,
}
use clean_data_platform_airf.Assets.Asset.{DataAsset, active}
use clean_data_platform_airf.Registration.Values.{Python}
use clean_data_platform_airf.Registration.Defaults.{PlatformDefaults}
use clean_data_platform_airf.Registration.Aggregate.{Pipeline}
use clean_data_platform_airf.Registration.Repository.Reading.{find_pipeline_by_name}
use clean_data_platform_airf.Registration.UseCase.{Command, Tables, Ports, prepare, resolve_asset}
use clean_data_platform_airf.Registration.Transaction.{
  Files, flushed, refuse_existing, save_in, provision, link_in, source_names, destination_names,
  audit_in, audit_log, body, dag_file, answered, followed, registered, register,
}

-- The tables with the links and the audit entry, if the database takes them.
abbrev pub linked :
    Ports → Command → Pipeline → Option DataAsset → Option DataAsset → Tables → Result Tables
linked ports cmd p src dest t = flushed ports (link_in p src (source_names p) "source" t) >>= λ t1.
    flushed ports (link_in p dest (destination_names p) "destination" t1) >>= λ t2.
    flushed ports (audit_in (audit_log cmd p) t2)

-- The tables after a registration, without transactions.
unfoldable pub changes : Python → Ports → Command → Pipeline → Tables → Result Tables
unfolding find_pipeline_by_name resolve_asset provision
changes py ports cmd p t = do
  existing ← find_pipeline_by_name py cmd.name t.pipelines
  _ ← refuse_existing cmd.name existing
  let dest = resolve_asset cmd.destination_asset_name t.assets
  t1 ← flushed ports (save_in p t)
  made ← provision ports p dest t1
  t2 ← flushed ports made
  linked ports cmd p (resolve_asset cmd.source_asset_name t.assets) dest t2

abbrev pub concluded :
    Tables → Files → Pipeline → Result Tables → (Uow Tables × Files) × Result Pipeline
concluded t files p (err e) = ((new_uow t, files), err e)
concluded t files p (ok t') = ((new_uow t', files), ok p)

within-concluded :
    (py : Python) (ports : Ports) (cmd : Command) (p : Pipeline) (t : Tables) (files : Files)
    → within (body py ports cmd p) (new_uow t, files)
      ≡ concluded t files p (changes py ports cmd p t)
unfolding body changes within enter execute query commit commit_session require_session leave exit
    rollback_session provision
within-concluded py ports cmd p t files = ground arith

-- What `execute` leaves and answers, without transactions.
abbrev pub outcome_of :
    Ports → Tables → Files → Pipeline → Result Tables → (Uow Tables × Files) × Result Pipeline
outcome_of ports t files p (err e) = ((new_uow t, files), err e)
outcome_of ports t files p (ok t') =
    answered (new_uow t') p (dag_file ports p ports.yaml_generator ports.dag_generator files)

abbrev pub outcome :
    Python
    → Ports
    → Command
    → Tables
    → Files
    → Result Pipeline
    → (Uow Tables × Files) × Result Pipeline
outcome py ports cmd t files (err e) = ((new_uow t, files), err e)
outcome py ports cmd t files (ok p) = outcome_of ports t files p (changes py ports cmd p t)

followed-concluded :
    (ports : Ports) (t : Tables) (files : Files) (p : Pipeline) (r : Result Tables)
    → followed ports (concluded t files p r) ≡ outcome_of ports t files p r
followed-concluded ports t files p (err e) = refl
followed-concluded ports t files p (ok t') = refl

registered-outcome :
    (py : Python) (ports : Ports) (cmd : Command) (t : Tables) (files : Files) (r : Result Pipeline)
    → registered py ports cmd r (new_uow t, files) ≡ outcome py ports cmd t files r
registered-outcome py ports cmd t files (err e) = refl
registered-outcome py ports cmd t files (ok p) =
    rw (within-concluded py ports cmd p t files)
      (followed-concluded ports t files p (changes py ports cmd p t))

pub register_lem :
    (py : Python) (d : PlatformDefaults) (ports : Ports) (cmd : Command) (t : Tables)
    (files : Files)
    → register py d ports cmd (new_uow t, files)
      ≡ outcome py ports cmd t files (prepare py d ports.pipeline_id cmd)
unfolding register
register_lem py d ports cmd t files =
    registered-outcome py ports cmd t files (prepare py d ports.pipeline_id cmd)

pub register-outcome :
    (py : Python) (d : PlatformDefaults) (ports : Ports) (cmd : Command) (t : Tables)
    (files : Files) (src : DataAsset)
    → resolve_asset cmd.source_asset_name t.assets ≡ some src
    → src.state ≡ active
    → register py d ports cmd (new_uow t, files)
      ≡ outcome py ports cmd t files (prepare py d ports.pipeline_id cmd)
register-outcome py d ports cmd t files src found usable = register_lem py d ports cmd t files
