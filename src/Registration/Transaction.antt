-- ===== src/Registration/Transaction.antt =====
-- register_pipeline.py: `execute`, its transaction and the DAG file that follows the commit.
use Prim.Native.String.{String}
use clean_data_platform_airf.Prelude.{
  ◌&&◌, Option, none, some, List, [], ◌∷◌, ◌++◌, map, if◌then◌else◌, format, is_text, non_empty,
}
use clean_data_platform_airf.Prelude.Dict.{Dict, insert}
use clean_data_platform_airf.Errors.{Result, ok, err, validation_error, ◌>>=◌}
use clean_data_platform_airf.Extraction.Json.{text, end, field}
use clean_data_platform_airf.Persistence.UnitOfWork.{
  Uow, Action, and_then, lift, query, execute, commit, within,
}
use clean_data_platform_airf.Assets.Asset.{DataAsset}
use clean_data_platform_airf.Pipelines.Trigger.{safe_name}
use clean_data_platform_airf.Registration.Values.{Python}
use clean_data_platform_airf.Registration.Defaults.{PlatformDefaults}
use clean_data_platform_airf.Registration.Aggregate.{
  Pipeline, ExtractionConfig, DestinationObjectConfig,
}
use clean_data_platform_airf.Registration.Repository.{to_model}
use clean_data_platform_airf.Registration.Repository.Reading.{find_pipeline_by_name, save_pipeline}
use clean_data_platform_airf.Registration.UseCase.{
  Command, Tables, AuditLog, WriteOutcome, written, unopened, torn, Ports, prepare, resolve_asset,
}
use clean_data_platform_airf.Registration.Destinations.{provision_destination_objects, link_objects}

abbrev pub Files : Type 0
Files = Dict String

-- A transaction over the tables, beside the files of the DAG folder.
abbrev pub Step : Type 0 → Type 0
Step A = Action Tables Files A

-- What is sent to the database, if it takes it.
abbrev pub flushed : Ports → Tables → Result Tables
flushed ports t = ports.flush t >>= λ _. ok t

-- A statement without an answer, flushed.
abbrev pub write : Ports → (Tables → Result Tables) → Step (Unit {0})
write ports f = execute λ t. (f t >>= λ t'. ports.flush t' >>= λ _. ok (t', tt))

abbrev pub refuse_existing : String → Option Pipeline → Result (Unit {0})
refuse_existing name none = ok tt
refuse_existing name (some p) =
    err (validation_error (format ("Pipeline with name '" ∷ name ∷ "' already exists." ∷ [])))

-- `await self._uow.pipelines.save(pipeline)`
abbrev pub save_in : Pipeline → Tables → Tables
save_in p t = record t { pipelines = save_pipeline p t.pipelines }

-- `if command.destination_asset_name and destination_objects`
unfoldable pub provision : Ports → Pipeline → Option DataAsset → Tables → Result Tables
unfolding provision_destination_objects
provision ports p asset t =
    if is_text p.destination_asset_name && non_empty p.destination_objects
    then (provision_destination_objects ports p.destination_asset_name asset p.name
          p.destination_objects t.store
        >>= λ s. ok (record t { store = s }))
    else ok t

abbrev pub source_names : Pipeline → List String
source_names p = map {A = ExtractionConfig} (λ s. s.object_name) p.source_objects

abbrev pub destination_names : Pipeline → List String
destination_names p = map {A = DestinationObjectConfig} (λ o. o.object_name) p.destination_objects

abbrev pub link_in : Pipeline → Option DataAsset → List String → String → Tables → Tables
link_in p asset names role t = record t {
  links = link_objects p.id asset names role t.store t.links;
}

abbrev pub audit_log : Command → Pipeline → AuditLog
audit_log cmd p = record {
  event_type = "pipeline.registered";
  entity_type = "Pipeline";
  entity_id = p.id;
  actor_id = "system";
  actor_email = "system@platform.local";
  payload = field "pipeline_type" (text cmd.pipeline_type) end;
  description = format ("Pipeline " ∷ cmd.name ∷ " registered" ∷ []);
}

-- `audit_logs.save`
abbrev pub audit_in : AuditLog → Tables → Tables
audit_in entry t = record t { audit_logs = t.audit_logs ++ entry ∷ [] }

-- The body of the block.
unfoldable pub body : Python → Ports → Command → Pipeline → Step Pipeline
unfolding find_pipeline_by_name resolve_asset provision link_objects to_model
body py ports cmd p =
    and_then (query λ t. find_pipeline_by_name py cmd.name t.pipelines) λ existing.
      and_then (lift (refuse_existing cmd.name existing)) λ _.
        and_then (write ports λ t. ok (save_in p t)) λ _.
          and_then (query λ t. ok (resolve_asset cmd.destination_asset_name t.assets)) λ dest.
            and_then (query λ t. ok (resolve_asset cmd.source_asset_name t.assets)) λ src.
              and_then (write ports (provision ports p dest)) λ _.
                and_then (write ports λ t. ok (link_in p src (source_names p) "source" t)) λ _.
                  and_then
                    (write ports λ t. ok (link_in p dest (destination_names p) "destination" t))
                    λ _. and_then (write ports λ t. ok (audit_in (audit_log cmd p) t)) λ _. commit p

-- The path and the text of the DAG file.
unfoldable pub dag_source :
    Ports
    → Pipeline
    → (Pipeline → Result String)
    → (String → Result String)
    → Result (String × String)
unfolding safe_name
dag_source ports p generate_yaml generate_dag = do
  _ ← ports.mkdir ports.dags_path
  pipeline_yaml ← generate_yaml p
  dag_code ← generate_dag pipeline_yaml
  ok (format (ports.dags_path ∷ "/dag_p_" ∷ safe_name p.name ∷ ".py" ∷ []), dag_code)

-- The folder after a write.
abbrev pub after_write : String → String → Files → WriteOutcome → Files × Result (Unit {0})
after_write path dag_code files written = (insert path dag_code files, ok tt)
after_write path dag_code files (unopened e) = (files, err e)
after_write path dag_code files (torn content e) = (insert path content files, err e)

abbrev pub store_file : Ports → Files → Result (String × String) → Files × Result (Unit {0})
store_file ports files (err e) = (files, err e)
store_file ports files (ok (path, dag_code)) =
    after_write path dag_code files (ports.write_text path dag_code)

-- `_write_dag_file`
unfoldable pub write_dag_file :
    Ports
    → Pipeline
    → (Pipeline → Result String)
    → (String → Result String)
    → Files
    → Files × Result (Unit {0})
unfolding dag_source
write_dag_file ports p generate_yaml generate_dag files =
    store_file ports files (dag_source ports p generate_yaml generate_dag)

-- `if self._yaml_generator and self._dag_generator`
abbrev pub dag_file :
    Ports
    → Pipeline
    → Option (Pipeline → Result String)
    → Option (String → Result String)
    → Files
    → Files × Result (Unit {0})
dag_file ports p (some generate_yaml) (some generate_dag) files =
    write_dag_file ports p generate_yaml generate_dag files
dag_file ports p _ _ files = (files, ok tt)

abbrev pub answered :
    Uow Tables → Pipeline → Files × Result (Unit {0}) → (Uow Tables × Files) × Result Pipeline
answered u p (files, err e) = ((u, files), err e)
answered u p (files, ok done) = ((u, files), ok p)

-- The file, once the block is left without an exception.
abbrev pub followed :
    Ports → (Uow Tables × Files) × Result Pipeline → (Uow Tables × Files) × Result Pipeline
followed ports ((u, files), err e) = ((u, files), err e)
followed ports ((u, files), ok p) =
    answered u p (dag_file ports p ports.yaml_generator ports.dag_generator files)

abbrev pub registered : Python → Ports → Command → Result Pipeline → Step Pipeline
registered py ports cmd (err e) s = (s, err e)
registered py ports cmd (ok p) s = followed ports (within (body py ports cmd p) s)

-- `execute`
unfoldable pub register : Python → PlatformDefaults → Ports → Command → Step Pipeline
unfolding prepare within body write_dag_file
register py d ports cmd s = registered py ports cmd (prepare py d ports.pipeline_id cmd) s
