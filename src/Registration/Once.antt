-- ===== src/Registration/Once.antt =====
-- register_pipeline.py: a registered pipeline is found by its name, and its name is taken.
use clean_data_platform_airf.Prelude.{
  ◌≡◌, refl, String, true, Option, none, some, List, [], ◌∷◌, ◌++◌, arith, eq_refl, sym, ◌∙◌, ap,
}
use clean_data_platform_airf.Errors.{Result, ok, err, ◌>>=◌, >>=-eq-ok, is_err}
use clean_data_platform_airf.Persistence.UnitOfWork.{Uow, new_uow}
use clean_data_platform_airf.Assets.Asset.{DataAsset}
use clean_data_platform_airf.Registration.Values.{Python}
use clean_data_platform_airf.Registration.Defaults.{PlatformDefaults}
use clean_data_platform_airf.Registration.Aggregate.{Pipeline}
use clean_data_platform_airf.Registration.Repository.{PipelineRow, to_model}
use clean_data_platform_airf.Registration.Repository.Reading.{
  find_pipeline_by_name, row_by_name, read_row, to_domain,
}
use clean_data_platform_airf.Registration.Repository.RoundTrip.{
  IsBuilt, restored, to_domain-to_model,
}
use clean_data_platform_airf.Registration.UseCase.{Command, Tables, Ports, prepare, resolve_asset}
use clean_data_platform_airf.Registration.Transaction.{
  Files, answered, flushed, refuse_existing, save_in, provision, dag_file, register,
}
use clean_data_platform_airf.Registration.Built.{prepare-IsBuilt}
use clean_data_platform_airf.Registration.Outcome.{
  linked, changes, outcome, outcome_of, register_lem,
}

row_by_name-append :
    (name : String) (row : PipelineRow) (rows : List PipelineRow)
    → row_by_name name rows ≡ none
    → row.name ≡ name
    → row_by_name name (rows ++ row ∷ []) ≡ some row
unfolding row_by_name
row_by_name-append name row [] h e = rw (e, eq_refl name) refl
row_by_name-append name row (r ∷ rows) h e = ground (arith, row_by_name-append name row rows)

provision-pipelines :
    (ports : Ports) (p : Pipeline) (dest : Option DataAsset) (t t' : Tables)
    → provision ports p dest t ≡ ok t'
    → t'.pipelines ≡ t.pipelines
unfolding provision
provision-pipelines ports p dest t t' h = ground arith

flushed-eq : (ports : Ports) (t t' : Tables) → flushed ports t ≡ ok t' → t ≡ t'
flushed-eq ports t t' h = ground arith

linked-pipelines :
    (ports : Ports) (cmd : Command) (p : Pipeline) (src dest : Option DataAsset) (t t' : Tables)
    → linked ports cmd p src dest t ≡ ok t'
    → t'.pipelines ≡ t.pipelines
linked-pipelines ports cmd p src dest t t' h = ground arith

new_uow_injective : (t t' : Tables) → new_uow t ≡ new_uow t' → t ≡ t'
new_uow_injective t t' h = ap (λ (u : Uow Tables). u.committed) h

module _ (py : Python) where
  -- Only an absent row reads as no pipeline.
  read_row-none : (r : Option PipelineRow) → read_row py r ≡ ok none → r ≡ none
  read_row-none none h = refl
  read_row-none (some row) h = let (p, _, e) = >>=-eq-ok _ (to_domain py row) h in ground arith

  refuse_existing-ok :
      (name : String) (o : Option Pipeline) → refuse_existing name o ≡ ok tt → o ≡ none
  refuse_existing-ok name none h = refl
  refuse_existing-ok name (some p) h = ground arith

  answered-ok :
      (u u' : Uow Tables) (files' : Files) (p q : Pipeline) (stored : Files × Result (Unit {0}))
      → answered u q stored ≡ ((u', files'), ok p)
      → (u ≡ u') × (q ≡ p)
  answered-ok u u' files' p q (files, err e) h = absurd (ground arith)
  answered-ok u u' files' p q (files, ok done) h = (ground arith, ground arith)

  outcome_of-changes :
      (ports : Ports) (t t' : Tables) (files files' : Files) (p q : Pipeline) (r : Result Tables)
      → outcome_of ports t files q r ≡ ((new_uow t', files'), ok p)
      → (q ≡ p) × (r ≡ ok t')
  outcome_of-changes ports t t' files files' p q (err e) h = ground arith
  outcome_of-changes ports t t' files files' p q (ok t1) h =
      let (answer, same) =
        answered-ok (new_uow t1) (new_uow t') files' p q
          (dag_file ports q ports.yaml_generator ports.dag_generator files) h in
      (same, ap ok (new_uow_injective t1 t' answer))

  outcome-changes :
      (ports : Ports) (cmd : Command) (t t' : Tables) (files files' : Files) (p : Pipeline)
      (r : Result Pipeline)
      → outcome py ports cmd t files r ≡ ((new_uow t', files'), ok p)
      → (r ≡ ok p) × (changes py ports cmd p t ≡ ok t')
  outcome-changes ports cmd t t' files files' p (err e) h = ground arith
  outcome-changes ports cmd t t' files files' p (ok q) h =
      let (same, made) =
        outcome_of-changes ports t t' files files' p q (changes py ports cmd q t) h in
      (ap ok same, rw same at made)

  changes-found :
      (ports : Ports) (cmd : Command) (p : Pipeline) (t t' : Tables)
      → p.name ≡ cmd.name
      → changes py ports cmd p t ≡ ok t'
      → row_by_name cmd.name t'.pipelines ≡ some (to_model p)
  unfolding changes find_pipeline_by_name to_model
  changes-found ports cmd p t t' e h =
      let (existing, found, h1) = >>=-eq-ok _ (find_pipeline_by_name py cmd.name t.pipelines) h in
      let (u, allowed, h2) = >>=-eq-ok _ (refuse_existing cmd.name existing) h1 in
      let src = resolve_asset cmd.source_asset_name t.assets in
      let dest = resolve_asset cmd.destination_asset_name t.assets in
      let (t1, saved, h3) =
        >>=-eq-ok
          (λ t1. provision ports p dest t1 >>= λ made.
            flushed ports made >>= λ t2. linked ports cmd p src dest t2)
          (flushed ports (save_in p t)) h2 in
      let (made, provisioned, h4) =
        >>=-eq-ok (λ made. flushed ports made >>= λ t2. linked ports cmd p src dest t2)
          (provision ports p dest t1) h3 in
      let (t2, sent, done) =
        >>=-eq-ok (λ t2. linked ports cmd p src dest t2) (flushed ports made) h4 in
      let absent : row_by_name cmd.name t.pipelines ≡ none =
        read_row-none (row_by_name cmd.name t.pipelines)
          (found ∙ ap ok (refuse_existing-ok cmd.name existing allowed)) in
      let kept : t'.pipelines ≡ t.pipelines ++ to_model p ∷ [] =
        linked-pipelines ports cmd p src dest t2 t' done
        ∙ ap (λ (s : Tables). s.pipelines) (sym (flushed-eq ports made t2 sent))
        ∙ provision-pipelines ports p dest t1 made provisioned
        ∙ ap (λ (s : Tables). s.pipelines) (sym (flushed-eq ports (save_in p t) t1 saved)) in
      rw kept (row_by_name-append cmd.name (to_model p) t.pipelines absent e)

  -- What `register` answered, traced back to the pipeline and to the tables.
  register-changes :
      (d : PlatformDefaults) (ports : Ports) (cmd : Command) (t t' : Tables) (files files' : Files)
      (p : Pipeline)
      → register py d ports cmd (new_uow t, files) ≡ ((new_uow t', files'), ok p)
      → (prepare py d ports.pipeline_id cmd ≡ ok p) × (changes py ports cmd p t ≡ ok t')
  register-changes d ports cmd t t' files files' p h =
      outcome-changes ports cmd t t' files files' p (prepare py d ports.pipeline_id cmd)
        (sym (register_lem py d ports cmd t files) ∙ h)

  found_registered :
      (cmd : Command) (p : Pipeline) (rows : List PipelineRow)
      → IsBuilt py p
      → row_by_name cmd.name rows ≡ some (to_model p)
      → find_pipeline_by_name py cmd.name rows ≡ ok (some (restored p))
  unfolding find_pipeline_by_name
  found_registered cmd p rows built found = rw found (rw (to_domain-to_model py p built) refl)

  changes-refused :
      (ports : Ports) (cmd : Command) (p q : Pipeline) (t : Tables)
      → find_pipeline_by_name py cmd.name t.pipelines ≡ ok (some q)
      → is_err (changes py ports cmd p t) ≡ true
  unfolding changes
  changes-refused ports cmd p q t h = rw h refl

  outcome_of-refused :
      (ports : Ports) (p : Pipeline) (t : Tables) (files : Files) (r : Result Tables)
      → is_err r ≡ true
      → ((outcome_of ports t files p r).0 ≡ (new_uow t, files))
        × (is_err (outcome_of ports t files p r).1 ≡ true)
  outcome_of-refused ports p t files (err e) h = (refl, refl)
  outcome_of-refused ports p t files (ok t') h = absurd (ground arith)

  outcome-refused :
      (ports : Ports) (cmd : Command) (q : Pipeline) (t : Tables) (files : Files)
      (r : Result Pipeline)
      → find_pipeline_by_name py cmd.name t.pipelines ≡ ok (some q)
      → ((outcome py ports cmd t files r).0 ≡ (new_uow t, files))
        × (is_err (outcome py ports cmd t files r).1 ≡ true)
  outcome-refused ports cmd q t files (err e) h = (refl, refl)
  outcome-refused ports cmd q t files (ok p) h =
      outcome_of-refused ports p t files (changes py ports cmd p t)
        (changes-refused ports cmd p q t h)

  -- After a registration that returned, the pipeline is found under its name as its row keeps it;
  -- and every further command with this name, whatever else it asks for, raises and changes neither
  -- the database nor the DAG folder.
  pub register_once :
      (d : PlatformDefaults) (ports ports' : Ports) (cmd again : Command) (t t' : Tables)
      (files files' folder : Files) (p : Pipeline)
      → register py d ports cmd (new_uow t, files) ≡ ((new_uow t', files'), ok p)
      → again.name ≡ cmd.name
      → (find_pipeline_by_name py cmd.name t'.pipelines ≡ ok (some (restored p)))
        × ((register py d ports' again (new_uow t', folder)).0 ≡ (new_uow t', folder))
        × (is_err (register py d ports' again (new_uow t', folder)).1 ≡ true)
  register_once d ports ports' cmd again t t' files files' folder p h same =
      let (prepared, made) = register-changes d ports cmd t t' files files' p h in
      let (built, named, _) = prepare-IsBuilt py d ports.pipeline_id cmd p prepared in
      let found : find_pipeline_by_name py cmd.name t'.pipelines ≡ ok (some (restored p)) =
        found_registered cmd p t'.pipelines built (changes-found ports cmd p t t' named made) in
      let (kept, raised) =
        outcome-refused ports' again (restored p) t' folder (prepare py d ports'.pipeline_id again)
          (rw same found) in
      (
        found,
        rw (register_lem py d ports' again t' folder) kept,
        rw (register_lem py d ports' again t' folder) raised,
      )
