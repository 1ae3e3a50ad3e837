-- ===== src/Registration/Succeeds.antt =====
-- register_pipeline.py: when a registration is sure to succeed.
use clean_data_platform_airf.Prelude.{
  ℕ, ◌+◌, ◌≡◌, refl, String, ◌&&◌, Option, none, some, All, List, [], ◌∷◌, arith, is_text,
  non_empty, inl, inr, Bool-cases,
}
use clean_data_platform_airf.Errors.{Result, ok, or_else}
use clean_data_platform_airf.Extraction.Json.{is_truthy}
use clean_data_platform_airf.Persistence.UnitOfWork.{new_uow}
use clean_data_platform_airf.Assets.Asset.{DataAsset, active}
use clean_data_platform_airf.Objects.Service.{Objects}
use clean_data_platform_airf.Registration.Values.{Python}
use clean_data_platform_airf.Registration.Defaults.{PlatformDefaults}
use clean_data_platform_airf.Registration.Aggregate.{Pipeline, DestinationObjectConfig}
use clean_data_platform_airf.Registration.Repository.Reading.{find_pipeline_by_name}
use clean_data_platform_airf.Registration.UseCase.{Command, Tables, Ports, prepare, resolve_asset}
use clean_data_platform_airf.Registration.Destinations.{
  add_missing, names_of, dataset_ensured, provision_objects, provision_destination_objects,
}
use clean_data_platform_airf.Registration.Transaction.{
  Files, provision, save_in, link_in, source_names, destination_names, audit_in, audit_log,
  dag_file, register,
}
use clean_data_platform_airf.Registration.Outcome.{changes, register-outcome}

-- The tables that the statements of a registration make, without what may be refused: with the
-- pipeline, the objects of its destination, the links of both sides and the audit entry.
abbrev pub provisioned_tables : Ports → Command → Pipeline → Tables → Tables
provisioned_tables ports cmd p t =
    or_else (save_in p t)
      (provision ports p (resolve_asset cmd.destination_asset_name t.assets) (save_in p t))

abbrev pub with_sources : Ports → Command → Pipeline → Tables → Tables
with_sources ports cmd p t =
    link_in p (resolve_asset cmd.source_asset_name t.assets) (source_names p) "source"
      (provisioned_tables ports cmd p t)

abbrev pub with_links : Ports → Command → Pipeline → Tables → Tables
with_links ports cmd p t =
    link_in p (resolve_asset cmd.destination_asset_name t.assets) (destination_names p)
      "destination" (with_sources ports cmd p t)

abbrev pub registered_tables : Ports → Command → Pipeline → Tables → Tables
registered_tables ports cmd p t = audit_in (audit_log cmd p) (with_links ports cmd p t)

abbrev pub stages : Ports → Command → Pipeline → Tables → List Tables
stages ports cmd p t =
    save_in p t
    ∷ provisioned_tables ports cmd p t
    ∷ with_sources ports cmd p t
    ∷ with_links ports cmd p t
    ∷ registered_tables ports cmd p t
    ∷ []

-- The result is a value.
abbrev Returns {ℓ} : {A : Type ℓ} → Result A → Type ℓ
Returns {A = A} r = (a : A) × (r ≡ ok a)

module _ (ports : Ports) (no_dwh : ports.dwh_provisioner ≡ none) where
  provision_objects-Returns :
      (n : ℕ) (dataset : String) (asset : Option DataAsset) (name : String)
      (cfgs : List DestinationObjectConfig) (existing : List String) (s : Objects)
      → Returns (provision_objects ports n dataset asset name cfgs existing s)
  unfolding provision_objects
  provision_objects-Returns n dataset asset name [] existing s = (s, refl)
  provision_objects-Returns n dataset asset name (cfg ∷ cfgs) existing s =
      elim (Bool-cases (is_truthy cfg.create_if_not_exists)) [
        | inl e ↦
            let next = add_missing ports n asset name cfg existing s in
            rw (e, no_dwh) (provision_objects-Returns (n + 1) dataset asset name cfgs next.0 next.1)
        | inr e ↦ rw e (provision_objects-Returns (n + 1) dataset asset name cfgs existing s)
      ]

  dataset_ensured-ok : (name : String) → dataset_ensured ports.dwh_provisioner name ≡ ok tt
  dataset_ensured-ok name = rw no_dwh refl

  provision-Returns :
      (p : Pipeline) (asset : Option DataAsset) (t : Tables) → Returns (provision ports p asset t)
  unfolding provision provision_destination_objects
  provision-Returns p asset t =
      let (s, h) =
        provision_objects-Returns 0 p.destination_asset_name asset p.name p.destination_objects
          (names_of asset t.store) t.store in
      elim (Bool-cases (is_text p.destination_asset_name && non_empty p.destination_objects)) [
        | inl e ↦ (
          record t { store = s },
          rw e (rw (dataset_ensured-ok p.destination_asset_name) (rw h refl)),
        )
        | inr e ↦ (t, rw e refl)
      ]

  changes-Returns :
      (py : Python) (cmd : Command) (p : Pipeline) (t : Tables)
      → find_pipeline_by_name py cmd.name t.pipelines ≡ ok none
      → All (λ s. ports.flush s ≡ ok tt) (stages ports cmd p t)
      → changes py ports cmd p t ≡ ok (registered_tables ports cmd p t)
  unfolding changes
  changes-Returns py cmd p t absent taken =
      let (made, e) =
        provision-Returns p (resolve_asset cmd.destination_asset_name t.assets) (save_in p t) in
      let taken' = rw e at taken in
      rw absent (
        rw (taken.0, e)
          (rw (taken'.1.0) (rw (taken'.1.1.0) (rw (taken'.1.1.1.0) (rw (taken'.1.1.1.1.0) refl)))))

  dag_file-unwritten :
      (p : Pipeline) (files : Files)
      → ports.dag_generator ≡ none
      → dag_file ports p ports.yaml_generator ports.dag_generator files ≡ (files, ok tt)
  dag_file-unwritten p files h = ground arith

-- Without a warehouse provisioner and a DAG generator, a command whose parts are valid, whose name no
-- pipeline has, and whose source asset is registered and ACTIVE is registered, if the database
-- refuses none of the tables that the statements make one after the other: the last of them is
-- committed and the pipeline is returned.
pub register_succeeds :
    (py : Python) (d : PlatformDefaults) (ports : Ports) (cmd : Command) (t : Tables)
    (files : Files) (p : Pipeline) (src : DataAsset)
    → ports.dwh_provisioner ≡ none
    → ports.dag_generator ≡ none
    → prepare py d ports.pipeline_id cmd ≡ ok p
    → find_pipeline_by_name py cmd.name t.pipelines ≡ ok none
    → resolve_asset cmd.source_asset_name t.assets ≡ some src
    → src.state ≡ active
    → All (λ s. ports.flush s ≡ ok tt) (stages ports cmd p t)
    → register py d ports cmd (new_uow t, files)
      ≡ ((new_uow (registered_tables ports cmd p t), files), ok p)
register_succeeds py d ports cmd t files p src no_dwh no_dag prepared absent found usable taken =
    let made = changes-Returns ports no_dwh py cmd p t absent taken in
    rw (register-outcome py d ports cmd t files src found usable)
      (rw prepared (rw made (rw (dag_file-unwritten ports no_dwh p files no_dag) refl)))
