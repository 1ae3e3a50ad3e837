-- ===== src/Registration/Tests.antt =====
-- The theorems about registering pipelines at one command for a platform with two assets.
use clean_data_platform_airf.Prelude.{
  ◌≡◌, refl, true, none, some, [], ◌∷◌, All, strip, lstrip, rstrip, is_blank, format,
}
use clean_data_platform_airf.Prelude.Marks.{marks, marks_distinct}
use clean_data_platform_airf.Prelude.Dict.{lookup, insert, dict_by, insert_all}
use clean_data_platform_airf.Errors.{ok, err, is_err, or_else, value_error}
use clean_data_platform_airf.Extraction.Json.{get}
use clean_data_platform_airf.Persistence.UnitOfWork.{new_uow}
use clean_data_platform_airf.Pipelines.Config.{
  validate_invariants, check_sources, check_source, check_incremental, check_initial, check_sensor,
}
use clean_data_platform_airf.Registration.Values.{
  find, cron_schedule, count_words, email_address, has_at,
}
use clean_data_platform_airf.Registration.Defaults.{platform_defaults}
use clean_data_platform_airf.Registration.Aggregate.{new_pipeline}
use clean_data_platform_airf.Registration.Normalizer.{
  normalize_compute, normalize_extraction, normalize_source, normalize_quality_rules,
  normalize_airflow, normalize_destination_objects,
}
use clean_data_platform_airf.Registration.Repository.{to_model}
use clean_data_platform_airf.Registration.Repository.Reading.{
  to_domain, find_pipeline_by_name, PipelineObjectRow, row_by_name, link_object,
}
use clean_data_platform_airf.Registration.Repository.RoundTrip.{restored, to_domain-to_model}
use clean_data_platform_airf.Registration.UseCase.{
  Ports, torn, prepare, build_schedule_config, resolve_asset,
}
use clean_data_platform_airf.Registration.Destinations.{
  first_named, link_names, provision_destination_objects, provision_objects, add_missing,
  link_objects, last_part, has_dot,
}
use clean_data_platform_airf.Registration.Transaction.{
  register, provision, write_dag_file, dag_source,
}
use clean_data_platform_airf.Registration.Outcome.{changes, register_lem}
use clean_data_platform_airf.Registration.Once.{register_once}
use clean_data_platform_airf.Registration.Succeeds.{
  register_succeeds, registered_tables as all_tables,
}
use clean_data_platform_airf.Registration.Links.{
  links_of, IsLinked, link_names-keeps, link_names-IsLinked,
}
use clean_data_platform_airf.Registration.Schedule.{schedule_config}
use clean_data_platform_airf.Assets.Table.{find_by_name}
use clean_data_platform_airf.Objects.Repository.{
  save_object, save_row, save_elements, find_by_asset_id,
}
use clean_data_platform_airf.Registration.Built.{prepare-IsBuilt}
use clean_data_platform_airf.Objects.Service.{find_row, Objects}
use clean_data_platform_airf.Registration.Provisioned.{
  IsPlaced, provision_destination_objects-IsPlaced,
}
use clean_data_platform_airf.Registration.Example.{
  python, command, pipeline, asset, orders, tables, ports, registered_tables,
}
use clean_data_platform_airf.Pipelines.Trigger.{safe_name}

-- The new object of the destination, and both links.
links_made :
    registered_tables.links
    ≡ record { pipeline_id = "p1"; object_id = "o1"; role_in_pipeline = "source" }
      ∷ record { pipeline_id = "p1"; object_id = "o2"; role_in_pipeline = "destination" }
      ∷ []
unfolding changes find_pipeline_by_name row_by_name resolve_asset find_by_name provision
    provision_destination_objects provision_objects add_missing save_object save_row save_elements
    find_by_asset_id link_objects link_names first_named last_part has_dot link_object format
    to_model dict_by insert_all
links_made = refl

prepared : prepare python platform_defaults "p1" command ≡ ok pipeline
unfolding prepare build_schedule_config cron_schedule count_words strip lstrip rstrip is_blank
    schedule_config normalize_extraction normalize_source find get lookup email_address has_at
    normalize_compute normalize_quality_rules normalize_airflow normalize_destination_objects
    new_pipeline validate_invariants check_sources check_source check_incremental check_initial
    check_sensor
prepared = refl

made : changes python ports command pipeline tables ≡ ok registered_tables
unfolding changes find_pipeline_by_name row_by_name resolve_asset find_by_name provision
    provision_destination_objects provision_objects add_missing save_object save_row save_elements
    find_by_asset_id link_objects link_names first_named last_part has_dot link_object format
    to_model dict_by insert_all
made = refl

unregistered : find_pipeline_by_name python "orders" tables.pipelines ≡ ok none
unfolding find_pipeline_by_name row_by_name
unregistered = refl

registered :
    register python platform_defaults ports command (new_uow tables, [])
    ≡ ((new_uow registered_tables, []), ok pipeline)
registered = rw (register_lem python platform_defaults ports command tables [], prepared, made) refl

register_succeeds_example :
    register python platform_defaults ports command (new_uow tables, [])
    ≡ ((new_uow (all_tables ports command pipeline tables), []), ok pipeline)
unfolding resolve_asset find_by_name
register_succeeds_example =
    register_succeeds python platform_defaults ports command tables [] pipeline (asset "a1" "erp")
      refl refl prepared unregistered refl refl (refl, (refl, (refl, (refl, (refl, tt)))))

-- A write that breaks off leaves a part of the file.
abbrev breaking : Ports
breaking = record ports { write_text = λ path code. torn "from" (value_error "no space left") }

broken_off :
    write_dag_file breaking pipeline (λ p. ok "yaml") (λ y. ok "from airflow import DAG") []
    ≡ (("/dags/dag_p_orders.py", "from") ∷ [], err (value_error "no space left"))
unfolding write_dag_file dag_source safe_name format insert
broken_off = refl

register_once_example :
    (find_pipeline_by_name python "orders" registered_tables.pipelines
      ≡ ok (some (restored pipeline)))
    × ((register python platform_defaults ports command (new_uow registered_tables, [])).0
        ≡ (new_uow registered_tables, []))
    × (is_err (register python platform_defaults ports command (new_uow registered_tables, [])).1
        ≡ true)
register_once_example =
    register_once python platform_defaults ports ports command command tables registered_tables []
      [] [] pipeline registered refl

to_domain-to_model_example : to_domain python (to_model pipeline) ≡ ok (restored pipeline)
to_domain-to_model_example =
    to_domain-to_model python pipeline
      (prepare-IsBuilt python platform_defaults "p1" command pipeline prepared).0

link_names-IsLinked_example :
    All
      (λ name.
        IsLinked "p1"
          (link_names "p1" "source" (orders ∷ []) ("sales.orders" ∷ []) [])
          (first_named name (orders ∷ [])))
      ("sales.orders" ∷ [])
link_names-IsLinked_example =
    link_names-IsLinked "p1" "source" (orders ∷ []) ("sales.orders" ∷ []) []

abbrev as_source : PipelineObjectRow
as_source = record { pipeline_id = "p1"; object_id = "o1"; role_in_pipeline = "source" }

link_names-keeps_example :
    links_of "p1" "o1"
      (link_names "p1" "destination" (orders ∷ []) ("orders" ∷ []) (as_source ∷ []))
    ≡ links_of "p1" "o1" (as_source ∷ [])
link_names-keeps_example =
    link_names-keeps "p1" "destination" "p1" "o1" (orders ∷ []) ("orders" ∷ []) (as_source ∷ [])
      refl

abbrev no_objects : Objects
no_objects = record { objects = []; elements = []; created = 0 }

abbrev marking : Ports
marking = record ports { new_object_id = marks }

abbrev provisioned : Objects
provisioned = or_else no_objects (
    provision_destination_objects marking "dwh" (some (asset "a2" "dwh")) "orders"
      pipeline.destination_objects no_objects)

provision_destination_objects-IsPlaced_example :
    All (IsPlaced (asset "a2" "dwh") provisioned) pipeline.destination_objects
unfolding provision_destination_objects provision_objects add_missing save_object save_row
    save_elements find_by_asset_id normalize_destination_objects find get dict_by insert_all format
    find_row marks
provision_destination_objects-IsPlaced_example =
    provision_destination_objects-IsPlaced marking (asset "a2" "dwh") "dwh" "orders"
      pipeline.destination_objects no_objects provisioned marks_distinct (λ m. refl) refl
