-- ===== src/Assets/Tests.antt =====
-- The assets' theorems at a table of two assets.
use clean_data_platform_airf.Assets.Registration
use clean_data_platform_airf.Assets.Registration.{
  register_asset, new_asset, register_asset-outcome, to_policy_tags,
}
use clean_data_platform_airf.Registration.Values.{
  Python, email_address, has_at, cron_schedule, count_words,
}
use clean_data_platform_airf.Prelude.{
  ◌+◌, ◌≡◌, refl, String, Option, none, some, List, [], ◌∷◌, length, strip, lstrip, rstrip,
  is_blank, ◌==◌, if◌then◌else◌, true, filter, ltb,
}
use clean_data_platform_airf.Prelude.Dict.{lookup}
use clean_data_platform_airf.Errors.{ok, or_else, err, runtime_error, Result}
use clean_data_platform_airf.Assets.Asset.{
  AssetState, draft, active, DataAsset, Call, call_activate, call_deprecate, call_archive,
  apply_call, activate, assert_valid_transition, valid_transitions, update_metadata,
}
use clean_data_platform_airf.Assets.Table.{
  find_by_id, write, fetch_and_write, update_endpoint, update_state, update,
}
use clean_data_platform_airf.Assets.UseCases.{Database, Done, activate_asset, update_asset}
use clean_data_platform_airf.Assets.Stored.{activate_asset_stored}
use clean_data_platform_airf.Persistence.UnitOfWork.{new_uow}

abbrev asset_of : String → AssetState → Option String → DataAsset
asset_of id state endpoint = record {
  id = id;
  name = id;
  description = "";
  owner = "ana@example.com";
  tags = [];
  policy_tags = [];
  state = state;
  discovery_schedule = "0 6 * * *";
  discovery_scope = record { include = "*" ∷ []; exclude = [] };
  endpoint_id = endpoint;
  updated_at = 0;
}

abbrev orders : DataAsset
orders = asset_of "orders" draft none

abbrev served : DataAsset
served = or_else orders (apply_call (call_activate " e1 " 4) orders)

orders_activated : apply_call (call_activate " e1 " 4) orders ≡ ok served
unfolding apply_call activate assert_valid_transition valid_transitions strip lstrip rstrip is_blank
orders_activated = refl

abbrev calls : List Call
calls = call_deprecate 1 ∷ call_activate " e1 " 2 ∷ call_archive 3 ∷ call_deprecate 4 ∷ []

abbrev database : Database
database = record { assets = orders ∷ asset_of "clients" active (some "e0") ∷ []; audit_logs = [] }

abbrev nothing_done : Done
nothing_done = record { database = database; sent = []; asset = orders }

abbrev activation : Done
activation = or_else nothing_done (activate_asset "orders" " e1 " 4 database)

activation_returns : activate_asset "orders" " e1 " 4 database ≡ ok activation
unfolding activate_asset find_by_id update_endpoint update_state fetch_and_write write activate
    assert_valid_transition valid_transitions strip lstrip rstrip is_blank
activation_returns = refl

activate_asset_stored_example :
    (row : DataAsset) × (find_by_id "orders" database.assets ≡ some row)
    × (row.state ≡ draft)
    × (find_by_id "clients" activation.database.assets ≡ (
        if "orders" == "clients"
        then some (record row { endpoint_id = some " e1 "; state = active })
        else find_by_id "clients" database.assets))
    × (activation.asset
        ≡ record row { endpoint_id = some (strip " e1 "); state = active; updated_at = 4 })
    × (length activation.database.audit_logs ≡ length database.audit_logs + 1)
activate_asset_stored_example =
    activate_asset_stored "orders" "clients" " e1 " 4 database activation activation_returns

abbrev edit : Done
edit = or_else nothing_done (update_asset "clients" (some "Clients") none none none 5 database)

edit_returns : update_asset "clients" (some "Clients") none none none 5 database ≡ ok edit
unfolding update_asset find_by_id update fetch_and_write write update_metadata
edit_returns = refl

abbrev no_python : Python
no_python = record {
  int_text = λ s. none;
  str_of = λ v. "";
  repr = λ v. "";
  cron_error = λ s. none;
  reads = λ t s. true;
}

abbrev new_request : Registration.Request
new_request = record {
  name = "sales";
  description = "";
  owner_email = "team@example.org";
  tags = "owner" ∷ [];
  policy_tags = "PII" ∷ [];
  discovery_schedule = "0 6 * * *";
  discovery_scope_include = [];
  discovery_scope_exclude = [];
  new_id = "a9";
  now = 0;
}

abbrev named : String → List DataAsset → List DataAsset
named name t = filter (λ (a : DataAsset). a.name == name) t

-- The database takes one asset of the name.
abbrev unique_name : List DataAsset → Result (Unit {0})
unique_name t = if ltb 1 (length (named "sales" t)) then err (runtime_error "unique") else ok tt

abbrev failing_catalog : Registration.Ports
failing_catalog = record {
  flush = unique_name;
  dwh_provisioner = none;
  catalog = λ call. err (runtime_error "catalog");
  notifications = λ call. ok tt;
}

abbrev taken : DataAsset
taken = or_else orders (new_asset no_python new_request)

-- A name that is taken is refused by the database, and nobody is called.
name_taken :
    register_asset no_python failing_catalog new_request (new_uow (taken ∷ []), [])
    ≡ ((new_uow (taken ∷ []), []), err (runtime_error "unique"))
unfolding new_asset email_address has_at to_policy_tags cron_schedule count_words strip lstrip
    rstrip is_blank lookup
name_taken = register_asset-outcome no_python failing_catalog new_request (taken ∷ []) []
