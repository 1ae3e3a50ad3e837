-- ===== src/Discovery/Execution/Tests.antt =====
-- The theorems about provisioning and about a whole discovery at a platform with one asset.
use clean_data_platform_airf.Prelude.{ℕ, String, true, false, none, some, List, [], ◌∷◌}
use clean_data_platform_airf.Errors.{Result, ok}
use clean_data_platform_airf.Persistence.UnitOfWork.{new_uow}
use clean_data_platform_airf.Persistence.Endpoints.{Endpoint, database_endpoint}
use clean_data_platform_airf.Assets.Asset.{DataAsset, active}
use clean_data_platform_airf.Objects.Element.{DataObject, create_from_discovery}
use clean_data_platform_airf.Objects.Service.{Objects}
use clean_data_platform_airf.Discovery.Schema.{SchemaSnapshot}
use clean_data_platform_airf.Discovery.Execution.{Tables, Ports, Request, initialize}
use clean_data_platform_airf.Discovery.Execution.UseCase.{run_discovery}
use clean_data_platform_airf.Discovery.Execution.Outcome.{Leaves, outcome, run_discovery-Leaves}

abbrev ids : String → ℕ → String
ids prefix n = prefix

abbrev snapshot : String → SchemaSnapshot
snapshot name = record {
  object_id = "unknown";
  fields =
      record {
        name = "id";
        source_type = "int8";
        normalized_type = "bigint";
        nullable = false;
        is_primary_key = true;
        description = none;
      }
      ∷ [];
  captured_at = 7;
  object_name = name;
  row_count_estimate = none;
}

abbrev orders : DataObject
orders = create_from_discovery "o1" "a1" "orders" ""

abbrev objects : Objects
objects = record { objects = orders ∷ []; elements = []; created = 0 }

abbrev source : Endpoint
source = record {
  id = "db";
  name = "warehouse";
  credential_ref = "vault/db";
  technical_description = "";
  subtype_data = database_endpoint;
}

abbrev asset : DataAsset
asset = record {
  id = "a1";
  name = "sales";
  description = "";
  owner = "team@example.org";
  tags = [];
  policy_tags = [];
  state = active;
  discovery_schedule = "";
  discovery_scope = record { include = []; exclude = [] };
  endpoint_id = some "db";
  updated_at = 0;
}

abbrev tables : Tables
tables = record {
  assets = asset ∷ [];
  endpoints = source ∷ [];
  store = record { objects = objects; approvals = []; runs = [] };
}

abbrev ports : Result (List SchemaSnapshot) → Ports
ports found = record {
  create = λ endpoint. ok (λ asset_id include exclude connection. found);
  new_id = ids "e";
  new_object_id = ids "o2";
  new_approval_id = ids "p";
}

abbrev request : Request
request = record {
  asset_id = none;
  triggered_by = "system";
  asset_name = some "sales";
  run_id = "r1";
  started_at = 10;
  completed_at = 20;
  failed_at = 30;
}

run_discovery-Leaves_example :
    Leaves
      (outcome (ports (ok (snapshot "items" ∷ []))) request tables (initialize request tables))
      (run_discovery (ports (ok (snapshot "items" ∷ []))) request (new_uow tables, none))
run_discovery-Leaves_example =
    run_discovery-Leaves (ports (ok (snapshot "items" ∷ []))) request tables
