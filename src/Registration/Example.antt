-- ===== src/Registration/Example.antt =====
-- One command, for a platform with two assets, of which one has an object.
use Prim.Native.String.{String}
use clean_data_platform_airf.Prelude.{true, false, none, some, [], ◌∷◌}
use clean_data_platform_airf.Errors.{ok, or_else}
use clean_data_platform_airf.Extraction.Json.{null, text, number, nil, end, field}
use clean_data_platform_airf.Assets.Asset.{DataAsset, active}
use clean_data_platform_airf.Objects.Element.{DataObject, create_from_discovery}
use clean_data_platform_airf.Pipelines.Config.{duckdb, incremental}
use clean_data_platform_airf.Pipelines.Watermark.{integer}
use clean_data_platform_airf.Registration.Values.{Python}
use clean_data_platform_airf.Registration.Members.{ingestion, cron}
use clean_data_platform_airf.Registration.Aggregate.{
  Pipeline, ComputeConfig, AirflowConfig, ExtractionConfig,
}
use clean_data_platform_airf.Registration.UseCase.{Command, Tables, Ports, written, assembled}
use clean_data_platform_airf.Registration.Outcome.{changes}

abbrev pub python : Python
python = record {
  int_text = λ s. none;
  str_of = λ v. "None";
  repr = λ v. "?";
  cron_error = λ s. none;
  reads = λ t s. true;
}

abbrev pub command : Command
command = record {
  name = "orders";
  pipeline_type = "ingestion";
  owner_email = "team@example.org";
  source_asset_name = "erp";
  cron_schedule = "0 6 * * *";
  destination_asset_name = "dwh";
  destination_objects = record { object_name = some "orders"; others = end } ∷ [];
  source_objects =
      record {
        object_name = some "sales.orders";
        others =
            field "load_strategy" (text "incremental")
              (field "watermark_column" (text "id") (field "watermark_type" (text "integer") end));
      }
      ∷ [];
  compute = field "num_workers" (number 2) end;
  quality_rules = [];
  airflow_config = end;
}

abbrev pub compute : ComputeConfig
compute = record {
  engine = duckdb;
  num_workers = 2;
  machine_type = "n1-standard-2";
  staging_bucket = "";
  select = "";
  source_type = "";
  credential_ref = "";
  driver = "";
  endpoint = "";
  records_path = "";
  format_ = "";
  multiline = false;
}

abbrev pub airflow : AirflowConfig
airflow = record {
  retries = 3;
  retry_delay_minutes = 5;
  execution_timeout_minutes = 120;
  sla_minutes = 90;
  tags = nil;
  pool = "default_pool";
}

abbrev pub source : ExtractionConfig
source = record {
  object_name = "sales.orders";
  load_strategy = incremental;
  watermark_column = text "id";
  watermark_type = some integer;
  watermark_initial_value = null;
  page_size = 1000;
  partition_column = null;
  compression = text "snappy";
  encoding = text "utf-8";
  extraction_query = null;
  credential_ref = null;
  sensor = none;
}

abbrev pub pipeline : Pipeline
pipeline =
    assembled python "p1" command
      (record { mode = cron; cron_schedule = some "0 6 * * *"; depends_on = [] }) (source ∷ [])
      ingestion "team@example.org" compute [] airflow

abbrev pub asset : String → String → DataAsset
asset i name = record {
  id = i;
  name = name;
  description = "";
  owner = "team@example.org";
  tags = [];
  policy_tags = [];
  state = active;
  discovery_schedule = "";
  discovery_scope = record { include = []; exclude = [] };
  endpoint_id = none;
  updated_at = 0;
}

abbrev pub orders : DataObject
orders = create_from_discovery "o1" "a1" "orders" ""

abbrev pub tables : Tables
tables = record {
  assets = asset "a1" "erp" ∷ asset "a2" "dwh" ∷ [];
  store = record { objects = orders ∷ []; elements = []; created = 0 };
  pipelines = [];
  links = [];
  audit_logs = [];
}

abbrev pub ports : Ports
ports = record {
  flush = λ t. ok tt;
  dwh_provisioner = none;
  yaml_generator = none;
  dag_generator = none;
  dags_path = "/dags";
  mkdir = λ path. ok tt;
  write_text = λ path code. written;
  pipeline_id = "p1";
  new_object_id = λ n. "o2";
  new_element_id = λ n. "e";
}

abbrev pub registered_tables : Tables
registered_tables = or_else tables (changes python ports command pipeline tables)
