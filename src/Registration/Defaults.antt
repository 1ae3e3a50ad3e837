-- ===== src/Registration/Defaults.antt =====
-- app/domain/shared/platform_defaults.py: the defaults that a pipeline's normalizer takes. The groups
-- for storage, databases, REST APIs, destinations, rejected rows and OmniBeam are left out, which
-- `from_settings` fills with constants.
use clean_data_platform_airf.Prelude.{ℕ, String}

pub record AirflowDefaults : Type 0 where
  pub retries : ℕ
  pub retry_delay_minutes : ℕ
  pub execution_timeout_minutes : ℕ
  pub sla_minutes : ℕ
  pub pool : String

pub record ExtractionDefaults : Type 0 where
  pub page_size : ℕ
  pub compression : String
  pub encoding : String
  pub load_strategy : String

pub record ComputeDefaults : Type 0 where
  pub num_workers : ℕ
  pub machine_type : String
  pub default_engine : String

pub record PlatformDefaults : Type 0 where
  pub airflow : AirflowDefaults
  pub extraction : ExtractionDefaults
  pub compute : ComputeDefaults

-- `PlatformDefaults()`
abbrev pub platform_defaults : PlatformDefaults
platform_defaults = record {
  airflow = record {
    retries = 3;
    retry_delay_minutes = 5;
    execution_timeout_minutes = 120;
    sla_minutes = 90;
    pool = "default_pool";
  };
  extraction = record {
    page_size = 1000;
    compression = "snappy";
    encoding = "utf-8";
    load_strategy = "full_load";
  };
  compute = record { num_workers = 1; machine_type = "n1-standard-2"; default_engine = "duckdb" };
}
