-- ===== src/Registration/Normalizer.antt =====
-- app/application/pipelines/pipeline_normalizer.py: configurations from the dictionaries of a
-- request or of a row. The name of an object is a text, as the request's schema demands, so an item
-- is its name, if it has one, beside its other keys.
use clean_data_platform_airf.Prelude.{
  ℕ, String, true, false, Option, none, some, List, [], ◌∷◌, if◌then◌else◌, is_text,
}
use clean_data_platform_airf.Errors.{Result, ok, err, key_error, ◌>>=◌}
use clean_data_platform_airf.Extraction.Json.{
  Value, Fields, boolean, number, text, array, object, nil, end, field, get, is_truthy,
}
use clean_data_platform_airf.Pipelines.Watermark.{WatermarkType}
use clean_data_platform_airf.Registration.Values.{Python, find, value_or, int, str, tuple}
use clean_data_platform_airf.Registration.Members.{
  to_load_strategy, to_watermark_type, to_compute_engine, to_rule_type,
}
use clean_data_platform_airf.Registration.Defaults.{PlatformDefaults}
use clean_data_platform_airf.Registration.Aggregate.{
  ExtractionConfig, DestinationObjectConfig, ComputeConfig, AirflowConfig, QualityRule,
}

pub record Item : Type 0 where
  pub object_name : Option String
  pub others : Fields

-- `{**config, **raw}`, for looking keys up
abbrev pub append_fields : Fields → Fields → Fields
append_fields end others = others
append_fields (field key value rest) others = field key value (append_fields rest others)

abbrev pub with_config : Fields → Value → Fields
with_config raw (object config) = append_fields raw config
with_config raw _ = raw

-- `item[key]`
abbrev pub required : String → Option Value → Result Value
required key none = err (key_error key)
required key (some v) = ok v

abbrev pub required_name : Option String → Result String
required_name none = err (key_error "object_name")
required_name (some name) = ok name

module _ (py : Python) where
  -- `WatermarkType(...) if item.get("watermark_type") else None`
  abbrev pub watermark_type_of : Value → Result (Option WatermarkType)
  watermark_type_of v =
      if is_truthy v then (to_watermark_type py v >>= λ t. ok (some t)) else ok none

  unfoldable pub normalize_rule : Fields → Result QualityRule
  unfolding find get
  normalize_rule item = do
    given ← required "type" (find "type" item)
    t ← to_rule_type py given
    ok (record { type_ = t; column = get "column" item; value = get "value" item })

  -- `normalize_quality_rules`
  unfoldable pub normalize_quality_rules : List Fields → Result (List QualityRule)
  unfolding normalize_rule
  normalize_quality_rules [] = ok []
  normalize_quality_rules (item ∷ items) = do
    rule ← normalize_rule item
    rules ← normalize_quality_rules items
    ok (rule ∷ rules)

  abbrev pub destination_object : String → Fields → DestinationObjectConfig
  destination_object name others = record {
    object_name = name;
    create_if_not_exists = value_or (boolean true) (find "create_if_not_exists" others);
    schema_fields = get "schema_fields" others;
  }

  abbrev pub keep_named :
      Option String → Fields → List DestinationObjectConfig → List DestinationObjectConfig
  keep_named none others rest = rest
  keep_named (some name) others rest =
      if is_text name then destination_object name others ∷ rest else rest

  -- `normalize_destination_objects`
  unfoldable pub normalize_destination_objects : List Item → List DestinationObjectConfig
  unfolding find get
  normalize_destination_objects [] = []
  normalize_destination_objects (item ∷ items) =
      keep_named item.object_name item.others (normalize_destination_objects items)

module _ (d : PlatformDefaults) (py : Python) where
  abbrev pub int_or : ℕ → Option Value → Result ℕ
  int_or n given = int py (value_or (number n) given)

  abbrev pub str_or : String → Option Value → String
  str_or s given = str py (value_or (text s) given)

  unfoldable pub normalize_airflow : Fields → Result AirflowConfig
  unfolding find
  normalize_airflow raw = do
    retries ← int_or d.airflow.retries (find "retries" raw)
    retry_delay_minutes ← int_or d.airflow.retry_delay_minutes (find "retry_delay_minutes" raw)
    execution_timeout_minutes ←
        int_or d.airflow.execution_timeout_minutes (find "execution_timeout_minutes" raw)
    sla_minutes ← int_or d.airflow.sla_minutes (find "sla_minutes" raw)
    tags ← tuple (value_or (array nil) (find "tags" raw))
    ok (record {
      retries = retries;
      retry_delay_minutes = retry_delay_minutes;
      execution_timeout_minutes = execution_timeout_minutes;
      sla_minutes = sla_minutes;
      tags = tags;
      pool = str_or d.airflow.pool (find "pool" raw);
    })

  -- One round of `normalize_extraction`.
  unfoldable pub normalize_source : Item → Result ExtractionConfig
  unfolding find get
  normalize_source item = do
    name ← required_name item.object_name
    load_strategy ←
        to_load_strategy py
          (value_or (text d.extraction.load_strategy) (find "load_strategy" item.others))
    watermark_type ← watermark_type_of py (get "watermark_type" item.others)
    page_size ← int_or d.extraction.page_size (find "page_size" item.others)
    ok (record {
      object_name = name;
      load_strategy = load_strategy;
      watermark_column = get "watermark_column" item.others;
      watermark_type = watermark_type;
      watermark_initial_value = get "watermark_initial_value" item.others;
      page_size = page_size;
      partition_column = get "partition_column" item.others;
      compression = value_or (text d.extraction.compression) (find "compression" item.others);
      encoding = value_or (text d.extraction.encoding) (find "encoding" item.others);
      extraction_query = get "extraction_query" item.others;
      credential_ref = get "credential_ref" item.others;
      sensor = none;
    })

  unfoldable pub normalize_extraction : List Item → Result (List ExtractionConfig)
  unfolding normalize_source
  normalize_extraction [] = ok []
  normalize_extraction (item ∷ items) = do
    source ← normalize_source item
    sources ← normalize_extraction items
    ok (source ∷ sources)

  unfoldable pub normalize_compute : Fields → Result ComputeConfig
  unfolding find get
  normalize_compute raw = do
    let cfg = with_config raw (get "config" raw)
    engine ← to_compute_engine py (value_or (text d.compute.default_engine) (find "engine" cfg))
    num_workers ← int_or d.compute.num_workers (find "num_workers" cfg)
    ok (record {
      engine = engine;
      num_workers = num_workers;
      machine_type = str_or d.compute.machine_type (find "machine_type" cfg);
      staging_bucket = str_or "" (find "staging_bucket" cfg);
      select = str_or "" (find "select" cfg);
      source_type = str_or "" (find "source_type" cfg);
      credential_ref = str_or "" (find "credential_ref" cfg);
      driver = str_or "" (find "driver" cfg);
      endpoint = str_or "" (find "endpoint" cfg);
      records_path = str_or "" (find "records_path" cfg);
      format_ = str_or "" (find "format" cfg);
      multiline = is_truthy (value_or (boolean false) (find "multiline" cfg));
    })
