-- ===== src/Persistence/EndpointRows.antt =====
-- app/infrastructure/persistence/repositories/sql_endpoint_repository.py: the rows of endpoints, with
-- the fields of the subclass as JSON. A field of another JSON type than the subclass declares, which
-- no row that `save` wrote has, is refused here.
use clean_data_platform_airf.Prelude.{
  ℕ, String, Option, none, some, List, [], ◌∷◌, ◌++◌, ◌==◌, if◌then◌else◌, format, contains,
}
use clean_data_platform_airf.Errors.{Result, ok, err, type_error, ◌>>=◌}
use clean_data_platform_airf.Extraction.Json.{Value, Fields, number, text, end, field}
use clean_data_platform_airf.Persistence.Endpoints.{
  EndpointType, database, rest_api, sftp, cloud_bucket, etl_flow, nosql, file_system, Subtype,
  database_endpoint, nosql_endpoint, rest_api_endpoint, sftp_endpoint, cloud_bucket_endpoint,
  etl_flow_endpoint, file_system_endpoint, Endpoint, endpoint_type,
}
use clean_data_platform_airf.Registration.Values.{Python, find, credential_reference}
use clean_data_platform_airf.Registration.Members.{member}

-- `EndpointModel`
pub record EndpointRow : Type 0 where
  pub id : String
  pub name : String
  pub type_ : String
  pub credential_ref : String
  pub technical_description : String
  pub subtype_data : Fields

abbrev pub endpoint_type_value : EndpointType → String
endpoint_type_value database = "database"
endpoint_type_value rest_api = "rest_api"
endpoint_type_value sftp = "sftp"
endpoint_type_value cloud_bucket = "cloud_bucket"
endpoint_type_value etl_flow = "etl_flow"
endpoint_type_value nosql = "nosql"
endpoint_type_value file_system = "file_system"

abbrev pub to_endpoint_type : Python → Value → Result EndpointType
to_endpoint_type = member "EndpointType" (
    ("database", database)
    ∷ ("rest_api", rest_api)
    ∷ ("sftp", sftp)
    ∷ ("cloud_bucket", cloud_bucket)
    ∷ ("etl_flow", etl_flow)
    ∷ ("nosql", nosql)
    ∷ ("file_system", file_system)
    ∷ [])

-- `all_fields` of `_to_model`
abbrev pub all_fields : Subtype → Fields
all_fields database_endpoint = end
all_fields nosql_endpoint = end
all_fields (rest_api_endpoint base_url auth_type headers_ref) =
    field "base_url" (text base_url)
      (field "auth_type" (text auth_type) (field "headers_ref" (text headers_ref) end))
all_fields (sftp_endpoint host port root_path private_key_ref) = field "host" (text host) (
    field "port" (number port)
      (field "root_path" (text root_path) (field "private_key_ref" (text private_key_ref) end)))
all_fields (cloud_bucket_endpoint provider bucket prefix region) =
    field "provider" (text provider) (
      field "bucket" (text bucket)
        (field "prefix" (text prefix) (field "region" (text region) end)))
all_fields (etl_flow_endpoint tool flow_id) =
    field "tool" (text tool) (field "flow_id" (text flow_id) end)
all_fields (file_system_endpoint root_path) = field "root_path" (text root_path) end

-- `_to_model`
unfoldable pub to_endpoint_row : Endpoint → EndpointRow
unfolding endpoint_type
to_endpoint_row e = record {
  id = e.id;
  name = e.name;
  type_ = endpoint_type_value (endpoint_type e);
  credential_ref = e.credential_ref;
  technical_description = e.technical_description;
  subtype_data = all_fields e.subtype_data;
}

abbrev pub field_names : EndpointType → List String
field_names database = []
field_names nosql = []
field_names rest_api = "base_url" ∷ "auth_type" ∷ "headers_ref" ∷ []
field_names sftp = "host" ∷ "port" ∷ "root_path" ∷ "private_key_ref" ∷ []
field_names cloud_bucket = "provider" ∷ "bucket" ∷ "prefix" ∷ "region" ∷ []
field_names etl_flow = "tool" ∷ "flow_id" ∷ []
field_names file_system = "root_path" ∷ []

-- The constructor takes no other keyword.
unfoldable pub check_keywords : List String → Fields → Result (Unit {0})
check_keywords names end = ok tt
check_keywords names (field key value rest) =
    let others = check_keywords names rest in
    if contains key names
    then others
    else err
        (type_error (format ("__init__() got an unexpected keyword argument '" ∷ key ∷ "'" ∷ [])))

abbrev pub text_given : String → Option Value → Result String
text_given default none = ok default
text_given default (some (text s)) = ok s
text_given default (some _) = err (type_error "expected str")

abbrev pub number_given : ℕ → Option Value → Result ℕ
number_given default none = ok default
number_given default (some (number n)) = ok n
number_given default (some _) = err (type_error "expected int")

-- The subclass with its defaults.
unfoldable pub to_subtype : EndpointType → Fields → Result Subtype
unfolding find
to_subtype database kwargs = ok database_endpoint
to_subtype nosql kwargs = ok nosql_endpoint
to_subtype rest_api kwargs = do
  base_url ← text_given "" (find "base_url" kwargs)
  auth_type ← text_given "" (find "auth_type" kwargs)
  headers_ref ← text_given "" (find "headers_ref" kwargs)
  ok (rest_api_endpoint base_url auth_type headers_ref)
to_subtype sftp kwargs = do
  host ← text_given "" (find "host" kwargs)
  port ← number_given 22 (find "port" kwargs)
  root_path ← text_given "/" (find "root_path" kwargs)
  private_key_ref ← text_given "" (find "private_key_ref" kwargs)
  ok (sftp_endpoint host port root_path private_key_ref)
to_subtype cloud_bucket kwargs = do
  provider ← text_given "" (find "provider" kwargs)
  bucket ← text_given "" (find "bucket" kwargs)
  prefix ← text_given "" (find "prefix" kwargs)
  region ← text_given "" (find "region" kwargs)
  ok (cloud_bucket_endpoint provider bucket prefix region)
to_subtype etl_flow kwargs = do
  tool ← text_given "" (find "tool" kwargs)
  flow_id ← text_given "" (find "flow_id" kwargs)
  ok (etl_flow_endpoint tool flow_id)
to_subtype file_system kwargs = do
  root_path ← text_given "" (find "root_path" kwargs)
  ok (file_system_endpoint root_path)

module _ (py : Python) where
  -- `_to_domain`
  unfoldable pub to_endpoint : EndpointRow → Result Endpoint
  to_endpoint m = do
    credential_ref ← credential_reference py m.credential_ref
    t ← to_endpoint_type py (text m.type_)
    _ ← check_keywords (field_names t) m.subtype_data
    subtype ← to_subtype t m.subtype_data
    ok (record {
      id = m.id;
      name = m.name;
      credential_ref = credential_ref;
      technical_description = m.technical_description;
      subtype_data = subtype;
    })

  -- `SqlEndpointRepository.save`, with the endpoint read back
  unfoldable pub save_endpoint : Endpoint → List EndpointRow → Result (List EndpointRow × Endpoint)
  save_endpoint e rows = do
    e' ← to_endpoint (to_endpoint_row e)
    ok (rows ++ to_endpoint_row e ∷ [], e')

  unfoldable pub endpoint_row_by_name : String → List EndpointRow → Option EndpointRow
  endpoint_row_by_name name [] = none
  endpoint_row_by_name name (row ∷ rows) =
      if row.name == name then some row else endpoint_row_by_name name rows

  abbrev pub read_endpoint : Option EndpointRow → Result (Option Endpoint)
  read_endpoint none = ok none
  read_endpoint (some m) = to_endpoint m >>= λ e. ok (some e)

  -- `find_by_name`, where names are unique
  unfoldable pub find_endpoint_by_name : String → List EndpointRow → Result (Option Endpoint)
  find_endpoint_by_name name rows = read_endpoint (endpoint_row_by_name name rows)
