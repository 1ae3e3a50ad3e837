-- ===== src/Persistence/Endpoints.antt =====
-- app/domain/endpoints/endpoint.py with endpoint_type.py: the connections of the platform, and of
-- sql_endpoint_repository.py the lookup by id on the endpoints that the rows stand for.
use clean_data_platform_airf.Prelude.{
  ℕ, String, Option, none, some, List, [], ◌∷◌, ◌==◌, if◌then◌else◌,
}

pub data EndpointType : Type 0 where
  database rest_api sftp cloud_bucket etl_flow nosql file_system : EndpointType

-- The fields of a subclass.
pub data Subtype : Type 0 where
  database_endpoint nosql_endpoint : Subtype
  rest_api_endpoint : (base_url auth_type headers_ref : String) → Subtype
  sftp_endpoint : (host : String) (port : ℕ) (root_path private_key_ref : String) → Subtype
  cloud_bucket_endpoint : (provider bucket prefix region : String) → Subtype
  etl_flow_endpoint : (tool flow_id : String) → Subtype
  file_system_endpoint : (root_path : String) → Subtype

pub record Endpoint : Type 0 where
  pub id : String
  pub name : String
  pub credential_ref : String
  pub technical_description : String
  pub subtype_data : Subtype

-- `endpoint.type`
unfoldable pub endpoint_type : Endpoint → EndpointType
endpoint_type e = elim e.subtype_data [
  | database_endpoint ↦ database
  | nosql_endpoint ↦ nosql
  | rest_api_endpoint base_url auth_type headers_ref ↦ rest_api
  | sftp_endpoint host port root_path private_key_ref ↦ sftp
  | cloud_bucket_endpoint provider bucket prefix region ↦ cloud_bucket
  | etl_flow_endpoint tool flow_id ↦ etl_flow
  | file_system_endpoint root_path ↦ file_system
]

unfoldable pub find_endpoint : String → List Endpoint → Option Endpoint
find_endpoint endpoint_id [] = none
find_endpoint endpoint_id (row ∷ rows) =
    if row.id == endpoint_id then some row else find_endpoint endpoint_id rows
