-- ===== src/Persistence/EndpointRoundTrip.antt =====
-- sql_endpoint_repository.py: an endpoint comes back from its row.
use clean_data_platform_airf.Prelude.{◌≡◌, refl, String}
use clean_data_platform_airf.Prelude.Dict.{lookup}
use clean_data_platform_airf.Errors.{ok}
use clean_data_platform_airf.Persistence.Endpoints.{
  Subtype, database_endpoint, nosql_endpoint, rest_api_endpoint, sftp_endpoint,
  cloud_bucket_endpoint, etl_flow_endpoint, file_system_endpoint, Endpoint, endpoint_type,
}
use clean_data_platform_airf.Persistence.EndpointRows.{
  check_keywords, to_subtype, to_endpoint_row, to_endpoint,
}
use clean_data_platform_airf.Registration.Values.{Python, find, credential_reference}

module _ (py : Python) (i name ref description : String)
    (valid : credential_reference py ref ≡ ok ref) where
  abbrev endpoint_with : Subtype → Endpoint
  endpoint_with s = record {
    id = i;
    name = name;
    credential_ref = ref;
    technical_description = description;
    subtype_data = s;
  }

  to_endpoint-with :
      (s : Subtype) → to_endpoint py (to_endpoint_row (endpoint_with s)) ≡ ok (endpoint_with s)
  unfolding to_endpoint to_endpoint_row endpoint_type check_keywords to_subtype find lookup
  to_endpoint-with database_endpoint = rw valid refl
  to_endpoint-with nosql_endpoint = rw valid refl
  to_endpoint-with (rest_api_endpoint base_url auth_type headers_ref) = rw valid refl
  to_endpoint-with (sftp_endpoint host port root_path private_key_ref) = rw valid refl
  to_endpoint-with (cloud_bucket_endpoint provider bucket prefix region) = rw valid refl
  to_endpoint-with (etl_flow_endpoint tool flow_id) = rw valid refl
  to_endpoint-with (file_system_endpoint root_path) = rw valid refl

-- An endpoint of any subclass whose credential path is valid is read back from its row as it was.
pub to_endpoint-to_endpoint_row :
    (py : Python) (e : Endpoint)
    → credential_reference py e.credential_ref ≡ ok e.credential_ref
    → to_endpoint py (to_endpoint_row e) ≡ ok e
to_endpoint-to_endpoint_row py e h =
    to_endpoint-with py e.id e.name e.credential_ref e.technical_description h e.subtype_data
