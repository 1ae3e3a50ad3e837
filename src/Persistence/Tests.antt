-- ===== src/Persistence/Tests.antt =====
-- The theorems about the unit of work at small programs over a list of numbers.
use clean_data_platform_airf.Prelude.{
  ℕ, ◌≡◌, List, [], ◌∷◌, none, true, strip, lstrip, rstrip, is_blank, refl,
}
use clean_data_platform_airf.Errors.{Result, ok, err, value_error}
use clean_data_platform_airf.Persistence.UnitOfWork.{within, new_uow}
use clean_data_platform_airf.Persistence.UnitOfWork.Nested.{
  Program, done, raises, writes, commits, block, run, meaning, closed, within-run,
}
use clean_data_platform_airf.Persistence.Endpoints.{Endpoint, cloud_bucket_endpoint}
use clean_data_platform_airf.Persistence.EndpointRows.{to_endpoint, to_endpoint_row}
use clean_data_platform_airf.Persistence.EndpointRoundTrip.{to_endpoint-to_endpoint_row}
use clean_data_platform_airf.Registration.Values.{Python, credential_reference}

abbrev adds : ℕ → List ℕ → Result (List ℕ)
adds n rows = ok (n ∷ rows)

-- A commit, a nested block, and an exception at the end.
abbrev program : Program (List ℕ)
program =
    writes (adds 1)
      (block (writes (adds 2) (commits (writes (adds 3) done))) (raises (value_error "stop")))

program_runs :
    within (run program) (new_uow [], tt) ≡ ((new_uow (2 ∷ 1 ∷ []), tt), err (value_error "stop"))
unfolding meaning
program_runs = within-run program []

within-run_example : within (run program) (new_uow [], tt) ≡ closed (meaning program [] [])
within-run_example = within-run program []

abbrev bucket : Endpoint
bucket = record {
  id = "b1";
  name = "lake";
  credential_ref = "vault/lake";
  technical_description = "";
  subtype_data = cloud_bucket_endpoint "gcs" "lake" "raw/" "eu";
}

abbrev python_of_paths : Python
python_of_paths = record {
  int_text = λ s. none;
  str_of = λ v. "";
  repr = λ v. "";
  cron_error = λ s. none;
  reads = λ t s. true;
}

to_endpoint-to_endpoint_row_example :
    to_endpoint python_of_paths (to_endpoint_row bucket) ≡ ok bucket
unfolding credential_reference strip lstrip rstrip is_blank
to_endpoint-to_endpoint_row_example = to_endpoint-to_endpoint_row python_of_paths bucket refl
