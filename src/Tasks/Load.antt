-- ===== src/Tasks/Load.antt =====
-- ingestion_callbacks.py, `load_to_data_warehouse` and `post_load_validation`: the load, and whether
-- what was loaded is what was extracted. The vault, the loader and the percentage in a message are
-- parameters; the connection's metadata only pass through to the loader and are left out. The
-- quotient of the row counts is compared exactly: the code divides in doubles, which agrees with
-- `varies` for counts below 2^40, and beyond only if the quotient is not next to 0.005.
use clean_data_platform_airf.Prelude.{
  ℕ, ◌+◌, ◌-◌, ◌*◌, String, Bool, true, false, not, ◌&&◌, Option, none, some, [], ◌∷◌, ◌==◌,
  if◌then◌else◌, format, is_text, ltb,
}
use clean_data_platform_airf.Errors.{Result, ok, err, runtime_error, value_error, ◌>>=◌}

pub record Loaded : Type 0 where
  pub loaded : Bool
  pub rows_loaded : ℕ
  pub engine : String

pub record LoadRequest : Type 0 where
  pub staging_path : Option String
  pub schema_path : Option String
  pub engine_type : String
  pub file_format : String
  pub auth_method : String
  pub credential_ref : Option String

abbrev text_of : Option String → String
text_of none = ""
text_of (some s) = s

-- What the task takes from outside: credentials are opaque, and a loader answers with the number of
-- rows and its engine.
pub record LoadPorts (C : Type 0) : Type 0 where
  pub resolve_vault_credentials : String → Result C
  pub load : String → String → String → String → Option C → Result (ℕ × String)

module _ {C : Type 0} (ports : LoadPorts C) where
  abbrev resolved : Bool → String → Result (Option C)
  resolved false ref = ok none
  resolved true ref = ports.resolve_vault_credentials ref >>= λ c. ok (some c)

  unfoldable pub load_to_data_warehouse : LoadRequest → Result Loaded
  load_to_data_warehouse q =
      let path = text_of q.staging_path in
      if not (is_text path)
      then ok (record { loaded = false; rows_loaded = 0; engine = q.engine_type })
      else if not (is_text q.engine_type)
      then err (
          value_error
            "engine_type is required for load_to_data_warehouse. Set it explicitly in the pipeline compute_config.")
      else (resolved (q.auth_method == "vault" && is_text (text_of q.credential_ref))
            (text_of q.credential_ref)
          >>= λ credentials.
              ports.load q.engine_type path (text_of q.schema_path) q.file_format credentials
              >>= λ result.
                  ok (record { loaded = true; rows_loaded = result.0; engine = result.1 }))

-- `abs(a - b)`
abbrev pub distance : ℕ → ℕ → ℕ
distance a b = (a - b) + (b - a)

-- `expected_rows > 0` and `abs(actual_rows - expected_rows) / expected_rows > 0.005`
abbrev pub varies : ℕ → ℕ → Bool
varies expected actual = ltb 0 expected && ltb expected (200 * distance actual expected)

abbrev pub differ : Option String → Option String → Bool
differ none destination = false
differ (some source) none = false
differ (some source) (some destination) =
    is_text source && is_text destination && not (source == destination)

module _ (render : ℕ → String) (percent : ℕ → ℕ → String) where
  unfoldable pub post_load_validation : ℕ → ℕ → Option String → Option String → Result (Unit {0})
  post_load_validation expected_rows actual_rows source_checksum destination_checksum =
      if varies expected_rows actual_rows
      then err (
          runtime_error (
            format (
              "post_load_validation failed: expected "
              ∷ render expected_rows
              ∷ " rows, got "
              ∷ render actual_rows
              ∷ " ("
              ∷ percent (distance actual_rows expected_rows) expected_rows
              ∷ " delta exceeds 0.5% threshold)."
              ∷ [])))
      else if differ source_checksum destination_checksum
      then err (
          runtime_error
            "post_load_validation failed: checksum mismatch between source and destination.")
      else ok tt
