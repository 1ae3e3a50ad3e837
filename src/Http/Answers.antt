-- ===== src/Http/Answers.antt =====
-- exception_handlers.py: the answers against the classes' own words.
use clean_data_platform_airf.Prelude.{ℕ, ◌≡◌, refl, String, Option, none, some}
use clean_data_platform_airf.Prelude.Dict.{lookup}
use clean_data_platform_airf.Http.Exceptions.{
  ExceptionClass, JsonResponse, respond, find_handler, handlers, mro, problem, exception,
  domain_exception, platform_not_found_error, object_not_found_error,
  lineage_mapping_not_found_error, platform_validation_error, invalid_state_transition_error,
  destructive_override_warning, pipeline_execution_exception, data_quality_violation_exception,
  circuit_breaker_open_error, platform_unauthorized_error, platform_forbidden_error,
  unsupported_endpoint_error, catalog_publish_error, value_error, integrity_error, key_error,
}

-- The status that a class's docstring names, or that of a class which it extends.
abbrev pub documented_status : ExceptionClass → Option ℕ
documented_status exception = none
documented_status domain_exception = none
documented_status platform_not_found_error = some 404
documented_status object_not_found_error = some 404
documented_status lineage_mapping_not_found_error = some 404
documented_status platform_validation_error = some 422
documented_status invalid_state_transition_error = some 422
documented_status destructive_override_warning = some 422
documented_status pipeline_execution_exception = some 503
documented_status data_quality_violation_exception = some 409
documented_status circuit_breaker_open_error = some 503
documented_status platform_unauthorized_error = some 401
documented_status platform_forbidden_error = some 403
documented_status unsupported_endpoint_error = some 422
documented_status catalog_publish_error = none
documented_status value_error = none
documented_status integrity_error = none
documented_status key_error = none

-- The answer has a status in its head and its body, and tells a text.
abbrev pub Tells : ℕ → String → Option JsonResponse → Type 0
Tells status detail none = ⊥
Tells status detail (some r) =
    (r.status_code ≡ status) × (r.content.status ≡ status) × (r.content.detail ≡ detail)

abbrev pub AgreesWith : Option ℕ → String → Option JsonResponse → Type 0
AgreesWith none message r = Unit
AgreesWith (some status) message r = Tells status message r

-- An exception of the platform is answered with the status that its class documents, in the head
-- and in the body, and with its message.
pub respond-AgreesWith :
    (cls : ExceptionClass) (message : String)
    → AgreesWith (documented_status cls) message (respond cls message)
unfolding respond find_handler handlers mro problem lookup
respond-AgreesWith exception message = tt
respond-AgreesWith domain_exception message = tt
respond-AgreesWith platform_not_found_error message = (refl, refl, refl)
respond-AgreesWith object_not_found_error message = (refl, refl, refl)
respond-AgreesWith lineage_mapping_not_found_error message = (refl, refl, refl)
respond-AgreesWith platform_validation_error message = (refl, refl, refl)
respond-AgreesWith invalid_state_transition_error message = (refl, refl, refl)
respond-AgreesWith destructive_override_warning message = (refl, refl, refl)
respond-AgreesWith pipeline_execution_exception message = (refl, refl, refl)
respond-AgreesWith data_quality_violation_exception message = (refl, refl, refl)
respond-AgreesWith circuit_breaker_open_error message = (refl, refl, refl)
respond-AgreesWith platform_unauthorized_error message = (refl, refl, refl)
respond-AgreesWith platform_forbidden_error message = (refl, refl, refl)
respond-AgreesWith unsupported_endpoint_error message = (refl, refl, refl)
respond-AgreesWith catalog_publish_error message = tt
respond-AgreesWith value_error message = tt
respond-AgreesWith integrity_error message = tt
respond-AgreesWith key_error message = tt
