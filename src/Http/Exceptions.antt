-- ===== src/Http/Exceptions.antt =====
-- app/infrastructure/http/exception_handlers.py with the exceptions of app/domain/shared/exceptions.py
-- and their subclasses: the answer to an exception. The framework takes the handler of the first
-- class in the exception's method resolution order that has one. Logging is left out. Only what
-- reaches the framework is looked at: a router may have made another exception of it.
use Prim.Native.Char.{code}
use Prim.Native.String
use Prim.Native.String.{String}
use clean_data_platform_airf.Prelude.{
  ℕ, Option, none, some, List, [], ◌∷◌, if◌then◌else◌, eqb, format, lower,
}
use clean_data_platform_airf.Prelude.Dict.{Dict, lookup}

pub data ExceptionClass : Type 0 where
  exception domain_exception : ExceptionClass
  platform_not_found_error object_not_found_error lineage_mapping_not_found_error : ExceptionClass
  platform_validation_error invalid_state_transition_error : ExceptionClass
  destructive_override_warning : ExceptionClass
  pipeline_execution_exception data_quality_violation_exception : ExceptionClass
  circuit_breaker_open_error platform_unauthorized_error platform_forbidden_error : ExceptionClass
  unsupported_endpoint_error catalog_publish_error : ExceptionClass
  value_error integrity_error key_error : ExceptionClass

-- The method resolution order, by the names of the classes; the classes of libraries between
-- IntegrityError or KeyError and Exception, for which nothing is registered, are left out.
unfoldable pub mro : ExceptionClass → List String
mro exception = "Exception" ∷ []
mro domain_exception = "DomainException" ∷ "Exception" ∷ []
mro platform_not_found_error = "PlatformNotFoundError" ∷ "DomainException" ∷ "Exception" ∷ []
mro object_not_found_error =
    "ObjectNotFoundError" ∷ "PlatformNotFoundError" ∷ "DomainException" ∷ "Exception" ∷ []
mro lineage_mapping_not_found_error =
    "LineageMappingNotFoundError" ∷ "PlatformNotFoundError" ∷ "DomainException" ∷ "Exception" ∷ []
mro platform_validation_error = "PlatformValidationError" ∷ "DomainException" ∷ "Exception" ∷ []
mro invalid_state_transition_error =
    "InvalidStateTransitionError" ∷ "PlatformValidationError" ∷ "DomainException" ∷ "Exception" ∷ []
mro destructive_override_warning =
    "DestructiveOverrideWarning" ∷ "PlatformValidationError" ∷ "DomainException" ∷ "Exception" ∷ []
mro pipeline_execution_exception =
    "PipelineExecutionException" ∷ "DomainException" ∷ "Exception" ∷ []
mro data_quality_violation_exception =
    "DataQualityViolationException" ∷ "DomainException" ∷ "Exception" ∷ []
mro circuit_breaker_open_error = "CircuitBreakerOpenError" ∷ "DomainException" ∷ "Exception" ∷ []
mro platform_unauthorized_error = "PlatformUnauthorizedError" ∷ "DomainException" ∷ "Exception" ∷ []
mro platform_forbidden_error = "PlatformForbiddenError" ∷ "DomainException" ∷ "Exception" ∷ []
mro unsupported_endpoint_error = "UnsupportedEndpointError" ∷ "DomainException" ∷ "Exception" ∷ []
mro catalog_publish_error = "CatalogPublishError" ∷ "DomainException" ∷ "Exception" ∷ []
mro value_error = "ValueError" ∷ "Exception" ∷ []
mro integrity_error = "IntegrityError" ∷ "Exception" ∷ []
mro key_error = "KeyError" ∷ "Exception" ∷ []

-- `title.lower().replace(" ", "-")`
unfoldable pub dashed : String → String
dashed String.[] = String.[]
dashed (String.◌∷◌ c s) =
    let rest = dashed s in if eqb (code c) 32 then String.◌++◌ "-" rest else String.◌∷◌ c rest

pub record Problem : Type 0 where
  pub type_ : String
  pub title : String
  pub status : ℕ
  pub detail : String

-- `_problem`
unfoldable pub problem : ℕ → String → String → Problem
unfolding dashed
problem status title detail = record {
  type_ = format ("https://platform.internal/errors/" ∷ dashed (lower title) ∷ []);
  title = title;
  status = status;
  detail = detail;
}

pub record JsonResponse : Type 0 where
  pub status_code : ℕ
  pub content : Problem

abbrev pub answer : ℕ → String → String → JsonResponse
answer status title detail = record { status_code = status; content = problem status title detail }

-- `register_exception_handlers`: what each handler makes of `str(exc)`.
unfoldable pub handlers : Dict (String → JsonResponse)
handlers =
    ("PlatformNotFoundError", answer 404 "Not Found")
    ∷ ("PlatformValidationError", answer 422 "Validation Error")
    ∷ ("PipelineExecutionException", answer 503 "Pipeline Execution Failed")
    ∷ ("DataQualityViolationException", answer 409 "Data Quality Violation")
    ∷ ("CircuitBreakerOpenError", answer 503 "Service Unavailable")
    ∷ ("PlatformUnauthorizedError", answer 401 "Unauthorized")
    ∷ ("PlatformForbiddenError", answer 403 "Forbidden")
    ∷ ("UnsupportedEndpointError", answer 422 "Unsupported Endpoint Type")
    ∷ ("ValueError", answer 422 "Validation Error")
    ∷ ("DomainException", answer 400 "Bad Request")
    ∷ (
      "IntegrityError",
      λ exc. answer 409 "Conflict" "Resource already exists or database constraint violated.",
    )
    ∷ ("Exception", λ exc. answer 500 "Internal Server Error" "An unexpected error occurred.")
    ∷ []

abbrev pub or_next : {A : Type 0} → Option A → Option A → Option A
or_next none other = other
or_next (some a) other = some a

-- The handler of the first class that has one.
unfoldable pub find_handler : {A : Type 0} → Dict A → List String → Option A
find_handler table [] = none
find_handler table (cls ∷ classes) = or_next (lookup cls table) (find_handler table classes)

abbrev pub respond_by : String → Option (String → JsonResponse) → Option JsonResponse
respond_by message none = none
respond_by message (some handler) = some (handler message)

-- What the client is answered.
unfoldable pub respond : ExceptionClass → String → Option JsonResponse
unfolding find_handler handlers mro
respond cls message = respond_by message (find_handler handlers (mro cls))
