-- ===== src/Lib.antt =====
-- A data platform's domain layer and use cases (app/domain, app/application) and the parts of
-- app/infrastructure that keep state of their own. The platform discovers the tables behind its
-- data assets, compares snapshots of their columns, guards the critical changes by approvals,
-- derives the lineage of columns, and calls outside services through a circuit breaker.
--
-- Lineage: app/domain/lineage. Mapping has the column mappings, Graph `LineageGraph` with
--   `add_node`, `add_edge` and `build_from_mappings`, Trace `trace_upstream` and
--   `trace_downstream`.
-- Discovery: app/domain/discovery. Schema has columns and snapshots, Drift the events, Differ
--   `SchemaDiffer`, Tags `PolicyTagInferrer`, Run `DiscoveryRun`, Approval `DriftApproval`,
--   Service `SchemaDriftService` and `DriftClassifier` of app/infrastructure, Healing
--   `MetadataSelfHealingService` and `ApproveDriftUseCase` of app/application/discovery (Waiting is
--   about what it leaves to a decision),
--   Provisioning `DiscoveryProvisioningService`, and Execution `RunDiscoveryUseCase`, which ties
--   all of these and the unit of work together.
-- Objects: app/domain/objects. Element has the elements and objects, Service `DataObjectService`
--   over the tables of its SQL repository, and Repository the saving of whole objects.
-- Pipelines: app/domain/pipelines and app/application/pipelines. Watermark, Quality (the quality
--   gate; Gate says what it lets pass), Run, Table (the SQL repository of runs; Stored says what a
--   saved run changes), Trigger (`TriggerPipelineRunUseCase`; Idempotent is about repeated
--   requests), Record (`RecordPipelineRunUseCase`) Config (`Pipeline` with its
--   `validate_invariants`) and Files (`FileWatermarkResolver`).
-- Registration: `RegisterPipelineUseCase` of app/application/pipelines. Values has the value objects
--   of app/domain/shared, Members the enumerations, Schedule and Aggregate the whole `Pipeline`,
--   Defaults `PlatformDefaults`, Normalizer `PipelineNormalizer`, Repository the SQL repository of
--   pipelines (Reading, RoundTrip); UseCase has the command and what is checked before the
--   transaction, Destinations the objects and links, Transaction the rest; Built, Outcome, Once,
--   Succeeds, Provisioned and Links are about it, at the command of Example.
-- Assets: app/domain/assets (Asset), the SQL repository of assets (Table), and the use cases
--   `ActivateAssetUseCase` and `UpdateAssetUseCase` (UseCases) and `RegisterAssetUseCase`
--   (Registration).
-- Persistence: app/infrastructure/persistence. UnitOfWork has `SqlUnitOfWork`, whose nested blocks
--   share one transaction, and the actions that a use case is made of; Nested is about blocks in
--   blocks. Endpoints has the connections, EndpointRows their rows and their SQL repository, and
--   EndpointRoundTrip what comes back from a row.
-- Tasks: app/infrastructure/airflow_callbacks, what a generated DAG runs around an extraction:
--   Context `resolve_watermark_context`, Load `load_to_data_warehouse` and `post_load_validation`,
--   Checks `check_dependencies` and `quality_gate`, Files `resolve_source_files`.
-- Extraction: app/infrastructure/adapters/compute. Json reads the answers of a REST API, Pages is
--   the loop of `_extract_async` in rest_api_compute_adapter.py.
-- Catalog: app/infrastructure/adapters/dbt and dataform. Types has the types of the tools, Sync
--   `DbtCatalogAdapter` and `DataformCatalogAdapter`, Known and Synced what they leave.
-- Http: app/infrastructure/http/exception_handlers.py. Exceptions has the classes and their handlers,
--   Answers what the client is told.
-- Auth: `DatabasePermissionResolver` of app/auth.
-- Resilience: `AsyncCircuitBreaker` of app/infrastructure/resilience.
--
-- How the code is read. A method that raises is a function into `Result`; the modelled methods
-- raise before they write, but for the DAG file of a registration, which may be torn. The clock is an argument: every reading is passed by the caller. Texts
-- are native strings; `lower` and `strip` know the ASCII letters and blanks. A dictionary is an
-- association list in insertion order, and a set a list without repetitions that is gone through
-- in an order given as a parameter (`SetOrder`). The traversal of a graph takes as fuel one more
-- than its number of edges, and the loop is shown to end within it. The loop over pages takes as
-- fuel the requests that it may make; one more than the server has records are shown to be enough
-- for pages by offset and limit. Overlapping calls of the circuit breaker are sequences of events:
-- an entry, and one of three endings.
--
-- What the code takes from outside is a parameter: which texts Python reads as a number or a date
-- (`reads`), how it shows a number (`render`) or any value (`Python`), what croniter refuses, new
-- uuids, what the database refuses at a flush of a registration, the warehouse provisioner, the
-- catalog and the notifications, the ports that generate, write and trigger a DAG, the discovery
-- runners, the server behind a REST API, the warehouse loader and the vault, all of which may raise,
-- and `fnmatch` and the MD5 digest.
--
-- Not modelled: the opaque `extra` dictionaries, logging, the SQL session with its identity map, and
-- everything that only speaks to a library or a service: HTTP routes and schemas, the other compute
-- adapters and the cloud adapters, retries and Parquet files, generators of DAG and YAML files,
-- discovery runners, notification, secret and telemetry adapters, the command line and the
-- migrations.
pub mod Assets
pub mod Auth
pub mod Catalog
pub mod Discovery
pub mod Errors
pub mod Extraction
pub mod Http
pub mod Lineage
pub mod Objects
pub mod Persistence
pub mod Pipelines
pub mod Prelude
pub mod Registration
pub mod Resilience
pub mod Tasks
