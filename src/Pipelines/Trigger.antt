-- ===== src/Pipelines/Trigger.antt =====
-- app/application/pipelines/trigger_pipeline_run.py: one execution for one request. The generators,
-- the file system and the orchestrator are ports, which may raise; telemetry is left out. What was
-- committed stays when a later step raises.
use Prim.Native.Char.{code}
use Prim.Native.String
use clean_data_platform_airf.Prelude.{
  ℕ, String, false, Option, none, some, List, [], ◌∷◌, ◌++◌, ◌==◌, if◌then◌else◌, eqb, format,
  is_text,
}
use clean_data_platform_airf.Errors.{Result, ok, err, not_found_error}
use clean_data_platform_airf.Pipelines.Run.{PipelineRun, running}
use clean_data_platform_airf.Pipelines.Table.{RunRow, Runs, save, find_by_idempotency_key}

pub record Pipeline : Type 0 where
  pub id : String
  pub name : String
  pub type_ : String

unfoldable pub find_pipeline : String → List Pipeline → Option Pipeline
find_pipeline pipeline_id [] = none
find_pipeline pipeline_id (p ∷ rest) =
    if p.id == pipeline_id then some p else find_pipeline pipeline_id rest

-- What left the platform.
pub data Effect : Type 0 where
  wrote_file : String → String → Effect
  triggered_dag : String → String → String → String → Option String → Effect

pub record Platform : Type 0 where
  pub pipelines : List Pipeline
  pub runs : Runs
  pub effects : List Effect

-- The ports: each answers what it returns, or raises.
pub record Ports : Type 0 where
  pub generate_yaml : Pipeline → Result String
  pub generate_dag : String → Result String
  pub write_text : String → String → Result (Unit {0})
  pub trigger_dag : String → String → String → String → Option String → Result (Unit {0})

-- A request, with the id, the time stamp and the clock readings that the execution takes.
pub record Request : Type 0 where
  pub pipeline_id : String
  pub triggered_by : String
  pub idempotency_key : Option String
  pub watermark_override : Option String
  pub new_id : String
  pub stamp : String
  pub started_at : ℕ
  pub now : ℕ

-- `name.replace(" ", "_").replace("&", "and")`
unfoldable pub safe_name : String → String
safe_name String.[] = String.[]
safe_name (String.◌∷◌ c s) =
    let rest = safe_name s in
    if eqb (code c) 32
    then String.◌++◌ "_" rest
    else if eqb (code c) 38
    then String.◌++◌ "and" rest
    else String.◌∷◌ c rest

abbrev pub dag_run_id : Request → String
dag_run_id q = format (q.triggered_by ∷ "__" ∷ q.stamp ∷ [])

abbrev pub new_run : Request → Pipeline → PipelineRun
new_run q p = record {
  id = q.new_id;
  pipeline_id = p.id;
  pipeline_name = p.name;
  pipeline_type = p.type_;
  dag_run_id = dag_run_id q;
  status = running;
  started_at = q.started_at;
  finished_at = none;
  failed_task = none;
  optional_failures = [];
  quality_violations = [];
  metrics = record { watermark = none; others = [] };
  watermark = none;
  sla_breached = false;
  sla_minutes = 90;
  idempotency_key = q.idempotency_key;
  updated_at = q.now;
}

-- A step of a port, and the effects when it did not raise.
abbrev after {ℓ} :
    {A : Type ℓ}
    → Result A
    → (A → List Effect × Result PipelineRun)
    → List Effect × Result PipelineRun
after (err e) next = ([], err e)
after (ok a) next = next a

abbrev emitting : Effect → List Effect × Result PipelineRun → List Effect × Result PipelineRun
emitting effect (effects, r) = (effect ∷ effects, r)

-- What happens after the commit.
unfoldable pub deliver :
    Ports → String → Request → Pipeline → PipelineRun → List Effect × Result PipelineRun
unfolding safe_name
deliver ports dags_path q p run =
    let path = format (dags_path ∷ "/dag_p_" ∷ safe_name p.name ∷ ".py" ∷ []) in
    after (ports.generate_yaml p) λ yaml. after (ports.generate_dag yaml) λ dag_code.
      after (ports.write_text path dag_code) λ _. emitting (wrote_file path dag_code) (
        after (ports.trigger_dag p.id run.id (dag_run_id q) p.name q.watermark_override) λ _.
          emitting (triggered_dag p.id run.id (dag_run_id q) p.name q.watermark_override)
            ([], ok run))

-- `if idempotency_key: existing = ...`
abbrev pub existing_run : Request → Runs → Result (Option RunRow)
existing_run q runs = elim q.idempotency_key [
  | none ↦ ok none
  | some k ↦ if is_text k then find_by_idempotency_key q.pipeline_id k runs else ok none
]

-- `TriggerPipelineRunUseCase.execute`
unfoldable pub trigger : Ports → String → Request → Platform → Platform × Result PipelineRun
unfolding find_pipeline find_by_idempotency_key
trigger ports dags_path q s = elim (find_pipeline q.pipeline_id s.pipelines) [
  | none ↦ (s, err (not_found_error (format ("Pipeline not found: " ∷ q.pipeline_id ∷ []))))
  | some p ↦ elim (existing_run q s.runs) [
    | err e ↦ (s, err e)
    | ok (some row) ↦ (s, ok row.run)
    | ok none ↦
        let run = new_run q p in
        let (effects, r) = deliver ports dags_path q p run in
        (record s { runs = save q.now run s.runs; effects = s.effects ++ effects }, r)
  ]
]
