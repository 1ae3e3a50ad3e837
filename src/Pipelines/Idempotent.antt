-- ===== src/Pipelines/Idempotent.antt =====
-- trigger_pipeline_run.py: a request that is sent again.
use clean_data_platform_airf.Prelude.{
  ℕ, ◌≡◌, String, true, none, some, List, [], ◌∷◌, ◌++◌, is_text, arith, eq_iff, eq_refl, filter,
}
use clean_data_platform_airf.Errors.{ok}
use clean_data_platform_airf.Pipelines.Run.{PipelineRun}
use clean_data_platform_airf.Pipelines.Table.{
  RunRow, Runs, new_row, save, find_by_id, has_key, find_by_idempotency_key,
}
use clean_data_platform_airf.Pipelines.Trigger.{
  Pipeline, find_pipeline, Platform, Ports, Request, new_run, existing_run, deliver, trigger,
}

find_pipeline-id :
    (i : String) (ps : List Pipeline) (p : Pipeline) → find_pipeline i ps ≡ some p → p.id ≡ i
unfolding find_pipeline
find_pipeline-id i [] p h = ground arith
find_pipeline-id i (x ∷ ps) p h = ground (arith, eq_iff x.id i, find_pipeline-id i ps p)

-- A new run is the only one with its key, if none had it before.
filter-save :
    (i k : String) (now : ℕ) (run : PipelineRun) (rows : Runs)
    → has_key i k (new_row now run) ≡ true
    → find_by_id run.id rows ≡ none
    → filter (has_key i k) rows ≡ []
    → filter (has_key i k) (save now run rows) ≡ new_row now run ∷ []
unfolding save find_by_id
filter-save i k now run [] own fresh unused = ground arith
filter-save i k now run (row ∷ rows) own fresh unused =
    ground (arith, filter-save i k now run rows own)

existing-unused :
    (q : Request) (k : String) (runs : Runs)
    → q.idempotency_key ≡ some k
    → filter (has_key q.pipeline_id k) runs ≡ []
    → existing_run q runs ≡ ok none
unfolding find_by_idempotency_key
existing-unused q k runs key unused = ground arith

existing-used :
    (q : Request) (k : String) (runs : Runs) (row : RunRow)
    → q.idempotency_key ≡ some k
    → is_text k ≡ true
    → filter (has_key q.pipeline_id k) runs ≡ row ∷ []
    → existing_run q runs ≡ ok (some row)
unfolding find_by_idempotency_key
existing-used q k runs row key text used = ground arith

module _ (ports : Ports) (path : String) (q : Request) (p : Pipeline) (s : Platform)
    (found : find_pipeline q.pipeline_id s.pipelines ≡ some p) where
  -- A trigger that starts a run, whatever becomes of it after the commit.
  abbrev started : Platform
  started = record s {
    runs = save q.now (new_run q p) s.runs;
    effects = s.effects ++ (deliver ports path q p (new_run q p)).0;
  }

  trigger-started : existing_run q s.runs ≡ ok none → (trigger ports path q s).0 ≡ started
  unfolding trigger
  trigger-started e = ground (arith, found)

  trigger-existing :
      (row : RunRow)
      → existing_run q s.runs ≡ ok (some row)
      → trigger ports path q s ≡ (s, ok row.run)
  unfolding trigger
  trigger-existing row e = ground (arith, found)

-- Take a first request for a pipeline that exists, with a key that is not empty and that no run of
-- the pipeline has, and with a fresh run id; and any second request for the pipeline with the same
-- key. After the first the second changes nothing, starts nothing, and gets the run of the first;
-- also when the first one failed after its commit, so that its DAG was never triggered.
pub trigger_again :
    (ports ports' : Ports) (path : String) (q q' : Request) (k : String) (p : Pipeline)
    (s : Platform)
    → find_pipeline q.pipeline_id s.pipelines ≡ some p
    → q.idempotency_key ≡ some k
    → q'.idempotency_key ≡ some k
    → q'.pipeline_id ≡ q.pipeline_id
    → is_text k ≡ true
    → find_by_id q.new_id s.runs ≡ none
    → filter (has_key q.pipeline_id k) s.runs ≡ []
    → let s1 = (trigger ports path q s).0 in trigger ports' path q' s1 ≡ (s1, ok (new_run q p))
trigger_again ports ports' path q q' k p s found key key' same text fresh unused =
    let run = new_run q p in
    let own : has_key q.pipeline_id k (new_row q.now run) ≡ true = ground (
      arith,
      eq_refl k,
      eq_iff p.id q.pipeline_id,
      find_pipeline-id q.pipeline_id s.pipelines p found,
    ) in
    let used : filter (has_key q'.pipeline_id k) (save q.now run s.runs) ≡ new_row q.now run ∷ [] =
      rw same (filter-save q.pipeline_id k q.now run s.runs own fresh unused) in
    rw (trigger-started ports path q p s found (existing-unused q k s.runs key unused)) (
      trigger-existing ports' path q' p (started ports path q p s found) (rw same found)
        (new_row q.now run)
        (existing-used q' k (save q.now run s.runs) (new_row q.now run) key' text used))
