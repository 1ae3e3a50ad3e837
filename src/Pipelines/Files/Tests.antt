-- ===== src/Pipelines/Files/Tests.antt =====
-- The theorem about pending files at a directory with a new file and two that do not count.
use clean_data_platform_airf.Prelude.{
  ℕ, ◌≡◌, refl, String, Bool, true, false, none, some, List, [], ◌∷◌, ◌==◌, All, lower,
}
use clean_data_platform_airf.Errors.{ok}
use clean_data_platform_airf.Pipelines.Run.{PipelineRun, PipelineRunFile, success}
use clean_data_platform_airf.Pipelines.Table.{Runs, latest, find_latest_by_pipeline_id}
use clean_data_platform_airf.Pipelines.Files.{
  Entry, find_processed_hashes, watermark_after, new_file, scan_directory, build_pending_files,
  extensions, validate_homogeneity, resolve_pending_files,
}
use clean_data_platform_airf.Pipelines.Files.Fit.{
  AreOnlyFrom, IsNew, extension_of, resolve_pending_files-AreFit,
}

abbrev earlier : PipelineRun
earlier = record {
  id = "r1";
  pipeline_id = "p1";
  pipeline_name = "files";
  pipeline_type = "ingestion";
  dag_run_id = "d1";
  status = success;
  started_at = 3;
  finished_at = some 6;
  failed_task = none;
  optional_failures = [];
  quality_violations = [];
  metrics = record { watermark = none; others = [] };
  watermark = none;
  sla_breached = false;
  sla_minutes = 90;
  idempotency_key = none;
  updated_at = 6;
}

abbrev rows : Runs
rows = record { run = earlier; last_run_at = 6; last_success_at = some 6 } ∷ []

abbrev entry : String → String → ℕ → Entry
entry name content mtime = record {
  name = name;
  rel = name;
  path = name;
  content = content;
  is_file = true;
  size = 3;
  mtime = mtime;
}

abbrev same_name : String → String → Bool
same_name name pattern = name == pattern

abbrev digest : String → String
digest content = content

abbrev csv : String → String
csv path = ".CSV"

abbrev shown : List String → String
shown names = "{}"

abbrev numbered : ℕ → String
numbered n = "f9"

abbrev directory : List Entry
directory = entry "old.csv" "a" 2 ∷ entry "again.csv" "b" 8 ∷ entry "new.csv" "c" 9 ∷ []

abbrev stored : PipelineRunFile
stored = record {
  id = "f1";
  pipeline_run_id = "r1";
  file_path = "b.csv";
  file_name = "b.csv";
  file_size_bytes = 3;
  mtime = 1;
  hash_md5 = "b";
  status = "PROCESSED";
  processed_at = some 5;
  updated_at = 5;
}

abbrev taken : List PipelineRunFile
taken = new_file same_name digest csv shown numbered 0 10 "r2" (entry "new.csv" "c" 9) ∷ []

directory_resolved :
    resolve_pending_files same_name digest csv shown numbered 10 "p1" "r2"
      ("old.csv" ∷ "again.csv" ∷ "new.csv" ∷ [])
      []
      rows
      (stored ∷ [])
      (some directory)
    ≡ ok taken
unfolding resolve_pending_files scan_directory build_pending_files find_processed_hashes
    validate_homogeneity extensions find_latest_by_pipeline_id latest lower
directory_resolved = refl

resolve_pending_files-AreFit_example :
    All
      (IsNew same_name digest csv shown
        (find_processed_hashes "p1" rows (stored ∷ []))
        (watermark_after (find_latest_by_pipeline_id "p1" rows)))
      taken
    × ((ext : String) × All (λ f. extension_of same_name digest csv shown f ≡ ext) taken)
    × AreOnlyFrom same_name digest csv shown (some directory) taken
resolve_pending_files-AreFit_example =
    resolve_pending_files-AreFit same_name digest csv shown numbered 10 "p1" "r2"
      ("old.csv" ∷ "again.csv" ∷ "new.csv" ∷ []) [] rows (stored ∷ []) (some directory) taken
      directory_resolved
