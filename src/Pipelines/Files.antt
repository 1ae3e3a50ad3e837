-- ===== src/Pipelines/Files.antt =====
-- app/application/pipelines/file_watermark_resolver.py, with `find_processed_hashes_by_pipeline` of
-- sql_pipeline_run_repository.py: the files of a directory that a run has to take. The directory is
-- the list of its entries in the order of its iteration, or none if there is no such directory;
-- `fnmatch`, the MD5 digest, a path's suffix and the text of a set are parameters.
pub mod Fit
mod Tests
use clean_data_platform_airf.Prelude.{
  ℕ, suc, ◌+◌, String, Bool, true, false, not, ◌&&◌, ◌||◌, Option, none, some, List, [], ◌∷◌, ◌==◌,
  if◌then◌else◌, filter, any, contains, map, lower, format, ltb, length, non_empty,
}
use clean_data_platform_airf.Errors.{Result, ok, err, value_error, ◌>>=◌}
use clean_data_platform_airf.Pipelines.Run.{PipelineRunFile, is_success}
use clean_data_platform_airf.Pipelines.Table.{RunRow, Runs, find_latest_by_pipeline_id}

pub record Entry : Type 0 where
  pub name : String
  pub rel : String
  pub path : String
  pub content : String
  pub is_file : Bool
  pub size : ℕ
  pub mtime : ℕ

-- The run of a file is one of the pipeline's.
abbrev of_pipeline : String → Runs → String → Bool
of_pipeline pipeline_id rows run_id =
    any (λ row. row.run.id == run_id && row.run.pipeline_id == pipeline_id) rows

-- `find_processed_hashes_by_pipeline`
unfoldable pub find_processed_hashes : String → Runs → List PipelineRunFile → List String
find_processed_hashes pipeline_id rows files =
    map (λ f. f.hash_md5)
      (filter (λ f. of_pipeline pipeline_id rows f.pipeline_run_id && f.status == "PROCESSED")
        files)

abbrev pub or_started : Option ℕ → ℕ → ℕ
or_started none started = started
or_started (some finished) started = finished

-- The time from which files count; a latest run that failed sets none.
abbrev pub watermark_after : Option RunRow → Option ℕ
watermark_after none = none
watermark_after (some row) =
    if is_success row.run.status
    then some (or_started row.run.finished_at row.run.started_at)
    else none

-- `file_mtime < wm`
abbrev pub is_older : Option ℕ → ℕ → Bool
is_older none mtime = false
is_older (some wm) mtime = ltb mtime wm

-- `DEFAULT_FILE_SCOPE_PATTERNS`
abbrev pub default_patterns : List String
default_patterns =
    "*.csv" ∷ "*.tsv" ∷ "*.txt" ∷ "*.json" ∷ "*.ndjson" ∷ "*.jsonl" ∷ "*.parquet" ∷ []

module _ (fnmatch : String → String → Bool) (md5 suffix : String → String)
    (shown_set : List String → String) where
  abbrev pub is_matched : List String → Entry → Bool
  is_matched patterns e = any (λ pat. fnmatch e.name pat || fnmatch e.rel pat) patterns

  abbrev pub is_candidate : List String → List String → Option ℕ → Entry → Bool
  is_candidate patterns excluded watermark e =
      e.is_file
      && is_matched patterns e
      && not (is_matched excluded e)
      && not (is_older watermark e.mtime)

  -- `_scan_directory`
  unfoldable pub scan_directory : List Entry → List String → List String → Option ℕ → List Entry
  scan_directory entries scope_include scope_exclude watermark =
      filter
        (is_candidate (if non_empty scope_include then scope_include else default_patterns)
          scope_exclude watermark)
        entries

  abbrev pub new_file : (ℕ → String) → ℕ → ℕ → String → Entry → PipelineRunFile
  new_file new_id n now run_id e = record {
    id = new_id n;
    pipeline_run_id = run_id;
    file_path = e.path;
    file_name = e.name;
    file_size_bytes = e.size;
    mtime = e.mtime;
    hash_md5 = md5 e.content;
    status = "PENDING";
    processed_at = none;
    updated_at = now;
  }

  -- `_build_pending_files`
  unfoldable pub build_pending_files :
      (ℕ → String) → ℕ → ℕ → List Entry → List String → String → List PipelineRunFile
  build_pending_files new_id n now [] processed_hashes run_id = []
  build_pending_files new_id n now (e ∷ candidates) processed_hashes run_id =
      let skipped = build_pending_files new_id n now candidates processed_hashes run_id in
      let taken = build_pending_files new_id (suc n) now candidates processed_hashes run_id in
      if contains (md5 e.content) processed_hashes
      then skipped
      else new_file new_id n now run_id e ∷ taken

  -- `{Path(f.file_path).suffix.lower() for f in files}`
  unfoldable pub extensions : List PipelineRunFile → List String
  unfolding lower
  extensions [] = []
  extensions (f ∷ files) =
      let others = extensions files in
      let ext = lower (suffix f.file_path) in if contains ext others then others else ext ∷ others

  -- `_validate_homogeneity`
  unfoldable pub validate_homogeneity : List PipelineRunFile → Result (Unit {0})
  unfolding extensions
  validate_homogeneity files =
      if ltb 1 (length (extensions files))
      then err (
          value_error
            (format ("Heterogeneous file batch not allowed: " ∷ shown_set (extensions files) ∷ [])))
      else ok tt

  abbrev pub resolved :
      (ℕ → String)
      → ℕ
      → String
      → String
      → List String
      → List String
      → Runs
      → List PipelineRunFile
      → List Entry
      → List PipelineRunFile
  resolved new_id now pipeline_id run_id scope_include scope_exclude rows files entries =
      build_pending_files new_id 0 now
        (scan_directory entries scope_include scope_exclude
          (watermark_after (find_latest_by_pipeline_id pipeline_id rows)))
        (find_processed_hashes pipeline_id rows files) run_id

  -- `resolve_pending_files`
  unfoldable pub resolve_pending_files :
      (ℕ → String)
      → ℕ
      → String
      → String
      → List String
      → List String
      → Runs
      → List PipelineRunFile
      → Option (List Entry)
      → Result (List PipelineRunFile)
  unfolding scan_directory build_pending_files find_processed_hashes validate_homogeneity
      find_latest_by_pipeline_id
  resolve_pending_files new_id now pipeline_id run_id scope_include scope_exclude rows files none =
      ok []
  resolve_pending_files new_id now pipeline_id run_id scope_include scope_exclude rows files
        (some entries) =
      let pending =
        resolved new_id now pipeline_id run_id scope_include scope_exclude rows files entries in
      (validate_homogeneity pending >>= λ x. ok pending)
