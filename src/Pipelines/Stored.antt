-- ===== src/Pipelines/Stored.antt =====
-- sql_pipeline_run_repository.py: what a saved run changes.
use clean_data_platform_airf.Prelude.{
  ℕ, ◌≡◌, ap, String, Bool, false, Option, none, some, [], ◌∷◌, ◌==◌, if◌then◌else◌, arith, eq_iff,
}
use clean_data_platform_airf.Pipelines.Run.{PipelineRun, is_success}
use clean_data_platform_airf.Pipelines.Table.{
  RunRow, Runs, new_row, updated_row, save, find_by_id, latest, has_watermark, watermark_of,
  find_latest_watermark_by_pipeline_id,
}

abbrev pub saved_row : ℕ → PipelineRun → Option RunRow → RunRow
saved_row now run none = new_row now run
saved_row now run (some row) = updated_row now run row

-- After a run is saved its id has the new row, or the old row updated, and every other id has the
-- row that it had.
pub find_by_id-save :
    (now : ℕ) (run : PipelineRun) (j : String) (rows : Runs)
    → find_by_id j (save now run rows) ≡ (
        if run.id == j
        then some (saved_row now run (find_by_id run.id rows))
        else find_by_id j rows)
unfolding save find_by_id
find_by_id-save now run j [] = ground arith
find_by_id-save now run j (row ∷ rows) = ground (
  arith,
  find_by_id-save now run j rows,
  eq_iff row.run.id run.id,
  eq_iff row.run.id j,
  eq_iff run.id j,
)

-- A run of the id has succeeded before.
abbrev pub succeeded : Option RunRow → Bool
succeeded none = false
succeeded (some row) = is_success row.run.status

latest-save :
    (p : String) (now : ℕ) (run : PipelineRun) (rows : Runs)
    → is_success run.status ≡ false
    → succeeded (find_by_id run.id rows) ≡ false
    → latest (has_watermark p) (save now run rows) ≡ latest (has_watermark p) rows
unfolding latest save find_by_id
latest-save p now run [] failed fresh = ground arith
latest-save p now run (row ∷ rows) failed fresh = ground (arith, latest-save p now run rows failed)

-- Saving a run that did not succeed, and had not succeeded before either, moves no pipeline's
-- watermark, even if the run carries one itself.
pub watermark-save :
    (p : String) (now : ℕ) (run : PipelineRun) (rows : Runs)
    → is_success run.status ≡ false
    → succeeded (find_by_id run.id rows) ≡ false
    → find_latest_watermark_by_pipeline_id p (save now run rows)
      ≡ find_latest_watermark_by_pipeline_id p rows
unfolding find_latest_watermark_by_pipeline_id
watermark-save p now run rows failed fresh =
    ap watermark_of (latest-save p now run rows failed fresh)
