-- ===== src/Tasks/Context/Resumes.antt =====
-- ingestion_callbacks.py, `resolve_watermark_context`, after record_pipeline_run_use_case.py: the
-- next run goes on where the last successful one stopped.
use clean_data_platform_airf.Prelude.{
  ℕ, ◌<◌, ◌≡◌, ◌≢◌, refl, ap, ◌∙◌, String, Bool, true, false, Option, none, some, [], ◌∷◌, ◌==◌,
  is_text, arith, map, Bool-cases, inl, inr, eq_refl, eq_iff,
}
use clean_data_platform_airf.Errors.{Result, ok, err, ◌>>=◌, >>=-eq-ok}
use clean_data_platform_airf.Pipelines.Watermark.{
  Watermark, WatermarkType, parse, as_param_value, parse-as_param_value, type_value,
}
use clean_data_platform_airf.Pipelines.Run.{PipelineRun, success}
use clean_data_platform_airf.Pipelines.Table.{
  Runs, save, save_files, new_row, find_by_id, latest, has_watermark,
  find_latest_watermark_by_pipeline_id,
}
use clean_data_platform_airf.Pipelines.Record.{
  Report, Store, parse_status, record_run, watermark_in, recorded_run, id_or, parse_type,
  status-found, wrapped, assign_run, parse_type,
}
use clean_data_platform_airf.Pipelines.Stored.{saved_row}
use clean_data_platform_airf.Tasks.Context.{
  conflict, context, given, get_last_watermark, resolve_watermark_context,
}
use clean_data_platform_airf.Tasks.Context.Valid.{parse-value, type_value-injective}

-- The rows with a watermark of a pipeline all started before a time.
abbrev pub AreBefore : String → ℕ → Runs → Type 0
AreBefore p start [] = Unit
AreBefore p start (row ∷ rows) =
    (has_watermark p row ≡ true → row.run.started_at < start) × AreBefore p start rows

latest-save_new :
    (p : String) (now : ℕ) (run : PipelineRun) (rows : Runs)
    → find_by_id run.id rows ≡ none
    → has_watermark p (new_row now run) ≡ true
    → AreBefore p run.started_at rows
    → latest (has_watermark p) (save now run rows) ≡ some (new_row now run)
unfolding latest save find_by_id
latest-save_new p now run [] fresh counts before = ground arith
latest-save_new p now run (row ∷ rows) fresh counts before =
    ground (arith, latest-save_new p now run rows)

module _ (reads : WatermarkType → String → Bool) where
  wrapped-eq-ok : (r : Result Watermark) (w : Watermark) → wrapped r ≡ ok (some w) → r ≡ ok w
  wrapped-eq-ok (err e) w h = cc
  wrapped-eq-ok (ok v) w h = ground arith

  watermark_in-parsed :
      (m : Option (Option String × Option String)) (w : Watermark)
      → watermark_in reads m ≡ ok (some w)
      → (raw : Option String) × (parse reads raw w.type_ ≡ ok w)
  watermark_in-parsed none w h = cc
  watermark_in-parsed (some (none, t)) w h = cc
  watermark_in-parsed (some (some v, none)) w h = cc
  watermark_in-parsed (some (some v, some t)) w h =
      let r = parse_type t >>= λ type_. parse reads (some v) type_ in
      let made : r ≡ ok w = wrapped-eq-ok r w (ground arith) in
      let (type_, known, read) = >>=-eq-ok (λ u. parse reads (some v) u) (parse_type t) made in
      (some v, ap (parse reads (some v)) (parse-value reads (some v) type_ w read).1 ∙ read)

  resumes :
      (p : String) (w : Watermark) (column : String) (override initial : Option String)
      (rows : Runs) (raw : Option String)
      → find_latest_watermark_by_pipeline_id p rows ≡ some w
      → parse reads raw w.type_ ≡ ok w
      → given override ≡ false
      → resolve_watermark_context reads column w.type_ override initial
          (get_last_watermark reads p rows)
        ≡ ok (some (context column w))
  unfolding resolve_watermark_context get_last_watermark as_param_value
  resumes p w column override initial rows raw latest read plain =
      ground (arith, parse-as_param_value reads raw w.type_ w read, eq_refl (type_value w.type_))

  -- After a run was recorded as a success with a watermark, under a new id and started after every
  -- run of its pipeline that has one, the next run gets exactly this watermark, if it is of the
  -- declared type and the run is not given another one.
  pub next_run_resumes :
      (new_id : String) (now : ℕ) (q : Report) (s : Store) (w : Watermark) (column : String)
      (override initial : Option String)
      → parse_status q.status ≡ some success
      → watermark_in reads q.metrics.watermark ≡ ok (some w)
      → find_by_id (id_or new_id q.run_id) s.runs ≡ none
      → AreBefore q.pipeline_id q.started_at s.runs
      → given override ≡ false
      → (s' : Store) × (run : PipelineRun) × (record_run reads new_id now q s ≡ ok (s', run))
        × (resolve_watermark_context reads column w.type_ override initial
              (get_last_watermark reads q.pipeline_id s'.runs)
            ≡ ok (some (context column w)))
  unfolding record_run find_latest_watermark_by_pipeline_id
  next_run_resumes new_id now q s w column override initial parsed found fresh before plain =
      let run = recorded_run new_id now q success (some w) in
      let (raw, read) = watermark_in-parsed q.metrics.watermark w found in
      let filled : is_text w.value ≡ true = (parse-value reads raw w.type_ w read).0 in
      (
        record {
          runs = save now run s.runs;
          files =
              save_files
                (map (assign_run (saved_row now run (find_by_id run.id s.runs)).run.id) q.files)
                s.files;
        },
        (saved_row now run (find_by_id run.id s.runs)).run,
        rw (status-found q.status success parsed, found) refl,
        resumes run.pipeline_id w column override initial (save now run s.runs) raw
            (rw
              (
                latest-save_new q.pipeline_id now run s.runs fresh
                    (ground (arith, eq_refl q.pipeline_id)) before,
                filled,
              )
              refl)
            read plain,
      )

  -- A stored watermark of another type than the declared one stops a run that is not given a
  -- watermark: neither the initial value nor the stored one is used.
  stored_conflict :
      (p : String) (w : Watermark) (column : String) (declared : WatermarkType)
      (override initial : Option String) (rows : Runs) (raw : Option String)
      → find_latest_watermark_by_pipeline_id p rows ≡ some w
      → parse reads raw w.type_ ≡ ok w
      → given override ≡ false
      → w.type_ ≢ declared
      → resolve_watermark_context reads column declared override initial
          (get_last_watermark reads p rows)
        ≡ err (conflict w declared)
  unfolding resolve_watermark_context get_last_watermark as_param_value
  stored_conflict p w column declared override initial rows raw last read plain other =
      let differ : (type_value w.type_ == type_value declared) ≡ false =
        elim (Bool-cases (type_value w.type_ == type_value declared)) [
          | inl same ↦ absurd (
              other (
                type_value-injective w.type_ declared
                  ((eq_iff (type_value w.type_) (type_value declared)).0 same)))
          | inr differ ↦ differ
        ] in
      ground (arith, parse-as_param_value reads raw w.type_ w read)
