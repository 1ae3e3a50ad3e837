-- ===== src/Tasks/Context/Valid.antt =====
-- ingestion_callbacks.py, `resolve_watermark_context`: what a context that is returned holds.
use clean_data_platform_airf.Prelude.{
  ◌≡◌, refl, ap, ◌∙◌, String, Bool, true, Option, none, some, is_text, arith, Bool-cases, inl, inr,
  sym, eq_iff,
}
use clean_data_platform_airf.Errors.{ok, >>=-eq-ok}
use clean_data_platform_airf.Pipelines.Watermark.{
  Watermark, WatermarkType, integer, float, timestamp, date, string, parse, as_param_value,
  parse-as_param_value, type_value,
}
use clean_data_platform_airf.Pipelines.Table.{Runs, find_latest_watermark_by_pipeline_id}
use clean_data_platform_airf.Pipelines.Record.{parse_type, parse_type}
use clean_data_platform_airf.Tasks.Context.{
  WatermarkContext, context, given, get_last_watermark, resolve_watermark_context, parsed_context,
  from_stored, reparsed,
}

pub parse-value :
    (reads : WatermarkType → String → Bool) (raw : Option String) (t : WatermarkType)
    (w : Watermark)
    → parse reads raw t ≡ ok w
    → (is_text w.value ≡ true) × (w.type_ ≡ t)
unfolding parse
parse-value reads none t w h = ground arith
parse-value reads (some raw) t w h = ground arith

parse_type-type_value : (t : WatermarkType) → parse_type (type_value t) ≡ ok t
unfolding parse_type
parse_type-type_value integer = refl
parse_type-type_value float = refl
parse_type-type_value timestamp = refl
parse_type-type_value date = refl
parse_type-type_value string = refl

pub type_value-injective : (t u : WatermarkType) → type_value t ≡ type_value u → t ≡ u
type_value-injective t u h =
    let same : ok t ≡ ok u =
      sym (parse_type-type_value t) ∙ ap parse_type h ∙ parse_type-type_value u in
    cc

module _ (reads : WatermarkType → String → Bool) where
  -- The column that was asked for, and a value that parses to itself as the declared type.
  abbrev pub IsValid : String → WatermarkType → WatermarkContext → Type 0
  IsValid column declared c =
      (c.column ≡ column)
      × (c.type_ ≡ type_value declared)
      × (parse reads (some c.value) declared ≡ ok (record { value = c.value; type_ = declared }))

  parsed-IsValid :
      (raw : Option String) (column : String) (declared : WatermarkType) (w : Watermark)
      (c : WatermarkContext)
      → parse reads raw w.type_ ≡ ok w
      → w.type_ ≡ declared
      → context column w ≡ c
      → IsValid column declared c
  unfolding as_param_value
  parsed-IsValid raw column declared w c parsed typed h =
      ground (arith, parse-as_param_value reads raw w.type_ w parsed)

  parsed_context-IsValid :
      (raw : Option String) (column : String) (declared : WatermarkType) (c : WatermarkContext)
      → parsed_context reads column raw declared ≡ ok (some c)
      → IsValid column declared c
  parsed_context-IsValid raw column declared c h =
      let (w, parsed, h') = >>=-eq-ok _ (parse reads raw declared) h in
      let typed : w.type_ ≡ declared = (parse-value reads raw declared w parsed).1 in
      parsed-IsValid raw column declared w c (ap (parse reads raw) typed ∙ parsed) typed
        (ground arith)

  initial-IsValid :
      (column : String) (declared : WatermarkType) (initial : Option String) (c : WatermarkContext)
      → from_stored reads column declared initial none ≡ ok (some c)
      → IsValid column declared c
  initial-IsValid column declared initial c h = elim (Bool-cases (given initial)) [
    | inl usable ↦ parsed_context-IsValid initial column declared c (ground arith)
    | inr unusable ↦ absurd (ground arith)
  ]

  stored-type :
      (column : String) (declared : WatermarkType) (initial : Option String) (w : Watermark)
      (c : WatermarkContext)
      → from_stored reads column declared initial (some w) ≡ ok (some c)
      → (w.type_ ≡ declared) × (context column w ≡ c)
  stored-type column declared initial w c h = (
    type_value-injective w.type_ declared
        (ground (arith, eq_iff (type_value w.type_) (type_value declared))),
    ground arith,
  )

  from_stored-IsValid :
      (column : String) (declared : WatermarkType) (initial : Option String)
      (found stored : Option Watermark) (c : WatermarkContext)
      → reparsed reads found ≡ ok stored
      → from_stored reads column declared initial stored ≡ ok (some c)
      → IsValid column declared c
  from_stored-IsValid column declared initial found none c read h =
      initial-IsValid column declared initial c h
  from_stored-IsValid column declared initial none (some w) c read h = cc
  from_stored-IsValid column declared initial (some v) (some w) c read h =
      let (a, parsed, same) = >>=-eq-ok _ (parse reads (some v.value) v.type_) read in
      let eq : a ≡ w = ground arith in
      let (typed, shown) = stored-type column declared initial w c h in
      let kept : v.type_ ≡ w.type_ =
        sym (parse-value reads (some v.value) v.type_ a parsed).1
        ∙ ap (λ (x : Watermark). x.type_) eq in
      parsed-IsValid (some v.value) column declared w c
        (sym (ap (parse reads (some v.value)) kept) ∙ parsed ∙ ap ok eq) typed shown

  -- A context that is returned has the column that was asked for and a value that parses to itself
  -- as a watermark of the declared type, from whichever source it comes.
  pub resolve_watermark_context-IsValid :
      (column : String) (declared : WatermarkType) (override initial : Option String) (p : String)
      (rows : Runs) (c : WatermarkContext)
      → resolve_watermark_context reads column declared override initial
          (get_last_watermark reads p rows)
        ≡ ok (some c)
      → IsValid column declared c
  unfolding resolve_watermark_context get_last_watermark
  resolve_watermark_context-IsValid column declared override initial p rows c h =
      elim (Bool-cases (given override)) [
        | inl usable ↦ parsed_context-IsValid override column declared c (ground arith)
        | inr unusable ↦
            let (stored, read, h') =
              >>=-eq-ok (from_stored reads column declared initial)
                (get_last_watermark reads p rows) (ground arith) in
            from_stored-IsValid column declared initial
              (find_latest_watermark_by_pipeline_id p rows) stored c read h'
      ]
