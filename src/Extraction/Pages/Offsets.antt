-- ===== src/Extraction/Pages/Offsets.antt =====
-- rest_api_compute_adapter.py, the loop of `_extract_async` with the strategy "offset_limit".
use clean_data_platform_airf.Prelude.{
  ℕ, zero, suc, ◌+◌, ◌<◌, ◌≡◌, refl, sym, ap, ◌∙◌, true, false, none, some, List, [], ◌++◌, inl,
  inr, if◌then◌else◌, length, ltb, arith, Bool-cases, take, drop, take-append-drop, drop-drop,
  drop-zero, take-short, length-append, append_nil,
}
use clean_data_platform_airf.Errors.{Result, ok}
use clean_data_platform_airf.Prelude.Dict.{Dict}
use clean_data_platform_airf.Extraction.Json.{Value, Fields, extract_envelope_items}
use clean_data_platform_airf.Extraction.Pages.{
  Config, Loop, initial, build_page_params, take_page, next_page, extract_pages,
}
use clean_data_platform_airf.Extraction.Pages.Buffer.{flatten, records, extract_pages-IsWritten}

next_page-offset :
    (c : Config) (raw : Value) (n : ℕ) (s : Loop)
    → c.strategy ≡ "offset_limit"
    → next_page c raw n s
      ≡ (if ltb n c.page_size then none else some (record s { offset = s.offset + c.page_size }))
unfolding next_page
next_page-offset c raw n s h = rw h refl

take_page-offset :
    (c : Config) (items : List Fields) (s : Loop) → (take_page c items s).offset ≡ s.offset
unfolding take_page
take_page-offset c items s = ground arith

module _ (fetch : Dict Value → Result Value) (c : Config) (rows : List Fields) where
  -- The server answers a request with the slice of its records that the parameters ask for.
  abbrev pub Serves : Type 0
  Serves =
      (s : Loop)
      → (raw : Value) × (fetch (build_page_params c s) ≡ ok raw)
        × (extract_envelope_items raw ≡ take c.page_size (drop s.offset rows))

  abbrev Ends : ℕ → Loop → Type 0
  Ends fuel s =
      (s' : Loop) × (extract_pages fetch c fuel s ≡ some (ok s'))
      × (records fetch c fuel s ≡ drop s.offset rows)

  -- A slice of the records, and what is behind it.
  module _ (o : ℕ) where
    short_slice :
        (items : List Fields)
        → items ≡ take c.page_size (drop o rows)
        → ltb (length items) c.page_size ≡ true
        → items ≡ drop o rows
    short_slice items slice short =
        let less : length items < c.page_size = ground arith in
        slice ∙ take-short c.page_size (drop o rows) (rw (← slice) less)

    more_slice :
        (o1 : ℕ) (items : List Fields)
        → items ≡ take c.page_size (drop o rows)
        → o1 ≡ o
        → items ++ drop (o1 + c.page_size) rows ≡ drop o rows
    more_slice o1 items slice same =
        rw (same, slice, ← drop-drop o c.page_size rows)
          (take-append-drop c.page_size (drop o rows))

    less_slice :
        (o1 fuel : ℕ) (items : List Fields)
        → items ≡ take c.page_size (drop o rows)
        → o1 ≡ o
        → ltb (length items) c.page_size ≡ false
        → 0 < c.page_size
        → length (drop o rows) < suc fuel
        → length (drop (o1 + c.page_size) rows) < fuel
    less_slice o1 fuel items slice same full positive enough =
        let all : length items + length (drop (o1 + c.page_size) rows) ≡ length (drop o rows) =
          sym (length-append items (drop (o1 + c.page_size) rows))
          ∙ ap (λ x. length x) (more_slice o1 items slice same) in
        ground arith

  -- One page: the last one, or one with the loop ending behind it.
  Ends-last :
      (fuel : ℕ) (s : Loop) (raw : Value)
      → fetch (build_page_params c s) ≡ ok raw
      → next_page c raw
          (length (extract_envelope_items raw))
          (take_page c (extract_envelope_items raw) s)
        ≡ none
      → extract_envelope_items raw ≡ drop s.offset rows
      → Ends (suc fuel) s
  unfolding extract_pages records
  Ends-last fuel s raw answer ended items = (
    take_page c (extract_envelope_items raw) s,
    rw (answer, ended) refl,
    rw (answer, ended) (append_nil (extract_envelope_items raw) ∙ items),
  )

  Ends-more :
      (fuel : ℕ) (s t : Loop) (raw : Value)
      → fetch (build_page_params c s) ≡ ok raw
      → next_page c raw
          (length (extract_envelope_items raw))
          (take_page c (extract_envelope_items raw) s)
        ≡ some t
      → extract_envelope_items raw ++ drop t.offset rows ≡ drop s.offset rows
      → Ends fuel t
      → Ends (suc fuel) s
  unfolding extract_pages records
  Ends-more fuel s t raw answer goes items (s', done, all) = (
    s',
    rw (answer, goes) done,
    rw (answer, goes) (ap (λ x. extract_envelope_items raw ++ x) all ∙ items),
  )

  -- The loop from any state.
  extract_pages-Ends :
      (fuel : ℕ) (s : Loop)
      → Serves
      → c.strategy ≡ "offset_limit"
      → 0 < c.page_size
      → length (drop s.offset rows) < fuel
      → Ends fuel s
  extract_pages-Ends zero s serves strategy positive enough = absurd (omega arith)
  extract_pages-Ends (suc fuel) s serves strategy positive enough =
      let (raw, answer, items) = serves s in
      let n = length (extract_envelope_items raw) in
      let s1 = take_page c (extract_envelope_items raw) s in
      let next = next_page-offset c raw n s1 strategy in
      elim (Bool-cases (ltb n c.page_size)) [
        | inl short ↦
            Ends-last fuel s raw answer (rw (next, short) refl)
              (short_slice s.offset (extract_envelope_items raw) items short)
        | inr full ↦
            Ends-more fuel s (record s1 { offset = s1.offset + c.page_size }) raw answer
              (rw (next, full) refl)
              (more_slice s.offset s1.offset (extract_envelope_items raw) items
                (take_page-offset c (extract_envelope_items raw) s))
              (extract_pages-Ends fuel _ serves strategy positive (
                less_slice s.offset s1.offset fuel (extract_envelope_items raw) items
                  (take_page-offset c (extract_envelope_items raw) s) full positive enough))
      ]

  -- Against a server that answers with the slices of a finite list of records, pages by offset and
  -- limit of at least one record end after at most one request more than there are records, and the
  -- tables written hold exactly these records in their order, each once.
  pub extract_pages-all :
      Serves
      → c.strategy ≡ "offset_limit"
      → 0 < c.page_size
      → (s' : Loop) × (extract_pages fetch c (length rows + 1) (initial c) ≡ some (ok s'))
        × (s'.buffer ≡ [])
        × (flatten s'.written ≡ rows)
  extract_pages-all serves strategy positive =
      let (s', done, all) =
        extract_pages-Ends (length rows + 1) (initial c) serves strategy positive
          (rw (drop-zero rows) (omega arith)) in
      let (empty, written) =
        extract_pages-IsWritten fetch c (length rows + 1) (initial c) s' done in
      (s', done, empty, written ∙ all ∙ drop-zero rows)
