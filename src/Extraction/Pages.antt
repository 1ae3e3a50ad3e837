-- ===== src/Extraction/Pages.antt =====
-- app/infrastructure/adapters/compute/rest_api_compute_adapter.py, the loop of `_extract_async`,
-- and `build_page_params` of rest_api_helpers.py. The server is a parameter: what a page's request
-- answers or raises after its retries. A table that is written is the list of its records, without
-- the time stamp that the loop adds to each. The loop is a recursion on fuel, and `none` stands for
-- fuel that did not do.
pub mod Buffer
pub mod Offsets
use clean_data_platform_airf.Prelude.{
  ℕ, zero, suc, ◌+◌, String, Bool, true, false, not, ◌&&◌, ◌||◌, Option, none, some, List, [], ◌∷◌,
  ◌++◌, ◌==◌, if◌then◌else◌, length, ltb, leb, non_empty,
}
use clean_data_platform_airf.Prelude.Dict.{Dict, insert}
use clean_data_platform_airf.Errors.{Result, ok, err}
use clean_data_platform_airf.Extraction.Json.{
  Value, null, number, text, object, array, Fields, resolve_jsonpath, is_truthy,
  extract_envelope_items,
}

-- The configuration of the extraction, with the defaults filled in.
pub record Config : Type 0 where
  pub strategy : String
  pub page_size : ℕ
  pub page_start : ℕ
  pub batch_size : ℕ
  pub limit_param : String
  pub offset_param : String
  pub page_param : String
  pub cursor_jsonpath : List String
  pub custom_params : Dict Value

-- The variables of the loop; `written` are the tables that the writer got.
pub record Loop : Type 0 where
  pub offset : ℕ
  pub page_num : ℕ
  pub cursor : Option Value
  pub buffer : List Fields
  pub written : List (List Fields)
  pub pages_fetched : ℕ

abbrev pub initial : Config → Loop
initial c = record {
  offset = 0;
  page_num = c.page_start;
  cursor = none;
  buffer = [];
  written = [];
  pages_fetched = 0;
}

abbrev with_cursor : Option Value → Dict Value → Dict Value
with_cursor none params = params
with_cursor (some v) params = insert "cursor" v params

unfoldable pub build_page_params : Config → Loop → Dict Value
build_page_params c s =
    if c.strategy == "offset_limit"
    then insert c.offset_param (number s.offset)
        (insert c.limit_param (number c.page_size) c.custom_params)
    else if c.strategy == "page_number"
    then insert c.page_param (number s.page_num)
        (insert c.limit_param (number c.page_size) c.custom_params)
    else if c.strategy == "cursor"
    then with_cursor s.cursor c.custom_params
    else c.custom_params

-- The buffer after a page, written out or kept.
abbrev pub flush : Bool → List Fields → Loop → Loop
flush true buffer s = record s {
  buffer = [];
  written = s.written ++ buffer ∷ [];
  pages_fetched = s.pages_fetched + 1;
}
flush false buffer s = record s { buffer = buffer; pages_fetched = s.pages_fetched + 1 }

-- It is written out if the page was the last, the batch is full, or the strategy wants it.
unfoldable pub take_page : Config → List Fields → Loop → Loop
take_page c items s =
    flush
      (non_empty (s.buffer ++ items)
        && (leb c.batch_size (length (s.buffer ++ items))
            || (c.strategy == "none" || c.strategy == "cursor")
            || ltb (length items) c.page_size))
      (s.buffer ++ items) s

abbrev cursor_in : Config → Value → Value
cursor_in c (object fields) = resolve_jsonpath (object fields) c.cursor_jsonpath
cursor_in c _ = null

-- What comes after a page: the loop's state for the next one, or its end.
unfoldable pub next_page : Config → Value → ℕ → Loop → Option Loop
unfolding resolve_jsonpath
next_page c raw n s =
    if c.strategy == "none" || ltb n c.page_size
    then none
    else if c.strategy == "offset_limit"
    then some (record s { offset = s.offset + c.page_size })
    else if c.strategy == "page_number"
    then some (record s { page_num = s.page_num + 1 })
    else if c.strategy == "cursor"
    then (let next = cursor_in c raw in
        if is_truthy next then some (record s { cursor = some next }) else none)
    else some s

-- `while True`
module _ (fetch : Dict Value → Result Value) (c : Config) where
  abbrev pub resume : (Loop → Option (Result Loop)) → Loop → Option Loop → Option (Result Loop)
  resume again s none = some (ok s)
  resume again s (some s') = again s'

  abbrev pub answered : (Loop → Option (Result Loop)) → Loop → Result Value → Option (Result Loop)
  answered again s (err e) = some (err e)
  answered again s (ok raw) =
      let items = extract_envelope_items raw in
      resume again (take_page c items s) (next_page c raw (length items) (take_page c items s))

  unfoldable pub extract_pages : ℕ → Loop → Option (Result Loop)
  unfolding build_page_params take_page next_page extract_envelope_items
  extract_pages zero s = none
  extract_pages (suc fuel) s = answered (extract_pages fuel) s (fetch (build_page_params c s))
