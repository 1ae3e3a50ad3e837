-- ===== src/Extraction/Tests.antt =====
-- The theorems about pages at a server with three records, two to a page.
use clean_data_platform_airf.Prelude.{
  ℕ, ◌+◌, ◌≡◌, refl, ap, Option, some, List, [], ◌∷◌, take, drop, length, arith,
}
use clean_data_platform_airf.Prelude.Dict.{Dict, lookup, insert}
use clean_data_platform_airf.Errors.{Result, ok}
use clean_data_platform_airf.Extraction.Json.{
  Value, null, number, array, Items, nil, cons, object, Fields, end, field, objects_in,
  extract_envelope_items,
}
use clean_data_platform_airf.Extraction.Pages.{
  Config, Loop, initial, build_page_params, take_page, next_page, extract_pages,
}
use clean_data_platform_airf.Extraction.Pages.Buffer.{flatten}
use clean_data_platform_airf.Extraction.Pages.Offsets.{Serves, extract_pages-all}

abbrev record_of : ℕ → Fields
record_of n = field "id" (number n) end

abbrev rows : List Fields
rows = record_of 1 ∷ record_of 2 ∷ record_of 3 ∷ []

abbrev config : Config
config = record {
  strategy = "offset_limit";
  page_size = 2;
  page_start = 1;
  batch_size = 5000;
  limit_param = "limit";
  offset_param = "offset";
  page_param = "page";
  cursor_jsonpath = "next_cursor" ∷ [];
  custom_params = [];
}

abbrev items_of : List Fields → Items
items_of [] = nil
items_of (x ∷ xs) = cons (object x) (items_of xs)

objects_in-items_of : (xs : List Fields) → objects_in (items_of xs) ≡ xs
unfolding objects_in
objects_in-items_of [] = refl
objects_in-items_of (x ∷ xs) = ap (λ t. x ∷ t) (objects_in-items_of xs)

abbrev page_at : Option Value → Result Value
page_at (some (number o)) = ok (array (items_of (take 2 (drop o rows))))
page_at _ = ok null

abbrev server : Dict Value → Result Value
server params = page_at (lookup "offset" params)

server-Serves : Serves server config rows
unfolding build_page_params lookup insert extract_envelope_items
server-Serves s = (
  array (items_of (take 2 (drop s.offset rows))),
  refl,
  objects_in-items_of (take 2 (drop s.offset rows)),
)

extract_pages-all_example :
    (s' : Loop) × (extract_pages server config (length rows + 1) (initial config) ≡ some (ok s'))
    × (s'.buffer ≡ [])
    × (flatten s'.written ≡ rows)
extract_pages-all_example = extract_pages-all server config rows server-Serves refl (omega arith)

abbrev one_page : Config
one_page = record config { strategy = "none" }

abbrev listing : Dict Value → Result Value
listing params = ok (array (items_of rows))

abbrev finished : Loop
finished = record (initial one_page) { written = rows ∷ []; pages_fetched = 1 }

listing_runs : extract_pages listing one_page 1 (initial one_page) ≡ some (ok finished)
unfolding extract_pages build_page_params take_page next_page extract_envelope_items objects_in
listing_runs = refl
