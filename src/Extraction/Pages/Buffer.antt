-- ===== src/Extraction/Pages/Buffer.antt =====
-- rest_api_compute_adapter.py, the loop of `_extract_async`: what is written.
use clean_data_platform_airf.Prelude.{
  ℕ, zero, suc, ◌≡◌, refl, sym, ap, ◌∙◌, Bool, true, false, Option, none, some, List, [], ◌∷◌, ◌++◌,
  length, non_empty, arith, append_nil,
}
use clean_data_platform_airf.Errors.{Result, ok, err}
use clean_data_platform_airf.Prelude.Dict.{Dict}
use clean_data_platform_airf.Extraction.Json.{Value, Fields, extract_envelope_items}
use clean_data_platform_airf.Extraction.Pages.{
  Config, Loop, build_page_params, flush, take_page, next_page, extract_pages, answered, resume,
}

abbrev pub flatten {ℓ} : {A : Type ℓ} → List (List A) → List A
flatten [] = []
flatten (xs ∷ rest) = xs ++ flatten rest

append_assoc {ℓ} : {A : Type ℓ} (xs ys zs : List A) → (xs ++ ys) ++ zs ≡ xs ++ (ys ++ zs)
append_assoc [] ys zs = refl
append_assoc (x ∷ xs) ys zs = ap (λ t. x ∷ t) (append_assoc xs ys zs)

flatten-concat {ℓ} :
    {A : Type ℓ} (xss : List (List A)) (xs : List A) → flatten (xss ++ xs ∷ []) ≡ flatten xss ++ xs
flatten-concat [] xs = append_nil xs
flatten-concat (ys ∷ xss) xs =
    ap (λ t. ys ++ t) (flatten-concat xss xs) ∙ sym (append_assoc ys (flatten xss) xs)

-- All records that the loop has, written or still in the buffer.
abbrev pub held : Loop → List Fields
held s = flatten s.written ++ s.buffer

flush-held :
    (b : Bool) (xs : List Fields) (s : Loop) → held (flush b xs s) ≡ flatten s.written ++ xs
flush-held true xs s = append_nil (flatten (s.written ++ xs ∷ [])) ∙ flatten-concat s.written xs
flush-held false xs s = refl

non_empty-false : (xs : List Fields) → non_empty xs ≡ false → xs ≡ []
non_empty-false [] h = refl
non_empty-false (x ∷ xs) h = cc

take_page-held :
    (c : Config) (items : List Fields) (s : Loop) → held (take_page c items s) ≡ held s ++ items
unfolding take_page
take_page-held c items s =
    flush-held _ (s.buffer ++ items) s ∙ sym (append_assoc (flatten s.written) s.buffer items)

-- The last page empties the buffer.
last_page-empty :
    (c : Config) (raw : Value) (items : List Fields) (s t : Loop)
    → next_page c raw (length items) t ≡ none
    → (take_page c items s).buffer ≡ []
unfolding take_page next_page
last_page-empty c raw items s t h = ground (arith, non_empty-false (s.buffer ++ items))

next_page-held :
    (c : Config) (raw : Value) (n : ℕ) (s s' : Loop)
    → next_page c raw n s ≡ some s'
    → held s' ≡ held s
unfolding next_page
next_page-held c raw n s s' h = ground arith

module _ (fetch : Dict Value → Result Value) (c : Config) where
  abbrev pub following : (Loop → List Fields) → Option Loop → List Fields
  following more none = []
  following more (some s) = more s

  abbrev pub in_answer : (Loop → List Fields) → Loop → Result Value → List Fields
  in_answer more s (err e) = []
  in_answer more s (ok raw) =
      let items = extract_envelope_items raw in
      items ++ following more (next_page c raw (length items) (take_page c items s))

  -- The records of the pages that the loop still fetches, page by page.
  unfoldable pub records : ℕ → Loop → List Fields
  records zero s = []
  records (suc fuel) s = in_answer (records fuel) s (fetch (build_page_params c s))

  abbrev IsWritten : List Fields → Loop → Type 0
  IsWritten all s = (s.buffer ≡ []) × (flatten s.written ≡ all)

  -- One page, whatever is the answer, when the rest of the loop is right.
  module _ (fuel : ℕ)
      (rest : (s s' : Loop)
        → extract_pages fetch c fuel s ≡ some (ok s')
        → IsWritten (held s ++ records fuel s) s') where
    resume-IsWritten :
        (raw : Value) (items : List Fields) (s s' : Loop) (next : Option Loop)
        → next_page c raw (length items) (take_page c items s) ≡ next
        → resume fetch c (extract_pages fetch c fuel) (take_page c items s) next ≡ some (ok s')
        → IsWritten (held s ++ (items ++ following (records fuel) next)) s'
    resume-IsWritten raw items s s' none ended h =
        let s1 = take_page c items s in
        let same : s1 ≡ s' = ground arith in
        let empty : s1.buffer ≡ [] = last_page-empty c raw items s s1 ended in
        let all : flatten s1.written ≡ held s ++ (items ++ []) =
          sym (append_nil (flatten s1.written))
          ∙ ap (λ b. flatten s1.written ++ b) (sym empty)
          ∙ take_page-held c items s
          ∙ ap (λ b. held s ++ b) (sym (append_nil items)) in
        rw (← same) (empty, all)
    resume-IsWritten raw items s s' (some t) goes h =
        let (empty, all) = rest t s' h in
        (
          empty,
          all
              ∙ ap (λ x. x ++ records fuel t)
                  (next_page-held c raw (length items) (take_page c items s) t goes
                    ∙ take_page-held c items s)
              ∙ append_assoc (held s) items (records fuel t),
        )

    answered-IsWritten :
        (s s' : Loop) (r : Result Value)
        → answered fetch c (extract_pages fetch c fuel) s r ≡ some (ok s')
        → IsWritten (held s ++ in_answer (records fuel) s r) s'
    answered-IsWritten s s' (err e) h = cc
    answered-IsWritten s s' (ok raw) h =
        resume-IsWritten raw (extract_envelope_items raw) s s' _ refl h

  -- When the loop ends without an exception, the buffer is empty and the tables written hold
  -- exactly the records of all pages that were fetched, in their order.
  pub extract_pages-IsWritten :
      (fuel : ℕ) (s s' : Loop)
      → extract_pages fetch c fuel s ≡ some (ok s')
      → (s'.buffer ≡ []) × (flatten s'.written ≡ held s ++ records fuel s)
  unfolding extract_pages records
  extract_pages-IsWritten zero s s' h = cc
  extract_pages-IsWritten (suc fuel) s s' h =
      answered-IsWritten fuel (extract_pages-IsWritten fuel) s s' (fetch (build_page_params c s)) h
