-- ===== src/Discovery/Tags/First.antt =====
-- policy_tag_inferrer.py: which rule decides.
use clean_data_platform_airf.Prelude.{
  String, ◌≡◌, refl, true, false, Option, none, some, List, [], ◌∷◌, arith, lower, any, Bool, ◌&&◌,
}
use clean_data_platform_airf.Discovery.Tags.{
  PolicyTag, PolicyTagConfidence, PolicyTagSuggestion, TagRule, restricted, high, rules, occurs_in,
  search_pattern, suggestion, infer_with, infer,
}

abbrev pub is_restricted : PolicyTag → Bool
is_restricted restricted = true
is_restricted _ = false

abbrev pub is_high : PolicyTagConfidence → Bool
is_high high = true
is_high _ = false

-- What a suggestion says of sensitivity.
abbrev pub verdict : Option PolicyTagSuggestion → Option (PolicyTag × PolicyTagConfidence)
verdict none = none
verdict (some s) = some (s.suggested_tag, s.confidence)

same_search :
    (r : TagRule) (a b : String) → lower a ≡ lower b → search_pattern r a ≡ search_pattern r b
unfolding search_pattern
same_search r a b h = rw h

verdict-infer_with :
    (rs : List TagRule) (a b : String)
    → lower a ≡ lower b
    → verdict (infer_with rs a) ≡ verdict (infer_with rs b)
unfolding infer_with suggestion
verdict-infer_with [] a b h = refl
verdict-infer_with (r ∷ rs) a b h = ground (arith, same_search r a b h, verdict-infer_with rs a b h)

-- Names that differ only in the case of their letters get the same tag and confidence.
pub verdict_ignores_case :
    (a b : String) → lower a ≡ lower b → verdict (infer a) ≡ verdict (infer b)
unfolding infer
verdict_ignores_case a b h = verdict-infer_with rules a b h

abbrev pub tags_restricted : Option PolicyTagSuggestion → Bool
tags_restricted none = false
tags_restricted (some s) = is_restricted s.suggested_tag

abbrev pub is_restricted_high : Option PolicyTagSuggestion → Bool
is_restricted_high none = false
is_restricted_high (some s) = is_restricted s.suggested_tag && is_high s.confidence

-- A name is tagged RESTRICTED exactly if one of four words occurs in it in any case, whatever else
-- occurs in it, and then always with high confidence.
infer_restricted :
    (name : String)
    → let found =
        any (λ a. occurs_in a (lower name)) ("cpf" ∷ "cnpj" ∷ "password" ∷ "senha" ∷ []) in
      (tags_restricted (infer name) ≡ found) × (is_restricted_high (infer name) ≡ found)
unfolding infer infer_with suggestion search_pattern
infer_restricted name = (ground arith, ground arith)
