-- ===== src/Discovery/Tags.antt =====
-- app/domain/shared/policy_tag.py, app/domain/discovery/policy_tag_confidence.py,
-- policy_tag_suggestion.py and services/policy_tag_inferrer.py: sensitivity tags guessed from a
-- column's name. A pattern `a|b` is the list of its alternatives; a search that ignores case looks
-- for one of them in the name with its ASCII letters lowered.
pub mod First
use text.Mathlib.Text.{starts_with}
use clean_data_platform_airf.Prelude.{
  String, Bool, true, false, Option, none, some, List, [], ◌∷◌, ◌||◌, if◌then◌else◌, lower, format,
  any,
}

pub data PolicyTag : Type 0 where
  pii restricted public confidential : PolicyTag

pub data PolicyTagConfidence : Type 0 where
  high medium low : PolicyTagConfidence

pub record PolicyTagSuggestion : Type 0 where
  pub field_name : String
  pub suggested_tag : PolicyTag
  pub confidence : PolicyTagConfidence
  pub matched_pattern : String
  pub auto_generated_description : Option String

pub record TagRule : Type 0 where
  pub alternatives : List String
  pub tag : PolicyTag
  pub confidence : PolicyTagConfidence

-- `self._rules`
abbrev pub rules : List TagRule
rules =
    record { alternatives = "cpf" ∷ "cnpj" ∷ []; tag = restricted; confidence = high }
    ∷ record { alternatives = "password" ∷ "senha" ∷ []; tag = restricted; confidence = high }
    ∷ record { alternatives = "email" ∷ []; tag = pii; confidence = high }
    ∷ record {
      alternatives = "phone" ∷ "telefone" ∷ "celular" ∷ [];
      tag = pii;
      confidence = medium;
    }
    ∷ record {
      alternatives = "address" ∷ "endereco" ∷ "cep" ∷ "zipcode" ∷ [];
      tag = pii;
      confidence = medium;
    }
    ∷ record { alternatives = "name" ∷ "nome" ∷ []; tag = pii; confidence = low }
    ∷ []

-- The text of a pattern, its alternatives joined by `|`.
pub pattern_text : List String → String
pattern_text [] = ""
pattern_text (a ∷ []) = a
pattern_text (a ∷ b ∷ rest) = format (a ∷ "|" ∷ pattern_text (b ∷ rest) ∷ [])

-- `needle in text`
unfoldable pub occurs_in : String → String → Bool
occurs_in needle String.[] = starts_with String.[] needle
occurs_in needle (String.◌∷◌ c rest) =
    starts_with (String.◌∷◌ c rest) needle || occurs_in needle rest

-- `pattern.search(field_name)`
pub search_pattern : TagRule → String → Bool
search_pattern rule field_name = any (λ a. occurs_in a (lower field_name)) rule.alternatives

suggestion : String → TagRule → PolicyTagSuggestion
unfolding pattern_text
suggestion field_name rule = record {
  field_name = field_name;
  suggested_tag = rule.tag;
  confidence = rule.confidence;
  matched_pattern = pattern_text rule.alternatives;
  auto_generated_description = some (
      format (
        "Auto-suggested based on field name matching '"
        ∷ pattern_text rule.alternatives
        ∷ "'"
        ∷ []));
}

-- The loop of `infer` over the rules.
infer_with : List TagRule → String → Option PolicyTagSuggestion
infer_with [] field_name = none
infer_with (rule ∷ rest) field_name =
    if search_pattern rule field_name
    then some (suggestion field_name rule)
    else infer_with rest field_name

-- `PolicyTagInferrer.infer`
pub infer : String → Option PolicyTagSuggestion
infer field_name = infer_with rules field_name
