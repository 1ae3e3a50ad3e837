-- ===== src/Pipelines/Gate.antt =====
-- quality_gate_evaluator.py: what the gate lets pass.
use clean_data_platform_airf.Prelude.{
  ℕ, ◌≡◌, String, Bool, true, false, not, Option, none, some, List, [], ◌∷◌, format, ltb,
  if◌then◌else◌, ◌==◌, arith, any, All, non_empty, is_some,
}
use clean_data_platform_airf.Prelude.Dict.{Dict, lookup}
use clean_data_platform_airf.Errors.{ok, >>=-eq-ok}
use clean_data_platform_airf.Pipelines.Quality.{
  Value, number, nan, text, precedes, QualityRule, is_zero, value_or, shown, column_rule,
  row_count_min, not_null, unique, accepted_values, referential_integrity, checksum, evaluate_rule,
  evaluate,
}

-- Too few rows: the count is missing, a NaN, or below the threshold, of two texts the one that comes
-- first in the order of their code points.
abbrev pub too_few : Option Value → Value → Bool
too_few none threshold = true
too_few (some nan) threshold = true
too_few (some (number n)) (number t) = ltb n t
too_few (some (text a)) (text b) = precedes a b
too_few (some v) threshold = false

-- A count of bad values that is missing although there may be rows, that is above zero, or a NaN.
abbrev pub bad_values : Option Value → Option Value → Bool
bad_values none rows = not (is_zero rows)
bad_values (some (number n)) rows = ltb 0 n
bad_values (some nan) rows = true
bad_values (some v) rows = false

abbrev pub other_checksum : (ℕ → String) → Option Value → Option Value → Bool
other_checksum render none expected = true
other_checksum render (some actual) expected =
    not (shown render actual == shown render (value_or (text "") expected))

abbrev bad_in : Dict Value → String → QualityRule → Bool
bad_in metrics metric rule =
    bad_values (lookup (format (metric ∷ rule.column ∷ [])) metrics) (lookup "row_count" metrics)

-- The rule is broken.
unfoldable pub is_broken : (ℕ → String) → Dict Value → QualityRule → Bool
is_broken render metrics rule =
    if rule.type_ == "row_count_min"
    then too_few (lookup "row_count" metrics) (value_or (number 0) rule.value)
    else if rule.type_ == "not_null"
    then bad_in metrics "null_count_" rule
    else if rule.type_ == "unique"
    then bad_in metrics "duplicate_count_" rule
    else if rule.type_ == "accepted_values"
    then bad_in metrics "invalid_value_count_" rule
    else if rule.type_ == "referential_integrity"
    then bad_in metrics "orphan_count_" rule
    else if rule.type_ == "checksum"
    then other_checksum render (lookup "checksum" metrics) rule.value
    else false

abbrev pub is_nan : Option Value → Bool
is_nan (some nan) = true
is_nan _ = false

-- No count of bad values of the rule's column is a NaN.
abbrev pub IsCounted : Dict Value → QualityRule → Type 0
IsCounted metrics rule =
    All (λ metric. is_nan (lookup (format (metric ∷ rule.column ∷ [])) metrics) ≡ false)
      ("null_count_" ∷ "duplicate_count_" ∷ "invalid_value_count_" ∷ "orphan_count_" ∷ [])

module _ (render : ℕ → String) where
  row_count_min-too_few :
      (rule : QualityRule) (metrics : Dict Value) (v : Option String)
      → row_count_min render rule metrics ≡ ok v
      → is_some v ≡ too_few (lookup "row_count" metrics) (value_or (number 0) rule.value)
  unfolding row_count_min
  row_count_min-too_few rule metrics v h = ground arith

  column_rule-bad_values :
      (name metric ending : String) (rule : QualityRule) (metrics : Dict Value) (v : Option String)
      → column_rule render name metric ending rule metrics ≡ ok v
      → is_nan (lookup (format (metric ∷ rule.column ∷ [])) metrics) ≡ false
      → is_some v
        ≡ bad_values
            (lookup (format (metric ∷ rule.column ∷ [])) metrics)
            (lookup "row_count" metrics)
  unfolding column_rule
  column_rule-bad_values name metric ending rule metrics v h counted = ground arith

  checksum-other :
      (rule : QualityRule) (metrics : Dict Value) (v : Option String)
      → checksum render rule metrics ≡ ok v
      → is_some v ≡ other_checksum render (lookup "checksum" metrics) rule.value
  unfolding checksum
  checksum-other rule metrics v h = ground arith

  evaluate_rule-is_broken :
      (rule : QualityRule) (metrics : Dict Value) (v : Option String)
      → evaluate_rule render rule metrics ≡ ok v
      → IsCounted metrics rule
      → is_some v ≡ is_broken render metrics rule
  unfolding is_broken evaluate_rule not_null unique accepted_values referential_integrity
  evaluate_rule-is_broken rule metrics v h counted = ground (
    arith,
    row_count_min-too_few rule metrics v,
    checksum-other rule metrics v,
    column_rule-bad_values "not_null" "null_count_" " null(s)" rule metrics v,
    column_rule-bad_values "unique" "duplicate_count_" " duplicate(s)" rule metrics v,
    column_rule-bad_values "accepted_values" "invalid_value_count_" " invalid value(s)" rule metrics
        v,
    column_rule-bad_values "referential_integrity" "orphan_count_" " orphan record(s)" rule metrics
        v,
  )

  -- If the evaluation returns, and no metric that counts the bad values of a rule's column is a NaN,
  -- it reports a violation exactly if some rule is broken: too few rows, a NaN or no count of them (a
  -- threshold that is a text is compared as text), a count of bad values that is above zero or
  -- missing where there may be rows, or another checksum. A rule of an unknown type is never broken.
  pub evaluate-is_broken :
      (metrics : Dict Value) (rules : List QualityRule) (violations : List String)
      → evaluate render metrics rules ≡ ok violations
      → All (IsCounted metrics) rules
      → non_empty violations ≡ any (is_broken render metrics) rules
  unfolding evaluate
  evaluate-is_broken metrics [] violations h counted = ground arith
  evaluate-is_broken metrics (rule ∷ rules) violations h counted =
      let (v, first, h1) = >>=-eq-ok _ (evaluate_rule render rule metrics) h in
      let (others, rest, h2) = >>=-eq-ok _ (evaluate render metrics rules) h1 in
      ground (
        arith,
        evaluate_rule-is_broken rule metrics v first counted.0,
        evaluate-is_broken metrics rules others rest counted.1,
      )
