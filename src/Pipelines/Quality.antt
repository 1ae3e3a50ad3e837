-- ===== src/Pipelines/Quality.antt =====
-- app/domain/pipelines/quality_gate_evaluator.py: the rules that a run's metrics must meet. A value
-- is a number without sign or fraction, a NaN, or a text such as a checksum; two texts are compared
-- by their code points, and comparing a text with a number or a NaN raises TypeError. `render` is
-- Python's `str` of a number.
use Prim.Native.Char.{code}
use clean_data_platform_airf.Prelude.{
  ℕ, String, Bool, true, false, not, Option, none, some, List, [], ◌∷◌, format, ltb, eqb,
  if◌then◌else◌, ◌==◌,
}
use clean_data_platform_airf.Prelude.Dict.{Dict, lookup}
use clean_data_platform_airf.Errors.{Result, ok, err, type_error, ◌>>=◌}

pub data Value : Type 0 where
  number : ℕ → Value
  nan : Value
  text : String → Value

pub record QualityRule : Type 0 where
  pub type_ : String
  pub column : String
  pub value : Option Value

abbrev pub comparison_error : Result Bool
comparison_error = err (type_error "'<' not supported between instances of 'str' and 'int'")

-- `a < b` of two texts
unfoldable pub precedes : String → String → Bool
precedes a String.[] = false
precedes String.[] (String.◌∷◌ d b) = true
precedes (String.◌∷◌ c a) (String.◌∷◌ d b) =
    let rest = precedes a b in
    if ltb (code c) (code d) then true else if eqb (code c) (code d) then rest else false

-- `a < b`; every comparison of a number with a NaN is false.
abbrev pub is_less : Value → Value → Result Bool
is_less (number a) (number b) = ok (ltb a b)
is_less (text a) (text b) = ok (precedes a b)
is_less (text a) b = comparison_error
is_less a (text b) = comparison_error
is_less a b = ok false

-- `metrics.get("row_count") == 0`
abbrev pub is_zero : Option Value → Bool
is_zero (some (number n)) = eqb n 0
is_zero _ = false

abbrev pub value_or : Value → Option Value → Value
value_or default none = default
value_or default (some v) = v

-- `if violated: return message` and `return None`
abbrev pub report : String → Bool → Option String
report message true = some message
report message false = none

module _ (render : ℕ → String) where
  -- `str(value)`
  abbrev pub shown : Value → String
  shown (number n) = render n
  shown nan = "nan"
  shown (text s) = s

  -- `RowCountMinStrategy.evaluate`
  unfoldable pub row_count_min : QualityRule → Dict Value → Result (Option String)
  row_count_min rule metrics = elim (lookup "row_count" metrics) [
    | none ↦ ok (some "VIOLATION row_count_min: metric not computed/missing")
    | some nan ↦ ok (
        some (
          format (
            "VIOLATION row_count_min: got NaN, expected >= "
            ∷ shown (value_or (number 0) rule.value)
            ∷ [])))
    | some actual ↦ do
      let threshold = value_or (number 0) rule.value
      less ← is_less actual threshold
      ok (
          report
            (format (
              "VIOLATION row_count_min: got "
              ∷ shown actual
              ∷ ", expected >= "
              ∷ shown threshold
              ∷ []))
            less)
  ]

  -- What the strategies for one column share: the name of the rule, the metric that counts the bad
  -- values, and how the message ends.
  unfoldable pub column_rule :
      String → String → String → QualityRule → Dict Value → Result (Option String)
  column_rule name metric ending rule metrics =
      elim (lookup (format (metric ∷ rule.column ∷ [])) metrics) [
        | none ↦
            if is_zero (lookup "row_count" metrics)
            then ok none
            else ok (some (format ("VIOLATION " ∷ name ∷ ": metric not computed/missing" ∷ [])))
        | some actual ↦ do
          bad ← is_less (number 0) actual
          ok (
              report
                (format (
                  "VIOLATION "
                  ∷ name
                  ∷ ": column '"
                  ∷ rule.column
                  ∷ "' has "
                  ∷ shown actual
                  ∷ ending
                  ∷ []))
                bad)
      ]

  unfoldable pub not_null : QualityRule → Dict Value → Result (Option String)
  unfolding column_rule
  not_null = column_rule "not_null" "null_count_" " null(s)"

  unfoldable pub unique : QualityRule → Dict Value → Result (Option String)
  unfolding column_rule
  unique = column_rule "unique" "duplicate_count_" " duplicate(s)"

  unfoldable pub accepted_values : QualityRule → Dict Value → Result (Option String)
  unfolding column_rule
  accepted_values = column_rule "accepted_values" "invalid_value_count_" " invalid value(s)"

  unfoldable pub referential_integrity : QualityRule → Dict Value → Result (Option String)
  unfolding column_rule
  referential_integrity = column_rule "referential_integrity" "orphan_count_" " orphan record(s)"

  -- `ChecksumStrategy.evaluate`
  unfoldable pub checksum : QualityRule → Dict Value → Result (Option String)
  checksum rule metrics = elim (lookup "checksum" metrics) [
    | none ↦ ok (some "VIOLATION checksum: metric not computed/missing")
    | some actual ↦
        let expected = value_or (text "") rule.value in
        ok (
          report
            (format
              ("VIOLATION checksum: got " ∷ shown actual ∷ ", expected " ∷ shown expected ∷ []))
            (not (shown actual == shown expected)))
  ]

  -- `_DEFAULT_STRATEGIES.get(rule_type)` and its evaluation; an unknown type is skipped.
  unfoldable pub evaluate_rule : QualityRule → Dict Value → Result (Option String)
  unfolding row_count_min not_null unique accepted_values referential_integrity checksum
  evaluate_rule rule metrics =
      if rule.type_ == "row_count_min"
      then row_count_min rule metrics
      else if rule.type_ == "not_null"
      then not_null rule metrics
      else if rule.type_ == "unique"
      then unique rule metrics
      else if rule.type_ == "accepted_values"
      then accepted_values rule metrics
      else if rule.type_ == "referential_integrity"
      then referential_integrity rule metrics
      else if rule.type_ == "checksum"
      then checksum rule metrics
      else ok none

  abbrev pub with_violation : Option String → List String → List String
  with_violation none rest = rest
  with_violation (some v) rest = v ∷ rest

  -- `QualityGateEvaluator.evaluate`
  unfoldable pub evaluate : Dict Value → List QualityRule → Result (List String)
  evaluate metrics [] = ok []
  evaluate metrics (rule ∷ rest) = do
    violation ← evaluate_rule rule metrics
    others ← evaluate metrics rest
    ok (with_violation violation others)
