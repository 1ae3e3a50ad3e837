-- ===== src/Tasks/Checks.antt =====
-- shared_callbacks.py, `check_dependencies` and `quality_gate`: the tasks that stop a DAG. The
-- platform's answer about an upstream pipeline is a parameter.
use clean_data_platform_airf.Prelude.{
  ℕ, ◌≡◌, refl, ap, ◌⊎◌, inl, inr, String, Bool, true, false, not, Option, none, some, List, [],
  ◌∷◌, ◌++◌, if◌then◌else◌, format, non_empty, All, Bool-cases,
}
use clean_data_platform_airf.Prelude.Dict.{Dict}
use clean_data_platform_airf.Errors.{Result, ok, err, runtime_error, ◌>>=◌}
use clean_data_platform_airf.Pipelines.Quality.{Value, QualityRule, evaluate}

pub record Dependency : Type 0 where
  pub pipeline_id : String
  pub require_same_day : Bool
  pub dependency_type : Option String

-- `dep.get("dependency_type", "dataset")`, as the platform is asked.
abbrev pub type_or_dataset : Option String → String
type_or_dataset none = "dataset"
type_or_dataset (some t) = t

-- `{dep.get('dependency_type')!r}`
abbrev shown : Option String → String
shown none = "None"
shown (some t) = format ("'" ∷ t ∷ "'" ∷ [])

module _ (pipeline_succeeded_on : String → Bool → ℕ → String → Bool) (logical_date : ℕ) where
  abbrev pub is_satisfied : Dependency → Bool
  is_satisfied d =
      pipeline_succeeded_on d.pipeline_id d.require_same_day logical_date
        (type_or_dataset d.dependency_type)

  abbrev pub not_satisfied : Dependency → Result (Unit {0})
  not_satisfied d = err (
      runtime_error (
        format (
          "Dependency not satisfied: pipeline_id='"
          ∷ d.pipeline_id
          ∷ "' type="
          ∷ shown d.dependency_type
          ∷ [])))

  unfoldable pub check_dependencies : List Dependency → Result (Unit {0})
  check_dependencies [] = ok tt
  check_dependencies (d ∷ rest) =
      let others = check_dependencies rest in
      if not (is_satisfied d) then not_satisfied d else others

  -- The check passes exactly if every upstream pipeline has succeeded; otherwise it names the first
  -- one that has not, after which the list goes on in any way.
  check_dependencies_lem :
      (ds : List Dependency)
      → ((check_dependencies ds ≡ ok tt) × All (λ d. is_satisfied d ≡ true) ds)
        ⊎ ((before : List Dependency) × (d : Dependency) × (after : List Dependency) × (ds
              ≡ before ++ d ∷ after)
            × All (λ e. is_satisfied e ≡ true) before
            × (is_satisfied d ≡ false)
            × (check_dependencies ds ≡ not_satisfied d))
  unfolding check_dependencies
  check_dependencies_lem [] = inl (refl, tt)
  check_dependencies_lem (d ∷ ds) = elim (Bool-cases (is_satisfied d)) [
    | inr missing ↦ inr ([], d, ds, refl, tt, missing, rw missing refl)
    | inl there ↦ elim (check_dependencies_lem ds) [
      | inl (passed, every) ↦ inl (rw there passed, (there, every))
      | inr (before, e, after, split, every, missing, failed) ↦
          inr (
            d ∷ before,
            e,
            after,
            ap (λ es. d ∷ es) split,
            (there, every),
            missing,
            rw there failed,
          )
    ]
  ]

-- `quality_gate`; `shown_list` is how Python shows a list of texts.
module _ (render : ℕ → String) (shown_list : List String → String) where
  unfoldable pub quality_gate : String → Dict Value → List QualityRule → Result (Dict Value)
  unfolding evaluate
  quality_gate pipeline_id metrics rules = do
    failures ← evaluate render metrics rules
    elim (non_empty failures) [
      | true ↦ err (
          runtime_error (
            format (
              "Quality gate failed for pipeline '"
              ∷ pipeline_id
              ∷ "'. Violations: "
              ∷ shown_list failures
              ∷ [])))
      | false ↦ ok metrics
    ]
