-- ===== src/Discovery/Tests.antt =====
-- The discovery theorems at small tables and runs.
use clean_data_platform_airf.Prelude.{
  ◌≡◌, refl, String, Bool, true, false, none, some, List, [], ◌∷◌, lower, ℕ, zero, suc, ◌≤◌, ◌++◌,
  ◌==◌, Bool-cases, inl, inr, eq_iff, arith, ap,
}
use Prim.Native.Char.{code}
use clean_data_platform_airf.Prelude.Marks.{marks, marks_distinct}
use clean_data_platform_airf.Discovery.Healing.Waiting.{dues, requested, critical_changes_wait}
use clean_data_platform_airf.Prelude.Dict.{lookup, insert, insert_all, dict_by}
use clean_data_platform_airf.Errors.{ok}
use clean_data_platform_airf.Discovery.Schema.{
  SchemaField, SchemaSnapshot, fields_by_name, is_compatible_with,
}
use clean_data_platform_airf.Discovery.Drift.{is_critical, type_incompatible}
use clean_data_platform_airf.Discovery.Differ.{
  diff, check_added_and_changed_fields, check_removed_fields, added_and_changed, removed,
  check_current_field, check_previous_field, check_type_change, check_nullability_change,
}
use clean_data_platform_airf.Discovery.Run.{
  DiscoveryRun, Findings, Call, call_start, call_complete, call_fail, new_run, run_calls,
  apply_call, start, complete, fail, is_terminal,
}
use clean_data_platform_airf.Discovery.Run.Lifecycle.{IsConsistent, run_calls-IsConsistent}
use clean_data_platform_airf.Discovery.Approval.{DriftApproval, Attempt, pending as undecided}
use clean_data_platform_airf.Discovery.Approval.Once.{decided}
use clean_data_platform_airf.Discovery.Service.{
  classify_models, is_broken, is_blocking, proceeds_unbroken,
}
use clean_data_platform_airf.Discovery.Healing.{
  Store, reject_drift, save_approval, find_approval, apply_self_healing_and_approvals,
}
use clean_data_platform_airf.Discovery.Approval.{reject}

abbrev field_of : String → String → Bool → SchemaField
field_of name type_ nullable = record {
  name = name;
  source_type = type_;
  normalized_type = type_;
  nullable = nullable;
  is_primary_key = false;
  description = none;
}

abbrev snapshot_of : List SchemaField → SchemaSnapshot
snapshot_of fields = record {
  object_id = "orders";
  fields = fields;
  captured_at = 5;
  object_name = "orders";
  row_count_estimate = none;
}

abbrev before : SchemaSnapshot
before = snapshot_of (
    field_of "id" "integer" false
    ∷ field_of "price" "float" true
    ∷ field_of "note" "string" true
    ∷ [])

abbrev after : SchemaSnapshot
after = snapshot_of (
    field_of "id" "bigint" false
    ∷ field_of "price" "integer" false
    ∷ field_of "cpf" "string" true
    ∷ [])

same_case : lower "Customer_CPF" ≡ lower "customer_cpf"
unfolding lower
same_case = refl

abbrev findings : Findings
findings = record {
  snapshots = before ∷ [];
  drift_events =
      record {
        object_id = "orders";
        change_type = type_incompatible;
        description = "Incompatible type change from float to integer.";
        field_name = some "price";
        previous_value = some "float";
        current_value = some "integer";
      }
      ∷ [];
  policy_tag_suggestions = [];
  auto_generated_descriptions = [];
  soft_failures = "no statistics" ∷ [];
}

abbrev calls : List Call
calls = call_start 1 1 ∷ call_start 2 2 ∷ call_complete findings 3 3 ∷ call_fail "late" 4 4 ∷ []

run_calls-IsConsistent_example : IsConsistent (run_calls calls (new_run "r1" "a1" "owner" 0))
run_calls-IsConsistent_example = run_calls-IsConsistent calls "r1" "a1" "owner" 0

abbrev finished : DiscoveryRun
finished = run_calls calls (new_run "r1" "a1" "owner" 0)

finished_terminal : is_terminal finished.status ≡ true
unfolding run_calls apply_call start complete fail is_terminal
finished_terminal = refl

abbrev started : DiscoveryRun
started = run_calls (call_start 1 1 ∷ []) (new_run "r1" "a1" "owner" 0)

started_returns : apply_call (call_start 1 1) (new_run "r1" "a1" "owner" 0) ≡ ok started
unfolding run_calls apply_call start
started_returns = refl

abbrev asked : DriftApproval
asked = record {
  id = "d1";
  discovery_run_id = "r1";
  asset_id = "a1";
  object_id = "orders";
  change_type = type_incompatible;
  severity_description = "critical";
  field_name = some "price";
  decision = undecided;
  decided_by = none;
  decided_at = none;
  owner_notes = none;
  updated_at = 3;
}

abbrev yes : Attempt
yes = record { approves = true; by = "ana"; notes = none; now = 5; touched = 5 }

abbrev no : Attempt
no = record { approves = false; by = "rui"; notes = some "too late"; now = 6; touched = 6 }

abbrev relaxed : SchemaSnapshot
relaxed = snapshot_of (
    field_of "id" "bigint" false
    ∷ field_of "price" "float" false
    ∷ field_of "note" "string" true
    ∷ [])

relaxed_proceeds : (classify_models (some before) (some relaxed)).can_proceed ≡ true
unfolding classify_models diff check_added_and_changed_fields check_removed_fields added_and_changed
    removed check_current_field check_previous_field check_type_change check_nullability_change
    lookup insert dict_by insert_all is_compatible_with lower is_blocking
relaxed_proceeds = refl

proceeds_unbroken_example :
    is_broken (lookup "price" (fields_by_name before)) (lookup "price" (fields_by_name relaxed))
    ≡ false
proceeds_unbroken_example = proceeds_unbroken "price" before relaxed relaxed_proceeds

abbrev store : Store
store = record {
  objects = record { objects = []; elements = []; created = 0 };
  approvals = asked ∷ [];
  runs = [];
}

abbrev refusal : DriftApproval
refusal = decided no asked

rejection :
    reject_drift (λ n. "new") (λ n. "new") 6 "d1" "rui" (some "too late") 6 store
    ≡ ok (record store { approvals = save_approval refusal store.approvals }, refusal)
unfolding reject_drift find_approval reject
rejection = refl

first_code : String → ℕ
first_code String.[] = 0
first_code (String.◌∷◌ c s) = code c

unmarked : (n : ℕ) → 1 ≤ n → ("d1" == marks n) ≡ false
unfolding marks first_code
unmarked zero h = refl
unmarked (suc n) h = elim (Bool-cases ("d1" == marks (suc n))) [
  | inl same ↦
      let e : ◌≡◌ {A = ℕ} 100 120 = ap first_code ((eq_iff "d1" (marks (suc n))).0 same) in
      absurd (omega arith)
  | inr other ↦ other
]

critical_changes_wait_example :
    (s' : Store) × (apply_self_healing_and_approvals
        (λ n. "new")
        marks
        6
        "a1"
        "r1"
        (before ∷ [])
        findings.drift_events
        (("orders", before) ∷ [])
        store
      ≡ ok s')
    × (s'.objects ≡ store.objects)
    × (s'.approvals
        ≡ store.approvals
          ++ requested marks 6 "a1" "r1" 1 (dues (before ∷ []) findings.drift_events))
unfolding is_critical
critical_changes_wait_example =
    critical_changes_wait marks 6 "a1" "r1" marks_distinct (λ n. "new") (before ∷ [])
      findings.drift_events (("orders", before) ∷ []) store (unmarked, tt) refl (refl, tt)
