-- ===== src/Lineage/Trace.antt =====
-- lineage_graph.py: `trace_upstream` and `trace_downstream`, a depth-first search over one of the
-- two dictionaries. The order in which Python goes through a set is a parameter. The `while` loop
-- takes fuel: one round more than the dictionary has edges is enough (Trace/Ends).
pub mod Ends
pub mod Reach
pub mod Found
pub mod Total
pub mod Correct
pub mod Dual
use clean_data_platform_airf.Prelude.{
  ℕ, zero, suc, ◌+◌, ◌≡◌, String, Bool, true, false, Option, none, some, List, [], ◌∷◌, ◌++◌,
  contains, is_some, if◌then◌else◌, ◌==◌, length,
}
use clean_data_platform_airf.Prelude.Dict.{Dict, lookup}
use clean_data_platform_airf.Errors.{PlatformError, Result, ok, err, ◌>>=◌}
use clean_data_platform_airf.Lineage.Graph.{LineageNode, LineageGraph, node_key, get_item}

-- How the elements of a set are gone through: in some order, each once.
pub record SetOrder : Type 0 where
  pub iterate : List String → List String
  pub iterate_members : (x : String) (s : List String) → contains x (iterate s) ≡ contains x s
  pub iterate_length : (s : List String) → length (iterate s) ≡ length s

-- The variables of the loop. The end of Python's list `stack` is the head here.
pub record Search : Type 0 where
  pub visited : List String
  pub stack : List String
  pub result : List LineageNode

pub data Outcome : Type 0 where
  done : List LineageNode → Outcome
  raised : PlatformError → Outcome
  out_of_fuel : Outcome

-- `stack.extend(xs)`
abbrev pub extend : List String → List String → List String
extend [] stack = stack
extend (x ∷ xs) stack = extend xs (x ∷ stack)

module _ (order : SetOrder) (nodes : Dict LineageNode) (next : Dict (List String))
    (start : String) where
  -- `if curr != start_key: result.append(self.nodes[curr])`
  unfoldable pub append_found : String → List LineageNode → Result (List LineageNode)
  append_found curr result =
      if curr == start
      then ok result
      else do node ← get_item curr (lookup curr nodes); ok (result ++ node ∷ [])

  -- One round, after `curr` was popped from the stack.
  unfoldable pub visit : String → Search → Result Search
  visit curr s = if contains curr s.visited then ok s else do
    result ← append_found curr s.result
    neighbours ← get_item curr (lookup curr next)
    ok (record {
      visited = curr ∷ s.visited;
      stack = extend (order.iterate neighbours) s.stack;
      result = result;
    })

  unfoldable pub loop : ℕ → Search → Outcome
  loop zero s = elim s.stack [ [] ↦ done s.result | _ ∷ _ ↦ out_of_fuel ]
  loop (suc fuel) s = elim s.stack [
    | [] ↦ done s.result
    | curr ∷ rest ↦ elim (visit curr (record s { stack = rest })) [
      | ok s' ↦ loop fuel s'
      | err e ↦ raised e
    ]
  ]

abbrev pub count_edges : Dict (List String) → ℕ
count_edges [] = 0
count_edges ((_, s) ∷ d) = length s + count_edges d

abbrev pub first : String → Search
first start = record { visited = []; stack = start ∷ []; result = [] }

unfoldable pub trace : SetOrder → Dict LineageNode → Dict (List String) → String → String → Outcome
trace order nodes next object_id column_name =
    let start_key = node_key object_id column_name in
    if is_some (lookup start_key nodes)
    then loop order nodes next start_key (suc (count_edges next)) (first start_key)
    else done []

unfoldable pub trace_upstream : SetOrder → LineageGraph → String → String → Outcome
unfolding trace
trace_upstream order g = trace order g.nodes g.incoming

unfoldable pub trace_downstream : SetOrder → LineageGraph → String → String → Outcome
unfolding trace
trace_downstream order g = trace order g.nodes g.adjacency
