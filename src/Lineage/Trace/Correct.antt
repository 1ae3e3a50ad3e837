-- ===== src/Lineage/Trace/Correct.antt =====
-- lineage_graph.py as a whole: from the column mappings to the columns listed.
use clean_data_platform_airf.Prelude.{
  ◌≡◌, refl, ap, sym, ◌∙◌, String, Bool, true, false, List, [], is_some, arith, inl, inr,
  Bool-cases,
}
use clean_data_platform_airf.Prelude.Dict.{Dict, lookup}
use clean_data_platform_airf.Errors.{ok}
use clean_data_platform_airf.Lineage.Mapping.{LineageMapping}
use clean_data_platform_airf.Lineage.Graph.{
  LineageNode, LineageGraph, node_key, empty, build_from_mappings,
}
use clean_data_platform_airf.Lineage.Graph.WellFormed.{
  linked, known, IsWellFormed, empty-IsWellFormed,
}
use clean_data_platform_airf.Lineage.Graph.Build.{
  maps_to, mentions, Extends, build_from_mappings-Extends,
}
use clean_data_platform_airf.Lineage.Trace.{
  SetOrder, Outcome, done, trace, trace_upstream, trace_downstream,
}
use clean_data_platform_airf.Lineage.Trace.Reach.{Walk, here, step, IsReadable}
use clean_data_platform_airf.Lineage.Trace.Total.{Lists, loop-Lists}

module _ (g : LineageGraph) (w : IsWellFormed g) where
  source_known : (u v : String) → linked g.adjacency u v ≡ true → known g u ≡ true
  source_known u v h = ground (arith, w.adjacency_keys u)

  adjacency-IsReadable : IsReadable g.nodes g.adjacency
  adjacency-IsReadable = record {
    same_keys = w.adjacency_keys;
    ends_known = w.ends_known;
    keyed = w.keyed;
    unique = w.adjacency_unique;
  }

  incoming-IsReadable : IsReadable g.nodes g.incoming
  incoming-IsReadable = record {
    same_keys = w.incoming_keys;
    ends_known = λ u v h. source_known v u (ground (arith, w.dual v u));
    keyed = w.keyed;
    unique = w.incoming_unique;
  }

module _ {edge edge' : String → String → Bool} where
  Walk-map :
      ((u v : String) → edge u v ≡ edge' u v) → {a b : String} → Walk edge a b → Walk edge' a b
  Walk-map h here = here
  Walk-map h (step {u} {v} p l) = step (Walk-map h p) (sym (h u v) ∙ l)

module _ {edge edge' : String → String → Bool} where
  Lists-map :
      ((u v : String) → edge u v ≡ edge' u v)
      → {start : String} {o : Outcome} → Lists edge start o
      → Lists edge' start o
  Lists-map h l = record {
    result = l.result;
    returned = l.returned;
    listed = λ k. (
      λ m. let (p, other) = (l.listed k).0 m in (Walk-map h p, other),
      λ (p, other). (l.listed k).1 (Walk-map (λ u v. sym (h u v)) p, other),
    );
    distinct = l.distinct;
  }

Walk-isolated :
    {edge : String → String → Bool} {start k : String}
    → ((v : String) → edge start v ≡ false)
    → Walk edge start k
    → k ≡ start
Walk-isolated h here = refl
Walk-isolated {edge} {start} {k} h (step {u} p l) =
    let same = Walk-isolated h p in cc (h k, l, ap (λ x. edge x k) same)

nothing-Lists :
    (edge : String → String → Bool) (start : String)
    → ((v : String) → edge start v ≡ false)
    → Lists edge start (done [])
nothing-Lists edge start h = record {
  result = [];
  returned = refl;
  listed = λ k. (λ m. ground arith, λ (p, other). absurd (other (Walk-isolated h p)));
  distinct = tt;
}

module _ (order : SetOrder) (nodes : Dict LineageNode) (next : Dict (List String))
    (d : IsReadable nodes next) where
  trace-Lists :
      (object_id column_name : String)
      → Lists
          (linked next)
          (node_key object_id column_name)
          (trace order nodes next object_id column_name)
  unfolding trace
  trace-Lists object_id column_name =
      let start = node_key object_id column_name in
      elim (Bool-cases (is_some (lookup start nodes))) [
        | inl found ↦ rw found (loop-Lists order nodes next start d found)
        | inr missing ↦
            rw missing (nothing-Lists (linked next) start λ v. ground (arith, d.same_keys start))
      ]

module _ (order : SetOrder) (ms : List LineageMapping) (g : LineageGraph)
    (built : build_from_mappings ms empty ≡ ok g) where
  graph-Extends : Extends empty (maps_to ms) (mentions ms) (ok g)
  graph-Extends = rw (← built) (build_from_mappings-Extends ms empty empty-IsWellFormed)

  built-IsWellFormed : IsWellFormed g
  built-IsWellFormed =
      let x = graph-Extends in let e : x.graph ≡ g = cc x.returned in rw e at x.well_formed

  built_edges : (u v : String) → linked g.adjacency u v ≡ maps_to ms u v
  unfolding lookup
  built_edges u v =
      let x = graph-Extends in let e : x.graph ≡ g = cc x.returned in rw e at (x.edges u v)

  -- In the graph of the mappings `trace_downstream` returns, without a KeyError and within its fuel,
  -- exactly the columns other than the start that some chain of column mappings leads to from the
  -- start, each once, in whatever order sets are gone through; also if the start is in no mapping.
  pub trace_downstream-Lists :
      (object_id column_name : String)
      → Lists
          (maps_to ms)
          (node_key object_id column_name)
          (trace_downstream order g object_id column_name)
  unfolding trace_downstream
  trace_downstream-Lists object_id column_name = Lists-map built_edges (
      trace-Lists order g.nodes g.adjacency (adjacency-IsReadable g built-IsWellFormed) object_id
        column_name)

  -- `trace_upstream` lists the same way exactly the columns that a chain of mappings leads from.
  pub trace_upstream-Lists :
      (object_id column_name : String)
      → Lists
          (λ u v. maps_to ms v u)
          (node_key object_id column_name)
          (trace_upstream order g object_id column_name)
  unfolding trace_upstream
  trace_upstream-Lists object_id column_name =
      Lists-map (λ u v. built-IsWellFormed.dual v u ∙ built_edges v u)
        (trace-Lists order g.nodes g.incoming (incoming-IsReadable g built-IsWellFormed) object_id
          column_name)
