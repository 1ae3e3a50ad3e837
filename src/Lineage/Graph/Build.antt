-- ===== src/Lineage/Graph/Build.antt =====
-- lineage_graph.py: the graph of a list of mappings, against a description of its edges and nodes
-- that does not build anything.
use clean_data_platform_airf.Prelude.{
  String, ◌≡◌, refl, ◌∙◌, ap, Bool, false, ◌||◌, ◌&&◌, List, [], ◌∷◌, arith, ◌==◌, any,
}
use clean_data_platform_airf.Errors.{Result, ok, ◌>>=◌}
use clean_data_platform_airf.Lineage.Mapping.{ElementLineage, LineageMapping}
use clean_data_platform_airf.Lineage.Graph.{
  LineageNode, LineageGraph, key, add_edge, source_node, target_node, add_columns,
  build_from_mappings,
}
use clean_data_platform_airf.Lineage.Graph.WellFormed.{linked, known, IsWellFormed}
use clean_data_platform_airf.Lineage.Graph.Edges.{
  with_edge, add_edge-eq, linked-with_edge, known-with_edge, with_edge-IsWellFormed,
}

-- The column mapping `c` of `m` leads from the key `u` to the key `v`.
abbrev pub column_maps : String → String → LineageMapping → ElementLineage → Bool
column_maps u v m c = key (source_node m c) == u && key (target_node m c) == v

abbrev pub column_mentions : String → LineageMapping → ElementLineage → Bool
column_mentions k m c = key (source_node m c) == k || key (target_node m c) == k

-- Some mapping leads from `u` to `v`; some mapping mentions `k`.
abbrev pub maps_to : List LineageMapping → String → String → Bool
maps_to ms u v = any (λ m. any (column_maps u v m) m.column_mappings) ms

abbrev pub mentions : List LineageMapping → String → Bool
mentions ms k = any (λ m. any (column_mentions k m) m.column_mappings) ms

-- `r` returned the well-formed graph `graph`, which has the edges and nodes of `g` and those given.
pub record Extends (g : LineageGraph) (edge : String → String → Bool) (node : String → Bool)
    (r : Result LineageGraph) : Type 0 where
  pub graph : LineageGraph
  pub returned : r ≡ ok graph
  pub well_formed : IsWellFormed graph
  pub edges : (u v : String) → linked graph.adjacency u v ≡ linked g.adjacency u v || edge u v
  pub nodes_known : (k : String) → known graph k ≡ known g k || node k

or_assoc : (a b c : Bool) → ((a || b) || c) ≡ (a || (b || c))
or_assoc a b c = ground arith

or_false : (a : Bool) → a ≡ (a || false)
or_false a = ground arith

stays : (g : LineageGraph) → IsWellFormed g → Extends g (λ u v. false) (λ k. false) (ok g)
stays g w = record {
  graph = g;
  returned = refl;
  well_formed = w;
  edges = λ u v. or_false _;
  nodes_known = λ k. or_false _;
}

-- Two extensions in turn.
then-Extends :
    (g : LineageGraph) (r : Result LineageGraph) (f : LineageGraph → Result LineageGraph)
    {edge edge' : String → String → Bool} {node node' : String → Bool}
    → Extends g edge node r
    → ((g' : LineageGraph) → IsWellFormed g' → Extends g' edge' node' (f g'))
    → Extends g (λ u v. edge u v || edge' u v) (λ k. node k || node' k) (r >>= f)
then-Extends g r f {edge} {edge'} {node} {node'} x rest =
    let y = rest x.graph x.well_formed in
    record {
      graph = y.graph;
      returned = rw x.returned y.returned;
      well_formed = y.well_formed;
      edges = λ u v.
          y.edges u v
          ∙ ap (λ b. b || edge' u v) (x.edges u v)
          ∙ or_assoc (linked g.adjacency u v) (edge u v) (edge' u v);
      nodes_known = λ k.
          y.nodes_known k
          ∙ ap (λ b. b || node' k) (x.nodes_known k)
          ∙ or_assoc (known g k) (node k) (node' k);
    }

add_edge-Extends :
    (s t : LineageNode) (g : LineageGraph)
    → IsWellFormed g
    → Extends g (λ u v. key s == u && key t == v) (λ k. key s == k || key t == k) (add_edge s t g)
add_edge-Extends s t g w = record {
  graph = with_edge s t g;
  returned = add_edge-eq s t g w;
  well_formed = with_edge-IsWellFormed s t g w;
  edges = linked-with_edge s t g w;
  nodes_known = λ k. known-with_edge s t g w k ∙ or_assoc (known g k) _ _;
}

add_columns-Extends :
    (m : LineageMapping) (cs : List ElementLineage) (g : LineageGraph)
    → IsWellFormed g
    → Extends g
        (λ u v. any (column_maps u v m) cs)
        (λ k. any (column_mentions k m) cs)
        (add_columns m cs g)
unfolding add_columns
add_columns-Extends m [] g w = stays g w
add_columns-Extends m (c ∷ cs) g w =
    then-Extends g _ (add_columns m cs) (add_edge-Extends (source_node m c) (target_node m c) g w)
      (add_columns-Extends m cs)

-- From any well-formed graph `build_from_mappings` returns, without a KeyError, a well-formed graph
-- (the three dictionaries have the same keys, every end of an edge is a node, `incoming` is the
-- reverse of `adjacency`, every node stands under its own key) whose edges are the old ones and
-- exactly one for each column mapping, and whose nodes are the old ones and their ends.
pub build_from_mappings-Extends :
    (ms : List LineageMapping) (g : LineageGraph)
    → IsWellFormed g
    → Extends g (maps_to ms) (mentions ms) (build_from_mappings ms g)
unfolding build_from_mappings
build_from_mappings-Extends [] g w = stays g w
build_from_mappings-Extends (m ∷ ms) g w =
    then-Extends g _ (build_from_mappings ms) (add_columns-Extends m m.column_mappings g w)
      (build_from_mappings-Extends ms)
