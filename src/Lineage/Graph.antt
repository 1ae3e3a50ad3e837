-- ===== src/Lineage/Graph.antt =====
-- app/domain/lineage/lineage_graph.py: the graph of columns. A Python set of keys is a list without
-- repetitions; `d[k]` on a missing key raises KeyError.
pub mod WellFormed
pub mod Edges
pub mod Build
use clean_data_platform_airf.Prelude.{
  String, Bool, Option, none, some, List, [], ◌∷◌, ◌++◌, contains, is_some, if◌then◌else◌, format,
}
use clean_data_platform_airf.Prelude.Dict.{Dict, lookup, insert}
use clean_data_platform_airf.Errors.{Result, ok, err, key_error, ◌>>=◌}
use clean_data_platform_airf.Lineage.Mapping.{ElementLineage, LineageMapping}

pub record LineageNode : Type 0 where
  pub object_id : String
  pub column_name : String
  pub transformation : Option String

-- `LineageNode.key`
unfoldable pub node_key : String → String → String
node_key object_id column_name = format (object_id ∷ "." ∷ column_name ∷ [])

abbrev pub key : LineageNode → String
key n = node_key n.object_id n.column_name

pub record LineageGraph : Type 0 where
  pub nodes : Dict LineageNode
  pub adjacency : Dict (List String)
  pub incoming : Dict (List String)

abbrev pub empty : LineageGraph
empty = record { nodes = []; adjacency = []; incoming = [] }

unfoldable pub add_node : LineageNode → LineageGraph → LineageGraph
add_node node g = if is_some (lookup (key node) g.nodes) then g else record {
  nodes = insert (key node) node g.nodes;
  adjacency = insert (key node) [] g.adjacency;
  incoming = insert (key node) [] g.incoming;
}

-- `s.add(x)`
abbrev pub set_add : String → List String → List String
set_add x s = if contains x s then s else s ++ x ∷ []

-- `d[k]`
abbrev pub get_item {ℓ} : {V : Type ℓ} → String → Option V → Result V
get_item k none = err (key_error k)
get_item k (some v) = ok v

-- `d[k].add(x)`
unfoldable pub add_to : String → String → Dict (List String) → Result (Dict (List String))
add_to k x d = do s ← get_item k (lookup k d); ok (insert k (set_add x s) d)

unfoldable pub add_edge : LineageNode → LineageNode → LineageGraph → Result LineageGraph
unfolding add_to
add_edge source target g = do
  let g' = add_node target (add_node source g)
  adjacency ← add_to (key source) (key target) g'.adjacency
  incoming ← add_to (key target) (key source) g'.incoming
  ok (record { nodes = g'.nodes; adjacency = adjacency; incoming = incoming })

-- The two nodes that a column mapping stands for.
abbrev pub source_node : LineageMapping → ElementLineage → LineageNode
source_node m c = record {
  object_id = m.source_object_id;
  column_name = c.source_column;
  transformation = none;
}

abbrev pub target_node : LineageMapping → ElementLineage → LineageNode
target_node m c = record {
  object_id = m.destination_object_id;
  column_name = c.destination_column;
  transformation = c.transformation_expression;
}

-- The inner loop of `build_from_mappings`.
unfoldable pub add_columns :
    LineageMapping → List ElementLineage → LineageGraph → Result LineageGraph
add_columns m [] g = ok g
add_columns m (c ∷ rest) g = do
  g' ← add_edge (source_node m c) (target_node m c) g
  add_columns m rest g'

unfoldable pub build_from_mappings : List LineageMapping → LineageGraph → Result LineageGraph
build_from_mappings [] g = ok g
build_from_mappings (m ∷ rest) g = do
  g' ← add_columns m m.column_mappings g
  build_from_mappings rest g'
