-- ===== src/Lineage/Graph/Edges.antt =====
-- lineage_graph.py: adding edges, one at a time and from all the mappings.
use clean_data_platform_airf.Prelude.{
  String, ◌≡◌, ◌∙◌, ap, true, ◌||◌, ◌&&◌, List, is_some, arith, eq_iff, ◌==◌, eq_refl,
}
use clean_data_platform_airf.Prelude.Dict.{Dict, lookup, insert, lookup-insert, insert-IsUnique}
use clean_data_platform_airf.Errors.{ok}
use clean_data_platform_airf.Lineage.Graph.{
  LineageNode, LineageGraph, key, add_node, set_add, add_to, add_edge,
}
use clean_data_platform_airf.Lineage.Graph.WellFormed.{
  members, linked, known, IsWellFormed, contains-set_add, known-add_node, linked-add_node,
  add_node-IsWellFormed,
}

-- The dictionary after `d[k].add(x)`.
abbrev with_member : String → String → Dict (List String) → Dict (List String)
with_member k x d = insert k (set_add x (members (lookup k d))) d

add_to-eq :
    (k x : String) (d : Dict (List String))
    → is_some (lookup k d) ≡ true
    → add_to k x d ≡ ok (with_member k x d)
unfolding add_to
add_to-eq k x d h = ground arith

linked-with_member :
    (k x u v : String) (d : Dict (List String))
    → linked (with_member k x d) u v ≡ linked d u v || k == u && x == v
linked-with_member k x u v d = ground (
  arith,
  lookup-insert k u (set_add x (members (lookup k d))) d,
  contains-set_add x v (members (lookup k d)),
  eq_iff k u,
)

is_some-with_member :
    (k x u : String) (d : Dict (List String))
    → is_some (lookup k d) ≡ true
    → is_some (lookup u (with_member k x d)) ≡ is_some (lookup u d)
is_some-with_member k x u d h =
    ground (arith, lookup-insert k u (set_add x (members (lookup k d))) d, eq_iff k u)

abbrev both_nodes : LineageNode → LineageNode → LineageGraph → LineageGraph
both_nodes s t g = add_node t (add_node s g)

-- The graph that `add_edge` returns.
pub with_edge : LineageNode → LineageNode → LineageGraph → LineageGraph
with_edge s t g =
    let g' = both_nodes s t g in
    record {
      nodes = g'.nodes;
      adjacency = with_member (key s) (key t) g'.adjacency;
      incoming = with_member (key t) (key s) g'.incoming;
    }

module _ (s t : LineageNode) (g : LineageGraph) (w : IsWellFormed g) where
  both-IsWellFormed : IsWellFormed (both_nodes s t g)
  both-IsWellFormed = add_node-IsWellFormed t _ (add_node-IsWellFormed s g w)

  known-both : (k : String) → known (both_nodes s t g) k ≡ (known g k || key s == k) || key t == k
  known-both k =
      known-add_node t (add_node s g) (add_node-IsWellFormed s g w) k
      ∙ ap (λ b. b || key t == k) (known-add_node s g w k)

  linked-both : (u v : String) → linked (both_nodes s t g).adjacency u v ≡ linked g.adjacency u v
  linked-both u v =
      linked-add_node t (add_node s g) (add_node-IsWellFormed s g w) u v ∙ linked-add_node s g w u v

  source_known : known (both_nodes s t g) (key s) ≡ true
  source_known = ground (arith, known-both (key s), eq_refl (key s))

  target_known : known (both_nodes s t g) (key t) ≡ true
  target_known = ground (arith, known-both (key t), eq_refl (key t))

  source_listed : is_some (lookup (key s) (both_nodes s t g).adjacency) ≡ true
  source_listed = both-IsWellFormed.adjacency_keys (key s) ∙ source_known

  target_listed : is_some (lookup (key t) (both_nodes s t g).incoming) ≡ true
  target_listed = both-IsWellFormed.incoming_keys (key t) ∙ target_known

  pub add_edge-eq : add_edge s t g ≡ ok (with_edge s t g)
  unfolding add_edge with_edge
  add_edge-eq = rw (
    add_to-eq (key s) (key t) (both_nodes s t g).adjacency source_listed,
    add_to-eq (key t) (key s) (both_nodes s t g).incoming target_listed,
  )

  pub linked-with_edge :
      (u v : String)
      → linked (with_edge s t g).adjacency u v ≡ linked g.adjacency u v || key s == u && key t == v
  unfolding with_edge
  linked-with_edge u v =
      linked-with_member (key s) (key t) u v (both_nodes s t g).adjacency
      ∙ ap (λ b. b || key s == u && key t == v) (linked-both u v)

  pub known-with_edge :
      (k : String) → known (with_edge s t g) k ≡ (known g k || key s == k) || key t == k
  unfolding with_edge
  known-with_edge k = known-both k

  pub with_edge-IsWellFormed : IsWellFormed (with_edge s t g)
  with_edge-IsWellFormed =
      let b = both-IsWellFormed in
      let d = (both_nodes s t g).adjacency in
      let e = (both_nodes s t g).incoming in
      record {
        adjacency_keys = λ k.
            unfold with_edge in
            is_some-with_member (key s) (key t) k d source_listed ∙ b.adjacency_keys k;
        incoming_keys = λ k.
            unfold with_edge in
            is_some-with_member (key t) (key s) k e target_listed ∙ b.incoming_keys k;
        ends_known = λ u v h.
            unfold with_edge in
            ground (
              arith,
              linked-with_member (key s) (key t) u v d,
              b.ends_known u v,
              eq_iff (key t) v,
              target_known,
            );
        dual = λ u v.
            unfold with_edge in
            ground (
              arith,
              linked-with_member (key s) (key t) u v d,
              linked-with_member (key t) (key s) v u e,
              b.dual u v,
            );
        keyed = unfold with_edge in b.keyed;
        adjacency_unique = unfold with_edge in insert-IsUnique (key s) _ d b.adjacency_unique;
        incoming_unique = unfold with_edge in insert-IsUnique (key t) _ e b.incoming_unique;
      }
