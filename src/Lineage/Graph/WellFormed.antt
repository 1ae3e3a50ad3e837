-- ===== src/Lineage/Graph/WellFormed.antt =====
-- lineage_graph.py: what holds of every graph that the program builds.
use clean_data_platform_airf.Prelude.{
  String, ◌≡◌, refl, Bool, true, ◌||◌, Option, none, some, List, [], ◌∷◌, contains, contains-append,
  is_some, arith, eq_iff, ◌==◌,
}
use clean_data_platform_airf.Prelude.Dict.{Dict, lookup, lookup-insert, IsUnique, insert-IsUnique}
use clean_data_platform_airf.Lineage.Graph.{
  LineageNode, LineageGraph, key, empty, add_node, set_add,
}

-- The set under a key, or none.
abbrev pub members : Option (List String) → List String
members none = []
members (some s) = s

-- `v in d[u]`
abbrev pub linked : Dict (List String) → String → String → Bool
linked d u v = contains v (members (lookup u d))

abbrev pub known : LineageGraph → String → Bool
known g k = is_some (lookup k g.nodes)

pub record IsWellFormed (g : LineageGraph) : Type 0 where
  pub adjacency_keys : (k : String) → is_some (lookup k g.adjacency) ≡ known g k
  pub incoming_keys : (k : String) → is_some (lookup k g.incoming) ≡ known g k
  pub ends_known : (u v : String) → linked g.adjacency u v ≡ true → known g v ≡ true
  pub dual : (u v : String) → linked g.incoming v u ≡ linked g.adjacency u v
  pub keyed : (k : String) (n : LineageNode) → lookup k g.nodes ≡ some n → key n ≡ k
  pub adjacency_unique : IsUnique g.adjacency
  pub incoming_unique : IsUnique g.incoming

pub empty-IsWellFormed : IsWellFormed empty
unfolding lookup
empty-IsWellFormed = record {
  adjacency_keys = λ k. refl;
  incoming_keys = λ k. refl;
  ends_known = λ u v h. ground arith;
  dual = λ u v. refl;
  keyed = λ k n h. ground arith;
  adjacency_unique = tt;
  incoming_unique = tt;
}

pub contains-set_add :
    (x y : String) (s : List String) → contains y (set_add x s) ≡ contains y s || x == y
contains-set_add x y s = ground (arith, contains-append y s (x ∷ []), eq_iff x y)

module _ (n : LineageNode) (g : LineageGraph) (w : IsWellFormed g) where
  pub known-add_node : (k : String) → known (add_node n g) k ≡ known g k || key n == k
  unfolding add_node
  known-add_node k = ground (arith, lookup-insert (key n) k n g.nodes, eq_iff (key n) k)

  pub linked-add_node :
      (u v : String) → linked (add_node n g).adjacency u v ≡ linked g.adjacency u v
  unfolding add_node
  linked-add_node u v = ground (
    arith,
    lookup-insert {V = List String} (key n) u [] g.adjacency,
    eq_iff (key n) u,
    w.adjacency_keys u,
  )

  linked-add_node' : (u v : String) → linked (add_node n g).incoming u v ≡ linked g.incoming u v
  unfolding add_node
  linked-add_node' u v = ground (
    arith,
    lookup-insert {V = List String} (key n) u [] g.incoming,
    eq_iff (key n) u,
    w.incoming_keys u,
  )

  pub add_node-IsWellFormed : IsWellFormed (add_node n g)
  add_node-IsWellFormed = record {
    adjacency_keys = λ k.
        unfold add_node in
        ground (
          arith,
          lookup-insert {V = List String} (key n) k [] g.adjacency,
          lookup-insert (key n) k n g.nodes,
          w.adjacency_keys k,
        );
    incoming_keys = λ k.
        unfold add_node in
        ground (
          arith,
          lookup-insert {V = List String} (key n) k [] g.incoming,
          lookup-insert (key n) k n g.nodes,
          w.incoming_keys k,
        );
    ends_known = λ u v h. ground (arith, linked-add_node u v, known-add_node v, w.ends_known u v);
    dual = λ u v. ground (arith, linked-add_node u v, linked-add_node' v u, w.dual u v);
    keyed = λ k m h.
        unfold add_node in
        ground (arith, lookup-insert (key n) k n g.nodes, eq_iff (key n) k, w.keyed k m);
    adjacency_unique =
        unfold add_node in
        ground (
          arith,
          w.adjacency_unique,
          insert-IsUnique {V = List String} (key n) [] g.adjacency w.adjacency_unique,
        );
    incoming_unique =
        unfold add_node in
        ground (
          arith,
          w.incoming_unique,
          insert-IsUnique {V = List String} (key n) [] g.incoming w.incoming_unique,
        );
  }
