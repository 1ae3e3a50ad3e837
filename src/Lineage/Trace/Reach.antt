-- ===== src/Lineage/Trace/Reach.antt =====
-- Walks in the graph, and the invariant of the search.
use clean_data_platform_airf.Prelude.{
  ◌≡◌, refl, String, Bool, true, not, ◌||◌, ◌&&◌, Option, none, some, List, [], ◌∷◌, ◌++◌, map,
  contains, is_some, if◌then◌else◌, ◌==◌, eq_iff, eq_refl, arith, IsDistinct,
}
use clean_data_platform_airf.Prelude.Dict.{Dict, lookup, IsUnique}
use clean_data_platform_airf.Errors.{ok}
use clean_data_platform_airf.Lineage.Graph.{LineageNode, key}
use clean_data_platform_airf.Lineage.Graph.WellFormed.{members, linked}
use clean_data_platform_airf.Lineage.Trace.{SetOrder, Search, extend, append_found, visit, first}

-- The keys that a walk along the edges leads to.
pub data Walk (edge : String → String → Bool) (start : String) : String → Type 0 where
  here : Walk edge start start
  step : {u v : String} → Walk edge start u → edge u v ≡ true → Walk edge start v

pub contains-extend :
    (x : String) (xs stack : List String)
    → contains x (extend xs stack) ≡ contains x xs || contains x stack
contains-extend x [] stack = refl
contains-extend x (y ∷ xs) stack = ground (arith, contains-extend x xs (y ∷ stack))

-- What the search needs of the dictionaries that it reads.
pub record IsReadable (nodes : Dict LineageNode) (next : Dict (List String)) : Type 0 where
  pub same_keys : (k : String) → is_some (lookup k next) ≡ is_some (lookup k nodes)
  pub ends_known : (u v : String) → linked next u v ≡ true → is_some (lookup v nodes) ≡ true
  pub keyed : (k : String) (n : LineageNode) → lookup k nodes ≡ some n → key n ≡ k
  pub unique : IsUnique next

abbrev pub keys : List LineageNode → List String
keys result = map (λ n. key n) result

abbrev as_list : Option LineageNode → List LineageNode
as_list none = []
as_list (some n) = n ∷ []

module _ (order : SetOrder) (nodes : Dict LineageNode) (next : Dict (List String))
    (start : String) where
  -- The state after a round that met `curr` for the first time, and after any round.
  abbrev pub after : String → Search → Search
  after curr s = record {
    visited = curr ∷ s.visited;
    stack = extend (order.iterate (members (lookup curr next))) s.stack;
    result = if curr == start then s.result else s.result ++ as_list (lookup curr nodes);
  }

  abbrev pub round : String → Search → Search
  round curr s = if contains curr s.visited then s else after curr s

  append_found-eq :
      (curr : String) (result : List LineageNode)
      → is_some (lookup curr nodes) ≡ true
      → append_found order nodes next start curr result
        ≡ ok (if curr == start then result else result ++ as_list (lookup curr nodes))
  unfolding append_found
  append_found-eq curr result h = ground arith

  pub visit-eq :
      IsReadable nodes next
      → (curr : String) (s : Search) → is_some (lookup curr nodes) ≡ true
      → visit order nodes next start curr s ≡ ok (round curr s)
  unfolding visit
  visit-eq d curr s h = ground (arith, append_found-eq curr s.result h, d.same_keys curr)

  pub record Inv (s : Search) : Type 0 where
    pub stack_known : (k : String) → contains k s.stack ≡ true → is_some (lookup k nodes) ≡ true
    pub stack_sound : (k : String) → contains k s.stack ≡ true → Walk (linked next) start k
    pub visited_sound : (k : String) → contains k s.visited ≡ true → Walk (linked next) start k
    pub started : (contains start s.visited || contains start s.stack) ≡ true
    pub closed :
        (u v : String)
        → contains u s.visited ≡ true
        → linked next u v ≡ true
        → (contains v s.visited || contains v s.stack) ≡ true
    pub listed :
        (k : String) → contains k (keys s.result) ≡ contains k s.visited && not (k == start)
    pub distinct : IsDistinct (keys s.result)

  pub first-Inv : is_some (lookup start nodes) ≡ true → Inv (first start)
  first-Inv h = record {
    stack_known = λ k m. ground (arith, eq_iff start k);
    stack_sound = λ k m. let e = (eq_iff start k).0 (ground arith) in rw (← e) here;
    visited_sound = λ k m. ground arith;
    started = ground (arith, eq_refl start);
    closed = λ u v m. ground arith;
    listed = λ k. refl;
    distinct = tt;
  }
