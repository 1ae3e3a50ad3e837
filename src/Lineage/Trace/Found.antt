-- ===== src/Lineage/Trace/Found.antt =====
-- The search finds exactly the reachable keys.
use clean_data_platform_airf.Prelude.{
  ℕ, ◌+◌, ◌<◌, ◌≡◌, refl, ap, ◌∙◌, String, Bool, true, false, ◌||◌, List, [], ◌∷◌, ◌++◌, contains,
  contains-append, is_some, if◌then◌else◌, ◌==◌, eq_iff, eq_refl, length, arith, inl, inr,
  Bool-cases, Option-cases, IsDistinct-concat,
}
use mathlib.Core.List.{map-append}
use clean_data_platform_airf.Prelude.Dict.{Dict, lookup}
use clean_data_platform_airf.Lineage.Graph.{LineageNode, key}
use clean_data_platform_airf.Lineage.Graph.WellFormed.{members, linked}
use clean_data_platform_airf.Lineage.Trace.{SetOrder, Search}
use clean_data_platform_airf.Lineage.Trace.Ends.{left, left_visit, length-extend}
use clean_data_platform_airf.Lineage.Trace.Reach.{
  Walk, step, contains-extend, IsReadable, after, round, Inv, keys,
}

keys-grow :
    (b : Bool) (result : List LineageNode) (n : LineageNode)
    → keys (if b then result else result ++ n ∷ [])
      ≡ (if b then keys result else keys result ++ key n ∷ [])
keys-grow true result n = refl
keys-grow false result n = map-append (λ m. key m) result (n ∷ [])

module _ (order : SetOrder) (nodes : Dict LineageNode) (next : Dict (List String)) (start : String)
    (d : IsReadable nodes next) where
  abbrev pub popped : Search → List String → Search
  popped s rest = record s { stack = rest }

  module _ (curr : String) (s : Search) (rest : List String) (e : s.stack ≡ curr ∷ rest)
      (inv : Inv order nodes next start s) where
    pushed : (k : String) → contains k s.stack ≡ (curr == k || contains k rest)
    pushed k = rw e

    pub curr_known : is_some (lookup curr nodes) ≡ true
    curr_known = inv.stack_known curr (ground (arith, pushed curr, eq_refl curr))

    to_curr : Walk (linked next) start curr
    to_curr = inv.stack_sound curr (ground (arith, pushed curr, eq_refl curr))

    -- The round that meets a key again only pops it.
    again-Inv : contains curr s.visited ≡ true → Inv order nodes next start (popped s rest)
    again-Inv h = record {
      stack_known = λ k m. inv.stack_known k (ground (arith, pushed k));
      stack_sound = λ k m. inv.stack_sound k (ground (arith, pushed k));
      visited_sound = inv.visited_sound;
      started = ground (arith, inv.started, pushed start, eq_iff curr start);
      closed = λ u v m l. ground (arith, inv.closed u v m l, pushed v, eq_iff curr v);
      listed = inv.listed;
      distinct = inv.distinct;
    }

    in_stack :
        (k : String)
        → contains k (after order nodes next start curr (popped s rest)).stack
          ≡ linked next curr k || contains k rest
    in_stack k = ground (
      arith,
      contains-extend k (order.iterate (members (lookup curr next))) rest,
      order.iterate_members k (members (lookup curr next)),
    )

    found_keys :
        keys (after order nodes next start curr (popped s rest)).result
        ≡ (if curr == start then keys s.result else keys s.result ++ curr ∷ [])
    found_keys = elim (Option-cases (lookup curr nodes)) [
      | inl missing ↦ cc curr_known
      | inr (n, found) ↦
          rw found (keys-grow (curr == start) s.result n)
          ∙ ap (λ k. if curr == start then keys s.result else keys s.result ++ k ∷ [])
              (d.keyed curr n found)
    ]

    after-Inv :
        contains curr s.visited ≡ false
        → Inv order nodes next start (after order nodes next start curr (popped s rest))
    after-Inv new = record {
      stack_known =
          λ k m. ground (arith, in_stack k, d.ends_known curr k, inv.stack_known k, pushed k);
      stack_sound = λ k m. elim (Bool-cases (linked next curr k)) [
        | inl edge ↦ step to_curr edge
        | inr none_ ↦ inv.stack_sound k (ground (arith, in_stack k, pushed k))
      ];
      visited_sound = λ k m. elim (Bool-cases (curr == k)) [
        | inl same ↦ rw (← (eq_iff curr k).0 same) to_curr
        | inr other ↦ inv.visited_sound k (ground arith)
      ];
      started = ground (arith, inv.started, in_stack start, pushed start);
      closed = λ u v m l. ground (arith, inv.closed u v, in_stack v, pushed v, eq_iff curr u);
      listed = λ k. ground (
        arith,
        found_keys,
        inv.listed k,
        contains-append k (keys s.result) (curr ∷ []),
        eq_iff curr k,
        eq_iff k start,
        eq_iff curr start,
      );
      distinct = ground (
        arith,
        found_keys,
        inv.distinct,
        inv.listed curr,
        IsDistinct-concat (keys s.result) curr inv.distinct,
      );
    }

    pub round-Inv : Inv order nodes next start (round order nodes next start curr (popped s rest))
    round-Inv = elim (Bool-cases (contains curr s.visited)) [
      | inl old ↦ rw old (again-Inv old)
      | inr new ↦ rw new (after-Inv new)
    ]

    -- The rounds that are left at most.
    abbrev pub work : Search → ℕ
    work t = length t.stack + left t.visited next

    pub work-round : work (round order nodes next start curr (popped s rest)) < work s
    work-round = elim (Option-cases (lookup curr next)) [
      | inl missing ↦ cc (d.same_keys curr, curr_known)
      | inr (ns, found) ↦ elim (Bool-cases (contains curr s.visited)) [
        | inl old ↦ rw old (omega (arith, ap (λ l. length l) e))
        | inr new ↦
            rw (new, found)
              (omega (
                arith,
                ap (λ l. length l) e,
                length-extend (order.iterate ns) rest,
                order.iterate_length ns,
                left_visit s.visited curr ns next d.unique new found,
              ))
      ]
    ]
