-- ===== src/Lineage/Trace/Total.antt =====
-- The search returns, and lists exactly the keys that walks lead to.
use clean_data_platform_airf.Prelude.{
  ℕ, zero, suc, ◌+◌, ◌≤◌, ◌≡◌, ◌↔◌, ◌≢◌, ◌↔◌, refl, ap, String, Bool, true, List, [], ◌∷◌, contains,
  is_some, eq_iff, length, arith, ◌⊎◌, inl, inr, IsDistinct,
}
use clean_data_platform_airf.Prelude.Dict.{Dict, lookup}
use clean_data_platform_airf.Lineage.Graph.{LineageNode}
use clean_data_platform_airf.Lineage.Graph.WellFormed.{linked}
use clean_data_platform_airf.Lineage.Trace.{
  SetOrder, Search, Outcome, done, loop, count_edges, first,
}
use clean_data_platform_airf.Lineage.Trace.Ends.{left, left-nil}
use clean_data_platform_airf.Lineage.Trace.Reach.{
  Walk, here, step, IsReadable, round, visit-eq, Inv, keys, first-Inv,
}
use clean_data_platform_airf.Lineage.Trace.Found.{popped, round-Inv, work-round, curr_known}

List-cases {ℓ} :
    {A : Type ℓ} (xs : List A) → (xs ≡ []) ⊎ ((x : A) × (rest : List A) × (xs ≡ x ∷ rest))
List-cases [] = inl refl
List-cases (x ∷ xs) = inr (x, xs, refl)

-- The outcome lists, each once, the keys that walks from `start` lead to, but for `start`.
pub record Lists (edge : String → String → Bool) (start : String) (o : Outcome) : Type 0 where
  pub result : List LineageNode
  pub returned : o ≡ done result
  pub listed : (k : String) → contains k (keys result) ≡ true ↔ Walk edge start k × (k ≢ start)
  pub distinct : IsDistinct (keys result)

module _ (order : SetOrder) (nodes : Dict LineageNode) (next : Dict (List String)) (start : String)
    (d : IsReadable nodes next) where
  abbrev Ended : Outcome → Type 0
  Ended o = (t : Search) × (o ≡ done t.result) × Inv order nodes next start t × (t.stack ≡ [])

  loop_ends :
      (fuel : ℕ) (s : Search)
      → Inv order nodes next start s
      → length s.stack + left s.visited next ≤ fuel
      → Ended (loop order nodes next start fuel s)
  unfolding loop
  loop_ends zero s inv h = elim (List-cases s.stack) [
    | inl e ↦ (s, ground arith, inv, e)
    | inr (curr, rest, e) ↦ absurd (omega (arith, ap (λ l. length l) e))
  ]
  loop_ends (suc fuel) s inv h = elim (List-cases s.stack) [
    | inl e ↦ (s, ground arith, inv, e)
    | inr (curr, rest, e) ↦
        let next_state =
          round order nodes next start curr (popped order nodes next start d s rest) in
        let (t, ends, last, empty) =
          loop_ends fuel next_state (round-Inv order nodes next start d curr s rest e inv)
            (omega (arith, work-round order nodes next start d curr s rest e inv)) in
        (
          t,
          ground (
            arith,
            e,
            ends,
            visit-eq order nodes next start d curr (popped order nodes next start d s rest)
                (curr_known order nodes next start d curr s rest e inv),
          ),
          last,
          empty,
        )
  ]

  visited_complete :
      (t : Search)
      → Inv order nodes next start t
      → t.stack ≡ []
      → (k : String) → Walk (linked next) start k
      → contains k t.visited ≡ true
  visited_complete t inv e k here = ground (arith, inv.started)
  visited_complete t inv e k (step {u} w l) =
      ground (arith, inv.closed u k, visited_complete t inv e u w)

  -- The search from a node returns within its fuel, without a KeyError, and lists what it should.
  pub loop-Lists :
      is_some (lookup start nodes) ≡ true
      → Lists
          (linked next)
          start
          (loop order nodes next start (suc (count_edges next)) (first start))
  loop-Lists h =
      let (t, ends, inv, empty) =
        loop_ends (suc (count_edges next)) (first start) (first-Inv order nodes next start h)
          (omega (arith, left-nil next)) in
      record {
        result = t.result;
        returned = ends;
        listed = λ k. (
          λ m. (
            inv.visited_sound k (ground (arith, inv.listed k)),
            λ same. ground (arith, inv.listed k, eq_iff k start),
          ),
          λ (w, other).
              ground (arith, inv.listed k, eq_iff k start, visited_complete t inv empty k w),
        );
        distinct = inv.distinct;
      }
