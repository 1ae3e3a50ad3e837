-- ===== src/Lineage/Trace/Ends.antt =====
-- The search ends: each round takes one key off the stack, and pushes the neighbours of a key only
-- the first time that it is met.
use clean_data_platform_airf.Prelude.{
  ℕ, ◌+◌, ◌≡◌, refl, ap, String, false, none, some, List, [], ◌∷◌, contains, if◌then◌else◌, eq_iff,
  length, arith,
}
use clean_data_platform_airf.Prelude.Dict.{Dict, lookup, IsUnique}
use clean_data_platform_airf.Lineage.Trace.{extend, count_edges}

pub length-extend : (xs stack : List String) → length (extend xs stack) ≡ length xs + length stack
length-extend [] stack = omega arith
length-extend (x ∷ xs) stack = omega (arith, length-extend xs (x ∷ stack))

-- The edges out of keys that were not visited yet.
pub left : List String → Dict (List String) → ℕ
left visited [] = 0
left visited ((k, s) ∷ d) = (if contains k visited then 0 else length s) + left visited d

pub left-nil : (d : Dict (List String)) → left [] d ≡ count_edges d
unfolding left
left-nil [] = refl
left-nil ((k, s) ∷ d) = ap (λ n. length s + n) (left-nil d)

left_absent :
    (visited : List String) (k : String) (d : Dict (List String))
    → lookup k d ≡ none
    → left (k ∷ visited) d ≡ left visited d
unfolding left lookup
left_absent visited k [] h = refl
left_absent visited k ((j, s) ∷ d) h =
    ground (arith, left_absent visited k d, eq_iff k j, eq_iff j k)

pub left_visit :
    (visited : List String) (k : String) (s : List String) (d : Dict (List String))
    → IsUnique d
    → contains k visited ≡ false
    → lookup k d ≡ some s
    → left (k ∷ visited) d + length s ≡ left visited d
unfolding left lookup
left_visit visited k s [] u new h = ground arith
left_visit visited k s ((j, t) ∷ d) u new h =
    ground (arith, left_visit visited k s d u.1, left_absent visited k d, eq_iff k j, eq_iff j k)
