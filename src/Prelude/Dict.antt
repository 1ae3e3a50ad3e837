-- ===== src/Prelude/Dict.antt =====
-- Python's `dict` with text keys: an association list in insertion order. Assigning to a key that
-- is there keeps its place.
use Prim.Native.String.{String}
use mathlib.Core.List.{List, [], ◌∷◌}
use mathlib.Core.Option.{Option, none, some}
use mathlib.Core.Path.{◌≡◌, refl}
use native.Mathlib.Omega.{arith}
use text.Mathlib.Text.{◌==◌}
use text.Mathlib.TextEquality.{eq_iff}
use clean_data_platform_airf.Prelude.Tests.{if◌then◌else◌}
use clean_data_platform_airf.Prelude.Lists.{All}

abbrev pub Dict {ℓ} : Type ℓ → Type ℓ
Dict V = List (String × V)

module _ {ℓ} {V : Type ℓ} where
  unfoldable pub lookup : String → Dict V → Option V
  lookup wanted [] = none
  lookup wanted ((key, value) ∷ d) = if key == wanted then some value else lookup wanted d

  unfoldable pub insert : String → V → Dict V → Dict V
  insert k v [] = (k, v) ∷ []
  insert k v ((j, w) ∷ m) = if j == k then (j, v) ∷ m else (j, w) ∷ insert k v m

  pub lookup-insert :
      (put get : String) (value : V) (d : Dict V)
      → lookup get (insert put value d) ≡ (if put == get then some value else lookup get d)
  unfolding lookup insert
  lookup-insert put get value [] = refl
  lookup-insert put get value ((key, _) ∷ d) =
      ground (arith, lookup-insert put get value d, eq_iff key get, eq_iff key put, eq_iff put get)

  -- Every key occurs once, as Python guarantees.
  abbrev pub IsUnique : Dict V → Type ℓ
  IsUnique [] = Unit
  IsUnique ((k, v) ∷ m) = (lookup k m ≡ none) × IsUnique m

  pub insert-IsUnique : (k : String) (v : V) (m : Dict V) → IsUnique m → IsUnique (insert k v m)
  unfolding insert lookup
  insert-IsUnique k v [] u = (refl, tt)
  insert-IsUnique k v ((j, w) ∷ m) u =
      ground (arith, eq_iff j k, eq_iff k j, lookup-insert k j v m, insert-IsUnique k v m)

module _ {ℓ} {V : Type ℓ} where
  lookup-cons_ne :
      (k j : String) (v w : V) (m : Dict V)
      → lookup j m ≡ none
      → lookup k m ≡ some w
      → lookup k ((j, v) ∷ m) ≡ some w
  unfolding lookup
  lookup-cons_ne k j v w m fresh found = ground (arith, eq_iff j k)

  Agrees-cons :
      (d m : Dict V) (j : String) (v : V)
      → lookup j d ≡ none
      → All (λ e. lookup e.0 d ≡ some e.1) m
      → All (λ e. lookup e.0 ((j, v) ∷ d) ≡ some e.1) m
  Agrees-cons d [] j v fresh h = tt
  Agrees-cons d ((k, w) ∷ m) j v fresh h =
      (lookup-cons_ne k j v w d fresh h.0, Agrees-cons d m j v fresh h.1)

  -- A dictionary holds its own entries.
  pub All-lookup_self : (m : Dict V) → IsUnique m → All (λ e. lookup e.0 m ≡ some e.1) m
  unfolding lookup
  All-lookup_self [] u = tt
  All-lookup_self ((k, v) ∷ m) u =
      (ground (arith, eq_iff k k), Agrees-cons m m k v u.0 (All-lookup_self m u.1))

-- `{key(x): x for x in xs}`: a later element replaces an earlier one with its key.
module _ {ℓ} {A : Type ℓ} (key : A → String) where
  unfoldable pub insert_all : List A → Dict A → Dict A
  insert_all [] m = m
  insert_all (x ∷ xs) m = insert_all xs (insert (key x) x m)

  unfoldable pub dict_by : List A → Dict A
  unfolding insert_all
  dict_by xs = insert_all xs []

  -- Every value stands under its own key.
  abbrev pub IsKeyed : Dict A → Type 0
  IsKeyed [] = Unit
  IsKeyed ((k, x) ∷ m) = (key x ≡ k) × IsKeyed m

  insert-IsKeyed : (x : A) (m : Dict A) → IsKeyed m → IsKeyed (insert (key x) x m)
  unfolding insert
  insert-IsKeyed x [] h = (refl, tt)
  insert-IsKeyed x ((j, y) ∷ m) h = ground (arith, eq_iff j (key x), insert-IsKeyed x m)

  insert_all-IsKeyed : (xs : List A) (m : Dict A) → IsKeyed m → IsKeyed (insert_all xs m)
  unfolding insert_all
  insert_all-IsKeyed [] m h = h
  insert_all-IsKeyed (x ∷ xs) m h =
      insert_all-IsKeyed xs (insert (key x) x m) (insert-IsKeyed x m h)

  insert_all-IsUnique : (xs : List A) (m : Dict A) → IsUnique m → IsUnique (insert_all xs m)
  unfolding insert_all
  insert_all-IsUnique [] m h = h
  insert_all-IsUnique (x ∷ xs) m h =
      insert_all-IsUnique xs (insert (key x) x m) (insert-IsUnique (key x) x m h)

  pub dict_by-IsKeyed : (xs : List A) → IsKeyed (dict_by xs)
  unfolding dict_by
  dict_by-IsKeyed xs = insert_all-IsKeyed xs [] tt

  pub dict_by-IsUnique : (xs : List A) → IsUnique (dict_by xs)
  unfolding dict_by
  dict_by-IsUnique xs = insert_all-IsUnique xs [] tt
