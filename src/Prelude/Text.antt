-- ===== src/Prelude/Text.antt =====
-- `str.lower` and `str.strip` on native texts. Only ASCII letters are folded, and the blanks are
-- the ASCII ones.
use Prim.Native.Char.{Char, char, code, IsScalar}
use Prim.Native.Nat.{ℕ, ◌+◌, compare, Ordering}
use Prim.Native.String
use Prim.Native.String.{String}
use mathlib.Core.Bool.{Bool, true, false, ◌&&◌, ◌||◌}
use mathlib.Core.Logic.{inl, inr}
use mathlib.Core.List.{List, [], ◌∷◌}
use mathlib.Core.Path.{◌≡◌, refl}
use native.Mathlib.Omega.{arith}
use clean_data_platform_airf.Prelude.Tests.{leb, if◌then◌else◌, Bool-cases}

abbrev pub is_upper : ℕ → Bool
is_upper n = leb 65 n && leb n 90

below-lt : (n : ℕ) → is_upper n ≡ true → compare (n + 32) 55296 ≡ Ordering.lt
below-lt n h = ground arith

pub below-IsScalar : (n : ℕ) → is_upper n ≡ true → IsScalar (n + 32)
below-IsScalar n h = rw (below-lt n h) tt

lower_in : (n : ℕ) (b : Bool) → is_upper n ≡ b → Char → Char
lower_in n true h c = char (n + 32) (below-IsScalar n h)
lower_in n false h c = c

lower_char : Char → Char
unfolding lower_in
lower_char c = lower_in (code c) (is_upper (code c)) refl c

unfoldable pub lower : String → String
unfolding lower_char
lower String.[] = String.[]
lower (String.◌∷◌ c s) = String.◌∷◌ (lower_char c) (lower s)

lower_mixed : lower "BigInt_9 " ≡ "bigint_9 "
unfolding lower
lower_mixed = refl

-- An f-string: its pieces one after the other.
unfoldable pub format : List String → String
format [] = ""
format (piece ∷ pieces) = String.◌++◌ piece (format pieces)

-- The blanks that `str.strip` takes off: tab to carriage return, the separators 28 to 31, space.
unfoldable pub is_blank : ℕ → Bool
is_blank n = leb 9 n && leb n 13 || leb 28 n && leb n 32

unfoldable pub lstrip : String → String
lstrip String.[] = String.[]
lstrip (String.◌∷◌ c s) = let rest = lstrip s in if is_blank (code c) then rest else String.◌∷◌ c s

-- A character before a text that was stripped at its end.
abbrev pub cons_stripped : Char → String → String
cons_stripped c String.[] = if is_blank (code c) then String.[] else String.◌∷◌ c String.[]
cons_stripped c (String.◌∷◌ d s) = String.◌∷◌ c (String.◌∷◌ d s)

unfoldable pub rstrip : String → String
rstrip String.[] = String.[]
rstrip (String.◌∷◌ c s) = cons_stripped c (rstrip s)

unfoldable pub strip : String → String
unfolding lstrip rstrip
strip s = rstrip (lstrip s)

-- Python's truth value of a text.
abbrev pub is_text : String → Bool
is_text String.[] = false
is_text (String.◌∷◌ c s) = true

strip_example : strip "  a b  " ≡ "a b"
unfolding strip is_blank
strip_example = refl

-- The first character, if there is one, is not blank.
abbrev IsSolid : String → Type 0
IsSolid String.[] = Unit
IsSolid (String.◌∷◌ c s) = is_blank (code c) ≡ false

cons_stripped-solid :
    (c : Char) (s : String) → is_blank (code c) ≡ false → cons_stripped c s ≡ String.◌∷◌ c s
cons_stripped-solid c String.[] h = rw h
cons_stripped-solid c (String.◌∷◌ d s) h = refl

rstrip-cons_stripped :
    (c : Char) (s : String) → rstrip s ≡ s → rstrip (cons_stripped c s) ≡ cons_stripped c s
unfolding rstrip
rstrip-cons_stripped c String.[] h = elim (Bool-cases (is_blank (code c))) [
  | inl blank ↦ rw blank
  | inr solid ↦ rw solid (rw solid)
]
rstrip-cons_stripped c (String.◌∷◌ d s) h = rw h

rstrip-rstrip : (s : String) → rstrip (rstrip s) ≡ rstrip s
unfolding rstrip
rstrip-rstrip String.[] = refl
rstrip-rstrip (String.◌∷◌ c s) = rstrip-cons_stripped c (rstrip s) (rstrip-rstrip s)

lstrip-solid : (s : String) → IsSolid s → lstrip s ≡ s
unfolding lstrip
lstrip-solid String.[] h = refl
lstrip-solid (String.◌∷◌ c s) h = rw h

lstrip-IsSolid : (s : String) → IsSolid (lstrip s)
unfolding lstrip
lstrip-IsSolid String.[] = tt
lstrip-IsSolid (String.◌∷◌ c s) = elim (Bool-cases (is_blank (code c))) [
  | inl blank ↦ rw blank (lstrip-IsSolid s)
  | inr solid ↦ rw solid solid
]

rstrip-IsSolid : (s : String) → IsSolid s → IsSolid (rstrip s)
unfolding rstrip
rstrip-IsSolid String.[] h = tt
rstrip-IsSolid (String.◌∷◌ c s) h = rw (cons_stripped-solid c (rstrip s) h) h

-- Stripping a text twice is stripping it once.
pub strip-strip : (s : String) → strip (strip s) ≡ strip s
unfolding strip
strip-strip s =
    rw (lstrip-solid (rstrip (lstrip s)) (rstrip-IsSolid (lstrip s) (lstrip-IsSolid s)))
      (rstrip-rstrip (lstrip s))
