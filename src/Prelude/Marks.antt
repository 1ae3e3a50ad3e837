-- ===== src/Prelude/Marks.antt =====
-- A text for every number, and the same for no two: uuids of the examples.
use Prim.Native.Char.{char}
use Prim.Native.String.{String}
use clean_data_platform_airf.Prelude.{ℕ, ◌≡◌, refl, zero, suc, sym, ◌∙◌, ap}

unfoldable pub marks : ℕ → String
marks zero = ""
marks (suc n) = String.◌∷◌ (char 120 tt) (marks n)

count_marks : String → ℕ
count_marks String.[] = 0
count_marks (String.◌∷◌ c s) = suc (count_marks s)

count_marks-marks : (n : ℕ) → count_marks (marks n) ≡ n
unfolding marks count_marks
count_marks-marks zero = refl
count_marks-marks (suc n) = ap suc (count_marks-marks n)

pub marks_distinct : (m n : ℕ) → marks m ≡ marks n → m ≡ n
marks_distinct m n h = sym (count_marks-marks m) ∙ ap count_marks h ∙ count_marks-marks n
