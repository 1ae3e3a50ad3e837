-- ===== src/Pipelines/Watermark.antt =====
-- app/domain/pipelines/watermark.py. Whether Python reads a text as an integer, a float or an ISO
-- date is not decided by this code, so it is the parameter `reads`.
use Prim.Native.Char.{Char, char, code}
use Prim.Native.String
use Prim.Native.String.append
use Prim.Native.String.{String}
use clean_data_platform_airf.Prelude.{
  ◌≡◌, refl, ◌∙◌, ap, Bool, true, false, not, Option, none, some, [], ◌∷◌, if◌then◌else◌, eqb,
  format, strip, is_text, strip-strip, arith, Bool-cases, inl, inr,
}
use clean_data_platform_airf.Errors.{Result, ok, err, value_error}

pub data WatermarkType : Type 0 where
  integer float timestamp date string : WatermarkType

pub record Watermark : Type 0 where
  pub value : String
  pub type_ : WatermarkType

abbrev pub type_value : WatermarkType → String
type_value integer = "integer"
type_value float = "float"
type_value timestamp = "timestamp"
type_value date = "date"
type_value string = "string"

abbrev pub parse_error : WatermarkType → String → String
parse_error integer s = format ("Cannot parse '" ∷ s ∷ "' as integer." ∷ [])
parse_error float s = format ("Cannot parse '" ∷ s ∷ "' as float." ∷ [])
parse_error timestamp s =
    format ("Cannot parse '" ∷ s ∷ "' as timestamp. Must be valid ISO-8601." ∷ [])
parse_error date s =
    format ("Cannot parse '" ∷ s ∷ "' as date. Must be valid ISO-8601 (YYYY-MM-DD)." ∷ [])
parse_error string s = ""

-- `string` is accepted as it is; the others go through a constructor of Python's.
abbrev pub accepts : (WatermarkType → String → Bool) → WatermarkType → String → Bool
accepts reads string s = true
accepts reads t s = reads t s

-- `Watermark.parse` of a text, or of None.
unfoldable pub parse :
    (WatermarkType → String → Bool) → Option String → WatermarkType → Result Watermark
parse reads none t =
    err (
      value_error
        (format ("Watermark value cannot be empty for type '" ∷ type_value t ∷ "'." ∷ [])))
parse reads (some raw) t =
    let s = strip raw in
    if not (is_text s)
    then err (
        value_error
          (format ("Watermark value cannot be empty for type '" ∷ type_value t ∷ "'." ∷ [])))
    else if accepts reads t s
    then ok (record { value = s; type_ = t })
    else err (value_error (parse_error t s))

-- `value.replace("'", "''")`
unfoldable pub escape : String → String
escape String.[] = String.[]
escape (String.◌∷◌ c s) =
    let rest = escape s in
    if eqb (code c) 39 then String.◌∷◌ c (String.◌∷◌ c rest) else String.◌∷◌ c rest

abbrev pub is_numeric : WatermarkType → Bool
is_numeric integer = true
is_numeric float = true
is_numeric _ = false

unfoldable pub as_sql_literal : Watermark → String
unfolding escape
as_sql_literal w =
    if is_numeric w.type_ then w.value else String.◌++◌ "'" (String.◌++◌ (escape w.value) "'")

unfoldable pub as_param_value : Watermark → String
as_param_value w = w.value

-- A watermark that was parsed parses to itself again, through the value sent as a parameter.
pub parse-as_param_value :
    (reads : WatermarkType → String → Bool) (raw : Option String) (t : WatermarkType)
    (w : Watermark)
    → parse reads raw t ≡ ok w
    → parse reads (some (as_param_value w)) w.type_ ≡ ok w
unfolding parse as_param_value
parse-as_param_value reads none t w h = ground arith
parse-as_param_value reads (some raw) t w h = ground (arith, strip-strip raw)

abbrev keep : Char → Option (String × String) → Option (String × String)
keep c none = none
keep c (some (text, rest)) = some (String.◌∷◌ c text, rest)

-- How SQL reads what follows the opening quote of a text literal, given whether a quote was just
-- read: a second quote stands for one, and anything else means that the literal has ended. The
-- result is the text and what follows the literal.
unfoldable pub read_inside : Bool → String → Option (String × String)
read_inside false String.[] = none
read_inside true String.[] = some ("", "")
read_inside false (String.◌∷◌ c s) =
    if eqb (code c) 39 then read_inside true s else keep c (read_inside false s)
read_inside true (String.◌∷◌ c s) =
    if eqb (code c) 39 then keep c (read_inside false s) else some ("", String.◌∷◌ c s)

unfoldable pub read_literal : String → Option (String × String)
unfolding read_inside
read_literal String.[] = none
read_literal (String.◌∷◌ c s) = if eqb (code c) 39 then read_inside false s else none

-- The text does not begin with a quote.
abbrev pub starts_quoted : String → Bool
starts_quoted String.[] = false
starts_quoted (String.◌∷◌ c s) = eqb (code c) 39

read_inside-end :
    (rest : String) → starts_quoted rest ≡ false → read_inside true rest ≡ some ("", rest)
unfolding read_inside
read_inside-end String.[] h = refl
read_inside-end (String.◌∷◌ c s) h = rw h

abbrev quote_char : Char
quote_char = char 39 tt

quote-append : (t : String) → String.◌++◌ "'" t ≡ String.◌∷◌ quote_char t
quote-append t = append.cons quote_char "" t ∙ ap (String.◌∷◌ quote_char) (append.nil t)

append-append-cons :
    (c : Char) (s t u : String)
    → String.◌++◌ (String.◌++◌ (String.◌∷◌ c s) t) u
      ≡ String.◌∷◌ c (String.◌++◌ (String.◌++◌ s t) u)
append-append-cons c s t u =
    ap (λ x. String.◌++◌ x u) (append.cons c s t) ∙ append.cons c (String.◌++◌ s t) u

read_inside-escape :
    (value rest : String)
    → starts_quoted rest ≡ false
    → read_inside false (String.◌++◌ (String.◌++◌ (escape value) "'") rest) ≡ some (value, rest)
unfolding read_inside escape
read_inside-escape String.[] rest h = rw (quote-append rest) (read_inside-end rest h)
read_inside-escape (String.◌∷◌ c s) rest h = elim (Bool-cases (eqb (code c) 39)) [
  | inl quote ↦
      rw
        (
          quote,
          append-append-cons c (String.◌∷◌ c (escape s)) "'" rest,
          append-append-cons c (escape s) "'" rest,
        )
        (rw quote (rw (read_inside-escape s rest h)))
  | inr other ↦
      rw (other, append-append-cons c (escape s) "'" rest)
        (rw other (rw (read_inside-escape s rest h)))
]

-- If what follows the literal does not begin with a quote, SQL reads the literal of a watermark
-- that is neither an integer nor a float as exactly the watermark's value, whatever quotes it
-- holds, and goes on behind it; so the value never ends the literal early.
pub read_literal-as_sql_literal :
    (w : Watermark) (rest : String)
    → is_numeric w.type_ ≡ false
    → starts_quoted rest ≡ false
    → read_literal (String.◌++◌ (as_sql_literal w) rest) ≡ some (w.value, rest)
unfolding read_literal as_sql_literal
read_literal-as_sql_literal w rest kind h =
    rw (kind, quote-append _, append.cons quote_char (String.◌++◌ (escape w.value) "'") rest)
      (read_inside-escape w.value rest h)
