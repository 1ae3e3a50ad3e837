-- ===== src/Registration/Values.antt =====
-- app/domain/shared/value_objects.py, and what the modelled code takes from Python: the constructors
-- `int` and `str`, `repr`, and the check of a cron expression by croniter. Integers have no sign.
use Prim.Native.Char.{code}
use Prim.Native.String.{String}
use clean_data_platform_airf.Prelude.{
  ℕ, suc, Bool, true, false, not, ◌||◌, Option, none, some, [], ◌∷◌, ◌==◌, if◌then◌else◌, eqb,
  format, strip, is_text, is_blank,
}
use clean_data_platform_airf.Errors.{Result, ok, err, value_error, type_error}
use clean_data_platform_airf.Extraction.Json.{
  Value, Items, Fields, null, boolean, number, text, array, object, nil, cons, end, field,
}
use clean_data_platform_airf.Pipelines.Watermark.{WatermarkType}

pub record Python : Type 0 where
  -- The integer that a text reads as.
  pub int_text : String → Option ℕ
  -- `str` of anything but a text.
  pub str_of : Value → String
  pub repr : Value → String
  -- What croniter complains about.
  pub cron_error : String → Option String
  -- Which texts read as a watermark of a type.
  pub reads : WatermarkType → String → Bool

-- `key in d` and `d[key]`; a dictionary has a key once.
unfoldable pub find : String → Fields → Option Value
find name end = none
find name (field key value rest) = if key == name then some value else find name rest

-- `d.get(key, default)`
abbrev pub value_or : Value → Option Value → Value
value_or default none = default
value_or default (some v) = v

abbrev int_found : Python → String → Option ℕ → Result ℕ
int_found py s none =
    err (value_error (format ("invalid literal for int() with base 10: " ∷ py.repr (text s) ∷ [])))
int_found py s (some n) = ok n

abbrev not_an_int : String → Result ℕ
not_an_int name = err (
    type_error (
      format (
        "int() argument must be a string, a bytes-like object or a real number, not '" ∷ name ∷ "'"
        ∷ [])))

-- `int(value)`
abbrev pub int : Python → Value → Result ℕ
int py (number n) = ok n
int py (boolean true) = ok 1
int py (boolean false) = ok 0
int py (text s) = int_found py s (py.int_text s)
int py null = not_an_int "NoneType"
int py (array items) = not_an_int "list"
int py (object fields) = not_an_int "dict"

-- `str(value)`
abbrev pub str : Python → Value → String
str py (text s) = s
str py v = py.str_of v

abbrev not_iterable : String → Result Items
not_iterable name = err (type_error (format ("'" ∷ name ∷ "' object is not iterable" ∷ [])))

abbrev pub characters : String → Items
characters String.[] = nil
characters (String.◌∷◌ c s) = cons (text (String.◌∷◌ c String.[])) (characters s)

abbrev pub keys : Fields → Items
keys end = nil
keys (field key value rest) = cons (text key) (keys rest)

-- `tuple(value)`
abbrev pub tuple : Value → Result Items
tuple (array items) = ok items
tuple (text s) = ok (characters s)
tuple (object fields) = ok (keys fields)
tuple null = not_iterable "NoneType"
tuple (boolean b) = not_iterable "bool"
tuple (number n) = not_iterable "int"

unfoldable pub has_at : String → Bool
has_at String.[] = false
has_at (String.◌∷◌ c s) = eqb (code c) 64 || has_at s

-- `EmailAddress.__post_init__`
unfoldable pub email_address : Python → String → Result String
unfolding has_at
email_address py value =
    if not (has_at value) || not (is_text (strip value))
    then err (
        value_error (
          format
            ("Invalid email: " ∷ py.repr (text value) ∷ ". Expected format: user@domain.com" ∷ [])))
    else ok value

-- `CredentialReference.__post_init__`
unfoldable pub credential_reference : Python → String → Result String
credential_reference py path =
    if not (is_text (strip path))
    then err (
        value_error
          (format ("CredentialReference path cannot be empty: " ∷ py.repr (text path) ∷ [])))
    else ok path

-- `len(s.split())`; the flag says that the character before belongs to a word.
unfoldable pub count_words : Bool → String → ℕ
count_words inside String.[] = 0
count_words inside (String.◌∷◌ c s) =
    let after_blank = count_words false s in
    let after_letter = count_words true s in
    if is_blank (code c) then after_blank else if inside then after_letter else suc after_letter

abbrev cron_checked : Python → String → Option String → Result String
cron_checked py expression none = ok expression
cron_checked py expression (some detail) = err (
    value_error (
      format
        ("Invalid cron expression: " ∷ py.repr (text expression) ∷ ". Detail: " ∷ detail ∷ [])))

-- `CronSchedule.__post_init__`
unfoldable pub cron_schedule : Python → String → Result String
unfolding count_words
cron_schedule py expression =
    if not (eqb (count_words false (strip expression)) 5)
    then err (
        value_error (
          format (
            "Invalid cron expression: "
            ∷ py.repr (text expression)
            ∷ ". Expected exactly 5 fields: minute hour day month weekday."
            ∷ [])))
    else cron_checked py expression (py.cron_error expression)
