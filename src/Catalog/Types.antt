-- ===== src/Catalog/Types.antt =====
-- dbt_catalog_adapter.py, `_map_type`, and dataform_compilation_parser.py,
-- `map_dataform_type_to_element_type`: the platform's types for those of a tool. Both compare in upper
-- case, here both sides are in lower case.
use clean_data_platform_airf.Prelude.{String, Bool, List, [], ◌∷◌, if◌then◌else◌, any, lower}
use clean_data_platform_airf.Discovery.Tags.{occurs_in}
use clean_data_platform_airf.Objects.Element.{
  ElementType, string, integer, bigint, float, decimal, date, timestamp, boolean, bytes, json,
}

-- `any(t in normalized for t in words)`
abbrev pub has_any : List String → String → Bool
has_any words normalized = any (λ w. occurs_in w normalized) words

abbrev pub decimals : List String
decimals = "numeric" ∷ "decimal" ∷ "bignumeric" ∷ []

abbrev pub times : List String
times = "timestamp" ∷ "datetime" ∷ []

abbrev dbt_type : String → ElementType
dbt_type normalized =
    if occurs_in "int" normalized
    then integer
    else if has_any decimals normalized
    then decimal
    else if occurs_in "float" normalized
    then float
    else if has_any times normalized
    then timestamp
    else if occurs_in "date" normalized
    then date
    else if occurs_in "bool" normalized
    then boolean
    else string

-- `DbtCatalogAdapter._map_type`
unfoldable pub map_type : String → ElementType
unfolding lower
map_type raw_type = dbt_type (lower raw_type)

abbrev dataform_type : String → ElementType
dataform_type normalized =
    if has_any ("int64" ∷ "integer" ∷ "smallint" ∷ []) normalized
    then integer
    else if occurs_in "bigint" normalized
    then bigint
    else if has_any decimals normalized
    then decimal
    else if occurs_in "float" normalized
    then float
    else if has_any times normalized
    then timestamp
    else if occurs_in "date" normalized
    then date
    else if has_any ("bool" ∷ "boolean" ∷ []) normalized
    then boolean
    else if occurs_in "bytes" normalized
    then bytes
    else if has_any ("record" ∷ "struct" ∷ "json" ∷ []) normalized
    then json
    else string

unfoldable pub map_dataform_type_to_element_type : String → ElementType
unfolding lower
map_dataform_type_to_element_type raw_type = dataform_type (lower raw_type)
