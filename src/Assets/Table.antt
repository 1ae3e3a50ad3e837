-- ===== src/Assets/Table.antt =====
-- app/infrastructure/persistence/repositories/sql_asset_repository.py: the rows of the assets'
-- table. Row and entity hold the same columns, so a row is a `DataAsset`; `find` answers with the
-- first row that has the id. What the session does besides (identity map, refresh) is left out.
use clean_data_platform_airf.Prelude.{
  String, Option, none, some, List, [], ◌∷◌, ◌++◌, ◌==◌, if◌then◌else◌, format,
}
use clean_data_platform_airf.Errors.{Result, ok, err, not_found_error}
use clean_data_platform_airf.Assets.Asset.{AssetState, DataAsset, DiscoveryScope}

abbrev pub Table : Type 0
Table = List DataAsset

unfoldable pub find_by_id : String → Table → Option DataAsset
find_by_id asset_id [] = none
find_by_id asset_id (row ∷ rows) = if row.id == asset_id then some row else find_by_id asset_id rows

unfoldable pub find_by_name : String → Table → Option DataAsset
find_by_name name [] = none
find_by_name name (row ∷ rows) = if row.name == name then some row else find_by_name name rows

-- The row that `save` adds. Whether the database takes the table, with its unique names of at most
-- 255 characters, is known at the flush: a port of the use case.
unfoldable pub save : DataAsset → Table → Table
save asset rows = rows ++ asset ∷ []

-- Writes to the row of an id.
unfoldable pub write : String → (DataAsset → DataAsset) → Table → Table
write asset_id f [] = []
write asset_id f (row ∷ rows) =
    if row.id == asset_id then f row ∷ rows else row ∷ write asset_id f rows

-- `_fetch_or_raise`, the writes of `f`, and the entity read back.
unfoldable pub fetch_and_write :
    String → (DataAsset → DataAsset) → Table → Result (Table × DataAsset)
unfolding find_by_id write
fetch_and_write asset_id f rows = elim (find_by_id asset_id rows) [
  | none ↦ err (not_found_error (format ("DataAsset not found: " ∷ asset_id ∷ [])))
  | some row ↦ ok (write asset_id f rows, f row)
]

-- `update` writes every column but the id and the state.
abbrev pub updated_row : DataAsset → DataAsset → DataAsset
updated_row asset row = record row {
  name = asset.name;
  description = asset.description;
  owner = asset.owner;
  tags = asset.tags;
  policy_tags = asset.policy_tags;
  discovery_schedule = asset.discovery_schedule;
  discovery_scope = asset.discovery_scope;
  endpoint_id = asset.endpoint_id;
}

unfoldable pub update : DataAsset → Table → Result (Table × DataAsset)
unfolding fetch_and_write
update asset rows = fetch_and_write asset.id (updated_row asset) rows

unfoldable pub update_state : String → AssetState → Table → Result (Table × DataAsset)
unfolding fetch_and_write
update_state asset_id new_state rows =
    fetch_and_write asset_id (λ row. record row { state = new_state }) rows

unfoldable pub update_endpoint : String → String → Table → Result (Table × DataAsset)
unfolding fetch_and_write
update_endpoint asset_id endpoint_id rows =
    fetch_and_write asset_id (λ row. record row { endpoint_id = some endpoint_id }) rows

unfoldable pub update_scope : String → DiscoveryScope → Table → Result (Table × DataAsset)
unfolding fetch_and_write
update_scope asset_id scope rows =
    fetch_and_write asset_id (λ row. record row { discovery_scope = scope }) rows
