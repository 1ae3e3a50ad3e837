-- ===== src/Assets/UseCases.antt =====
-- app/application/assets/activate_asset.py and update_asset.py. A use case runs on the committed
-- tables: an exception rolls its writes back, so it returns either an error or the tables that it
-- committed, what it sent to the catalog and as an alert after the commit, and its result.
use clean_data_platform_airf.Prelude.{ℕ, String, Option, none, some, List, [], ◌∷◌, ◌++◌, format}
use clean_data_platform_airf.Errors.{Result, ok, err, not_found_error, ◌>>=◌}
use clean_data_platform_airf.Discovery.Tags.{PolicyTag}
use clean_data_platform_airf.Assets.Asset.{DataAsset, active, activate, update_metadata, value}
use clean_data_platform_airf.Assets.Table.{Table, find_by_id, update, update_state, update_endpoint}

pub record AuditEntry : Type 0 where
  pub event_type : String
  pub entity_id : String
  pub description : String

pub record Database : Type 0 where
  pub assets : Table
  pub audit_logs : List AuditEntry

-- `publish_asset` and `send_alert`
pub data Message : Type 0 where
  publish_asset : String → String → String → Option String → Message
  send_alert : String → String → Message

pub record Done : Type 0 where
  pub database : Database
  pub sent : List Message
  pub asset : DataAsset

abbrev pub require {ℓ} : {A : Type ℓ} → String → Option A → Result A
require message none = err (not_found_error message)
require message (some a) = ok a

-- `ActivateAssetUseCase.execute`
unfoldable pub activate_asset : String → String → ℕ → Database → Result Done
unfolding find_by_id activate update_state update_endpoint
activate_asset asset_id endpoint_id touched db = do
  found ← require (format ("DataAsset not found: " ∷ asset_id ∷ [])) (find_by_id asset_id db.assets)
  asset ← activate endpoint_id touched found
  with_endpoint ← update_endpoint asset_id endpoint_id db.assets
  with_state ← update_state asset_id active with_endpoint.0
  ok (record {
    database = record {
      assets = with_state.0;
      audit_logs =
          db.audit_logs
          ++ record {
            event_type = "asset.activated";
            entity_id = asset.id;
            description = format ("Asset " ∷ asset.name ∷ " activated" ∷ []);
          }
            ∷ [];
    };
    sent =
        publish_asset asset.id asset.name (value asset.state) (some endpoint_id)
        ∷ send_alert "Data Asset Activated"
            (format ("Asset " ∷ asset.name ∷ " is now ACTIVE." ∷ []))
        ∷ [];
    asset = asset;
  })

-- `if endpoint_id is not None: asset.endpoint_id = endpoint_id`
abbrev pub assign_endpoint : Option String → DataAsset → DataAsset
assign_endpoint none a = a
assign_endpoint (some e) a = record a { endpoint_id = some e }

-- `UpdateAssetUseCase.execute`; the message of its error shows the id quoted.
unfoldable pub update_asset :
    String
    → Option String
    → Option (List String)
    → Option (List PolicyTag)
    → Option String
    → ℕ
    → Database
    → Result Done
unfolding find_by_id update_metadata update
update_asset asset_id description tags policy_tags endpoint_id touched db = do
  found ←
      require (format ("DataAsset not found: id='" ∷ asset_id ∷ "'" ∷ []))
        (find_by_id asset_id db.assets)
  let changed = update_metadata description none tags policy_tags touched found
  let asset = assign_endpoint endpoint_id changed
  updated ← update asset db.assets
  ok (record {
    database = record db { assets = updated.0 };
    sent =
        publish_asset updated.1.id updated.1.name (value updated.1.state) updated.1.endpoint_id
        ∷ send_alert "Data Asset Updated"
            (format ("Asset " ∷ updated.1.name ∷ " was successfully updated." ∷ []))
        ∷ [];
    asset = updated.1;
  })
