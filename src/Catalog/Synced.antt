-- ===== src/Catalog/Synced.antt =====
-- dbt_catalog_adapter.py and dataform_catalog_adapter.py: what a synchronization leaves.
use clean_data_platform_airf.Prelude.{ℕ, ◌+◌, ◌≡◌, String, true, List, [], ◌∷◌, length}
use clean_data_platform_airf.Prelude.Dict.{Dict}
use clean_data_platform_airf.Objects.Element.{DataObject}
use clean_data_platform_airf.Objects.Service.{Objects}
use clean_data_platform_airf.Objects.Repository.{has_row}
use clean_data_platform_airf.Catalog.Sync.{
  Model, SyncResult, Ids, Adapter, tool_of, elements_of_model, synced_object, known_after, counted,
}
use clean_data_platform_airf.Catalog.Known.{IsObjectOf}

-- All columns of the models.
abbrev pub columns_in : List Model → ℕ
columns_in [] = 0
columns_in (model ∷ models) = length model.columns + columns_in models

-- Every model has its object: one of the asset, with the model's name, whose id has a row.
abbrev pub AreSaved : String → Objects → List Model → List DataObject → Type 0
AreSaved asset_id s [] [] = Unit
AreSaved asset_id s (model ∷ models) (o ∷ os) =
    IsObjectOf asset_id model.name o × (has_row o.id s ≡ true) × AreSaved asset_id s models os
AreSaved asset_id s _ _ = ⊥

module _ (adapter : Adapter) (ids : Ids) where
  -- The objects that the models are saved as.
  unfoldable pub synced_objects :
      SyncResult → String → Dict DataObject → List Model → List DataObject
  synced_objects counts asset_id existing [] = []
  synced_objects counts asset_id existing (model ∷ models) =
      let tool = tool_of adapter in
      synced_object tool ids counts asset_id existing model
      ∷ synced_objects (counted (elements_of_model tool ids counts model) counts) asset_id
          (known_after tool ids counts asset_id existing model) models
