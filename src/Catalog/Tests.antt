-- ===== src/Catalog/Tests.antt =====
-- Two models of dbt are synchronized into an asset that knows one of them.
use clean_data_platform_airf.Prelude.{◌≡◌, refl, String, none, lower, [], ◌∷◌}
use clean_data_platform_airf.Prelude.Marks.{marks}
use clean_data_platform_airf.Assets.Asset.{DataAsset, active}
use clean_data_platform_airf.Objects.Element.{create_from_discovery, integer}
use clean_data_platform_airf.Discovery.Tags.{occurs_in}
use clean_data_platform_airf.Catalog.Types.{map_type}
use clean_data_platform_airf.Catalog.Sync.{Model, Tables, Ids}

-- An interval is taken for an integer, since its name has INT in it.
interval_type : map_type "INTERVAL" ≡ integer
unfolding map_type lower occurs_in
interval_type = refl

abbrev asset : DataAsset
asset = record {
  id = "a1";
  name = "gold";
  description = "";
  owner = "team@example.org";
  tags = [];
  policy_tags = [];
  state = active;
  discovery_schedule = "";
  discovery_scope = record { include = []; exclude = [] };
  endpoint_id = none;
  updated_at = 0;
}

abbrev tables : Tables
tables = record {
  assets = asset ∷ [];
  store = record {
    objects = create_from_discovery "o1" "a1" "orders" "" ∷ [];
    elements = [];
    created = 0;
  };
}

abbrev ids : Ids
ids = record { new_element_id = marks; new_object_id = λ n. "o2" }

abbrev model : String → Model
model name = record {
  name = name;
  type_ = "";
  description = "";
  columns = record { name = "id"; data_type = "INT64"; description = "" } ∷ [];
}
