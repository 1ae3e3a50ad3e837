-- ===== src/Registration/Provisioned.antt =====
-- register_pipeline.py: every destination that is to be created has its object, and its link.
use clean_data_platform_airf.Prelude.{
  ℕ, ◌+◌, ◌≤◌, ◌≡◌, refl, String, true, false, ◌||◌, not, some, List, [], ◌∷◌, ◌++◌, ◌==◌, arith,
  contains, filter, map, is_some, All, inl, inr, Bool-cases, eq_iff, eq_refl, ◌∙◌, ap,
}
use clean_data_platform_airf.Errors.{or_else, ok, >>=-eq-ok}
use clean_data_platform_airf.Extraction.Json.{is_truthy}
use clean_data_platform_airf.Assets.Asset.{DataAsset}
use clean_data_platform_airf.Objects.Element.{DataObject}
use clean_data_platform_airf.Objects.Service.{Objects, find_row}
use clean_data_platform_airf.Objects.Repository.{
  save_object, save_row, row_of, find_by_asset_id, has_row, has_row-save_object,
  save_object-objects, elements_of,
}
use clean_data_platform_airf.Registration.Aggregate.{DestinationObjectConfig}
use clean_data_platform_airf.Registration.UseCase.{Ports}
use clean_data_platform_airf.Registration.Destinations.{
  add_missing, names_of, provision_objects, new_object, table_ensured, dataset_ensured,
  provision_destination_objects,
}

-- The names of an asset's rows.
abbrev names_in : String → List DataObject → List String
names_in asset_id rows =
    map {A = DataObject} (λ o. o.name) (filter (λ row. row.asset_id == asset_id) rows)

map-name :
    (s : Objects) (rows : List DataObject)
    → map {A = DataObject}
        (λ o. o.name)
        (map {A = DataObject} (λ row. record row { elements = elements_of row.id s }) rows)
      ≡ map {A = DataObject} (λ o. o.name) rows
map-name s [] = refl
map-name s (row ∷ rows) = ap (λ names. row.name ∷ names) (map-name s rows)

names_of-rows : (a : DataAsset) (s : Objects) → names_of (some a) s ≡ names_in a.id s.objects
unfolding find_by_asset_id
names_of-rows a s = map-name s (filter (λ row. row.asset_id == a.id) s.objects)

-- A row with a new id comes after the others.
save_row-fresh :
    (obj : DataObject) (rows : List DataObject)
    → is_some (find_row obj.id rows) ≡ false
    → save_row obj rows ≡ rows ++ row_of obj ∷ []
unfolding save_row find_row
save_row-fresh obj [] h = refl
save_row-fresh obj (row ∷ rows) h = ground (arith, save_row-fresh obj rows)

names_in-append :
    (asset_id : String) (rows : List DataObject) (o : DataObject) (name : String)
    → contains name (names_in asset_id (rows ++ o ∷ []))
      ≡ contains name (names_in asset_id rows) || contains name (names_in asset_id (o ∷ []))
names_in-append asset_id [] o name = refl
names_in-append asset_id (row ∷ rows) o name = ground (arith, names_in-append asset_id rows o name)

-- A destination that is to be created has an object.
abbrev pub IsPlaced : DataAsset → Objects → DestinationObjectConfig → Type 0
IsPlaced a s cfg =
    (not (is_truthy cfg.create_if_not_exists) || contains cfg.object_name (names_of (some a) s))
    ≡ true

module _ (ports : Ports) (a : DataAsset) (pipeline_name : String)
    (distinct : (m n : ℕ) → ports.new_object_id m ≡ ports.new_object_id n → m ≡ n) where
  -- The new names cover what they covered before, and the name of the new object.
  saved-names :
      (n : ℕ) (name : String) (wanted : String) (s : Objects)
      → has_row (ports.new_object_id n) s ≡ false
      → contains wanted (
          names_of
            (some a)
            (save_object ports.new_element_id
              (new_object (ports.new_object_id n) a.id name pipeline_name)
              s).0)
        ≡ contains wanted (names_of (some a) s) || name == wanted
  saved-names n name wanted s fresh =
      let obj = new_object (ports.new_object_id n) a.id name pipeline_name in
      let s' = (save_object ports.new_element_id obj s).0 in
      let rows : s'.objects ≡ s.objects ++ row_of obj ∷ [] =
        save_object-objects ports.new_element_id obj s ∙ save_row-fresh obj s.objects fresh in
      rw (names_of-rows a s', names_of-rows a s, rows)
        (ground (arith, names_in-append a.id s.objects (row_of obj) wanted, eq_refl a.id))

  -- The uuids from the n-th on are new.
  abbrev Fresh : ℕ → Objects → Type 0
  Fresh n s = (m : ℕ) → n ≤ m → has_row (ports.new_object_id m) s ≡ false

  abbrev Grows : Objects → Objects → Type 0
  Grows s s' =
      (x : String)
      → contains x (names_of (some a) s) ≡ true
      → contains x (names_of (some a) s') ≡ true

  -- The names that the loop knows are those of objects.
  abbrev Known : List String → Objects → Type 0
  Known existing s =
      (x : String) → contains x existing ≡ true → contains x (names_of (some a) s) ≡ true

  other_id : (n m : ℕ) → n + 1 ≤ m → (ports.new_object_id n == ports.new_object_id m) ≡ false
  other_id n m h = elim (Bool-cases (ports.new_object_id n == ports.new_object_id m)) [
    | inr other ↦ other
    | inl same ↦
        let e : ports.new_object_id n ≡ ports.new_object_id m =
          ground (arith, eq_iff (ports.new_object_id n) (ports.new_object_id m)) in
        absurd (omega (arith, distinct n m e))
  ]

  saved-Fresh :
      (n : ℕ) (name : String) (s : Objects)
      → Fresh n s
      → Fresh
          (n + 1)
          (save_object ports.new_element_id
            (new_object (ports.new_object_id n) a.id name pipeline_name)
            s).0
  saved-Fresh n name s fresh m h =
      let later : n ≤ m = omega arith in
      ground (
        arith,
        other_id n m h,
        fresh m later,
        has_row-save_object ports.new_element_id (ports.new_object_id m)
            (new_object (ports.new_object_id n) a.id name pipeline_name) s,
      )

  -- What one round keeps and makes.
  abbrev Added : ℕ → String → Objects → List String × Objects → Type 0
  Added n name s (existing', s') =
      Fresh (n + 1) s'
      × Known existing' s'
      × (contains name (names_of (some a) s') ≡ true)
      × Grows s s'

  add_missing-Added :
      (n : ℕ) (cfg : DestinationObjectConfig) (existing : List String) (s : Objects)
      → Fresh n s
      → Known existing s
      → Added n cfg.object_name s (add_missing ports n (some a) pipeline_name cfg existing s)
  unfolding add_missing
  add_missing-Added n cfg existing s fresh known =
      elim (Bool-cases (contains cfg.object_name existing)) [
        | inl there ↦
            rw there (λ m h. fresh m (omega arith), known, known cfg.object_name there, λ x h. h)
        | inr missing ↦
            let at_new : has_row (ports.new_object_id n) s ≡ false = fresh n (omega arith) in
            rw missing (
              saved-Fresh n cfg.object_name s fresh,
              λ x h. ground (arith, saved-names n cfg.object_name x s at_new, known x),
              ground (
                arith,
                saved-names n cfg.object_name cfg.object_name s at_new,
                eq_refl cfg.object_name,
              ),
              λ x h. ground (arith, saved-names n cfg.object_name x s at_new),
            )
      ]

  provision_objects-IsPlaced :
      (n : ℕ) (dataset : String) (cfgs : List DestinationObjectConfig) (existing : List String)
      (s s' : Objects)
      → Fresh n s
      → Known existing s
      → provision_objects ports n dataset (some a) pipeline_name cfgs existing s ≡ ok s'
      → All (IsPlaced a s') cfgs × Grows s s'
  unfolding provision_objects
  provision_objects-IsPlaced n dataset [] existing s s' fresh known h =
      let same : s ≡ s' = ap (or_else s) h in (tt, λ x k. rw (← same) k)
  provision_objects-IsPlaced n dataset (cfg ∷ cfgs) existing s s' fresh known h =
      elim (Bool-cases (is_truthy cfg.create_if_not_exists)) [
        | inl e ↦
            let next = add_missing ports n (some a) pipeline_name cfg existing s in
            let (later, knows, made, grows) = add_missing-Added n cfg existing s fresh known in
            let (u, _, rest) =
              >>=-eq-ok
                (λ (u : Unit {0}).
                  provision_objects ports (n + 1) dataset (some a) pipeline_name cfgs next.0 next.1)
                (table_ensured ports.dwh_provisioner dataset pipeline_name cfg) (rw e at h) in
            let (placed, grown) =
              provision_objects-IsPlaced (n + 1) dataset cfgs next.0 next.1 s' later knows rest in
            ((rw (e, grown cfg.object_name made) refl, placed), λ x k. grown x (grows x k))
        | inr e ↦
            let (placed, grown) =
              provision_objects-IsPlaced (n + 1) dataset cfgs existing s s'
                (λ m k. fresh m (omega arith)) known (rw e at h) in
            ((rw e refl, placed), grown)
      ]

-- If the provisioning of the destinations in an asset returns, and the new uuids are distinct and
-- not in use, then every destination that is to be created has an object of its name in the asset.
pub provision_destination_objects-IsPlaced :
    (ports : Ports) (a : DataAsset) (dataset pipeline_name : String)
    (cfgs : List DestinationObjectConfig) (s s' : Objects)
    → ((m n : ℕ) → ports.new_object_id m ≡ ports.new_object_id n → m ≡ n)
    → ((m : ℕ) → has_row (ports.new_object_id m) s ≡ false)
    → provision_destination_objects ports dataset (some a) pipeline_name cfgs s ≡ ok s'
    → All (IsPlaced a s') cfgs
unfolding provision_destination_objects
provision_destination_objects-IsPlaced ports a dataset pipeline_name cfgs s s' distinct fresh h =
    let (u, _, made) =
      >>=-eq-ok
        (λ (u : Unit {0}).
          provision_objects ports 0 dataset (some a) pipeline_name cfgs (names_of (some a) s) s)
        (dataset_ensured ports.dwh_provisioner dataset) h in
    (provision_objects-IsPlaced ports a pipeline_name distinct 0 dataset cfgs (names_of (some a) s)
      s s' (λ m k. fresh m) (λ x k. k) made).0
