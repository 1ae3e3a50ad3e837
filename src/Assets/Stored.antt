-- ===== src/Assets/Stored.antt =====
-- activate_asset.py and update_asset.py: what the committed tables hold afterwards.
use clean_data_platform_airf.Prelude.{
  ℕ, ◌+◌, ◌≡◌, refl, String, Bool, true, false, Option, none, some, List, [], ◌∷◌, ◌++◌, ◌==◌,
  length, length-append, format, if◌then◌else◌, arith, eq_iff, eq_refl, strip, inl, inr,
  Option-cases, sym, ◌∙◌,
}
use clean_data_platform_airf.Errors.{ok, ◌>>=◌, >>=-eq-ok}
use clean_data_platform_airf.Discovery.Tags.{PolicyTag}
use clean_data_platform_airf.Assets.Asset.{
  DataAsset, AssetState, draft, active, activate, update_metadata, value,
}
use clean_data_platform_airf.Assets.Table.{
  Table, find_by_id, write, updated_row, fetch_and_write, update, update_state, update_endpoint,
}
use clean_data_platform_airf.Assets.UseCases.{
  Database, Done, assign_endpoint, publish_asset, send_alert, activate_asset, update_asset,
}

-- The row of an id after a write to the row of an id.
abbrev changed_at : Bool → (DataAsset → DataAsset) → Option DataAsset → Option DataAsset
changed_at false f o = o
changed_at true f none = none
changed_at true f (some row) = some (f row)

find_by_id-write :
    (i j : String) (f : DataAsset → DataAsset) (rows : Table)
    → ((row : DataAsset) → (f row).id ≡ row.id)
    → find_by_id j (write i f rows) ≡ changed_at (i == j) f (find_by_id j rows)
unfolding find_by_id write
find_by_id-write i j f [] h = ground arith
find_by_id-write i j f (row ∷ rows) h =
    ground
      (arith, eq_iff row.id i, eq_iff row.id j, eq_iff i j, h row, find_by_id-write i j f rows h)

find_by_id-id :
    (i : String) (rows : Table) (row : DataAsset) → find_by_id i rows ≡ some row → row.id ≡ i
unfolding find_by_id
find_by_id-id i [] row h = ground arith
find_by_id-id i (r ∷ rows) row h = ground (arith, eq_iff r.id i, find_by_id-id i rows row)

fetch_and_write-eq :
    (i : String) (f : DataAsset → DataAsset) (rows : Table) (row : DataAsset)
    → find_by_id i rows ≡ some row
    → fetch_and_write i f rows ≡ ok (write i f rows, f row)
unfolding fetch_and_write
fetch_and_write-eq i f rows row h = ground arith

-- The two writes of `activate_asset`.
abbrev with_endpoint : String → DataAsset → DataAsset
with_endpoint endpoint row = record row { endpoint_id = some endpoint }

abbrev with_state : DataAsset → DataAsset
with_state row = record row { state = active }

abbrev twice_written : String → String → Table → Table
twice_written i endpoint rows = write i with_state (write i (with_endpoint endpoint) rows)

find_by_id-twice :
    (i j endpoint : String) (rows : Table)
    → find_by_id j (twice_written i endpoint rows)
      ≡ changed_at (i == j) (λ row. with_state (with_endpoint endpoint row)) (find_by_id j rows)
find_by_id-twice i j endpoint rows = ground (
  arith,
  find_by_id-write i j with_state (write i (with_endpoint endpoint) rows) (λ row. refl),
  find_by_id-write i j (with_endpoint endpoint) rows (λ row. refl),
)

-- What `activate_asset` does once it has found the row.
abbrev activated : String → String → Database → DataAsset → Done
activated i endpoint db asset = record {
  database = record {
    assets = twice_written i endpoint db.assets;
    audit_logs =
        db.audit_logs
        ++ record {
          event_type = "asset.activated";
          entity_id = asset.id;
          description = format ("Asset " ∷ asset.name ∷ " activated" ∷ []);
        }
          ∷ [];
  };
  sent =
      publish_asset asset.id asset.name (value asset.state) (some endpoint)
      ∷ send_alert "Data Asset Activated" (format ("Asset " ∷ asset.name ∷ " is now ACTIVE." ∷ []))
      ∷ [];
  asset = asset;
}

activate_asset-found :
    (i endpoint : String) (touched : ℕ) (db : Database) (row : DataAsset)
    → find_by_id i db.assets ≡ some row
    → activate_asset i endpoint touched db
      ≡ (activate endpoint touched row >>= λ asset. ok (activated i endpoint db asset))
unfolding activate_asset update_endpoint update_state
activate_asset-found i endpoint touched db row h =
    let h' : find_by_id i (write i (with_endpoint endpoint) db.assets)
        ≡ some (with_endpoint endpoint row) =
      ground
        (arith, eq_refl i, find_by_id-write i i (with_endpoint endpoint) db.assets λ r. refl) in
    rw (
      h,
      fetch_and_write-eq i (with_endpoint endpoint) db.assets row h,
      fetch_and_write-eq i with_state (write i (with_endpoint endpoint) db.assets)
          (with_endpoint endpoint row) h',
    )

activate-eq-ok :
    (endpoint : String) (touched : ℕ) (row asset : DataAsset)
    → activate endpoint touched row ≡ ok asset
    → (row.state ≡ draft)
      × (asset ≡ record row {
        endpoint_id = some (strip endpoint);
        state = active;
        updated_at = touched;
      })
unfolding activate
activate-eq-ok endpoint touched row asset h = (ground arith, ground arith)

not_missing :
    (i endpoint : String) (touched : ℕ) (db : Database) (d : Done)
    → find_by_id i db.assets ≡ none
    → activate_asset i endpoint touched db ≡ ok d
    → ⊥
unfolding activate_asset
not_missing i endpoint touched db d missing h = ground arith

-- If `activate_asset` returns, then the asset was a draft; its row is active with the endpoint as
-- the caller gave it and every other row is as it was; the asset that is returned has the endpoint
-- without its surrounding blanks; and one audit entry is new.
pub activate_asset_stored :
    (i j endpoint : String) (touched : ℕ) (db : Database) (d : Done)
    → activate_asset i endpoint touched db ≡ ok d
    → (row : DataAsset) × (find_by_id i db.assets ≡ some row)
      × (row.state ≡ draft)
      × (find_by_id j d.database.assets ≡ (
          if i == j
          then some (record row { endpoint_id = some endpoint; state = active })
          else find_by_id j db.assets))
      × (d.asset ≡ record row {
        endpoint_id = some (strip endpoint);
        state = active;
        updated_at = touched;
      })
      × (length d.database.audit_logs ≡ length db.audit_logs + 1)
activate_asset_stored i j endpoint touched db d h = elim (Option-cases (find_by_id i db.assets)) [
  | inl missing ↦ absurd (not_missing i endpoint touched db d missing h)
  | inr (row, found) ↦
      let (asset, done, same) =
        >>=-eq-ok _ (activate endpoint touched row)
          (sym (activate_asset-found i endpoint touched db row found) ∙ h) in
      let (drafted, fields) = activate-eq-ok endpoint touched row asset done in
      let stored : activated i endpoint db asset ≡ d = cc same in
      (
        row,
        found,
        drafted,
        rw (← stored) (ground (arith, find_by_id-twice i j endpoint db.assets, eq_iff i j)),
        rw (← stored) fields,
        rw (← stored) (length-append db.audit_logs _),
      )
]

-- The state that is stored under an id.
abbrev pub state_at : Option DataAsset → Option AssetState
state_at none = none
state_at (some row) = some row.state

state_at-updated :
    (i j : String) (asset : DataAsset) (rows : Table)
    → state_at (find_by_id j (write i (updated_row asset) rows)) ≡ state_at (find_by_id j rows)
state_at-updated i j asset rows =
    ground (arith, find_by_id-write i j (updated_row asset) rows λ row. refl)

-- If `update_asset` returns, no row has another state than before, whichever row it wrote.
update_asset_keeps_states :
    (i j : String) (description : Option String) (tags : Option (List String))
    (policy_tags : Option (List PolicyTag)) (endpoint : Option String) (touched : ℕ) (db : Database)
    (d : Done)
    → update_asset i description tags policy_tags endpoint touched db ≡ ok d
    → state_at (find_by_id j d.database.assets) ≡ state_at (find_by_id j db.assets)
unfolding update_asset update fetch_and_write
update_asset_keeps_states i j description tags policy_tags endpoint touched db d h =
    elim (Option-cases (find_by_id i db.assets)) [
      | inl missing ↦ ground arith
      | inr (found, here) ↦
          let changed = update_metadata description none tags policy_tags touched found in
          let asset = assign_endpoint endpoint changed in
          ground (arith, state_at-updated asset.id j asset db.assets)
    ]
