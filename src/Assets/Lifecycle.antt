-- ===== src/Assets/Lifecycle.antt =====
-- data_asset.py: the lifecycle, over any calls of the entity's own methods. The use cases also write
-- the endpoint's column past the entity, which is not looked at here.
use clean_data_platform_airf.Prelude.{
  ℕ, ◌+◌, ◌≡◌, String, true, Option, none, some, arith, strip, is_text,
}
use clean_data_platform_airf.Errors.{ok}
use clean_data_platform_airf.Assets.Asset.{
  AssetState, draft, active, deprecated, archived, DataAsset, Call, call_activate, call_deprecate,
  call_archive, call_update_scope, call_update_schedule, call_update_metadata, apply_call,
}

-- How far an asset has come.
abbrev pub rank : AssetState → ℕ
rank draft = 0
rank active = 1
rank deprecated = 2
rank archived = 3

-- Which stage a call leads to, if it leads to one at all.
abbrev pub stage : Call → Option ℕ
stage (call_activate endpoint_id touched) = some 1
stage (call_deprecate touched) = some 2
stage (call_archive touched) = some 3
stage _ = none

abbrev pub StepsTo : ℕ → Option ℕ → ℕ → Type 0
StepsTo r none r' = r' ≡ r
StepsTo r (some n) r' = (r' ≡ n) × (r + 1 ≡ n)

-- A lifecycle call that returns takes the asset to its stage, from the stage directly before it, and
-- any other call leaves the stage alone; so an asset goes through DRAFT, ACTIVE, DEPRECATED and
-- ARCHIVED in this order and skips none.
apply_call-stage :
    (c : Call) (a a' : DataAsset)
    → apply_call c a ≡ ok a'
    → StepsTo (rank a.state) (stage c) (rank a'.state)
unfolding apply_call
apply_call-stage (call_activate endpoint_id touched) a a' h = (ground arith, ground arith)
apply_call-stage (call_deprecate touched) a a' h = (ground arith, ground arith)
apply_call-stage (call_archive touched) a a' h = (ground arith, ground arith)
apply_call-stage (call_update_scope scope touched) a a' h = ground arith
apply_call-stage (call_update_schedule schedule touched) a a' h = ground arith
apply_call-stage (call_update_metadata d o t p touched) a a' h = ground arith

-- An endpoint that is there and is not blank at either end.
abbrev pub IsProvisioned : Option String → Type 0
IsProvisioned none = ⊥
IsProvisioned (some e) = (is_text e ≡ true) × (strip e ≡ e)

abbrev pub IsServed : AssetState → Option String → Type 0
IsServed draft e = Unit
IsServed _ e = IsProvisioned e
