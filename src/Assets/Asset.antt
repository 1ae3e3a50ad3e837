-- ===== src/Assets/Asset.antt =====
-- app/domain/assets/asset_state.py and data_asset.py. Methods that raise do so before they write.
-- Schedules and the owner's address are texts that their value objects have accepted.
use clean_data_platform_airf.Prelude.{
  ℕ, String, Bool, true, false, not, ◌||◌, Option, none, some, List, [], ◌∷◌, format, if◌then◌else◌,
  strip, is_text,
}
use clean_data_platform_airf.Errors.{
  Result, ok, err, value_error, invalid_state_transition, or_else,
}
use clean_data_platform_airf.Discovery.Tags.{PolicyTag}

pub data AssetState : Type 0 where
  draft active deprecated archived : AssetState

-- `VALID_TRANSITIONS`
unfoldable pub valid_transitions : AssetState → List AssetState
valid_transitions draft = active ∷ []
valid_transitions active = deprecated ∷ []
valid_transitions deprecated = archived ∷ []
valid_transitions archived = []

abbrev pub same_state : AssetState → AssetState → Bool
same_state draft draft = true
same_state active active = true
same_state deprecated deprecated = true
same_state archived archived = true
same_state _ _ = false

-- `target in states`
abbrev pub is_among : AssetState → List AssetState → Bool
is_among target [] = false
is_among target (s ∷ rest) = same_state s target || is_among target rest

-- `state.value`
abbrev pub value : AssetState → String
value draft = "draft"
value active = "active"
value deprecated = "deprecated"
value archived = "archived"

-- `sorted(VALID_TRANSITIONS[current])`, as a list is shown.
abbrev pub allowed_text : AssetState → String
allowed_text draft = "[<AssetState.ACTIVE: 'active'>]"
allowed_text active = "[<AssetState.DEPRECATED: 'deprecated'>]"
allowed_text deprecated = "[<AssetState.ARCHIVED: 'archived'>]"
allowed_text archived = "[]"

pub record DiscoveryScope : Type 0 where
  pub include : List String
  pub exclude : List String

pub record DataAsset : Type 0 where
  pub id : String
  pub name : String
  pub description : String
  pub owner : String
  pub tags : List String
  pub policy_tags : List PolicyTag
  pub state : AssetState
  pub discovery_schedule : String
  pub discovery_scope : DiscoveryScope
  pub endpoint_id : Option String
  pub updated_at : ℕ

-- `_assert_valid_transition`, then `after`.
unfoldable pub assert_valid_transition : AssetState → DataAsset → DataAsset → Result DataAsset
unfolding valid_transitions
assert_valid_transition target a after =
    if not (is_among target (valid_transitions a.state))
    then err (
        invalid_state_transition (
          format (
            "Cannot transition from '"
            ∷ value a.state
            ∷ "' to '"
            ∷ value target
            ∷ "'. Allowed targets from '"
            ∷ value a.state
            ∷ "': "
            ∷ allowed_text a.state
            ∷ [])))
    else ok after

unfoldable pub activate : String → ℕ → DataAsset → Result DataAsset
unfolding assert_valid_transition
activate endpoint_id touched a =
    if not (is_text endpoint_id) || not (is_text (strip endpoint_id))
    then err (
        value_error
          (format ("endpoint_id cannot be empty for activation on asset '" ∷ a.name ∷ "'" ∷ [])))
    else assert_valid_transition active a
        (record a { endpoint_id = some (strip endpoint_id); state = active; updated_at = touched })

unfoldable pub deprecate : ℕ → DataAsset → Result DataAsset
unfolding assert_valid_transition
deprecate touched a =
    assert_valid_transition deprecated a (record a { state = deprecated; updated_at = touched })

unfoldable pub archive : ℕ → DataAsset → Result DataAsset
unfolding assert_valid_transition
archive touched a =
    assert_valid_transition archived a (record a { state = archived; updated_at = touched })

unfoldable pub update_scope : DiscoveryScope → ℕ → DataAsset → DataAsset
update_scope scope touched a = record a { discovery_scope = scope; updated_at = touched }

unfoldable pub update_schedule : String → ℕ → DataAsset → DataAsset
update_schedule schedule touched a = record a {
  discovery_schedule = schedule;
  updated_at = touched;
}

abbrev pub or_old {ℓ} : {A : Type ℓ} → A → Option A → A
or_old old none = old
or_old old (some new) = new

unfoldable pub update_metadata :
    Option String
    → Option String
    → Option (List String)
    → Option (List PolicyTag)
    → ℕ
    → DataAsset
    → DataAsset
update_metadata description owner tags policy_tags touched a = record a {
  description = or_old a.description description;
  owner = or_old a.owner owner;
  tags = or_old a.tags tags;
  policy_tags = or_old a.policy_tags policy_tags;
  updated_at = touched;
}

-- A call of one of the methods.
pub data Call : Type 0 where
  call_activate : String → ℕ → Call
  call_deprecate call_archive : ℕ → Call
  call_update_scope : DiscoveryScope → ℕ → Call
  call_update_schedule : String → ℕ → Call
  call_update_metadata :
      Option String → Option String → Option (List String) → Option (List PolicyTag) → ℕ → Call

unfoldable pub apply_call : Call → DataAsset → Result DataAsset
unfolding activate deprecate archive update_scope update_schedule update_metadata
apply_call (call_activate endpoint_id touched) a = activate endpoint_id touched a
apply_call (call_deprecate touched) a = deprecate touched a
apply_call (call_archive touched) a = archive touched a
apply_call (call_update_scope scope touched) a = ok (update_scope scope touched a)
apply_call (call_update_schedule schedule touched) a = ok (update_schedule schedule touched a)
apply_call (call_update_metadata description owner tags policy_tags touched) a =
    ok (update_metadata description owner tags policy_tags touched a)

-- Calls in turn; one that raises leaves the asset as it was.
unfoldable pub run_calls : List Call → DataAsset → DataAsset
run_calls [] a = a
run_calls (c ∷ rest) a = run_calls rest (or_else a (apply_call c a))
