-- ===== src/Assets/Registration.antt =====
-- app/application/assets/register_asset.py: an asset is committed, then announced to the warehouse,
-- the catalog and the notifications, each of which may raise. The calls that were made are the
-- variable of the actions. The constraints of the database are a port. A policy tag, an address and a schedule are checked like in their classes.
use Prim.Native.Char.{code}
use Prim.Native.String
use Prim.Native.String.{String}
use clean_data_platform_airf.Prelude.{
  ℕ, ◌≡◌, refl, Option, none, some, List, [], ◌∷◌, ◌++◌, if◌then◌else◌, eqb, format, arith,
}
use clean_data_platform_airf.Prelude.Dict.{Dict, insert}
use clean_data_platform_airf.Errors.{Result, ok, err, ◌>>=◌}
use clean_data_platform_airf.Persistence.UnitOfWork.{
  Uow, Action, and_then, execute, commit, within, new_uow, require_session, enter, exit,
  rollback_session, commit_session, leave,
}
use clean_data_platform_airf.Extraction.Json.{text}
use clean_data_platform_airf.Discovery.Tags.{PolicyTag, pii, restricted, public, confidential}
use clean_data_platform_airf.Assets.Asset.{DataAsset, draft, value}
use clean_data_platform_airf.Assets.Table.{Table, save}
use clean_data_platform_airf.Registration.Values.{Python, email_address, cron_schedule}
use clean_data_platform_airf.Registration.Members.{member}

-- The arguments of `execute`, with the uuid of the asset and the clock.
pub record Request : Type 0 where
  pub name : String
  pub description : String
  pub owner_email : String
  pub tags : List String
  pub policy_tags : List String
  pub discovery_schedule : String
  pub discovery_scope_include : List String
  pub discovery_scope_exclude : List String
  pub new_id : String
  pub now : ℕ

-- `PolicyTag(t)`
abbrev pub to_policy_tag : Python → String → Result PolicyTag
to_policy_tag py t =
    member "PolicyTag"
      (("PII", pii)
        ∷ ("RESTRICTED", restricted)
        ∷ ("PUBLIC", public)
        ∷ ("CONFIDENTIAL", confidential)
        ∷ [])
      py (text t)

unfoldable pub to_policy_tags : Python → List String → Result (List PolicyTag)
to_policy_tags py [] = ok []
to_policy_tags py (t ∷ ts) = do
  tag ← to_policy_tag py t
  tags ← to_policy_tags py ts
  ok (tag ∷ tags)

-- The `DataAsset(...)` of a request.
unfoldable pub new_asset : Python → Request → Result DataAsset
new_asset py q = do
  owner ← email_address py q.owner_email
  policy_tags ← to_policy_tags py q.policy_tags
  schedule ← cron_schedule py q.discovery_schedule
  ok (record {
    id = q.new_id;
    name = q.name;
    description = q.description;
    owner = owner;
    tags = q.tags;
    policy_tags = policy_tags;
    state = draft;
    discovery_schedule = schedule;
    discovery_scope = record {
      include = q.discovery_scope_include;
      exclude = q.discovery_scope_exclude;
    };
    endpoint_id = none;
    updated_at = q.now;
  })

-- A call of a port.
pub data Call : Type 0 where
  ensured_dataset : (dataset_id description : String) (labels : Dict String) → Call
  published_asset : (asset_id name state : String) → Call
  sent_alert : (channel title message level : String) → Call

-- What the ports answer; the warehouse is optional. `flush` is whether the database takes the table:
-- the unique names and the lengths of the columns are its own.
pub record Ports : Type 0 where
  pub flush : Table → Result (Unit {0})
  pub dwh_provisioner : Option (Call → Result (Unit {0}))
  pub catalog : Call → Result (Unit {0})
  pub notifications : Call → Result (Unit {0})

-- `owner.replace("@", "_at_")`
unfoldable pub owner_label : String → String
owner_label String.[] = String.[]
owner_label (String.◌∷◌ c s) =
    let rest = owner_label s in
    if eqb (code c) 64 then String.◌++◌ "_at_" rest else String.◌∷◌ c rest

-- `for tag in saved.tags: labels[tag] = "true"`
unfoldable pub add_tags : List String → Dict String → Dict String
add_tags [] labels = labels
add_tags (tag ∷ tags) labels = add_tags tags (insert tag "true" labels)

unfoldable pub labels_of : DataAsset → Dict String
labels_of a =
    add_tags a.tags (("managed_by", "clean_data_platform") ∷ ("owner", owner_label a.owner) ∷ [])

abbrev pub Calls : Type 0
Calls = List Call

-- A call, with the rest if it does not raise.
abbrev pub answered :
    Calls → Result (Unit {0}) → (Calls → Calls × Result DataAsset) → Calls × Result DataAsset
answered calls (err e) next = (calls, err e)
answered calls (ok done) next = next calls

abbrev pub calling :
    (Call → Result (Unit {0}))
    → Call
    → Calls
    → (Calls → Calls × Result DataAsset)
    → Calls × Result DataAsset
calling port call calls next = answered (calls ++ call ∷ []) (port call) next

abbrev pub calling_if :
    Option (Call → Result (Unit {0}))
    → Call
    → Calls
    → (Calls → Calls × Result DataAsset)
    → Calls × Result DataAsset
calling_if none call calls next = next calls
calling_if (some port) call calls next = calling port call calls next

abbrev pub published : DataAsset → Call
published a = published_asset a.id a.name (value a.state)

abbrev pub alerted : DataAsset → Call
alerted a =
    sent_alert "#data-platform" "New Data Asset Registered"
      (format ("Asset " ∷ a.name ∷ " was registered in " ∷ value a.state ∷ " state." ∷ [])) "info"

-- `execute` after its transaction
unfoldable pub announce : Ports → DataAsset → Calls → Calls × Result DataAsset
announce ports a calls =
    calling_if ports.dwh_provisioner (ensured_dataset a.name a.description (labels_of a)) calls
      λ made.
        calling ports.catalog (published a) made
          λ made'. calling ports.notifications (alerted a) made' λ all. (all, ok a)

abbrev pub Step : Type 0 → Type 0
Step A = Action Table Calls A

-- `save` flushes the added row.
abbrev pub body : Ports → DataAsset → Step DataAsset
body ports a =
    and_then (execute λ t. (ports.flush (save a t) >>= λ _. ok (save a t, a))) λ saved. commit saved

abbrev pub announced :
    Ports → (Uow Table × Calls) × Result DataAsset → (Uow Table × Calls) × Result DataAsset
announced ports ((u, calls), err e) = ((u, calls), err e)
announced ports ((u, calls), ok a) = let (made, r) = announce ports a calls in ((u, made), r)

abbrev pub registered : Ports → Result DataAsset → Step DataAsset
registered ports (err e) s = (s, err e)
registered ports (ok a) s = announced ports (within (body ports a) s)

-- `execute`
unfoldable pub register_asset : Python → Ports → Request → Step DataAsset
register_asset py ports q s = registered ports (new_asset py q) s

-- The same, by what the database says of the table with the new row.
abbrev pub decided :
    Ports → Table → Calls → DataAsset → Result (Unit {0}) → (Uow Table × Calls) × Result DataAsset
decided ports t calls a (err e) = ((new_uow t, calls), err e)
decided ports t calls a (ok taken) =
    let (made, r) = announce ports a calls in ((new_uow (t ++ a ∷ []), made), r)

-- What a registration leaves and answers, without transactions.
abbrev pub outcome :
    Ports → Table → Calls → Result DataAsset → (Uow Table × Calls) × Result DataAsset
outcome ports t calls (err e) = ((new_uow t, calls), err e)
outcome ports t calls (ok a) = decided ports t calls a (ports.flush (t ++ a ∷ []))

registered-outcome :
    (ports : Ports) (t : Table) (calls : Calls) (r : Result DataAsset)
    → registered ports r (new_uow t, calls) ≡ outcome ports t calls r
unfolding within execute commit commit_session require_session leave enter exit rollback_session
    save
registered-outcome ports t calls (err e) = refl
registered-outcome ports t calls (ok a) = ground arith

pub register_asset-outcome :
    (py : Python) (ports : Ports) (q : Request) (t : Table) (calls : Calls)
    → register_asset py ports q (new_uow t, calls) ≡ outcome ports t calls (new_asset py q)
unfolding register_asset
register_asset-outcome py ports q t calls = registered-outcome ports t calls (new_asset py q)
