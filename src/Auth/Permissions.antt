-- ===== src/Auth/Permissions.antt =====
-- app/auth/permission_resolver.py: permissions by roles, from a cache with a time to live. The
-- database is a function of the time at which it is asked, and `sort` is Python's `sorted`.
use clean_data_platform_airf.Prelude.{
  ℕ, ◌+◌, ◌<◌, ◌≡◌, refl, ◌∙◌, ◌⊎◌, inl, inr, String, Option, none, some, List, [], ◌∷◌, ◌==◌,
  if◌then◌else◌, ltb, format, arith, eq_iff, Bool-cases, Option-cases,
}
use clean_data_platform_airf.Prelude.Dict.{Dict, lookup, insert, lookup-insert}

pub record Resolver : Type 0 where
  pub ttl : ℕ
  pub cache : Dict (List String × ℕ)
  pub cache_hits : ℕ

abbrev pub new_resolver : ℕ → Resolver
new_resolver ttl = record { ttl = ttl; cache = []; cache_hits = 0 }

-- `",".join(roles)`
unfoldable pub join : List String → String
join [] = ""
join (r ∷ []) = r
join (r ∷ s ∷ rest) = format (r ∷ "," ∷ join (s ∷ rest) ∷ [])

-- `d.pop(k, None)`
unfoldable pub pop {ℓ} : {V : Type ℓ} → String → Dict V → Dict V
pop k [] = []
pop k ((j, v) ∷ d) = let rest = pop k d in if j == k then rest else (j, v) ∷ rest

lookup-pop {ℓ} :
    {V : Type ℓ} (k j : String) (d : Dict V)
    → lookup j (pop k d) ≡ (if k == j then none else lookup j d)
unfolding lookup pop
lookup-pop k j [] = ground arith
lookup-pop k j ((i, v) ∷ d) = ground (arith, lookup-pop k j d, eq_iff i k, eq_iff i j, eq_iff k j)

module _ (sort : List String → List String) (database : ℕ → List String → List String) where
  abbrev pub key : List String → String
  key roles = join (sort roles)

  -- The lookup in the cache: the permissions under the key if they are younger than the ttl.
  abbrev pub cached : ℕ → ℕ → Option (List String × ℕ) → Option (List String)
  cached now ttl none = none
  cached now ttl (some (permissions, at)) = if ltb now (at + ttl) then some permissions else none

  -- `get_permissions_for_roles`
  unfoldable pub get_permissions : ℕ → List String → Resolver → Resolver × List String
  get_permissions now roles r = elim (cached now r.ttl (lookup (key roles) r.cache)) [
    | some permissions ↦ (record r { cache_hits = r.cache_hits + 1 }, permissions)
    | none ↦
        let permissions = database now roles in
        (record r { cache = insert (key roles) (permissions, now) r.cache }, permissions)
  ]

  -- `invalidate_cache`
  unfoldable pub invalidate : Option (List String) → Resolver → Resolver
  unfolding pop
  invalidate none r = record r { cache = [] }
  invalidate (some roles) r = record r { cache = pop (key roles) r.cache }

  pub data Use : Type 0 where
    asked : ℕ → List String → Use
    invalidated : Option (List String) → Use

  unfoldable pub use_all : List Use → Resolver → Resolver
  unfolding get_permissions invalidate
  use_all [] r = r
  use_all (asked now roles ∷ rest) r = use_all rest (get_permissions now roles r).0
  use_all (invalidated roles ∷ rest) r = use_all rest (invalidate roles r)

  -- The answer of the database at the time `at`, to roles with the key `k`.
  abbrev pub Answered : String → List String → ℕ → Type 0
  Answered k permissions at =
      (roles : List String) × (key roles ≡ k) × (permissions ≡ database at roles)

  abbrev IsFaithful : Resolver → Type 0
  IsFaithful r =
      (k : String) (permissions : List String) (at : ℕ)
      → lookup k r.cache ≡ some (permissions, at)
      → Answered k permissions at

  get_permissions-IsFaithful :
      (now : ℕ) (roles : List String) (r : Resolver)
      → IsFaithful r
      → IsFaithful (get_permissions now roles r).0
  unfolding get_permissions
  get_permissions-IsFaithful now roles r h k permissions at found =
      let stored = lookup-insert (key roles) k (database now roles, now) r.cache in
      elim (Option-cases (cached now r.ttl (lookup (key roles) r.cache))) [
        | inr (p, hit) ↦ h k permissions at (ground arith)
        | inl miss ↦ elim (Bool-cases (key roles == k)) [
          | inr other ↦ h k permissions at (ground (arith, stored))
          | inl same ↦
              let asked_now : at ≡ now = ground (arith, stored) in
              let answer : permissions ≡ database now roles = ground (arith, stored) in
              (roles, (eq_iff (key roles) k).0 same, rw asked_now answer)
        ]
      ]

  invalidate-IsFaithful :
      (roles : Option (List String)) (r : Resolver) → IsFaithful r → IsFaithful (invalidate roles r)
  unfolding invalidate lookup
  invalidate-IsFaithful none r h k permissions at found = ground arith
  invalidate-IsFaithful (some roles) r h k permissions at found =
      h k permissions at (ground (arith, lookup-pop (key roles) k r.cache))

  use_all-IsFaithful : (uses : List Use) (r : Resolver) → IsFaithful r → IsFaithful (use_all uses r)
  unfolding use_all
  use_all-IsFaithful [] r h = h
  use_all-IsFaithful (asked now roles ∷ rest) r h =
      use_all-IsFaithful rest _ (get_permissions-IsFaithful now roles r h)
  use_all-IsFaithful (invalidated roles ∷ rest) r h =
      use_all-IsFaithful rest _ (invalidate-IsFaithful roles r h)

  kept_ttl :
      (now : ℕ) (roles : List String) (r : Resolver) → (get_permissions now roles r).0.ttl ≡ r.ttl
  unfolding get_permissions
  kept_ttl now roles r = ground arith

  use_all-ttl : (uses : List Use) (r : Resolver) → (use_all uses r).ttl ≡ r.ttl
  unfolding use_all get_permissions invalidate
  use_all-ttl [] r = refl
  use_all-ttl (asked now roles ∷ rest) r = use_all-ttl rest _ ∙ kept_ttl now roles r
  use_all-ttl (invalidated none ∷ rest) r = use_all-ttl rest _
  use_all-ttl (invalidated (some roles) ∷ rest) r = use_all-ttl rest _

  new-IsFaithful : (ttl : ℕ) → IsFaithful (new_resolver ttl)
  unfolding lookup
  new-IsFaithful ttl k permissions at found = ground arith

  abbrev pub IsFresh : ℕ → ℕ → String → List String → Type 0
  IsFresh now ttl k permissions =
      (at : ℕ) × Answered k permissions at × ((at ≡ now) ⊎ (now < at + ttl))

  asked_now :
      (now : ℕ) (roles : List String) (r : Resolver)
      → (get_permissions now roles r).1 ≡ database now roles
      → IsFresh now r.ttl (key roles) (get_permissions now roles r).1
  asked_now now roles r e = (now, (roles, refl, e), inl refl)

  get_permissions_from :
      (now : ℕ) (roles : List String) (r : Resolver)
      → IsFaithful r
      → IsFresh now r.ttl (key roles) (get_permissions now roles r).1
  unfolding get_permissions
  get_permissions_from now roles r h = elim (Option-cases (lookup (key roles) r.cache)) [
    | inl missing ↦ asked_now now roles r (ground arith)
    | inr ((p, at), found) ↦ elim (Bool-cases (ltb now (at + r.ttl))) [
      | inr old ↦ asked_now now roles r (ground arith)
      | inl young ↦
          let (asked_roles, same, answer) = h (key roles) p at found in
          let hit : (get_permissions now roles r).1 ≡ p = ground arith in
          (at, (asked_roles, same, hit ∙ answer), inr (ground arith))
    ]
  ]

  -- However a new resolver was used before, its answer is the answer that the database gave to
  -- roles with the same key at some time `at`: now, or so that now is before `at` plus the time to
  -- live.
  pub get_permissions-IsFresh :
      (uses : List Use) (ttl now : ℕ) (roles : List String)
      → IsFresh now ttl (key roles) (get_permissions now roles (use_all uses (new_resolver ttl))).1
  unfolding use_all
  get_permissions-IsFresh uses ttl now roles =
      let r = use_all uses (new_resolver ttl) in
      let faithful = use_all-IsFaithful uses (new_resolver ttl) (new-IsFaithful ttl) in
      let fresh = get_permissions_from now roles r faithful in
      rw (use_all-ttl uses (new_resolver ttl)) at fresh
