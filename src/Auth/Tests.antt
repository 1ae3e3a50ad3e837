-- ===== src/Auth/Tests.antt =====
-- The permission cache's theorem at two roles.
use clean_data_platform_airf.Prelude.{ℕ, ltb, if◌then◌else◌, String, some, List, [], ◌∷◌}
use clean_data_platform_airf.Auth.Permissions.{
  Use, asked, invalidated, new_resolver, use_all, get_permissions, key, IsFresh,
  get_permissions-IsFresh,
}

-- A database that grants a permission from the time 5 on.
abbrev granted : ℕ → List String → List String
granted now roles = if ltb now 5 then [] else "write" ∷ []

abbrev as_given : List String → List String
as_given roles = roles

abbrev roles : List String
roles = "admin" ∷ "sre" ∷ []

abbrev uses : List (Use as_given granted)
uses = asked 1 roles ∷ invalidated (some roles) ∷ asked 2 roles ∷ []

get_permissions-IsFresh_example :
    IsFresh as_given granted 6 10
      (key as_given granted roles)
      (get_permissions as_given granted 6 roles (use_all as_given granted uses (new_resolver 10))).1
get_permissions-IsFresh_example = get_permissions-IsFresh as_given granted uses 10 6 roles
