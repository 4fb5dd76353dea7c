-- ===== src/Units/Overrides.antt =====
-- What a unit has the built-in roles grant in place of the defaults,
-- internal/units/system_roles.go.
use Prim.Native.String.{String}
use text.Mathlib.Text.{◌==◌}
use scout_site.Prelude.{
  some, ℕ, Bool, true, false, not, ◌&&◌, Option, none, List, [], ◌∷◌, if◌then◌else◌, map, select,
  any, ◌++◌,
}
use scout_site.Store.Rows.{RoleOverride, Db}
use scout_site.Store.Sql.{
  not_a_builtin_role, cannot_disarm_super_admin, Result, ok, M, pure, raise, ◌>>=◌, ◌>>◌, query,
  exec, audit_log,
}
use scout_site.Units.{
  cap_super_admin, contains_cap, default_capabilities, is_builtin, filter_capabilities,
  sort_strings, system_role_order, is_known_system_role, same_capability_set,
  system_role_capabilities, entry_or,
}

abbrev pub for_unit : ℕ → List RoleOverride → List (String × List String)
for_unit unit [] = []
for_unit unit (o ∷ os) =
    let rest = for_unit unit os in
    if scout_site.Prelude.◌==◌ o.unit_id unit then (o.role_slug, o.capabilities) ∷ rest else rest

unfoldable pub system_role_overrides : ℕ → M (List (String × List String))
system_role_overrides unit = query (λ d. ok (for_unit unit d.role_capability_overrides))

abbrev is_override : ℕ → String → RoleOverride → Bool
is_override unit slug o = scout_site.Prelude.◌==◌ o.unit_id unit && o.role_slug == slug

-- The other rows. The table has one row to a unit and role.
abbrev pub others : ℕ → String → List RoleOverride → List RoleOverride
others unit slug = select (λ o. not (is_override unit slug o))

-- `DELETE FROM role_capability_overrides WHERE unit_id = $1 AND role_slug = $2`
unfoldable pub delete_override : ℕ → String → ℕ → Db → Result (Unit {0}) × Db
delete_override unit slug now d =
    (ok tt, record d { role_capability_overrides = others unit slug d.role_capability_overrides })

-- `INSERT INTO role_capability_overrides ... ON CONFLICT (unit_id, role_slug) DO UPDATE`
unfoldable pub upsert_override : ℕ → String → List String → ℕ → Db → Result (Unit {0}) × Db
upsert_override unit slug granted now d =
    let row : RoleOverride = record { unit_id = unit; role_slug = slug; capabilities = granted } in
    (
      ok tt,
      record d { role_capability_overrides = row ∷ others unit slug d.role_capability_overrides },
    )

abbrev log_role_change : ℕ → ℕ → String → M (Unit {0})
log_role_change unit actor action = audit_log (record {
  entity_type = "system_role";
  entity_id = unit;
  actor_id = some actor;
  action = action;
  approval_request_id = none;
})

-- The two ways SetSystemRoleCapabilities ends, once its guards have passed.
unfoldable pub store_override : ℕ → String → List String → ℕ → M (Unit {0})
store_override unit slug granted actor =
    if same_capability_set granted (default_capabilities slug)
    then exec (delete_override unit slug) >> log_role_change unit actor "reset"
    else exec (upsert_override unit slug granted) >> log_role_change unit actor "update"

unfoldable pub set_system_role_capabilities : ℕ → String → List String → ℕ → M (Unit {0})
set_system_role_capabilities unit slug capabilities actor =
    let granted = filter_capabilities capabilities in
    if not (is_builtin slug)
    then raise not_a_builtin_role
    else (if slug == "super_admin" && not (contains_cap granted cap_super_admin)
        then raise cannot_disarm_super_admin
        else store_override unit slug granted actor)

-- A built-in role as a unit has it. Labels and unit types are for display.
pub record SystemRole : Type 0 where
  pub slug : String
  default : List String
  pub capabilities : List String
  overridden : Bool

abbrev override_of : String → List (String × List String) → Option (List String)
override_of slug [] = none
override_of slug ((k, granted) ∷ rest) =
    let later = override_of slug rest in if k == slug then Option.some granted else later

-- What a built-in role grants in a unit with these overrides.
unfoldable pub granted_by : List (String × List String) → String → List String
unfolding entry_or
granted_by overrides slug = entry_or (default_capabilities slug) slug overrides

-- SystemRolesForUnit
abbrev shown : List (String × List String) → String → SystemRole
shown overrides slug = record {
  slug = slug;
  default = sort_strings (default_capabilities slug);
  capabilities = sort_strings (granted_by overrides slug);
  overridden = any (λ o. o.0 == slug) overrides;
}

unfoldable system_roles_for_unit : ℕ → M (List SystemRole)
system_roles_for_unit unit = do
  overrides ← system_role_overrides unit
  pure (map (shown overrides) system_role_order)

unfoldable roles_granting : String → (String → List String) → List String → List String
roles_granting capability granted [] = []
roles_granting capability granted (slug ∷ slugs) =
    let rest = roles_granting capability granted slugs in
    if contains_cap (granted slug) capability then slug ∷ rest else rest

abbrev default_slugs : List String
default_slugs = map (λ e. e.0) system_role_capabilities

-- The overridden slugs of the second loop, those without a default.
abbrev without_default : List (String × List String) → List String
without_default overrides =
    select (λ s. not (contains_cap default_slugs s) && is_known_system_role s)
      (map (λ o. o.0) overrides)

unfoldable system_roles_with_capability_for_unit : ℕ → String → M (List String)
system_roles_with_capability_for_unit unit capability = do
  overrides ← system_role_overrides unit
  pure (
      sort_strings (
        roles_granting capability (granted_by overrides) default_slugs
        ++ roles_granting capability (granted_by overrides) (without_default overrides)))

unfoldable system_roles_with_capability : String → List String
system_roles_with_capability capability =
    sort_strings (roles_granting capability default_capabilities default_slugs)
