-- ===== src/Units/Roles.antt =====
-- From the roles a member or a family holds to capabilities: internal/units/units.go, and
-- internal/roster/privilege.go for the capabilities across units.
use Prim.Native.String.{String}
use scout_site.Prelude.{
  ℕ, Bool, true, false, ◌&&◌, ◌||◌, Option, none, some, List, [], ◌∷◌, ◌++◌, any, if◌then◌else◌,
  map, select,
}
use scout_site.Store.Rows.{Member, RoleAssignment, CustomRole, Db}
use scout_site.Store.Sql.{ok, M, pure, ◌>>=◌, query}
use scout_site.Units.{
  Capabilities, has, grant_all, is_builtin, cap_manage_ledger, contains_cap, grant,
}
use scout_site.Units.Overrides.{system_role_overrides, granted_by}

-- The overrides, loaded at the first built-in role.
abbrev pub load_overrides :
    ℕ → Option (List (String × List String)) → M (List (String × List String))
load_overrides unit none = system_role_overrides unit
load_overrides unit (some overrides) = pure overrides

-- The loop over the roles: the capabilities of the built-in ones, and the slugs of the others.
unfoldable pub resolve_roles :
    ℕ
    → List String
    → Option (List (String × List String))
    → Capabilities
    → List String
    → M (Capabilities × List String)
resolve_roles unit [] loaded caps custom = pure (caps, custom)
resolve_roles unit (role ∷ roles) loaded caps custom = elim (is_builtin role) [
  | true ↦ load_overrides unit loaded >>= λ overrides.
      resolve_roles unit roles (some overrides) (grant_all (granted_by overrides role) caps) custom
  | false ↦ resolve_roles unit roles loaded caps (custom ++ role ∷ [])
]

-- The rows of `SELECT capabilities FROM custom_roles WHERE unit_id = $1 AND slug = ANY($2)`
unfoldable pub custom_capabilities : ℕ → List String → List CustomRole → List (List String)
custom_capabilities unit slugs [] = []
custom_capabilities unit slugs (c ∷ cs) =
    let rest = custom_capabilities unit slugs cs in
    if scout_site.Prelude.◌==◌ c.unit_id unit && contains_cap slugs c.slug
    then c.capabilities ∷ rest
    else rest

unfoldable pub grant_rows : List (List String) → Capabilities → Capabilities
grant_rows [] caps = caps
grant_rows (granted ∷ rows) caps = grant_rows rows (grant_all granted caps)

abbrev pub with_custom : ℕ → Capabilities → List String → M Capabilities
with_custom unit caps [] = pure caps
with_custom unit caps (s ∷ ss) = do
  rows ← query (λ d. ok (custom_capabilities unit (s ∷ ss) d.custom_roles))
  pure (grant_rows rows caps)

unfoldable pub capabilities_for_roles : ℕ → List String → M Capabilities
capabilities_for_roles unit roles = do
  resolved ← resolve_roles unit roles none [] []
  with_custom unit resolved.0 resolved.1

abbrev role_capabilities : ℕ → String → M Capabilities
role_capabilities unit role = capabilities_for_roles unit (role ∷ [])

abbrev is_active : ℕ → List Member → Bool
is_active member = any (λ (m : Member). scout_site.Prelude.◌==◌ m.id member && m.active)

of_family : ℕ → ℕ → List Member → Bool
of_family family member = any (λ (m : Member).
    scout_site.Prelude.◌==◌ m.id member && scout_site.Prelude.◌==◌ m.family_id family)

unfoldable roles_for_member_in_unit : ℕ → ℕ → M (List String)
roles_for_member_in_unit member unit = query (λ d. ok (
    map (λ (r : RoleAssignment). r.role)
      (select
        (λ (r : RoleAssignment).
          scout_site.Prelude.◌==◌ r.member_id member
          && scout_site.Prelude.◌==◌ r.unit_id unit
          && is_active r.member_id d.members)
        d.role_assignments)))

-- SELECT DISTINCT
unfoldable distinct : List String → List String
distinct [] = []
distinct (s ∷ ss) = let rest = distinct ss in if contains_cap rest s then rest else s ∷ rest

unfoldable roles_for_family_in_unit : ℕ → ℕ → M (List String)
unfolding of_family
roles_for_family_in_unit family unit = query (λ d. ok (
    distinct (
      map (λ (r : RoleAssignment). r.role)
        (select
          (λ (r : RoleAssignment).
            any
              (λ (m : Member).
                scout_site.Prelude.◌==◌ m.id r.member_id
                && scout_site.Prelude.◌==◌ m.family_id family
                && m.active)
              d.members
            && scout_site.Prelude.◌==◌ r.unit_id unit)
          d.role_assignments))))

-- The map from units to roles, grown by one row.
unfoldable add_role : ℕ → String → List (ℕ × List String) → List (ℕ × List String)
add_role unit role [] = (unit, role ∷ []) ∷ []
add_role unit role ((u, roles) ∷ rest) =
    let later = add_role unit role rest in
    if scout_site.Prelude.◌==◌ u unit then (u, roles ++ role ∷ []) ∷ rest else (u, roles) ∷ later

unfoldable group_roles : List RoleAssignment → List (ℕ × List String) → List (ℕ × List String)
group_roles [] by_unit = by_unit
group_roles (r ∷ rs) by_unit = group_roles rs (add_role r.unit_id r.role by_unit)

-- rolesByUnitFor, of whose query only the choice of the assignments differs.
unfoldable roles_by_unit_for : (Db → RoleAssignment → Bool) → M (List (ℕ × List String))
roles_by_unit_for chosen = query (λ d. ok (group_roles (select (chosen d) d.role_assignments) []))

unfoldable any_unit_has_capability : List (ℕ × List String) → String → M Bool
any_unit_has_capability [] capability = pure false
any_unit_has_capability ((unit, roles) ∷ rest) capability = do
  caps ← capabilities_for_roles unit roles
  if has caps capability then pure true else any_unit_has_capability rest capability

abbrev of_member : ℕ → Db → RoleAssignment → Bool
of_member member d r = scout_site.Prelude.◌==◌ r.member_id member

abbrev in_family : ℕ → Db → RoleAssignment → Bool
in_family family d r = of_family family r.member_id d.members

unfoldable family_has_any_treasury_role : ℕ → M Bool
family_has_any_treasury_role family = do
  by_unit ← roles_by_unit_for (in_family family)
  any_unit_has_capability by_unit cap_manage_ledger

unfoldable member_has_any_treasury_role : ℕ → M Bool
member_has_any_treasury_role member = do
  by_unit ← roles_by_unit_for (of_member member)
  any_unit_has_capability by_unit cap_manage_ledger

-- `for c, ok := range caps { if ok { held[c] = true } }`
unfoldable merge : Capabilities → Capabilities → Capabilities
merge [] held = held
merge ((c, is_held) ∷ rest) held = if is_held then merge rest (grant c held) else merge rest held

unfoldable union_of_units : List (ℕ × List String) → Capabilities → M Capabilities
union_of_units [] held = pure held
union_of_units ((unit, roles) ∷ rest) held = do
  caps ← capabilities_for_roles unit roles
  union_of_units rest (merge caps held)

unfoldable capabilities_across_units : (Db → RoleAssignment → Bool) → M Capabilities
capabilities_across_units chosen = do by_unit ← roles_by_unit_for chosen; union_of_units by_unit []

unfoldable member_capabilities_across_units : ℕ → M Capabilities
member_capabilities_across_units member = capabilities_across_units (of_member member)

unfoldable family_capabilities_across_units : ℕ → M Capabilities
family_capabilities_across_units family = capabilities_across_units (in_family family)
