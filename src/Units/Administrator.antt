-- ===== src/Units/Administrator.antt =====
-- Whoever is assigned the role of the Site Administrator is one.
use Prim.Native.String.{String}
use text.Mathlib.Text.{◌==◌}
use text.Mathlib.TextEquality.{eq_iff}
use mathlib.Core.Path.{subst}
use scout_site.Prelude.{
  refl, ap, ℕ, ◌≡◌, sym, inl, inr, Bool, true, false, ◌||◌, Option, none, some, List, [], ◌∷◌, ◌++◌,
  arith, Bool-cases, All,
}
use scout_site.Store.Rows.{Db}
use scout_site.Store.Sql.{Result, ok, err, ok-injective, World}
use scout_site.Store.Triple.{Triple, Outcome, Triple-pure, Triple-bind, Triple-query, Triple-weaken}
use scout_site.Units.{cap_super_admin, contains_cap, Capabilities, has, grant_all, is_builtin}
use scout_site.Units.Overrides.{system_role_overrides, set_system_role_capabilities, granted_by}
use scout_site.Units.Roles.{load_overrides, resolve_roles, with_custom, capabilities_for_roles}
use scout_site.Store.Calm.{calm}
use scout_site.Units.Returns.{capabilities_for_roles-calm}
use scout_site.Units.Lockout.{
  IsArmed, set_system_role_capabilities-IsArmed, Sound, for_unit-Sound, granted_by-right,
}
use scout_site.Units.Granted.{has-grant_all, has_all_granted, has-grant_rows}

abbrev SoundOption : Option (List (String × List String)) → Type 0
SoundOption none = Unit
SoundOption (some overrides) = Sound overrides

load_overrides-Sound :
    (unit : ℕ) (loaded : Option (List (String × List String)))
    → SoundOption loaded
    → Triple IsArmed
        (load_overrides unit loaded)
        (λ overrides d. Sound overrides × IsArmed d)
        IsArmed
unfolding system_role_overrides
load_overrides-Sound unit none s =
    Triple-query _
      (λ d overrides armed e.
        (subst Sound (ok-injective _ _ e) (for_unit-Sound unit _ armed), armed))
      (λ d h. h)
load_overrides-Sound unit (some overrides) s = Triple-pure overrides (λ d h. (s, h))

-- The role is still to come, or has granted its capability.
resolve_roles-has :
    (unit : ℕ) (roles : List String) (loaded : Option (List (String × List String)))
    (caps : Capabilities) (custom : List String)
    → SoundOption loaded
    → (contains_cap roles "super_admin" || has caps cap_super_admin) ≡ true
    → Triple IsArmed
        (resolve_roles unit roles loaded caps custom)
        (λ r d. has r.0 cap_super_admin ≡ true)
        (λ _. Unit)
unfolding resolve_roles
resolve_roles-has unit [] loaded caps custom s h = Triple-pure _ (λ d armed. h)
resolve_roles-has unit (role ∷ roles) loaded caps custom s h = elim (Bool-cases (is_builtin role)) [
  | inl known ↦
      rw (known, resolve_roles)
        (Triple-bind {R = λ overrides d. Sound overrides × IsArmed d} _ _
          (Triple-weaken (λ d p. p) (λ a d q. q) (λ d q. tt) (load_overrides-Sound unit loaded s))
          (λ overrides. record {
            at = λ w q.
                (resolve_roles-has unit roles (some overrides) _ custom q.0 (next overrides q.0)).at
                  w q.1;
          }))
  | inr unknown ↦
      rw (unknown, resolve_roles)
        (resolve_roles-has unit roles loaded caps (custom ++ role ∷ []) s (elsewhere unknown))
]
  where
    next :
        (overrides : List (String × List String))
        → Sound overrides
        → (contains_cap roles "super_admin"
            || has (grant_all (granted_by overrides role) caps) cap_super_admin)
          ≡ true
    next overrides sound = elim (Bool-cases (role == "super_admin")) [
      | inl admin ↦ ground (
        arith,
        has_all_granted (granted_by overrides role) cap_super_admin caps
            (granted_by-right overrides role sound admin),
      )
      | inr other ↦ elim (Bool-cases (has caps cap_super_admin)) [
        | inl held ↦
            ground (arith, has-grant_all (granted_by overrides role) cap_super_admin caps held)
        | inr open_still ↦ ground arith
      ]
    ]

    elsewhere :
        is_builtin role ≡ false
        → (contains_cap roles "super_admin" || has caps cap_super_admin) ≡ true
    elsewhere unknown = elim (Bool-cases (role == "super_admin")) [
      | inl admin ↦
          absurd
            (cc (subst (λ r. is_builtin r ≡ false) ((eq_iff role "super_admin").0 admin) unknown))
      | inr other ↦ ground arith
    ]

with_custom-has :
    (unit : ℕ) (caps : Capabilities) (custom : List String)
    → has caps cap_super_admin ≡ true
    → Triple
        (λ _. Unit)
        (with_custom unit caps custom)
        (λ r d. has r cap_super_admin ≡ true)
        (λ _. Unit)
with_custom-has unit caps [] h = Triple-pure caps (λ d u. h)
with_custom-has unit caps (s ∷ ss) h =
    Triple-bind {R = λ _ _. Unit} _ _ (Triple-query _ (λ d rows u e. tt) (λ d u. tt))
      (λ rows. Triple-pure _ (λ d u. has-grant_rows rows cap_super_admin caps h))

capabilities_for_roles-has :
    (unit : ℕ) (roles : List String)
    → contains_cap roles "super_admin" ≡ true
    → Triple IsArmed
        (capabilities_for_roles unit roles)
        (λ r d. has r cap_super_admin ≡ true)
        (λ _. Unit)
unfolding capabilities_for_roles
capabilities_for_roles-has unit roles h =
    Triple-bind {R = λ r d. has r.0 cap_super_admin ≡ true} _ _
      (resolve_roles-has unit roles none [] [] tt (ground arith))
      (λ r. record { at = λ w q. (with_custom-has unit r.0 r.1 q).at w tt })

-- A call of SetSystemRoleCapabilities, when it comes, and which of its statements fail.
pub record Setting : Type 0 where
  pub unit : ℕ
  pub slug : String
  pub capabilities : List String
  pub actor : ℕ
  pub now : ℕ
  pub faults : List Bool

pub apply_settings : List Setting → Db → Db
apply_settings [] d = d
apply_settings (s ∷ ss) d =
    apply_settings ss
      (set_system_role_capabilities s.unit s.slug s.capabilities s.actor
        (record { db = d; faults = s.faults; now = s.now })).1.db

apply_settings-IsArmed : (ss : List Setting) (d : Db) → IsArmed d → IsArmed (apply_settings ss d)
unfolding apply_settings
apply_settings-IsArmed [] d h = h
apply_settings-IsArmed (s ∷ ss) d h = apply_settings-IsArmed ss _ (
    outcome _ _ (
      (set_system_role_capabilities-IsArmed s.unit s.slug s.capabilities s.actor).at
        (record { db = d; faults = s.faults; now = s.now }) h))
  where
    outcome :
        (r : Result (Unit {0})) (d' : Db) → Outcome (λ _ x. IsArmed x) IsArmed r d' → IsArmed d'
    outcome (ok a) d' k = k
    outcome (err e) d' k = k

abbrev Resolves : Result Capabilities → Type 0
Resolves (ok caps) = has caps cap_super_admin ≡ true
Resolves (err e) = Unit

-- Whatever the resolution returns has the capability.
settled_right :
    (ss : List Setting) (d : Db) (unit : ℕ) (roles : List String) (w : World)
    → w.db ≡ apply_settings ss d
    → d.role_capability_overrides ≡ []
    → contains_cap roles "super_admin" ≡ true
    → Resolves (capabilities_for_roles unit roles w).0
settled_right ss d unit roles w same none_yet h =
    outcome _ (capabilities_for_roles unit roles w).1.db (
      (capabilities_for_roles-has unit roles h).at w
        (subst IsArmed (sym same) (apply_settings-IsArmed ss d (subst (All _) (sym none_yet) tt))))
  where
    outcome :
        (r : Result Capabilities) (d' : Db)
        → Outcome (λ caps x. has caps cap_super_admin ≡ true) (λ _. Unit) r d'
        → Resolves r
    outcome (ok caps) d' k = k
    outcome (err e) d' k = k

-- From a database without overrides, after any settings of what built-in roles grant, whichever of
-- their statements fail, roles among which is super_admin resolve in every unit, where no statement
-- of the resolution fails, to capabilities that have super_admin.
pub super_admin_stays :
    (ss : List Setting) (d : Db) (unit : ℕ) (roles : List String) (now : ℕ)
    → d.role_capability_overrides ≡ []
    → contains_cap roles "super_admin" ≡ true
    → (caps : Capabilities) × ((capabilities_for_roles unit roles
          (calm now (apply_settings ss d))).0
        ≡ ok caps)
      × (has caps cap_super_admin ≡ true)
super_admin_stays ss d unit roles now none_yet h =
    let (caps, e) = capabilities_for_roles-calm unit now (apply_settings ss d) roles in
    (
      caps,
      ap (λ y. y.0) e,
      subst Resolves (ap (λ y. y.0) e)
          (settled_right ss d unit roles (calm now (apply_settings ss d)) refl none_yet h),
    )
