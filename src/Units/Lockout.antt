-- ===== src/Units/Lockout.antt =====
-- The role of the Site Administrator keeps its capability, whatever a unit makes of its roles.
use Prim.Native.String.{String}
use text.Mathlib.Text.{◌==◌}
use text.Mathlib.TextEquality.{eq_iff}
use mathlib.Core.Path.{subst}
use scout_site.Prelude.{
  ℕ, ◌≡◌, refl, sym, ap, inl, inr, Bool, true, false, not, ◌&&◌, ◌||◌, Option, none, some, List, [],
  ◌∷◌, ◌++◌, arith, if◌then◌else◌, Bool-cases, select, All, any,
}
use scout_site.Store.Rows.{RoleOverride, Db}
use scout_site.Store.Sql.{cannot_disarm_super_admin, not_a_builtin_role}
use scout_site.Store.Triple.{Keeps, Triple-raise}
use scout_site.Store.Keeps.{Statement, Stable, keeps_rules}
use scout_site.Units.{
  cap_super_admin, contains_cap, is_builtin, entry_or, default_capabilities, filter_capabilities,
  same_capability_set,
}
use scout_site.Units.Overrides.{
  for_unit, delete_override, upsert_override, store_override, set_system_role_capabilities,
  granted_by,
}

abbrev KeepsRight : String → List String → Type 0
KeepsRight slug granted =
    (slug == "super_admin") ≡ true → contains_cap granted cap_super_admin ≡ true

abbrev pub IsArmed : Db → Type 0
IsArmed d =
    All (λ (o : RoleOverride). KeepsRight o.role_slug o.capabilities) d.role_capability_overrides

module _ {ℓ} {A : Type ℓ} where
  All-select : (P : A → Type 0) (p : A → Bool) (xs : List A) → All P xs → All P (select p xs)
  All-select P p [] h = tt
  All-select P p (x ∷ xs) (here, later) = elim (Bool-cases (p x)) [
    | inl e ↦ rw e (here, All-select P p xs later)
    | inr e ↦ rw e (All-select P p xs later)
  ]

IsArmed-Stable : Stable IsArmed
IsArmed-Stable = record { commit = λ d h. h; entry = λ e d h. h }

delete_override-IsArmed : (unit : ℕ) (slug : String) → Statement IsArmed (delete_override unit slug)
unfolding delete_override
delete_override-IsArmed unit slug = record {
  at = λ now d d' u h e.
      subst IsArmed (ap (λ y. y.1) e) (All-select _ _ d.role_capability_overrides h);
}

upsert_override-IsArmed :
    (unit : ℕ) (slug : String) (granted : List String)
    → KeepsRight slug granted
    → Statement IsArmed (upsert_override unit slug granted)
unfolding upsert_override
upsert_override-IsArmed unit slug granted k = record {
  at = λ now d d' u h e.
      subst IsArmed (ap (λ y. y.1) e) (k, All-select _ _ d.role_capability_overrides h);
}

store_override-IsArmed :
    (unit : ℕ) (slug : String) (granted : List String) (actor : ℕ)
    → KeepsRight slug granted
    → Keeps IsArmed (store_override unit slug granted actor)
unfolding store_override
store_override-IsArmed unit slug granted actor k =
    elim (Bool-cases (same_capability_set granted (default_capabilities slug))) [
      | inl same ↦ rw same (search (keeps_rules, IsArmed-Stable, delete_override-IsArmed))
      | inr other ↦
          rw other
            (search (keeps_rules, IsArmed-Stable, upsert_override-IsArmed unit slug granted k))
    ]

pub set_system_role_capabilities-IsArmed :
    (unit : ℕ) (slug : String) (capabilities : List String) (actor : ℕ)
    → Keeps IsArmed (set_system_role_capabilities unit slug capabilities actor)
unfolding set_system_role_capabilities
set_system_role_capabilities-IsArmed unit slug capabilities actor =
    elim (Bool-cases (not (is_builtin slug))) [
      | inl unknown ↦ rw unknown (Triple-raise not_a_builtin_role (λ d h. h))
      | inr known ↦
          rw known
            (elim (Bool-cases (
              slug == "super_admin"
              && not (contains_cap (filter_capabilities capabilities) cap_super_admin))) [
                | inl disarmed ↦ rw disarmed (Triple-raise cannot_disarm_super_admin (λ d h. h))
                | inr passed ↦ rw passed (
                    store_override-IsArmed unit slug (filter_capabilities capabilities) actor
                      (λ admin. guard admin passed))
              ])
    ]
  where
    guard :
        (slug == "super_admin") ≡ true
        → (slug == "super_admin"
            && not (contains_cap (filter_capabilities capabilities) cap_super_admin))
          ≡ false
        → contains_cap (filter_capabilities capabilities) cap_super_admin ≡ true
    guard admin passed = ground arith

-- Overrides of a unit under which the role keeps its right.
abbrev pub Sound : List (String × List String) → Type 0
Sound = All (λ o. KeepsRight o.0 o.1)

pub for_unit-Sound :
    (unit : ℕ) (os : List RoleOverride)
    → All (λ (o : RoleOverride). KeepsRight o.role_slug o.capabilities) os
    → Sound (for_unit unit os)
for_unit-Sound unit [] h = tt
for_unit-Sound unit (o ∷ os) (here, later) =
    elim (Bool-cases (scout_site.Prelude.◌==◌ o.unit_id unit)) [
      | inl e ↦ rw e (here, for_unit-Sound unit os later)
      | inr e ↦ rw e (for_unit-Sound unit os later)
    ]

entry_or-KeepsRight :
    (missing : List String) (overrides : List (String × List String)) (slug : String)
    → KeepsRight slug missing
    → Sound overrides
    → KeepsRight slug (entry_or missing slug overrides)
unfolding entry_or
entry_or-KeepsRight missing [] slug k h = k
entry_or-KeepsRight missing ((j, granted) ∷ rest) slug k (here, later) =
    elim (Bool-cases (j == slug)) [
      | inl same ↦ rw same (subst (λ i. KeepsRight i granted) ((eq_iff j slug).0 same) here)
      | inr other ↦ rw other (entry_or-KeepsRight missing rest slug k later)
    ]

pub granted_by-right :
    (overrides : List (String × List String)) (slug : String)
    → Sound overrides
    → KeepsRight slug (granted_by overrides slug)
unfolding granted_by entry_or
granted_by-right overrides slug h =
    entry_or-KeepsRight (default_capabilities slug) overrides slug
      (λ e.
        subst (λ s. contains_cap (default_capabilities s) cap_super_admin ≡ true)
          (sym ((eq_iff slug "super_admin").0 e)) default_right)
      h
  where
    default_right : contains_cap (default_capabilities "super_admin") cap_super_admin ≡ true
    default_right = refl
