-- ===== src/Units/Returns.antt =====
-- Roles resolve where no statement fails.
use Prim.Native.String.{String}
use scout_site.Prelude.{refl, ℕ, ◌≡◌, inl, inr, Option, none, some, List, [], ◌∷◌, ◌++◌, Bool-cases}
use scout_site.Store.Rows.{Db}
use scout_site.Store.Sql.{ok}
use scout_site.Units.{Capabilities, grant_all, is_builtin}
use scout_site.Units.Overrides.{system_role_overrides, granted_by}
use scout_site.Units.Roles.{load_overrides, resolve_roles, with_custom, capabilities_for_roles}
use scout_site.Store.Calm.{calm, query-calm, bind-calm}
use scout_site.Store.Sql.{pure}

module _ (unit now : ℕ) (d : Db) where
  load_overrides-calm :
      (loaded : Option (List (String × List String)))
      → (o : List (String × List String)) × (load_overrides unit loaded (calm now d)
          ≡ (ok o, calm now d))
  unfolding system_role_overrides pure
  load_overrides-calm none = (_, query-calm now _ _ d refl)
  load_overrides-calm (some o) = (o, refl)

  resolve_roles-calm :
      (roles : List String) (loaded : Option (List (String × List String))) (caps : Capabilities)
      (custom : List String)
      → (out : Capabilities × List String) × (resolve_roles unit roles loaded caps custom
            (calm now d)
          ≡ (ok out, calm now d))
  unfolding resolve_roles pure
  resolve_roles-calm [] loaded caps custom = ((caps, custom), refl)
  resolve_roles-calm (role ∷ roles) loaded caps custom = elim (Bool-cases (is_builtin role)) [
    | inl known ↦
        let (o, loads) = load_overrides-calm loaded in
        let (out, rest) =
          resolve_roles-calm roles (some o) (grant_all (granted_by o role) caps) custom in
        (out, rw (known, resolve_roles) (bind-calm now _ _ o d d _ loads rest))
    | inr unknown ↦
        let (out, rest) = resolve_roles-calm roles loaded caps (custom ++ role ∷ []) in
        (out, rw (unknown, resolve_roles) rest)
  ]

  with_custom-calm :
      (caps : Capabilities) (custom : List String)
      → (out : Capabilities) × (with_custom unit caps custom (calm now d) ≡ (ok out, calm now d))
  unfolding pure
  with_custom-calm caps [] = (caps, refl)
  with_custom-calm caps (s ∷ ss) = (_, bind-calm now _ _ _ d d _ (query-calm now _ _ d refl) refl)

  pub capabilities_for_roles-calm :
      (roles : List String)
      → (out : Capabilities) × (capabilities_for_roles unit roles (calm now d)
          ≡ (ok out, calm now d))
  unfolding capabilities_for_roles
  capabilities_for_roles-calm roles =
      let (resolved, first) = resolve_roles-calm roles none [] [] in
      let (out, then_custom) = with_custom-calm resolved.0 resolved.1 in
      (out, bind-calm now _ _ resolved d d _ first then_custom)
