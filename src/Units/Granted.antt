-- ===== src/Units/Granted.antt =====
-- Capabilities that are granted stay granted.
use Prim.Native.String.{String}
use text.Mathlib.Text.{◌==◌}
use text.Mathlib.TextEquality.{eq_iff}
use mathlib.Core.Path.{subst}
use scout_site.Prelude.{◌≡◌, refl, inl, inr, true, List, [], ◌∷◌, arith, Bool-cases}
use scout_site.Units.{contains_cap, Capabilities, has, grant, grant_all}
use scout_site.Units.Roles.{grant_rows}

has-grant : (c k : String) (caps : Capabilities) → has caps k ≡ true → has (grant c caps) k ≡ true
unfolding has grant
has-grant c k [] h = cc
has-grant c k ((j, held) ∷ rest) h = ground (arith, has-grant c k rest)

has_granted : (k : String) (caps : Capabilities) → has (grant k caps) k ≡ true
unfolding has grant
has_granted k [] = rw ((eq_iff k k).1 refl) refl
has_granted k ((j, held) ∷ rest) = ground (arith, has_granted k rest)

pub has-grant_all :
    (cs : List String) (k : String) (caps : Capabilities)
    → has caps k ≡ true
    → has (grant_all cs caps) k ≡ true
unfolding grant_all
has-grant_all [] k caps h = h
has-grant_all (c ∷ cs) k caps h = has-grant_all cs k (grant c caps) (has-grant c k caps h)

pub has_all_granted :
    (cs : List String) (k : String) (caps : Capabilities)
    → contains_cap cs k ≡ true
    → has (grant_all cs caps) k ≡ true
unfolding grant_all
has_all_granted [] k caps h = cc
has_all_granted (c ∷ cs) k caps h = elim (Bool-cases (c == k)) [
  | inl same ↦
      has-grant_all cs k (grant c caps)
        (subst (λ i. has (grant c caps) i ≡ true) ((eq_iff c k).0 same) (has_granted c caps))
  | inr other ↦ has_all_granted cs k (grant c caps) (rw other at h)
]

pub has-grant_rows :
    (rows : List (List String)) (k : String) (caps : Capabilities)
    → has caps k ≡ true
    → has (grant_rows rows caps) k ≡ true
unfolding grant_rows
has-grant_rows [] k caps h = h
has-grant_rows (granted ∷ rows) k caps h =
    has-grant_rows rows k (grant_all granted caps) (has-grant_all granted k caps h)
