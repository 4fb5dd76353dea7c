-- ===== src/Units/Ceiling.antt =====
-- The ceiling on what may be granted: what Covers in internal/units/units.go accepts.
use mathlib.Core.Path.{subst}
use Prim.Native.String.{String}
use text.Mathlib.Text.{◌==◌}
use text.Mathlib.TextEquality.{eq_iff}
use scout_site.Prelude.{
  ◌≡◌, ◌↔◌, ◌⊎◌, refl, sym, inl, inr, Bool, true, false, not, ◌&&◌, ◌||◌, [], ◌∷◌, Bool-cases,
  &&-true,
}
use scout_site.Units.{
  cap_edit_content, cap_submit_for_approval, cap_super_admin, Capabilities, has, covers_each,
  covers,
}

-- Whether a set speaks of a capability, held or not.
abbrev pub names : Capabilities → String → Bool
names [] k = false
names ((j, held) ∷ rest) k = (j == k) || names rest k

-- What it takes to cover one capability.
abbrev covered : Capabilities → String → Bool
covered c k = has c k || (k == cap_submit_for_approval && has c cap_edit_content)

covers_each-has :
    (a b : Capabilities) (k : String) → covers_each a b ≡ true → has b k ≡ true → covered a k ≡ true
unfolding covers_each has
covers_each-has a [] k h e = cc
covers_each-has a ((j, held) ∷ rest) k h e = elim (Bool-cases (j == k)) [
  | inl same ↦
      let here : (not held || covered a j) ≡ true = (&&-true _ (covers_each a rest) h).0 in
      let is_held : held ≡ true = rw same at e in
      subst (λ i. covered a i ≡ true) ((eq_iff j k).0 same) (rw is_held at here)
  | inr other ↦ covers_each-has a rest k (&&-true (not held || covered a j) _ h).1 (rw other at e)
]

-- A key of a map stands in it once.
abbrev pub IsMap : Capabilities → Type 0
IsMap [] = Unit
IsMap ((k, held) ∷ rest) = (names rest k ≡ false) × IsMap rest

has-named : (caps : Capabilities) (k : String) → has caps k ≡ true → names caps k ≡ true
unfolding has
has-named [] k h = cc
has-named ((j, held) ∷ rest) k h = elim (Bool-cases (j == k)) [
  | inl same ↦ rw same refl
  | inr other ↦ rw other (has-named rest k (rw other at h))
]

-- What holds of every capability that a map has is checked of each of its entries.
covered-each :
    (a b : Capabilities)
    → IsMap b
    → ((k : String) → has b k ≡ true → covered a k ≡ true)
    → covers_each a b ≡ true
unfolding covers_each has
covered-each a [] m h = refl
covered-each a ((j, held) ∷ rest) (fresh, m) h =
    both (entry held (λ e. h j (rw ((eq_iff j j).1 refl, e) refl)))
      (covered-each a rest m (λ k e. h k (later k e)))
  where
    both : {x y : Bool} → x ≡ true → y ≡ true → (x && y) ≡ true
    both e f = rw (e, f) refl

    entry : (x : Bool) → (x ≡ true → covered a j ≡ true) → (not x || covered a j) ≡ true
    entry true e = e refl
    entry false e = refl

    later : (k : String) → has rest k ≡ true → has ((j, held) ∷ rest) k ≡ true
    later k e = elim (Bool-cases (j == k)) [
      | inl same ↦ absurd (
          cc (
            fresh,
            subst (λ i. names rest i ≡ true) (sym ((eq_iff j k).0 same)) (has-named rest k e),
          ))
      | inr other ↦ rw other e
    ]

-- Let the second set be a map, which has each key once. The first set covers it exactly if the first
-- has super_admin, or for each capability that the second has it has that too, or has edit_content
-- where the capability is submit_for_approval.
pub covers_iff :
    (a b : Capabilities)
    → IsMap b
    → (covers a b ≡ true) ↔ (
        (has a cap_super_admin ≡ true)
        ⊎ ((k : String)
            → has b k ≡ true
            → (has a k || (k == cap_submit_for_approval && has a cap_edit_content)) ≡ true))
unfolding covers
covers_iff a b m = (forth, back)
  where
    forth :
        covers a b ≡ true
        → (has a cap_super_admin ≡ true) ⊎ ((k : String) → has b k ≡ true → covered a k ≡ true)
    forth h = elim (Bool-cases (has a cap_super_admin)) [
      | inl top ↦ inl top
      | inr low ↦ inr (λ k e. covers_each-has a b k (rw low at h) e)
    ]

    back :
        (has a cap_super_admin ≡ true) ⊎ ((k : String) → has b k ≡ true → covered a k ≡ true)
        → covers a b ≡ true
    back (inl top) = rw top refl
    back (inr each) = elim (Bool-cases (has a cap_super_admin)) [
      | inl top ↦ rw top refl
      | inr low ↦ rw low (covered-each a b m each)
    ]
