-- ===== src/Ledger/Reports/Parts.antt =====
-- Income and expense as the two parts of a sum over postings, and their bounds.
use scout_site.Prelude.{
  ℕ, ◌+◌, ◌≤◌, ◌<◌, ◌^◌, ◌≡◌, refl, ap, inl, inr, Bool, true, List, [], ◌∷◌, arith, Bool-cases,
}
use scout_site.Prelude.Int.{
  ℤ, pos, pos_part, neg_part, ◌+ℤ◌, ◌-ℤ◌, Fits, fits, int_laws, eq_of_parts, +ℤ_parts, -ℤ_parts,
}
use scout_site.Store.Rows.{PostingRow}
use scout_site.Store.Sums.{sum_where}
use scout_site.Ledger.Reports.{sum_of, income_part, expense_part}

-- All that was ever moved, whichever the direction.
unfoldable pub turnover : List PostingRow → ℕ
turnover [] = 0
turnover (p ∷ ps) = pos_part p.amount_cents + neg_part p.amount_cents + turnover ps

add_parts : (a s i e : ℤ) → s +ℤ i ≡ e → (a +ℤ s) +ℤ (income_part a +ℤ i) ≡ expense_part a +ℤ e
add_parts a s i e h = grind (int_laws, h)

-- The two parts of a sum.
pub sum_of-parts :
    (q : PostingRow → Bool) (ps : List PostingRow)
    → sum_where q ps +ℤ sum_of income_part q ps ≡ sum_of expense_part q ps
unfolding sum_where sum_of
sum_of-parts q [] = omega int_laws
sum_of-parts q (p ∷ ps) = elim (Bool-cases (q p)) [
  | inl e ↦ rw e (add_parts p.amount_cents _ _ _ (sum_of-parts q ps))
  | inr e ↦ rw e (sum_of-parts q ps)
]

-- A sum without a sign, of at most so much.
abbrev pub Bounded : ℤ → ℕ → Type 0
Bounded a n = (neg_part a ≡ 0) × (pos_part a ≤ n)

abbrev pub BoundedBy : (ℤ → ℤ) → Type 0
BoundedBy f = (a : ℤ) → Bounded (f a) (pos_part a + neg_part a)

pub income_part-Bounded : BoundedBy income_part
unfolding ◌-ℤ◌
income_part-Bounded a = ground arith

pub expense_part-Bounded : BoundedBy expense_part
expense_part-Bounded a = ground arith

+ℤ-Bounded : (a b : ℤ) (n m : ℕ) → Bounded a n → Bounded b m → Bounded (a +ℤ b) (n + m)
unfolding ◌+ℤ◌
+ℤ-Bounded a b n m (h, k) (i, j) = ground arith

pub sum_of-Bounded :
    (f : ℤ → ℤ)
    → BoundedBy f
    → (q : PostingRow → Bool) (ps : List PostingRow) → Bounded (sum_of f q ps) (turnover ps)
unfolding sum_of turnover
sum_of-Bounded f h q [] = (refl, omega arith)
sum_of-Bounded f h q (p ∷ ps) = elim (Bool-cases (q p)) [
  | inl e ↦ rw e (+ℤ-Bounded _ _ _ _ (h p.amount_cents) (sum_of-Bounded f h q ps))
  | inr e ↦ let (n, k) = sum_of-Bounded f h q ps in rw e (n, omega (arith, k))
]

pub sum_of-fits :
    (f : ℤ → ℤ)
    → BoundedBy f
    → (q : PostingRow → Bool) (ps : List PostingRow) → turnover ps < 2 ^ 63
    → fits (sum_of f q ps) ≡ true
sum_of-fits f h q ps lt = let (n, k) = sum_of-Bounded f h q ps in ground arith

pub -ℤ-Fits : (a b : ℤ) (n : ℕ) → Bounded a n → Bounded b n → n < 2 ^ 63 → Fits (a -ℤ b)
unfolding ◌-ℤ◌
-ℤ-Fits a b n (h, k) (i, j) lt = ground arith

pub net_of_parts : (own ext i e : ℤ) → own +ℤ ext ≡ pos 0 → ext +ℤ i ≡ e → i -ℤ e ≡ own
net_of_parts own ext i e h k = eq_of_parts (i -ℤ e) own (
    omega (
      arith,
      +ℤ_parts own ext,
      +ℤ_parts ext i,
      -ℤ_parts i e,
      ap pos_part h,
      ap neg_part h,
      ap pos_part k,
      ap neg_part k,
    ))
