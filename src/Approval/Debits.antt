-- ===== src/Approval/Debits.antt =====
-- The debits of a transaction, and what its approval does to the balances.
use mathlib.Core.Path.{subst}
use scout_site.Prelude.{
  ℕ, ◌≡◌, refl, sym, ap, ◌∙◌, inl, inr, Bool, true, false, ◌&&◌, ◌||◌, List, [], ◌∷◌, arith, ◌==◌,
  if◌then◌else◌, any, All, Bool-cases, ||-other, ==_iff,
}
use scout_site.Prelude.Int.{
  ℤ, pos, negsuc, pos_part, neg_part, ◌+ℤ◌, ◌≤ℤ◌, ltb_ℤ, fits, add64, int_laws,
}
use scout_site.Store.Rows.{Transaction, posted, PostingRow, Db}
use scout_site.Store.Sums.{sum_where, counts, balance}
use scout_site.Store.Sql.{ok, ok-injective, Result-cases}
use scout_site.Approval.{
  set_status, is_debit, insert_key, debited_accounts, debit_sum, group_debits,
}

abbrev pub key : ℕ → List ℕ → Bool
key a = any (λ j. j == a)

key-insert_key : (a k : ℕ) (js : List ℕ) → key a (insert_key k js) ≡ (k == a || key a js)
unfolding insert_key
key-insert_key a k [] = refl
key-insert_key a k (j ∷ js) = ground (arith, key-insert_key a k js)

-- An account that is not among those debited has no debits.
debit_sum-none :
    (t a : ℕ) (ps : List PostingRow)
    → key a (debited_accounts t ps) ≡ false
    → debit_sum t a ps ≡ pos 0
unfolding debited_accounts sum_where
debit_sum-none t a [] h = refl
debit_sum-none t a (p ∷ ps) h = elim (Bool-cases (is_debit t p)) [
  | inl debit ↦
      let e : (p.account_id == a || key a (debited_accounts t ps)) ≡ false =
        sym (key-insert_key a p.account_id (debited_accounts t ps)) ∙ rw debit at h in
      rw debit (ground (arith, debit_sum-none t a ps))
  | inr other ↦ rw other (debit_sum-none t a ps (rw other at h))
]

-- What a row adds to the balance after the approval is at least what it added, with its debit.
row_grows :
    (own was now debit : Bool) (x s b r : ℤ)
    → (debit ≡ true → x ≤ℤ pos 0)
    → (now ≡ true → debit ≡ false → was ≡ false → pos 0 ≤ℤ x)
    → (was ≡ true → now ≡ true)
    → (now ≡ true → was ≡ false → debit ≡ false → pos 0 ≤ℤ x)
    → b +ℤ r ≤ℤ s
    → (if own && was then x +ℤ b else b) +ℤ (if debit && own then x +ℤ r else r)
      ≤ℤ (if own && now then x +ℤ s else s)
row_grows false was now true x s b r h1 h2 h3 h4 k = k
row_grows false was now false x s b r h1 h2 h3 h4 k = k
row_grows true true true true x s b r h1 h2 h3 h4 k = omega (int_laws, h1 refl)
row_grows true true true false x s b r h1 h2 h3 h4 k = omega int_laws
row_grows true true false d x s b r h1 h2 h3 h4 k = cc (h3 refl)
row_grows true false true true x s b r h1 h2 h3 h4 k = omega int_laws
row_grows true false true false x s b r h1 h2 h3 h4 k = omega (int_laws, h2 refl refl refl)
row_grows true false false true x s b r h1 h2 h3 h4 k = omega (int_laws, h1 refl)
row_grows true false false false x s b r h1 h2 h3 h4 k = k

counts-set_status_posted :
    (t i : ℕ) (ts : List Transaction)
    → counts ts i ≡ true
    → counts (set_status posted t ts) i ≡ true
unfolding counts
counts-set_status_posted t i [] h = cc
counts-set_status_posted t i (x ∷ ts) h = ground (arith, counts-set_status_posted t i ts)

counts-set_status_ne :
    (t i : ℕ) (ts : List Transaction)
    → (i == t) ≡ false
    → counts (set_status posted t ts) i ≡ counts ts i
unfolding counts
counts-set_status_ne t i [] h = refl
counts-set_status_ne t i (x ∷ ts) h = ground (arith, counts-set_status_ne t i ts h)

balance-posted :
    (t a : ℕ) (ts : List Transaction) (ps : List PostingRow)
    → sum_where (λ p. p.account_id == a && counts ts p.transaction_id) ps +ℤ debit_sum t a ps
      ≤ℤ sum_where (λ p. p.account_id == a && counts (set_status posted t ts) p.transaction_id) ps
unfolding sum_where
balance-posted t a ts [] = omega int_laws
balance-posted t a ts (p ∷ ps) =
    row_grows (p.account_id == a) (counts ts p.transaction_id)
      (counts (set_status posted t ts) p.transaction_id) (is_debit t p) p.amount_cents _ _ _
      (λ d. ground arith) (λ n d w. credit n d w) (counts-set_status_posted t p.transaction_id ts)
      (λ n w d. credit n d w) (balance-posted t a ts ps)
  where
    credit :
        counts (set_status posted t ts) p.transaction_id ≡ true
        → is_debit t p ≡ false
        → counts ts p.transaction_id ≡ false
        → pos 0 ≤ℤ p.amount_cents
    credit n d w = ground (arith, counts-set_status_ne t p.transaction_id ts)

-- What the loop over the debited accounts has found of one of them.
pub record IsCovered (d : Db) (a : ℕ) (debit : ℤ) : Type 0 where
  pub fits_balance : fits (balance d a) ≡ true
  pub covered : ltb_ℤ (add64 (balance d a) debit) (pos 0) ≡ false

covered_nonneg :
    (b x : ℤ)
    → fits b ≡ true
    → fits x ≡ true
    → ltb_ℤ (add64 b x) (pos 0) ≡ false
    → x ≤ℤ pos 0
    → pos 0 ≤ℤ b
    → pos 0 ≤ℤ b +ℤ x
unfolding add64 ◌+ℤ◌
covered_nonneg (pos m) (pos n) f g h n' p = ground arith
covered_nonneg (pos m) (negsuc n) f g h n' p = ground arith
covered_nonneg (negsuc m) x f g h n' p = absurd (omega arith)

le_choice :
    (b c : Bool) (x r : ℤ)
    → (b ≡ true → x ≤ℤ pos 0)
    → r ≤ℤ pos 0
    → (if b && c then x +ℤ r else r) ≤ℤ pos 0
le_choice true true x r h k = omega (int_laws, h refl)
le_choice true false x r h k = k
le_choice false c x r h k = k

debit_sum_le : (t a : ℕ) (ps : List PostingRow) → debit_sum t a ps ≤ℤ pos 0
unfolding sum_where
debit_sum_le t a [] = omega int_laws
debit_sum_le t a (p ∷ ps) =
    le_choice (is_debit t p) (p.account_id == a) p.amount_cents _ (λ d. ground arith)
      (debit_sum_le t a ps)

group_debits-cons :
    (t k : ℕ) (ps : List PostingRow) (keys : List ℕ) (rows : List (ℕ × ℤ))
    → group_debits t ps (k ∷ keys) ≡ ok rows
    → (rest : List (ℕ × ℤ)) × (group_debits t ps keys ≡ ok rest)
      × (rows ≡ (k, debit_sum t k ps) ∷ rest)
      × (fits (debit_sum t k ps) ≡ true)
unfolding group_debits
group_debits-cons t k ps keys rows e = elim (Result-cases (group_debits t ps keys)) [
  | inl (x, failed) ↦ absurd (cc (rw (failed, group_debits) at e))
  | inr (rest, found) ↦ elim (Bool-cases (fits (debit_sum t k ps))) [
    | inl in_range ↦ (
      rest,
      found,
      sym (ok-injective _ _ (rw in_range at (rw (found, group_debits) at e))),
      in_range,
    )
    | inr too_big ↦ absurd (cc (rw too_big at (rw (found, group_debits) at e)))
  ]
]

-- Every debited account is among the rows of the query, with its sum.
group_debits-All :
    (t a : ℕ) (ps : List PostingRow) (P : ℕ → ℤ → Type 0) (keys : List ℕ) (rows : List (ℕ × ℤ))
    → group_debits t ps keys ≡ ok rows
    → key a keys ≡ true
    → All (λ row. P row.0 row.1) rows
    → P a (debit_sum t a ps) × (fits (debit_sum t a ps) ≡ true)
group_debits-All t a ps P [] rows e h q = cc
group_debits-All t a ps P (k ∷ keys) rows e h q =
    let (rest, found, rows_are, in_range) = group_debits-cons t k ps keys rows e in
    let (here, later) = subst (All (λ row. P row.0 row.1)) rows_are q in
    elim (Bool-cases (k == a)) [
      | inl same ↦
          subst (λ i. P i (debit_sum t i ps) × (fits (debit_sum t i ps) ≡ true))
            ((==_iff k a).0 same) (here, in_range)
      | inr other ↦
          group_debits-All t a ps P keys rest found (||-other (k == a) (key a keys) h other) later
    ]

-- An approval whose loop over the debited accounts has passed overdraws no account that was not
-- overdrawn before.
pub nonneg-posted :
    (t a : ℕ) (d : Db) (rows : List (ℕ × ℤ))
    → group_debits t d.postings (debited_accounts t d.postings) ≡ ok rows
    → All (λ row. IsCovered d row.0 row.1) rows
    → pos 0 ≤ℤ balance d a
    → pos 0 ≤ℤ balance (record d { transactions = set_status posted t d.transactions }) a
unfolding balance
nonneg-posted t a d rows e h p = elim (Bool-cases (key a (debited_accounts t d.postings))) [
  | inl debited ↦
      let (c, in_range) = group_debits-All t a d.postings (IsCovered d) _ rows e debited h in
      omega (
        int_laws,
        balance-posted t a d.transactions d.postings,
        covered_nonneg (balance d a) (debit_sum t a d.postings) c.fits_balance in_range c.covered
            (debit_sum_le t a d.postings) p,
      )
  | inr other ↦ omega (
    int_laws,
    balance-posted t a d.transactions d.postings,
    ap pos_part (debit_sum-none t a d.postings other),
    ap neg_part (debit_sum-none t a d.postings other),
  )
]
