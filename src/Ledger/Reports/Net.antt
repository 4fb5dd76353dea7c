-- ===== src/Ledger/Reports/Net.antt =====
-- The net total of a period against the movement of the unit's own accounts.
use scout_site.Prelude.{
  ℕ, ◌<◌, ◌^◌, ◌≡◌, refl, sym, ap, ◌∙◌, inl, inr, Bool, true, false, not, ◌&&◌, Option, none, some,
  List, [], ◌∷◌, arith, ◌==◌, find, update_where, All-map, Bool-cases, Option-cases,
}
use scout_site.Prelude.Int.{ℤ, pos, ◌+ℤ◌, ◌-ℤ◌, sub64, wrap, wrap-eq_of_Fits}
use scout_site.Store.Rows.{Account, external, same_type, Transaction, rejected, PostingRow, Db}
use scout_site.Store.Sums.{sum_where, counts, owns}
use scout_site.Store.Sql.{ok, or_else, pure, query, next_fault, later_faults}
use scout_site.Store.Calm.{calm}
use scout_site.Store.Books.{Books, has-update_where, transaction_ids-update_where}
use scout_site.Store.Books.Totals.{owned_total-zero, sum_where-or, sum_where-same}
use scout_site.Ledger.Accounts.{get_external_account}
use scout_site.Ledger.Reports.Parts.{
  turnover, sum_of-parts, income_part-Bounded, expense_part-Bounded, sum_of-Bounded, sum_of-fits,
  -ℤ-Fits, net_of_parts,
}
use scout_site.Ledger.Reports.{
  PeriodTotals, net_cents, sum_of, income_part, expense_part, in_period, counts_between, on_account,
  read_totals, no_totals, income_expense_totals,
}

-- The unit's external account.
abbrev pub external_of : Db → ℕ → Option Account
external_of d u =
    find (λ (a : Account). a.unit_id == u && same_type a.account_type external) d.accounts

abbrev pub is_id_of : Option Account → ℕ → Bool
is_id_of none i = false
is_id_of (some a) i = i == a.id

-- What the accounts of the unit but its external one received and gave in the period.
unfoldable pub own_movement : Db → ℕ → ℕ → ℕ → ℤ
own_movement d u from to =
    sum_where
      (λ p.
        (owns d.accounts p.account_id u && not (is_id_of (external_of d u) p.account_id))
        && counts_between from to d.transactions p.transaction_id)
      d.postings

-- The books without the transactions outside a period.
abbrev restricted : ℕ → ℕ → List Transaction → List Transaction
restricted from to =
    update_where (λ t. not (in_period from to t))
      (λ (t : Transaction). record t { status = rejected })

counts-restricted :
    (from to : ℕ) (ts : List Transaction) (t : ℕ)
    → counts (restricted from to ts) t ≡ counts_between from to ts t
unfolding counts counts_between
counts-restricted from to [] t = refl
counts-restricted from to (x ∷ ts) t = ground (arith, counts-restricted from to ts t)

-- In sound books the postings of a period to the accounts of a unit sum to zero.
period_total-zero :
    (d : Db) (u from to : ℕ)
    → Books d
    → sum_where
        (λ p.
          owns d.accounts p.account_id u && counts_between from to d.transactions p.transaction_id)
        d.postings
      ≡ pos 0
period_total-zero d u from to b =
    sum_where-same _ _ d.postings (λ p.
      ap (λ c. owns d.accounts p.account_id u && c)
        (sym (counts-restricted from to d.transactions p.transaction_id)))
    ∙ owned_total-zero (record d { transactions = restricted from to d.transactions }) u
        (record {
          balanced = b.balanced;
          scoped =
              All-map
                (λ p s. record {
                  unit_id = s.unit_id;
                  of_transaction =
                      has-update_where _ _ (λ x. refl) (λ x. refl) d.transactions p.transaction_id
                        s.unit_id
                      ∙ s.of_transaction;
                  of_account = s.of_account;
                })
                d.postings b.scoped;
          account_keys = b.account_keys;
          transaction_keys =
              rw
                (transaction_ids-update_where (λ t. not (in_period from to t))
                  (λ t. record t { status = rejected }) (λ t. refl) d.transactions)
                b.transaction_keys;
          idle = b.idle;
        })

-- The first external account of the unit is one of its accounts.
find-owns :
    (as' : List Account) (u : ℕ) (x : Account)
    → find (λ (a : Account). a.unit_id == u && same_type a.account_type external) as' ≡ some x
    → owns as' x.id u ≡ true
unfolding owns
find-owns [] u x e = cc
find-owns (a ∷ rest) u x e =
    elim (Bool-cases (a.unit_id == u && same_type a.account_type external)) [
      | inl here ↦ ground (arith, ap (λ (y : Option Account). y) (rw here at e))
      | inr elsewhere ↦ ground (arith, find-owns rest u x (rw elsewhere at e))
    ]

own_movement-without :
    (d : Db) (u from to : ℕ) → Books d → external_of d u ≡ none → own_movement d u from to ≡ pos 0
unfolding own_movement
own_movement-without d u from to b e =
    sum_where-same _ _ d.postings (λ p. rw e (ground arith)) ∙ period_total-zero d u from to b

own_movement-external :
    (d : Db) (u from to : ℕ) (x : Account)
    → Books d
    → external_of d u ≡ some x
    → own_movement d u from to +ℤ sum_where (on_account d x.id from to) d.postings ≡ pos 0
unfolding own_movement
own_movement-external d u from to x b e =
    sym (
      sum_where-or
        (λ p.
          (owns d.accounts p.account_id u && not (is_id_of (external_of d u) p.account_id))
          && counts_between from to d.transactions p.transaction_id)
        (on_account d x.id from to) d.postings (λ p. rw e (ground arith)))
    ∙ sum_where-same _ _ d.postings (λ p. rw e (ground (arith, find-owns d.accounts u x e)))
    ∙ period_total-zero d u from to b

-- The totals that IncomeExpenseTotals returns, and their net.
abbrev pub Reported : ℕ → ℕ → ℕ → ℕ → Db → Type 0
Reported unit from to now d =
    (t : PeriodTotals) × (income_expense_totals unit from to (calm now d) ≡ (ok t, calm now d))
    × (net_cents t ≡ own_movement d unit from to)

totals_without_external :
    (unit from to now : ℕ) (d : Db)
    → Books d
    → external_of d unit ≡ none
    → Reported unit from to now d
unfolding income_expense_totals get_external_account query next_fault later_faults or_else pure
    net_cents sub64 ◌-ℤ◌ wrap
totals_without_external unit from to now d b e =
    (no_totals, rw e refl, sym (own_movement-without d unit from to b e))

totals_with_external :
    (unit from to now : ℕ) (d : Db) (x : Account)
    → Books d
    → turnover d.postings < 2 ^ 63
    → external_of d unit ≡ some x
    → Reported unit from to now d
unfolding income_expense_totals get_external_account query next_fault later_faults read_totals
    net_cents sub64
totals_with_external unit from to now d x b lt e =
    let on : PostingRow → Bool = on_account d x.id from to in
    (
      record {
        income_cents = sum_of income_part on d.postings;
        expense_cents = sum_of expense_part on d.postings;
      },
      rw e (
          rw
            (
              sum_of-fits income_part income_part-Bounded on d.postings lt,
              sum_of-fits expense_part expense_part-Bounded on d.postings lt,
            )
            refl),
      wrap-eq_of_Fits _ (
            -ℤ-Fits _ _ (turnover d.postings)
              (sum_of-Bounded income_part income_part-Bounded on d.postings)
              (sum_of-Bounded expense_part expense_part-Bounded on d.postings) lt)
          ∙ net_of_parts (own_movement d unit from to) (sum_where on d.postings) _ _
              (own_movement-external d unit from to x b e) (sum_of-parts on d.postings),
    )

-- Where the amounts of all postings together stay below 2 ^ 63 cents and no statement fails,
-- IncomeExpenseTotals on sound books returns totals whose net is what the unit's accounts other
-- than its external one received less what they gave in the posted transactions of the period.
pub income_expense_totals-own_movement :
    (unit from to now : ℕ) (d : Db)
    → Books d
    → turnover d.postings < 2 ^ 63
    → Reported unit from to now d
income_expense_totals-own_movement unit from to now d b lt =
    elim (Option-cases (external_of d unit)) [
      | inl e ↦ totals_without_external unit from to now d b e
      | inr (x, e) ↦ totals_with_external unit from to now d x b lt e
    ]
