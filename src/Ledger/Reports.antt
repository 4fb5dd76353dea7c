-- ===== src/Ledger/Reports.antt =====
-- The totals of a period and the filtered list of transactions, from internal/ledger/reports.go.
pub mod Parts
pub mod Net
use Prim.Native.String.{String}
use scout_site.Prelude.{ℕ, Bool, true, ◌&&◌, List, [], ◌∷◌, leb, ◌==◌, if◌then◌else◌, any}
use scout_site.Prelude.Int.{ℤ, pos, ◌+ℤ◌, ◌-ℤ◌, ltb_ℤ, fits, sub64}
use scout_site.Store.Rows.{
  Transaction, TransactionType, expense, trip_fund_transfer, fundraiser_allocation, reversal, named,
  is_posted, PostingRow, Db,
}
use scout_site.Store.Sql.{db_error, ok, err, M, pure, query, or_else}
use scout_site.Ledger.Accounts.{get_external_account}
use scout_site.Ledger.Statements.{TransactionDetail, transactions_query, touches, oldest_first}

pub record PeriodTotals : Type 0 where
  pub income_cents : ℤ
  pub expense_cents : ℤ

unfoldable pub net_cents : PeriodTotals → ℤ
net_cents p = sub64 p.income_cents p.expense_cents

-- `SUM(CASE ... END)` over some of the postings.
unfoldable pub sum_of : (ℤ → ℤ) → (PostingRow → Bool) → List PostingRow → ℤ
sum_of f q [] = pos 0
sum_of f q (p ∷ ps) = let rest = sum_of f q ps in if q p then f p.amount_cents +ℤ rest else rest

-- `CASE WHEN p.amount_cents < 0 THEN -p.amount_cents ELSE 0 END`
abbrev pub income_part : ℤ → ℤ
income_part a = if ltb_ℤ a (pos 0) then pos 0 -ℤ a else pos 0

-- `CASE WHEN p.amount_cents > 0 THEN p.amount_cents ELSE 0 END`
abbrev pub expense_part : ℤ → ℤ
expense_part a = if ltb_ℤ (pos 0) a then a else pos 0

abbrev pub in_period : ℕ → ℕ → Transaction → Bool
in_period from to t = leb from t.occurred_at && leb t.occurred_at to

-- A posted transaction of that id that occurred in the period.
unfoldable pub counts_between : ℕ → ℕ → List Transaction → ℕ → Bool
counts_between from to ts t =
    any (λ (x : Transaction). x.id == t && (is_posted x.status && in_period from to x)) ts

abbrev pub on_account : Db → ℕ → ℕ → ℕ → PostingRow → Bool
on_account d a from to p =
    p.account_id == a && counts_between from to d.transactions p.transaction_id

-- The two sums of the query, as they are scanned into int64.
unfoldable pub read_totals : ℕ → ℕ → ℕ → Db → scout_site.Store.Sql.Result PeriodTotals
read_totals a from to d =
    let income = sum_of income_part (on_account d a from to) d.postings in
    let expense = sum_of expense_part (on_account d a from to) d.postings in
    if fits income && fits expense
    then ok (record { income_cents = income; expense_cents = expense })
    else err db_error

abbrev pub no_totals : PeriodTotals
no_totals = record { income_cents = pos 0; expense_cents = pos 0 }

unfoldable pub income_expense_totals : ℕ → ℕ → ℕ → M PeriodTotals
income_expense_totals unit from to w =
    let (r, w') = get_external_account unit w in
    elim r [
      | ok ext ↦ query (read_totals ext.id from to) w'
      | err e ↦ or_else e (pure no_totals) w'
    ]

-- `len(accountIDs) > 0` and the condition it adds.
unfoldable on_some : List ℕ → Db → Transaction → Bool
on_some [] d t = true
on_some (a ∷ rest) d t = any (λ i. touches i d t) (a ∷ rest)

-- The text of a type in the column.
unfoldable type_text : TransactionType → String
type_text expense = "expense"
type_text trip_fund_transfer = "trip_fund_transfer"
type_text fundraiser_allocation = "fundraiser_allocation"
type_text reversal = "reversal"
type_text (named s) = s

-- Likewise for transactionTypes.
unfoldable of_some : List String → Transaction → Bool
unfolding type_text
of_some [] t = true
of_some (k ∷ rest) t = any (text.Mathlib.Text.◌==◌ (type_text t.transaction_type)) (k ∷ rest)

unfoldable transactions_for_unit_filtered :
    ℕ → ℕ → ℕ → List ℕ → List String → M (List TransactionDetail)
unfolding on_some of_some
transactions_for_unit_filtered unit from to accounts types =
    transactions_query
      (λ d t.
        (t.unit_id == unit && in_period from to t) && (on_some accounts d t && of_some types t))
      oldest_first
