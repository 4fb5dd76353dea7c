-- ===== src/Ledger/Transfer.antt =====
-- SubmitExpenseForApproval and RequestTripFundTransfer, internal/ledger/ledger.go: transactions
-- that wait for an approval.
use Prim.Native.String.{String}
use scout_site.Prelude.{ℕ, some, List, [], ◌∷◌, ◌==◌, if◌then◌else◌, update_where}
use scout_site.Prelude.Int.{ℤ, pos, neg64, leb_ℤ, ltb_ℤ}
use scout_site.Store.Rows.{
  Transaction, expense, trip_fund_transfer, pending_approval, ledger_transaction, Request, Posting,
  Db,
}
use scout_site.Store.Sql.{
  amount_not_positive, insufficient_funds, Result, ok, err, M, pure, lift, ◌>>=◌, ◌>>◌, exec,
}
use scout_site.Approval.{submit}
use scout_site.Ledger.Accounts.{balance_for_account}
use scout_site.Ledger.Post.{insert_transaction, ordinary}

abbrev pub set_request : ℕ → ℕ → List Transaction → List Transaction
set_request t r =
    update_where (λ (x : Transaction). x.id == t)
      (λ (x : Transaction). record x { approval_request_id = some r })

-- `UPDATE ledger_transactions SET approval_request_id = $1 WHERE id = $2`
unfoldable pub update_request_id : ℕ → ℕ → ℕ → Db → Result (Unit {0}) × Db
update_request_id t r now d = (ok tt, record d { transactions = set_request t r d.transactions })

-- What both functions do with the transaction that they have recorded.
unfoldable pub submit_transaction : ℕ → ℕ → Transaction → M (Transaction × Request)
submit_transaction unit submitter t = do
  r ← submit ledger_transaction t.id unit submitter
  exec (update_request_id t.id r.id)
  pure (record t { approval_request_id = some r.id }, r)

unfoldable pub submit_expense_for_approval :
    ℕ → String → ℕ → List Posting → M (Transaction × Request)
submit_expense_for_approval unit description submitted_by ps = do
  t ← insert_transaction (ordinary unit expense description submitted_by pending_approval) ps
  submit_transaction unit submitted_by t

abbrev transfer_postings : ℕ → ℕ → ℤ → List Posting
transfer_postings source target amount =
    record { account_id = source; amount_cents = neg64 amount }
    ∷ record { account_id = target; amount_cents = amount }
    ∷ []

unfoldable pub request_trip_fund_transfer : ℕ → ℕ → ℕ → ℤ → String → ℕ → M (Transaction × Request)
request_trip_fund_transfer unit scout_account trip_fund_account amount description requested_by = do
  lift (if leb_ℤ amount (pos 0) then err amount_not_positive else ok tt)
  held ← balance_for_account scout_account
  lift (if ltb_ℤ held amount then err insufficient_funds else ok tt)
  t ←
      insert_transaction
        (ordinary unit trip_fund_transfer description requested_by pending_approval)
        (transfer_postings scout_account trip_fund_account amount)
  submit_transaction unit requested_by t
