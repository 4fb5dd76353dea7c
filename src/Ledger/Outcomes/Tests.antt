-- ===== src/Ledger/Outcomes/Tests.antt =====
-- The outcomes of the ledger's operations at a small unit.
use scout_site.Prelude.{ℕ, Bool, ◌≡◌, refl, List, [], ◌∷◌, ◌++◌}
use scout_site.Prelude.Int.{pos, negsuc, ◌+ℤ◌, ◌-ℤ◌, wrap, add64, sub64}
use scout_site.Store.Rows.{TransactionType, AccountStatus, posted, Account, Db, Posting}
use scout_site.Store.Sums.{sum_where, counts, balance, owns}
use scout_site.Store.Sql.{
  Result, ok, err, World, pure, raise, lift, ◌>>=◌, next_fault, later_faults, query, settled,
  commit, exec_tx, exec, finish, transact, clock, audit_log, replace_no_rows, replace_unique,
  map_error, or_else, if_no_rows,
}
use scout_site.Store.Triple.{Outcome}
use scout_site.Store.Calm.{calm}
use scout_site.Store.Books.{Books}
use scout_site.Ledger.Post.{
  ordinary, new_transaction, add_seen, check_amounts, check_postings, select_statuses, status_of,
  check_accounts, insert_transaction_row, insert_posting_row, insert_postings, record_transaction,
  insert_transaction, post_transaction,
}
use scout_site.Approval.{scan_balance}
use scout_site.Ledger.Post.Exact.{posting_sum}
use scout_site.Ledger.Accounts.{
  insert_account, get_unit_general_account, get_external_account, ensure,
  ensure_unit_general_account, ensure_external_account, create_trip_fund, close_trip_fund,
  find_account, get_account, balance_for_account, check_closable, update_closed,
}
use scout_site.Ledger.Reconcile.{
  start_reconciliation, opening_balance, latest_completed, insert_reconciliation,
  find_reconciliation, get_reconciliation, set_posting_cleared, update_cleared, touched_by,
  complete_reconciliation, summarize_reconciliation, read_summary, cleared_total, outstanding_total,
  balanced, difference_cents, cleared_balance_cents, update_completed,
}
use scout_site.Ledger.Transfer.{submit_expense_for_approval, request_trip_fund_transfer}
use scout_site.Ledger.Outcomes.Returns.{post_transaction-returns}
use scout_site.Ledger.Outcomes.Close.{Closed, close_trip_fund-Closed}
use scout_site.Ledger.Outcomes.Complete.{Completed, complete_reconciliation-Completed}
use scout_site.Ledger.Outcomes.Tick.{Ticked, set_posting_cleared-Ticked}
use scout_site.Ledger.Outcomes.Pending.{
  Unmoved, submit_expense_for_approval-Unmoved, request_trip_fund_transfer-Unmoved,
}
use scout_site.Ledger.Fundraisers.Examples.{whole_cents}
use scout_site.Ledger.Session.{Call, Event, perform, play, empty_db, Books-empty, play-Books}

abbrev at_time : ℕ → Call → Event
at_time now c = record { call = c; now = now; faults = [] }

-- A deposit of 50.00 into the general fund (0) from the external account (1).
abbrev deposit : List Posting
deposit =
    record { account_id = 1; amount_cents = negsuc 4999 }
    ∷ record { account_id = 0; amount_cents = pos 5000 }
    ∷ []

abbrev opening : List Event
opening =
    at_time 5 (Call.ensure_general 9)
    ∷ at_time 5 (Call.ensure_external 9)
    ∷ at_time 5 (Call.post 9 (TransactionType.named "deposit") "dues" 3 deposit)
    ∷ []

abbrev opened_db : Db
opened_db = play whole_cents opening empty_db

sound : Books opened_db
sound = play-Books whole_cents opening empty_db Books-empty

-- Trip fund 5, for event 8.
abbrev with_fund : World
with_fund =
    calm 6 (play whole_cents (opening ++ at_time 6 (Call.create_fund 9 8 "camp" 3) ∷ []) empty_db)

-- Reconciliation 5 of the general fund, on which the deposit (posting 4) is ticked off.
abbrev reconciled : World
reconciled = calm 7 (
    play whole_cents
      (opening
        ++ at_time 6 (Call.start 9 0 10 (pos 5000) 3) ∷ at_time 6 (Call.tick 9 5 4 Bool.true) ∷ [])
      empty_db)

checked : check_postings deposit ≡ ok (1 ∷ 0 ∷ [])
unfolding check_postings check_amounts add_seen add64 wrap ◌+ℤ◌
checked = refl

accounts_pass :
    check_accounts (1 ∷ 0 ∷ []) (select_statuses (1 ∷ 0 ∷ []) 9 opened_db.accounts) ≡ ok tt
unfolding play perform ensure_unit_general_account ensure_external_account get_unit_general_account
    get_external_account ensure insert_account post_transaction insert_transaction check_postings
    check_amounts add_seen select_statuses status_of check_accounts insert_transaction_row
    insert_posting_row insert_postings record_transaction pure raise lift ◌>>=◌ next_fault
    later_faults query settled commit exec_tx exec finish transact clock audit_log replace_no_rows
    replace_unique map_error or_else if_no_rows sum_where counts balance owns ◌+ℤ◌ ◌-ℤ◌ wrap add64
accounts_pass = refl

sums : posting_sum deposit ≡ pos 0
unfolding ◌+ℤ◌
sums = refl

post_transaction-returns_example :
    (post_transaction 9 (TransactionType.named "deposit") "dues" 3 deposit (calm 6 opened_db)).0
    ≡ ok (
        new_transaction
          (ordinary 9 (TransactionType.named "deposit") "dues" 3 posted)
          opened_db.next_id
          6)
post_transaction-returns_example =
    post_transaction-returns 9 (TransactionType.named "deposit") "dues" 3 deposit 6 opened_db
      (1 ∷ 0 ∷ []) sound checked accounts_pass sums

abbrev status_in : Result Account → List AccountStatus
status_in (ok a) = a.status ∷ []
status_in (err e) = []

fund_closes : status_in (close_trip_fund 9 5 3 with_fund).0 ≡ AccountStatus.closed ∷ []
unfolding play perform ensure_unit_general_account ensure_external_account get_unit_general_account
    get_external_account ensure insert_account post_transaction insert_transaction check_postings
    check_amounts add_seen select_statuses status_of check_accounts insert_transaction_row
    insert_posting_row insert_postings record_transaction pure raise lift ◌>>=◌ next_fault
    later_faults query settled commit exec_tx exec finish transact clock audit_log replace_no_rows
    replace_unique map_error or_else if_no_rows sum_where counts balance owns ◌+ℤ◌ ◌-ℤ◌ wrap add64
    create_trip_fund close_trip_fund find_account get_account balance_for_account check_closable
    update_closed scan_balance
fund_closes = refl

close_trip_fund-Closed_example :
    let (r, w') = close_trip_fund 9 5 3 with_fund in
    Outcome (Closed 9 5 with_fund.db) (λ d. d ≡ with_fund.db) r w'.db
close_trip_fund-Closed_example = close_trip_fund-Closed 9 5 3 with_fund

complete_reconciliation-Completed_example :
    let (s, w') = complete_reconciliation 9 5 3 reconciled in
    Outcome (λ _. Completed 9 5 3 reconciled.db) (λ d. d ≡ reconciled.db) s w'.db
complete_reconciliation-Completed_example = complete_reconciliation-Completed 9 5 3 reconciled

submit_expense_for_approval-Unmoved_example :
    Unmoved opened_db (submit_expense_for_approval 9 "tents" 3 deposit (calm 6 opened_db)).1.db
submit_expense_for_approval-Unmoved_example =
    submit_expense_for_approval-Unmoved 9 "tents" 3 deposit (calm 6 opened_db) sound

request_trip_fund_transfer-Unmoved_example :
    Unmoved opened_db (request_trip_fund_transfer 9 0 1 (pos 300) "camp" 3 (calm 6 opened_db)).1.db
request_trip_fund_transfer-Unmoved_example =
    request_trip_fund_transfer-Unmoved 9 0 1 (pos 300) "camp" 3 (calm 6 opened_db) sound

abbrev is_done : {A : Type 0} → Result A → Bool
is_done (ok a) = Bool.true
is_done (err e) = Bool.false

reconciliation_completes : is_done (complete_reconciliation 9 5 3 reconciled).0 ≡ Bool.true
unfolding play perform ensure_unit_general_account ensure_external_account get_unit_general_account
    get_external_account ensure insert_account post_transaction insert_transaction check_postings
    check_amounts add_seen select_statuses status_of check_accounts insert_transaction_row
    insert_posting_row insert_postings record_transaction pure raise lift ◌>>=◌ next_fault
    later_faults query settled commit exec_tx exec finish transact clock audit_log replace_no_rows
    replace_unique map_error or_else if_no_rows sum_where counts balance owns ◌+ℤ◌ ◌-ℤ◌ wrap add64
    start_reconciliation opening_balance latest_completed insert_reconciliation find_reconciliation
    get_reconciliation set_posting_cleared update_cleared touched_by complete_reconciliation
    summarize_reconciliation read_summary cleared_total outstanding_total balanced difference_cents
    cleared_balance_cents update_completed sub64
reconciliation_completes = refl

set_posting_cleared-Ticked_example :
    let (s, w') = set_posting_cleared 9 5 4 Bool.false reconciled in
    Outcome (λ _. Ticked 9 5 4 Bool.false reconciled.db) (λ d. d ≡ reconciled.db) s w'.db
set_posting_cleared-Ticked_example = set_posting_cleared-Ticked 9 5 4 Bool.false reconciled
