-- ===== src/Ledger/Tests.antt =====
-- The ledger on a small unit, and the theorems at it.
use scout_site.Prelude.{ℕ, ◌<◌, ◌^◌, ◌≡◌, refl, none, List, [], ◌∷◌, All, length, arith}
use scout_site.Prelude.Int.{pos, negsuc, ◌+ℤ◌, ◌-ℤ◌, wrap, Fits, add64, neg64}
use scout_site.Store.Rows.{TransactionType, posted, Posting, PostingRow}
use scout_site.Store.Sums.{sum_where, counts, balance, owns}
use scout_site.Store.Sql.{
  World, pure, raise, lift, ◌>>=◌, next_fault, later_faults, query, settled, commit, exec_tx, exec,
  finish, transact, clock, audit_log, replace_no_rows, replace_unique, map_error, or_else,
  if_no_rows,
}
use scout_site.Store.Triple.{Outcome}
use scout_site.Store.Books.{Books}
use scout_site.Store.Books.Totals.{unit_total}
use scout_site.Ledger.Post.{
  ordinary, add_seen, check_amounts, check_postings, select_statuses, status_of, check_accounts,
  insert_transaction_row, insert_posting_row, insert_postings, record_transaction,
  insert_transaction, post_transaction,
}
use scout_site.Ledger.Accounts.{
  insert_account, get_unit_general_account, get_external_account, ensure,
  ensure_unit_general_account, ensure_external_account,
}
use scout_site.Ledger.Reverse.{
  find_transaction, check_reversible, opposite_postings, reverse_transaction,
}
use scout_site.Ledger.Outcomes.Insert.{Added, post_transaction-Added}
use scout_site.Ledger.Outcomes.Reverse.{Reversed, reverse_transaction-Reversed}
use scout_site.Ledger.Statements.{JoinRow, add_row, group_rows}
use scout_site.Ledger.Statements.Grouped.{Single, listed, joined, group_rows-listed}
use scout_site.Ledger.Fundraisers.Examples.{whole_cents}
use scout_site.Ledger.Reports.Parts.{turnover}
use scout_site.Ledger.Reports.Net.{Reported, income_expense_totals-own_movement}
use scout_site.Ledger.Session.{
  Call, Event, perform, play, empty_db, Books-empty, play-Books, unit_total-play,
}

abbrev at_once : Call → Event
at_once c = record { call = c; now = 5; faults = [] }

-- Unit 9 has a general fund (0), an external account (1), and a deposit of 50.00.
abbrev deposit : List Posting
deposit =
    record { account_id = 1; amount_cents = negsuc 4999 }
    ∷ record { account_id = 0; amount_cents = pos 5000 }
    ∷ []

abbrev opening : List Event
opening =
    at_once (Call.ensure_general 9)
    ∷ at_once (Call.ensure_external 9)
    ∷ at_once (Call.post 9 (TransactionType.named "deposit") "dues" 3 deposit)
    ∷ []

abbrev after_opening : World
after_opening = record { db = play whole_cents opening empty_db; faults = []; now = 6 }

-- The deposit is in the general fund, and its reversal takes it out.
deposit_recorded : balance (play whole_cents opening empty_db) 0 ≡ pos 5000
unfolding play perform ensure_unit_general_account ensure_external_account get_unit_general_account
    get_external_account ensure insert_account post_transaction insert_transaction check_postings
    check_amounts add_seen select_statuses status_of check_accounts insert_transaction_row
    insert_posting_row insert_postings record_transaction pure raise lift ◌>>=◌ next_fault
    later_faults query settled commit exec_tx exec finish transact clock audit_log replace_no_rows
    replace_unique map_error or_else if_no_rows sum_where counts balance owns ◌+ℤ◌ ◌-ℤ◌ wrap add64
deposit_recorded = refl

deposit_reversed : balance (reverse_transaction 9 2 3 after_opening).1.db 0 ≡ pos 0
unfolding play perform ensure_unit_general_account ensure_external_account get_unit_general_account
    get_external_account ensure insert_account post_transaction insert_transaction check_postings
    check_amounts add_seen select_statuses status_of check_accounts insert_transaction_row
    insert_posting_row insert_postings record_transaction pure raise lift ◌>>=◌ next_fault
    later_faults query settled commit exec_tx exec finish transact clock audit_log replace_no_rows
    replace_unique map_error or_else if_no_rows sum_where counts balance owns ◌+ℤ◌ ◌-ℤ◌ wrap add64
    find_transaction check_reversible opposite_postings reverse_transaction neg64
deposit_reversed = refl

bigints : All (λ (p : PostingRow). Fits p.amount_cents) (play whole_cents opening empty_db).postings
unfolding play perform ensure_unit_general_account ensure_external_account get_unit_general_account
    get_external_account ensure insert_account post_transaction insert_transaction check_postings
    check_amounts add_seen select_statuses status_of check_accounts insert_transaction_row
    insert_posting_row insert_postings record_transaction pure raise lift ◌>>=◌ next_fault
    later_faults query settled commit exec_tx exec finish transact clock audit_log replace_no_rows
    replace_unique map_error or_else if_no_rows sum_where counts balance owns ◌+ℤ◌ ◌-ℤ◌ wrap add64
bigints = (ground arith, (ground arith, tt))

unit_total-play_example : unit_total (play whole_cents opening empty_db) 9 ≡ pos 0
unit_total-play_example = unit_total-play whole_cents opening 9

play-Books_example : Books (play whole_cents opening empty_db)
play-Books_example = play-Books whole_cents opening empty_db Books-empty

sound : Books (play whole_cents opening empty_db)
sound = play-Books whole_cents opening empty_db Books-empty

post_transaction-Added_example :
    let (r, w') =
      post_transaction 9 (TransactionType.named "deposit") "dues" 3 deposit after_opening in
    Outcome
      (Added
        (ordinary 9 (TransactionType.named "deposit") "dues" 3 posted)
        deposit
        (play whole_cents opening empty_db))
      (λ d. d ≡ play whole_cents opening empty_db)
      r
      w'.db
post_transaction-Added_example =
    post_transaction-Added 9 (TransactionType.named "deposit") "dues" 3 deposit after_opening sound

reverse_transaction-Reversed_example :
    let (r, w') = reverse_transaction 9 2 3 after_opening in
    Outcome
      (Reversed 9 2 (play whole_cents opening empty_db))
      (λ d. d ≡ play whole_cents opening empty_db)
      r
      w'.db
reverse_transaction-Reversed_example =
    reverse_transaction-Reversed 9 2 3 after_opening sound bigints

abbrev row : ℕ → ℕ → JoinRow
row t a = record {
  transaction = record {
    id = t;
    unit_id = 9;
    transaction_type = TransactionType.named "deposit";
    description = "dues";
    status = posted;
    created_by = 3;
    approval_request_id = none;
    reverses_transaction_id = none;
    occurred_at = 5;
  };
  reversed_by = none;
  posting = record { account_id = a; account_name = "fund"; amount_cents = pos 5 };
}

abbrev two_transactions : List JoinRow
two_transactions = row 2 0 ∷ row 2 1 ∷ row 3 0 ∷ row 3 1 ∷ []

two_details : length (group_rows two_transactions []) ≡ 2
unfolding group_rows add_row
two_details = refl

group_rows-listed_example :
    Single (group_rows two_transactions [])
    × ((i : ℕ) → listed i (group_rows two_transactions []) ≡ joined i two_transactions)
group_rows-listed_example = group_rows-listed two_transactions [] tt

small_turnover : turnover (play whole_cents opening empty_db).postings < 2 ^ 63
unfolding turnover play perform ensure_unit_general_account ensure_external_account
    get_unit_general_account get_external_account ensure insert_account post_transaction
    insert_transaction check_postings check_amounts add_seen select_statuses status_of
    check_accounts insert_transaction_row insert_posting_row insert_postings record_transaction pure
    raise lift ◌>>=◌ next_fault later_faults query settled commit exec_tx exec finish transact clock
    audit_log replace_no_rows replace_unique map_error or_else if_no_rows sum_where counts balance
    owns ◌+ℤ◌ ◌-ℤ◌ wrap add64
small_turnover = omega arith

income_expense_totals-own_movement_example : Reported 9 0 10 6 (play whole_cents opening empty_db)
income_expense_totals-own_movement_example =
    income_expense_totals-own_movement 9 0 10 6 (play whole_cents opening empty_db) sound
      small_turnover
