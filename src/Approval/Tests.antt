-- ===== src/Approval/Tests.antt =====
-- Decisions at a concrete database.
use scout_site.Prelude.{ℕ, ◌≡◌, refl, true, false, none, [], ◌∷◌}
use scout_site.Prelude.Int.{ℤ, pos, negsuc, ◌+ℤ◌, ◌-ℤ◌, wrap, add64}
use scout_site.Store.Rows.{
  Account, Transaction, PostingRow, AccountType, AccountStatus, TransactionType, TransactionStatus,
  pending_approval, posted, ledger_transaction, RequestStatus, Db,
}
use scout_site.Store.Sql.{
  Error, err, World, pure, raise, lift, ◌>>=◌, next_fault, later_faults, query, settled, commit,
  exec_tx, finish, transact, audit_log, replace_no_rows, map_error,
}
use scout_site.Store.Sums.{sum_where, counts, balance}
use scout_site.Store.Triple.{Outcome}
use scout_site.Approval.{
  decide, decide_tx, update_request, apply_decision, group_debits, debited_accounts, insert_key,
  check_debits, check_debit, account_status, scan_balance, update_transaction,
}
use scout_site.Approval.Outcome.{Approved, decide-Approved, decide-missing}
use scout_site.Ledger.Session.{empty_db}

abbrev fund : ℕ → AccountType → Account
fund id type = record {
  id = id;
  unit_id = 9;
  account_type = type;
  member_id = none;
  event_id = none;
  name = "fund";
  status = AccountStatus.opened;
}

abbrev movement : ℕ → TransactionStatus → Transaction
movement id status = record {
  id = id;
  unit_id = 9;
  transaction_type = TransactionType.trip_fund_transfer;
  description = "camp";
  status = status;
  created_by = 3;
  approval_request_id = none;
  reverses_transaction_id = none;
  occurred_at = 5;
}

abbrev posting_of : ℕ → ℕ → ℕ → ℤ → PostingRow
posting_of id t a amount = record {
  id = id;
  transaction_id = t;
  account_id = a;
  amount_cents = amount;
  reconciliation_id = none;
}

-- The scout's account 0 holds 500. Request 7 is to approve transaction 4, of 300 from account 0 to
-- the trip fund 1.
abbrev waiting_db : Db
waiting_db = record empty_db {
  accounts =
      fund 0 AccountType.scout_individual
      ∷ fund 1 AccountType.trip_fund
      ∷ fund 2 AccountType.external
      ∷ [];
  transactions = movement 4 pending_approval ∷ movement 3 posted ∷ [];
  postings =
      posting_of 13 4 0 (negsuc 299)
      ∷ posting_of 12 4 1 (pos 300)
      ∷ posting_of 11 3 2 (negsuc 499)
      ∷ posting_of 10 3 0 (pos 500)
      ∷ [];
  requests =
      record {
        id = 7;
        entity_type = ledger_transaction;
        entity_id = 4;
        unit_id = 9;
        submitted_by = 3;
        status = RequestStatus.waiting;
        decided_by = none;
        decided_at = none;
      }
      ∷ [];
  next_id = 14;
}

abbrev waiting_world : World
waiting_world = record { db = waiting_db; faults = []; now = 6 }

approval_moves : balance (decide 7 9 2 true waiting_world).1.db 1 ≡ pos 300
unfolding decide decide_tx update_request apply_decision group_debits debited_accounts insert_key
    check_debits check_debit account_status scan_balance update_transaction balance sum_where counts
    pure raise lift ◌>>=◌ next_fault later_faults query settled commit exec_tx finish transact
    audit_log replace_no_rows map_error ◌+ℤ◌ ◌-ℤ◌ wrap add64
approval_moves = refl

decide-Approved_example :
    let (r, w') = decide 7 9 2 true waiting_world in
    Outcome (λ _ d. Approved 7 9 waiting_db d) (λ d. d ≡ waiting_db) r w'.db
decide-Approved_example = decide-Approved 7 9 2 waiting_world

-- Another unit's request is none to decide.
decide-missing_example :
    let (r, w') = decide 7 8 2 false waiting_world in
    ((e : Error) × (r ≡ err e)) × (w'.db ≡ waiting_db)
decide-missing_example = decide-missing 7 8 2 false waiting_world refl
