-- ===== src/Ledger/Outcomes/ShareTests.antt =====
-- A share of 1.00 of a fundraiser in which a Scout sold for 1.00.
use scout_site.Prelude.{◌≡◌, refl, List, [], ◌∷◌, none}
use scout_site.Prelude.Text.{codes}
use scout_site.Prelude.Int.{ℤ, pos, negsuc, ◌+ℤ◌, ◌-ℤ◌, ◌*ℤ◌, wrap, add64, neg64}
use scout_site.Store.Fundraising.{percentage, FundraiserAllocation}
use scout_site.Store.Sums.{sum_where, counts, balance, owns}
use scout_site.Store.Sql.{
  Result, ok, err, World, pure, raise, lift, ◌>>=◌, next_fault, later_faults, query, settled,
  commit, exec_tx, exec, finish, transact, clock, audit_log, or_else, if_no_rows,
}
use scout_site.Store.Calm.{calm}
use scout_site.Store.Books.{Books}
use scout_site.Ledger.Post.{
  add_seen, check_amounts, check_postings, select_statuses, status_of, check_accounts,
  insert_transaction_row, insert_posting_row, insert_postings, record_transaction,
  insert_transaction, post_transaction,
}
use scout_site.Ledger.Accounts.{
  insert_account, get_unit_general_account, get_scout_account, ensure, ensure_unit_general_account,
  ensure_scout_account,
}
use scout_site.Ledger.Fundraisers.{
  insert_fundraiser, create_fundraiser, find_fundraiser, get_fundraiser, compute_share, check_share,
  insert_allocation, record_fundraiser_allocation,
}
use scout_site.Ledger.Fundraisers.Examples.{whole_cents}
use scout_site.Ledger.Session.{Call, Event, perform, play, empty_db}

abbrev opening : List Event
opening =
    record { call = Call.ensure_general 9; now = 5; faults = [] }
    ∷ record {
      call = Call.new_fundraiser 9 (codes "Popcorn") percentage (codes "1") (pos 0) none 3;
      now = 5;
      faults = [];
    }
    ∷ []

-- The general fund is 0 and the fundraiser 1.
abbrev selling : World
selling = calm 6 (play whole_cents opening empty_db)

abbrev credited_in : Result FundraiserAllocation → List ℤ
credited_in (ok a) = a.credited_cents ∷ []
credited_in (err e) = []

-- The Scout's account is 2.
share_credited :
    let (r, w') =
      record_fundraiser_allocation whole_cents 1 4 (codes "Sam") (pos 100) [] 3 selling in
    (credited_in r ≡ pos 100 ∷ []) × (balance w'.db 2 ≡ pos 100) × (balance w'.db 0 ≡ negsuc 99)
unfolding play perform ensure_unit_general_account get_unit_general_account get_scout_account
    ensure_scout_account ensure insert_account create_fundraiser insert_fundraiser
    record_fundraiser_allocation get_fundraiser find_fundraiser compute_share check_share
    insert_allocation post_transaction insert_transaction check_postings check_amounts add_seen
    select_statuses status_of check_accounts insert_transaction_row insert_posting_row
    insert_postings record_transaction pure raise lift ◌>>=◌ next_fault later_faults query settled
    commit exec_tx exec finish transact clock audit_log or_else if_no_rows sum_where counts balance
    owns ◌+ℤ◌ ◌-ℤ◌ ◌*ℤ◌ wrap add64 neg64
share_credited = (refl, refl, refl)
