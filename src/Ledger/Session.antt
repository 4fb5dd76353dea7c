-- ===== src/Ledger/Session.antt =====
-- Any course of calls against one database: which operations, at which times, and which of their
-- statements fail.
use Prim.Native.String.{String}
use scout_site.Prelude.{ℕ, ◌≡◌, refl, Bool, Option, List, [], ◌∷◌}
use scout_site.Prelude.Int.{ℤ, pos}
use scout_site.Store.Rows.{TransactionType, Posting, Db, EntityType}
use scout_site.Store.Logins.{Logins}
use scout_site.Store.Mailings.{Mailings}
use scout_site.Store.Fundraising.{AllocationMode, FundraiserOrderItem, Fundraising}
use scout_site.Prelude.Text.{Bytes}
use scout_site.Ledger.Fundraisers.{
  Decimals, create_fundraiser, confirm_fundraiser_cap, record_fundraiser_allocation,
}
use scout_site.Ledger.Storefront.{set_storefront_fundraiser}
use scout_site.Ledger.Orders.{
  Buyer, create_fundraiser_order, mark_fundraiser_order_paid, resolve_fundraiser_order_scout,
  cancel_fundraiser_order,
}
use scout_site.Ledger.Books.Fundraising.{
  create_fundraiser-Books, confirm_fundraiser_cap-Books, record_fundraiser_allocation-Books,
  set_storefront_fundraiser-Books, create_fundraiser_order-Books, mark_fundraiser_order_paid-Books,
  resolve_fundraiser_order_scout-Books, cancel_fundraiser_order-Books,
}
use scout_site.Store.Sql.{World, M, pure, ◌>>◌}
use scout_site.Store.Triple.{Triple, Keeps}
use scout_site.Store.Keeps.{keeps_rules}
use scout_site.Store.Books.{Books}
use scout_site.Store.Books.Totals.{unit_total, unit_total-zero}
use scout_site.Approval.{submit, decide}
use scout_site.Ledger.Post.{post_transaction}
use scout_site.Ledger.Accounts.{
  ensure_unit_general_account, ensure_external_account, ensure_scout_account, create_trip_fund,
  close_trip_fund,
}
use scout_site.Ledger.Reverse.{reverse_transaction}
use scout_site.Ledger.Transfer.{submit_expense_for_approval, request_trip_fund_transfer}
use scout_site.Ledger.Reconcile.{
  start_reconciliation, set_posting_cleared, complete_reconciliation, delete_reconciliation,
}
use scout_site.Ledger.Books.Accounts.{
  ensure_unit_general_account-Books, ensure_external_account-Books, ensure_scout_account-Books,
  create_trip_fund-Books, close_trip_fund-Books,
}
use scout_site.Ledger.Books.Approvals.{
  post_transaction-Books, submit_expense_for_approval-Books, request_trip_fund_transfer-Books,
  reverse_transaction-Books, submit-Books, decide-Books,
}
use scout_site.Ledger.Books.Reconciliations.{
  start_reconciliation-Books, set_posting_cleared-Books, complete_reconciliation-Books,
  delete_reconciliation-Books,
}

-- A call of an exported function that writes, with its arguments.
pub data Call : Type 0 where
  ensure_general ensure_external : ℕ → Call
  ensure_scout : ℕ → ℕ → String → Call
  create_fund : ℕ → ℕ → String → ℕ → Call
  close_fund : ℕ → ℕ → ℕ → Call
  post : ℕ → TransactionType → String → ℕ → List Posting → Call
  submit_expense : ℕ → String → ℕ → List Posting → Call
  request_transfer : ℕ → ℕ → ℕ → ℤ → String → ℕ → Call
  reverse : ℕ → ℕ → ℕ → Call
  submit_request : EntityType → ℕ → ℕ → ℕ → Call
  decide_request : ℕ → ℕ → ℕ → Bool → Call
  start : ℕ → ℕ → ℕ → ℤ → ℕ → Call
  tick : ℕ → ℕ → ℕ → Bool → Call
  complete delete : ℕ → ℕ → ℕ → Call
  new_fundraiser : ℕ → Bytes → AllocationMode → Bytes → ℤ → Option ℕ → ℕ → Call
  confirm_cap : ℕ → AllocationMode → Bytes → ℤ → ℕ → Call
  allocate : ℕ → ℕ → Bytes → ℤ → Bytes → ℕ → Call
  show_shop : ℕ → Option ℕ → Bool → Call
  place_order : ℕ → ℕ → Buyer → Option ℕ → List FundraiserOrderItem → Option ℕ → Call
  mark_paid cancel : ℕ → ℕ → Call
  resolve_scout : ℕ → Option ℕ → ℕ → Call

-- The call, of whose outcome only the database goes on.
unfoldable pub perform : Decimals → Call → M (Unit {0})
perform n (ensure_general unit) = ensure_unit_general_account unit >> pure tt
perform n (ensure_external unit) = ensure_external_account unit >> pure tt
perform n (ensure_scout unit member name) = ensure_scout_account unit member name >> pure tt
perform n (create_fund unit event name by) = create_trip_fund unit event name by >> pure tt
perform n (close_fund unit account by) = close_trip_fund unit account by >> pure tt
perform n (post unit type description by ps) =
    post_transaction unit type description by ps >> pure tt
perform n (submit_expense unit description by ps) =
    submit_expense_for_approval unit description by ps >> pure tt
perform n (request_transfer unit scout fund amount description by) =
    request_trip_fund_transfer unit scout fund amount description by >> pure tt
perform n (reverse unit t by) = reverse_transaction unit t by >> pure tt
perform n (submit_request kind id unit by) = submit kind id unit by >> pure tt
perform n (decide_request request unit by approve) = decide request unit by approve
perform n (start unit account date closing by) =
    start_reconciliation unit account date closing by >> pure tt
perform n (tick unit r posting cleared) = set_posting_cleared unit r posting cleared
perform n (complete unit r by) = complete_reconciliation unit r by >> pure tt
perform n (delete unit r by) = delete_reconciliation unit r by
perform n (new_fundraiser unit name mode percent cents event by) =
    create_fundraiser n unit name mode percent cents event by >> pure tt
perform n (confirm_cap id mode percent cents by) = confirm_fundraiser_cap n id mode percent cents by
perform n (allocate id member name gross quantity by) =
    record_fundraiser_allocation n id member name gross quantity by >> pure tt
perform n (show_shop unit id enabled) = set_storefront_fundraiser unit id enabled
perform n (place_order id unit buyer scout items by) =
    create_fundraiser_order id unit buyer scout items by >> pure tt
perform n (mark_paid id actor) = mark_fundraiser_order_paid n id actor >> pure tt
perform n (cancel id actor) = cancel_fundraiser_order id actor
perform n (resolve_scout id scout actor) =
    resolve_fundraiser_order_scout n id scout actor >> pure tt

-- A call, when it comes, and which of its statements fail.
pub record Event : Type 0 where
  pub call : Call
  pub now : ℕ
  pub faults : List Bool

unfoldable pub play : Decimals → List Event → Db → Db
play n [] d = d
play n (e ∷ es) d =
    play n es (perform n e.call (record { db = d; faults = e.faults; now = e.now })).1.db

abbrev pub no_logins : Logins
no_logins = record {
  users = [];
  login_failures = [];
  password_reset_requests = [];
  sessions = [];
  password_reset_tokens = [];
  pending_password_changes = [];
  totp_credentials = [];
  totp_backup_codes = [];
  pending_two_factor_logins = [];
  security_keys = [];
  webauthn_sessions = [];
}

abbrev pub no_fundraising : Fundraising
no_fundraising = record {
  fundraisers = [];
  fundraiser_allocations = [];
  fundraiser_items = [];
  fundraiser_orders = [];
  fundraiser_order_items = [];
  member_names = [];
}

abbrev pub no_mailings : Mailings
no_mailings = record {
  newsletters = [];
  newsletter_recipients = [];
  newsletter_audience_groups = [];
  sub_groups = [];
}

abbrev pub empty_db : Db
empty_db = record {
  accounts = [];
  transactions = [];
  postings = [];
  requests = [];
  reconciliations = [];
  events = [];
  audit = [];
  members = [];
  role_assignments = [];
  custom_roles = [];
  role_capability_overrides = [];
  logins = no_logins;
  fundraising = no_fundraising;
  mailings = no_mailings;
  next_id = 0;
  touched = [];
}

perform-Books : (n : Decimals) (c : Call) → Keeps Books (perform n c)
unfolding perform
perform-Books n (ensure_general unit) = search (keeps_rules, ensure_unit_general_account-Books)
perform-Books n (ensure_external unit) = search (keeps_rules, ensure_external_account-Books)
perform-Books n (ensure_scout unit member name) = search (keeps_rules, ensure_scout_account-Books)
perform-Books n (create_fund unit event name by) = search (keeps_rules, create_trip_fund-Books)
perform-Books n (close_fund unit account by) = search (keeps_rules, close_trip_fund-Books)
perform-Books n (post unit type description by ps) = search (keeps_rules, post_transaction-Books)
perform-Books n (submit_expense unit description by ps) =
    search (keeps_rules, submit_expense_for_approval-Books)
perform-Books n (request_transfer unit scout fund amount description by) =
    search (keeps_rules, request_trip_fund_transfer-Books)
perform-Books n (reverse unit t by) = search (keeps_rules, reverse_transaction-Books)
perform-Books n (submit_request kind id unit by) = search (keeps_rules, submit-Books)
perform-Books n (decide_request request unit by approve) = decide-Books request unit by approve
perform-Books n (start unit account date closing by) =
    search (keeps_rules, start_reconciliation-Books)
perform-Books n (tick unit r posting cleared) = set_posting_cleared-Books unit r posting cleared
perform-Books n (complete unit r by) = search (keeps_rules, complete_reconciliation-Books)
perform-Books n (delete unit r by) = delete_reconciliation-Books unit r by
perform-Books n (new_fundraiser unit name mode percent cents event by) =
    search (keeps_rules, create_fundraiser-Books)
perform-Books n (confirm_cap id mode percent cents by) =
    confirm_fundraiser_cap-Books n id mode percent cents by
perform-Books n (allocate id member name gross quantity by) =
    search (keeps_rules, record_fundraiser_allocation-Books)
perform-Books n (show_shop unit id enabled) = set_storefront_fundraiser-Books unit id enabled
perform-Books n (place_order id unit buyer scout items by) =
    search (keeps_rules, create_fundraiser_order-Books)
perform-Books n (mark_paid id actor) = search (keeps_rules, mark_fundraiser_order_paid-Books)
perform-Books n (cancel id actor) = cancel_fundraiser_order-Books id actor
perform-Books n (resolve_scout id scout actor) =
    search (keeps_rules, resolve_fundraiser_order_scout-Books)

pub Books-empty : Books empty_db
Books-empty = record {
  balanced = λ t. unfold scout_site.Store.Sums.sum_where in refl;
  scoped = tt;
  account_keys = tt;
  transaction_keys = tt;
  idle = refl;
}

-- Sound books stay sound, whatever calls are made and whichever statements fail: every transaction
-- in the database sums to exactly zero, every posting lies on an account of its transaction's unit,
-- no two accounts and no two transactions have one identifier, and no check of a sum is left over.
pub play-Books : (n : Decimals) (es : List Event) (d : Db) → Books d → Books (play n es d)
unfolding play
play-Books n [] d b = b
play-Books n (e ∷ es) d b =
    play-Books n es _ (outcome (perform n e.call world).0 _ ((perform-Books n e.call).at world b))
  where
    world : World
    world = record { db = d; faults = e.faults; now = e.now }

    outcome :
        (r : scout_site.Store.Sql.Result (Unit {0})) (d' : Db)
        → scout_site.Store.Triple.Outcome (λ _ x. Books x) Books r d'
        → Books d'
    outcome (scout_site.Store.Sql.Result.ok a) d' h = h
    outcome (scout_site.Store.Sql.Result.err e) d' h = h

-- Starting from empty tables, after any calls and any failures of their statements, the balances
-- of all accounts of a unit, the external one included, sum to exactly zero.
pub unit_total-play :
    (n : Decimals) (es : List Event) (unit : ℕ) → unit_total (play n es empty_db) unit ≡ pos 0
unit_total-play n es unit =
    unit_total-zero (play n es empty_db) unit (play-Books n es empty_db Books-empty)
