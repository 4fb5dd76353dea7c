-- ===== src/Ledger/Accounts.antt =====
-- Accounts of a unit's books, internal/ledger/ledger.go: EnsureUnitGeneralAccount,
-- EnsureExternalAccount, EnsureScoutAccount with their lookups, ScoutAccountForMember,
-- CreateTripFund, CloseTripFund, GetAccount and the balances.
use Prim.Native.String.{String}
use scout_site.Prelude.{
  ℕ, ◌+◌, Bool, true, false, ◌&&◌, Option, none, some, List, ◌∷◌, ltb, ◌==◌, if◌then◌else◌, any,
  find, update_where,
}
use scout_site.Prelude.Int.{ℤ, fits, is_zero}
use scout_site.Store.Rows.{
  Account, AccountType, unit_general, scout_individual, trip_fund, external, same_type, opened,
  closed, is_opened, Transaction, is_posted, Db,
}
use scout_site.Store.Sums.{sum_where}
use scout_site.Store.Sql.{
  db_error, no_rows, unique_violation, account_not_found, account_closed, trip_fund_exists,
  account_balance_not_zero, not_a_trip_fund, Result, ok, err, M, pure, raise, lift, ◌>>=◌, ◌>>◌,
  query, exec, audit_log, map_error, replace_no_rows, replace_unique, if_no_rows,
}
use scout_site.Approval.{scan_balance}
use scout_site.Ledger.Post.{audit_entry, same_id}

abbrev pub row_found : Option Account → Result Account
row_found none = err no_rows
row_found (some a) = ok a

-- The partial unique indexes of ledger_accounts: one general and one external account for a unit,
-- one individual account for a Scout in a unit, one trip fund for an event in a unit.
abbrev same_owner : Option ℕ → Option ℕ → Bool
same_owner none j = false
same_owner (some i) j = same_id i j

abbrev same_key : AccountType → Account → Account → Bool
same_key unit_general x y = true
same_key external x y = true
same_key scout_individual x y = same_owner x.member_id y.member_id
same_key trip_fund x y = same_owner x.event_id y.event_id

abbrev pub conflicts : Account → Account → Bool
conflicts x y =
    same_type x.account_type y.account_type && x.unit_id == y.unit_id && same_key x.account_type x y

abbrev pub with_account : Account → Db → Db
with_account a d = record d { accounts = a ∷ d.accounts; next_id = d.next_id + 1 }

-- The columns of a new row that the callers choose.
pub record NewAccount : Type 0 where
  pub unit_id : ℕ
  pub account_type : AccountType
  pub member_id : Option ℕ
  pub event_id : Option ℕ
  pub name : String

abbrev pub new_account : NewAccount → ℕ → Account
new_account n id = record {
  id = id;
  unit_id = n.unit_id;
  account_type = n.account_type;
  member_id = n.member_id;
  event_id = n.event_id;
  name = n.name;
  status = opened;
}

-- `INSERT INTO ledger_accounts`, where a conflict is the error `clash`: with ON CONFLICT DO
-- NOTHING no row comes back, and without it the index is violated.
unfoldable pub insert_account :
    scout_site.Store.Sql.Error → NewAccount → ℕ → Db → Result Account × Db
insert_account clash n now d =
    let a = new_account n d.next_id in
    if any (conflicts a) d.accounts then (err clash, d) else (ok a, with_account a d)

unfoldable pub get_unit_general_account : ℕ → M Account
get_unit_general_account unit = query (λ d.
    row_found (
      find (λ (a : Account). a.unit_id == unit && same_type a.account_type unit_general)
        d.accounts))

unfoldable pub get_external_account : ℕ → M Account
get_external_account unit = query (λ d.
    row_found
      (find (λ (a : Account). a.unit_id == unit && same_type a.account_type external) d.accounts))

unfoldable pub get_scout_account : ℕ → ℕ → M Account
get_scout_account unit member = query (λ d. row_found (
    find
      (λ (a : Account).
        a.unit_id == unit
        && same_type a.account_type scout_individual
        && same_id member a.member_id)
      d.accounts))

-- The three Ensure functions: look up, else insert, and look up again where the insert made no row.
unfoldable pub ensure : M Account → NewAccount → M Account
ensure get n = if_no_rows get (if_no_rows (exec (insert_account no_rows n)) get)

unfoldable pub ensure_unit_general_account : ℕ → M Account
unfolding ensure get_unit_general_account
ensure_unit_general_account unit = ensure (get_unit_general_account unit) (record {
  unit_id = unit;
  account_type = unit_general;
  member_id = none;
  event_id = none;
  name = "General Fund";
})

unfoldable pub ensure_external_account : ℕ → M Account
unfolding ensure get_external_account
ensure_external_account unit = ensure (get_external_account unit) (record {
  unit_id = unit;
  account_type = external;
  member_id = none;
  event_id = none;
  name = "External (Deposits & Withdrawals)";
})

-- `name` is memberName + " — Individual Account".
unfoldable pub ensure_scout_account : ℕ → ℕ → String → M Account
unfolding ensure get_scout_account
ensure_scout_account unit member name = ensure (get_scout_account unit member) (record {
  unit_id = unit;
  account_type = scout_individual;
  member_id = some member;
  event_id = none;
  name = name;
})

unfoldable pub create_trip_fund : ℕ → ℕ → String → ℕ → M Account
create_trip_fund unit event name created_by = do
  a ← map_error (replace_unique trip_fund_exists) (
      exec (
        insert_account unique_violation (record {
          unit_id = unit;
          account_type = trip_fund;
          member_id = none;
          event_id = some event;
          name = name;
        })))
  audit_log (audit_entry "ledger_account" a.id created_by "create_trip_fund")
  pure a

unfoldable pub find_account : ℕ → Db → Result Account
find_account a d = row_found (find (λ (x : Account). x.id == a) d.accounts)

unfoldable pub get_account : ℕ → M Account
get_account a = query (find_account a)

unfoldable pub balance_for_account : ℕ → M ℤ
balance_for_account a = query (scan_balance a)

-- A posted transaction of that id that occurred strictly before a time.
abbrev counts_before : ℕ → List Transaction → ℕ → Bool
counts_before as_of ts t =
    any (λ (x : Transaction). x.id == t && is_posted x.status && ltb x.occurred_at as_of) ts

unfoldable balance_as_of : Db → ℕ → ℕ → ℤ
balance_as_of d a as_of =
    sum_where (λ p. p.account_id == a && counts_before as_of d.transactions p.transaction_id)
      d.postings

unfoldable balance_for_account_as_of : ℕ → ℕ → M ℤ
balance_for_account_as_of a as_of =
    query
      (λ d. if fits (balance_as_of d a as_of) then ok (balance_as_of d a as_of) else err db_error)

abbrev pub closed_account : ℕ → List Account → List Account
closed_account a =
    update_where (λ (x : Account). x.id == a) (λ (x : Account). record x { status = closed })

-- `UPDATE ledger_accounts SET status = 'closed' WHERE id = $1`
unfoldable pub update_closed : ℕ → ℕ → Db → Result (Unit {0}) × Db
update_closed a now d = (ok tt, record d { accounts = closed_account a d.accounts })

unfoldable pub check_closable : ℕ → Account → Result (Unit {0})
check_closable unit a =
    if a.unit_id == unit
    then if same_type a.account_type trip_fund
      then if is_opened a.status then ok tt else err account_closed
      else err not_a_trip_fund
    else err account_not_found

unfoldable pub close_trip_fund : ℕ → ℕ → ℕ → M Account
close_trip_fund unit account closed_by = do
  a ← map_error (replace_no_rows account_not_found) (get_account account)
  lift (check_closable unit a)
  held ← balance_for_account account
  lift (if is_zero held then ok tt else err account_balance_not_zero)
  exec (update_closed account)
  audit_log (audit_entry "ledger_account" a.id closed_by "close_trip_fund")
  pure (record a { status = closed })
