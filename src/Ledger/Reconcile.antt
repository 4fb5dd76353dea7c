-- ===== src/Ledger/Reconcile.antt =====
-- Bank reconciliation, internal/ledger/reconciliation.go.
use scout_site.Prelude.{
  ℕ, ◌+◌, Bool, true, false, not, ◌&&◌, ◌||◌, Option, none, some, List, [], ◌∷◌, ltb, ◌==◌,
  if◌then◌else◌, any, find, select, update_where, length,
}
use scout_site.Prelude.Int.{ℤ, pos, add64, sub64, is_zero, fits}
use scout_site.Store.Rows.{
  Transaction, PostingRow, Reconciliation, underway, completed, is_completed, Db,
}
use scout_site.Store.Sums.{sum_where, counts, owns}
use scout_site.Store.Sql.{
  db_error, no_rows, unique_violation, account_not_found, reconciliation_not_found,
  reconciliation_open, reconciliation_closed, reconciliation_not_balanced, posting_not_reconcilable,
  Result, ok, err, M, pure, lift, ◌>>=◌, ◌>>◌, query, exec, clock, audit_log, map_error,
  replace_no_rows, replace_unique,
}
use scout_site.Ledger.Post.{audit_entry, same_id}

abbrev completed_time : Option ℕ → ℕ
completed_time none = 0
completed_time (some t) = t

-- `ORDER BY statement_date DESC, completed_at DESC`: whether `x` comes before `y`.
abbrev comes_first : Reconciliation → Reconciliation → Bool
comes_first x y =
    ltb y.statement_date x.statement_date
    || (x.statement_date == y.statement_date
        && ltb (completed_time y.completed_at) (completed_time x.completed_at))

later_of : Reconciliation → Option Reconciliation → Reconciliation
later_of x none = x
later_of x (some y) = if comes_first y x then y else x

-- The latest completed reconciliation of an account.
unfoldable pub latest_completed : ℕ → List Reconciliation → Option Reconciliation
unfolding later_of
latest_completed a [] = none
latest_completed a (x ∷ xs) =
    if x.account_id == a && is_completed x.status
    then some (later_of x (latest_completed a xs))
    else latest_completed a xs

-- Its closing balance, or zero for the first reconciliation.
unfoldable pub opening_balance : ℕ → List Reconciliation → ℤ
opening_balance a xs = elim (latest_completed a xs) [
  | none ↦ pos 0
  | some x ↦ x.closing_balance_cents
]

abbrev pub is_underway_of : ℕ → Reconciliation → Bool
is_underway_of a x = x.account_id == a && not (is_completed x.status)

-- `INSERT INTO bank_reconciliations`, with the index bank_reconciliations_one_open_per_account.
unfoldable pub insert_reconciliation : ℕ → ℕ → ℕ → ℤ → ℤ → ℕ → ℕ → Db → Result Reconciliation × Db
insert_reconciliation unit account date opening closing created_by now d =
    let x : Reconciliation = record {
      id = d.next_id;
      unit_id = unit;
      account_id = account;
      statement_date = date;
      opening_balance_cents = opening;
      closing_balance_cents = closing;
      status = underway;
      created_by = created_by;
      completed_by = none;
      completed_at = none;
    } in
    if any (is_underway_of account) d.reconciliations
    then (err unique_violation, d)
    else (ok x, record d { reconciliations = x ∷ d.reconciliations; next_id = d.next_id + 1 })

unfoldable pub start_reconciliation : ℕ → ℕ → ℕ → ℤ → ℕ → M Reconciliation
start_reconciliation unit account date closing created_by = do
  known ← query (λ d. ok (owns d.accounts account unit))
  lift (if known then ok tt else err account_not_found)
  opening ← query (λ d. ok (opening_balance account d.reconciliations))
  x ←
      map_error (replace_unique reconciliation_open)
        (exec (insert_reconciliation unit account date opening closing created_by))
  audit_log (audit_entry "bank_reconciliation" x.id created_by "create")
  pure x

abbrev reconciliation_found : Option Reconciliation → Result Reconciliation
reconciliation_found none = err no_rows
reconciliation_found (some x) = ok x

unfoldable pub find_reconciliation : ℕ → ℕ → Db → Result Reconciliation
find_reconciliation unit r d =
    reconciliation_found
      (find (λ (x : Reconciliation). x.id == r && x.unit_id == unit) d.reconciliations)

unfoldable pub get_reconciliation : ℕ → ℕ → M Reconciliation
get_reconciliation unit r =
    map_error (replace_no_rows reconciliation_not_found) (query (find_reconciliation unit r))

abbrev pub is_uncleared : Option ℕ → Bool
is_uncleared none = true
is_uncleared (some r) = false

-- A posted posting of an account that is ticked off on reconciliation `r`.
abbrev pub is_cleared : List Transaction → ℕ → ℕ → PostingRow → Bool
is_cleared ts account r p =
    p.account_id == account && counts ts p.transaction_id && same_id r p.reconciliation_id

abbrev pub is_outstanding : List Transaction → ℕ → PostingRow → Bool
is_outstanding ts account p =
    p.account_id == account && counts ts p.transaction_id && is_uncleared p.reconciliation_id

pub record ReconciliationSummary : Type 0 where
  pub reconciliation : Reconciliation
  pub cleared_total_cents : ℤ
  pub cleared_count : ℕ
  pub uncleared_count : ℕ
  pub uncleared_total : ℤ

unfoldable pub cleared_total : Db → ℕ → ℕ → ℤ
cleared_total d account r = sum_where (is_cleared d.transactions account r) d.postings

unfoldable pub outstanding_total : Db → ℕ → ℤ
outstanding_total d account = sum_where (is_outstanding d.transactions account) d.postings

-- The sums of the query, if both are int64.
unfoldable pub read_summary : Reconciliation → ℕ → Db → Result ReconciliationSummary
read_summary x r d =
    if fits (cleared_total d x.account_id r) && fits (outstanding_total d x.account_id)
    then ok (record {
      reconciliation = x;
      cleared_total_cents = cleared_total d x.account_id r;
      cleared_count = length (select (is_cleared d.transactions x.account_id r) d.postings);
      uncleared_count = length (select (is_outstanding d.transactions x.account_id) d.postings);
      uncleared_total = outstanding_total d x.account_id;
    })
    else err db_error

unfoldable pub summarize_reconciliation : ℕ → ℕ → M ReconciliationSummary
summarize_reconciliation unit r = do x ← get_reconciliation unit r; query (read_summary x r)

unfoldable pub cleared_balance_cents : ReconciliationSummary → ℤ
cleared_balance_cents s = add64 s.reconciliation.opening_balance_cents s.cleared_total_cents

unfoldable pub difference_cents : ReconciliationSummary → ℤ
difference_cents s = sub64 s.reconciliation.closing_balance_cents (cleared_balance_cents s)

unfoldable pub balanced : ReconciliationSummary → Bool
balanced s = is_zero (difference_cents s)

-- The rows of ReconciliationItems, without their order.
unfoldable reconciliation_items : ℕ → ℕ → M (List PostingRow)
reconciliation_items unit r = do
  x ← get_reconciliation unit r
  query (λ d. ok (
      select
        (λ p.
          is_outstanding d.transactions x.account_id p
          || is_cleared d.transactions x.account_id r p)
        d.postings))

-- The WHERE clause of SetPostingCleared.
abbrev pub can_tick : List Transaction → ℕ → ℕ → ℕ → PostingRow → Bool
can_tick ts account r posting p =
    p.id == posting && (is_outstanding ts account p || is_cleared ts account r p)

abbrev pub ticked : Option ℕ → PostingRow → PostingRow
ticked target p = record p { reconciliation_id = target }

-- The transactions of the rows that an UPDATE touches.
unfoldable pub touched_by : (PostingRow → Bool) → List PostingRow → List ℕ
touched_by q [] = []
touched_by q (p ∷ ps) = if q p then p.transaction_id ∷ touched_by q ps else touched_by q ps

abbrev pub with_marks : (PostingRow → Bool) → Option ℕ → Db → Db
with_marks q target d = record d {
  postings = update_where q (ticked target) d.postings;
  touched = touched_by q d.postings;
}

unfoldable pub update_cleared : Option ℕ → ℕ → ℕ → ℕ → ℕ → Db → Result (Unit {0}) × Db
update_cleared target account r posting now d =
    if any (can_tick d.transactions account r posting) d.postings
    then (ok tt, with_marks (can_tick d.transactions account r posting) target d)
    else (err posting_not_reconcilable, d)

unfoldable pub set_posting_cleared : ℕ → ℕ → ℕ → Bool → M (Unit {0})
set_posting_cleared unit r posting cleared = do
  x ← get_reconciliation unit r
  lift (if is_completed x.status then err reconciliation_closed else ok tt)
  exec (update_cleared (if cleared then some r else none) x.account_id r posting)

abbrev pub is_open_row : ℕ → ℕ → Reconciliation → Bool
is_open_row unit r x = x.id == r && x.unit_id == unit && not (is_completed x.status)

abbrev pub signed_off : ℕ → ℕ → Reconciliation → Reconciliation
signed_off actor now x = record x {
  status = completed;
  completed_by = some actor;
  completed_at = some now;
}

unfoldable pub update_completed : ℕ → ℕ → ℕ → ℕ → Db → Result (Unit {0}) × Db
update_completed unit r actor now d =
    if any (is_open_row unit r) d.reconciliations
    then (
      ok tt,
      record d {
        reconciliations =
            update_where (is_open_row unit r) (signed_off actor now) d.reconciliations;
      },
    )
    else (err reconciliation_closed, d)

unfoldable pub complete_reconciliation : ℕ → ℕ → ℕ → M ReconciliationSummary
complete_reconciliation unit r actor = do
  s ← summarize_reconciliation unit r
  lift (if is_completed s.reconciliation.status then err reconciliation_closed else ok tt)
  lift (if balanced s then ok tt else err reconciliation_not_balanced)
  exec (update_completed unit r actor)
  audit_log (audit_entry "bank_reconciliation" r actor "approve")
  now ← clock
  pure (record s { reconciliation = signed_off actor now s.reconciliation })

-- The DELETE, and the ON DELETE SET NULL of the postings' foreign key.
unfoldable pub delete_open : ℕ → ℕ → ℕ → Db → Result (Unit {0}) × Db
delete_open unit r now d =
    if any (is_open_row unit r) d.reconciliations
    then (
      ok tt,
      with_marks (λ p. same_id r p.reconciliation_id) none
          (record d {
            reconciliations = select (λ x. not (is_open_row unit r x)) d.reconciliations;
          }),
    )
    else (err reconciliation_closed, d)

unfoldable pub delete_reconciliation : ℕ → ℕ → ℕ → M (Unit {0})
delete_reconciliation unit r actor = do
  x ← get_reconciliation unit r
  lift (if is_completed x.status then err reconciliation_closed else ok tt)
  exec (delete_open unit r)
  audit_log (audit_entry "bank_reconciliation" r actor "delete")
