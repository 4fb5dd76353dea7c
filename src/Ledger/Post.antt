-- ===== src/Ledger/Post.antt =====
-- PostTransaction and insertTransaction, internal/ledger/ledger.go.
pub mod Guards
pub mod Exact
use Prim.Native.String.{String}
use scout_site.Prelude.{
  ℕ, ◌+◌, Bool, true, false, ◌&&◌, not, Option, none, some, List, [], ◌∷◌, ◌++◌, ltb, ◌==◌,
  if◌then◌else◌, length, select, any, find,
}
use scout_site.Prelude.Int.{ℤ, pos, add64, is_zero}
use scout_site.Store.Rows.{
  Account, AccountStatus, is_opened, Transaction, TransactionStatus, TransactionType, posted,
  pending_approval, rejected, Posting, PostingRow, Db, AuditEntry,
}
use scout_site.Store.Sql.{
  Error, db_error, too_few_postings, zero_amount, unbalanced, account_not_found, account_closed,
  Result, ok, err, M, pure, lift, ◌>>=◌, ◌>>◌, query, exec_tx, transact, audit_log,
}

abbrev pub member : ℕ → List ℕ → Bool
member i = any (λ j. j == i)

-- `if !seen[id]`: an account is listed at its first use.
unfoldable pub add_seen : ℕ → List ℕ → List ℕ
add_seen i ids = if member i ids then ids else ids ++ (i ∷ [])

-- The loop over the postings: the wrapped sum, and the accounts in the order of their first use.
unfoldable pub check_amounts : ℤ → List ℕ → List Posting → Result (List ℕ)
check_amounts sum ids [] = if is_zero sum then ok ids else err unbalanced
check_amounts sum ids (p ∷ ps) =
    let rest = check_amounts (add64 sum p.amount_cents) (add_seen p.account_id ids) ps in
    if is_zero p.amount_cents then err zero_amount else rest

unfoldable pub check_postings : List Posting → Result (List ℕ)
unfolding check_amounts
check_postings ps = if ltb (length ps) 2 then err too_few_postings else check_amounts (pos 0) [] ps

-- `SELECT id, status FROM ledger_accounts WHERE id = ANY($1) AND unit_id = $2`
unfoldable pub select_statuses : List ℕ → ℕ → List Account → List (ℕ × AccountStatus)
select_statuses ids unit [] = []
select_statuses ids unit (a ∷ rest) =
    if member a.id ids && a.unit_id == unit
    then (a.id, a.status) ∷ select_statuses ids unit rest
    else select_statuses ids unit rest

-- `statusByID[id]`; identifiers are unique, so the first row is the only one.
unfoldable pub status_of : ℕ → List (ℕ × AccountStatus) → Option AccountStatus
status_of id [] = none
status_of id ((i, st) ∷ rows) = if i == id then some st else status_of id rows

require_opened : Option AccountStatus → Result (Unit {0}) → Result (Unit {0})
require_opened none rest = err account_not_found
require_opened (some st) rest = if is_opened st then rest else err account_closed

unfoldable pub check_accounts : List ℕ → List (ℕ × AccountStatus) → Result (Unit {0})
unfolding require_opened
check_accounts [] rows = ok tt
check_accounts (id ∷ ids) rows = require_opened (status_of id rows) (check_accounts ids rows)

-- The arguments of insertTransaction that go into the row of the transaction.
pub record Draft : Type 0 where
  pub unit_id : ℕ
  pub transaction_type : TransactionType
  pub description : String
  pub created_by : ℕ
  pub status : TransactionStatus
  pub reverses_id : Option ℕ

abbrev pub same_id : ℕ → Option ℕ → Bool
same_id i none = false
same_id i (some j) = i == j

-- The unique index idx_ledger_transactions_one_reversal_per_transaction.
abbrev pub reversed_already : Option ℕ → List Transaction → Bool
reversed_already none ts = false
reversed_already (some r) ts = any (λ (t : Transaction). same_id r t.reverses_transaction_id) ts

abbrev pub new_transaction : Draft → ℕ → ℕ → Transaction
new_transaction x id now = record {
  id = id;
  unit_id = x.unit_id;
  transaction_type = x.transaction_type;
  description = x.description;
  status = x.status;
  created_by = x.created_by;
  approval_request_id = none;
  reverses_transaction_id = x.reverses_id;
  occurred_at = now;
}

abbrev pub with_transaction : Transaction → Db → Db
with_transaction t d = record d { transactions = t ∷ d.transactions; next_id = d.next_id + 1 }

-- `INSERT INTO ledger_transactions`
unfoldable pub insert_transaction_row : Draft → ℕ → Db → Result Transaction × Db
insert_transaction_row x now d =
    let t = new_transaction x d.next_id now in
    if reversed_already x.reverses_id d.transactions
    then (err db_error, d)
    else (ok t, with_transaction t d)

abbrev pub with_posting : ℕ → Posting → Db → Db
with_posting t p d = record d {
  postings =
      record {
        id = d.next_id;
        transaction_id = t;
        account_id = p.account_id;
        amount_cents = p.amount_cents;
        reconciliation_id = none;
      }
      ∷ d.postings;
  next_id = d.next_id + 1;
  touched = t ∷ d.touched;
}

-- `INSERT INTO ledger_postings`, with the constraint ledger_postings_amount_not_zero.
unfoldable pub insert_posting_row : ℕ → Posting → ℕ → Db → Result (Unit {0}) × Db
insert_posting_row t p now d =
    if is_zero p.amount_cents then (err db_error, d) else (ok tt, with_posting t p d)

unfoldable pub insert_postings : ℕ → List Posting → M (Unit {0})
insert_postings t [] = pure tt
insert_postings t (p ∷ ps) = exec_tx (insert_posting_row t p) >> insert_postings t ps

-- The database transaction of insertTransaction.
unfoldable pub record_transaction : Draft → List Posting → M Transaction
record_transaction x ps =
    transact (do t ← exec_tx (insert_transaction_row x); insert_postings t.id ps; pure t)

abbrev pub created : TransactionStatus → String
created posted = "create_posted"
created pending_approval = "create_pending_approval"
created rejected = "create_rejected"

abbrev pub audit_entry : String → ℕ → ℕ → String → AuditEntry
audit_entry kind id actor action = record {
  entity_type = kind;
  entity_id = id;
  actor_id = some actor;
  action = action;
  approval_request_id = none;
}

unfoldable pub insert_transaction : Draft → List Posting → M Transaction
insert_transaction x ps = do
  ids ← lift (check_postings ps)
  rows ← query (λ d. ok (select_statuses ids x.unit_id d.accounts))
  lift (check_accounts ids rows)
  t ← record_transaction x ps
  audit_log (audit_entry "ledger_transaction" t.id x.created_by (created x.status))
  pure t

abbrev pub ordinary : ℕ → TransactionType → String → ℕ → TransactionStatus → Draft
ordinary unit type description created_by status = record {
  unit_id = unit;
  transaction_type = type;
  description = description;
  created_by = created_by;
  status = status;
  reverses_id = none;
}

unfoldable pub post_transaction : ℕ → TransactionType → String → ℕ → List Posting → M Transaction
post_transaction unit type description created_by ps =
    insert_transaction (ordinary unit type description created_by posted) ps
