-- ===== src/Approval.antt =====
-- The approval workflow, internal/approval/approval.go.
pub mod Debits
pub mod Decision
pub mod Outcome
mod Tests
use Prim.Native.String.{String}
use mathlib.Core.List.{reverse}
use scout_site.Prelude.{
  ℕ, ◌+◌, Bool, true, false, ◌&&◌, Option, none, some, List, [], ◌∷◌, ltb, ◌==◌, if◌then◌else◌,
  find, select, update_where,
}
use scout_site.Prelude.Int.{ℤ, pos, add64, ltb_ℤ, fits}
use scout_site.Store.Rows.{
  Account, AccountStatus, is_opened, Transaction, TransactionStatus, posted, rejected, PostingRow,
  EntityType, event, ledger_transaction, entity, Request, RequestStatus, is_waiting, EventRow,
  EventStatus, Db, AuditEntry,
}
use scout_site.Store.Sums.{sum_where, balance}
use scout_site.Store.Sql.{
  db_error, no_rows, request_not_found, request_insufficient_funds, request_account_closed, Result,
  ok, err, M, pure, lift, ◌>>=◌, ◌>>◌, query, exec_tx, exec, transact, audit_log, map_error,
  replace_no_rows,
}

abbrev entity_name : EntityType → String
entity_name event = "event"
entity_name ledger_transaction = "ledger_transaction"
entity_name (entity s) = s

abbrev with_request : Request → Db → Db
with_request r d = record d { requests = r ∷ d.requests; next_id = d.next_id + 1 }

-- `INSERT INTO approval_requests`
unfoldable pub insert_request : EntityType → ℕ → ℕ → ℕ → ℕ → Db → Result Request × Db
insert_request kind id unit submitter now d =
    let r : Request = record {
      id = d.next_id;
      entity_type = kind;
      entity_id = id;
      unit_id = unit;
      submitted_by = submitter;
      status = RequestStatus.waiting;
      decided_by = none;
      decided_at = none;
    } in
    (ok r, with_request r d)

abbrev decision_entry : EntityType → ℕ → ℕ → String → Option ℕ → AuditEntry
decision_entry kind id actor action request = record {
  entity_type = entity_name kind;
  entity_id = id;
  actor_id = some actor;
  action = action;
  approval_request_id = request;
}

unfoldable pub submit : EntityType → ℕ → ℕ → ℕ → M Request
submit kind id unit submitter = do
  r ← exec (insert_request kind id unit submitter)
  audit_log (decision_entry kind id submitter "submit_for_approval" none)
  pure r

abbrev pub is_pending : ℕ → ℕ → Request → Bool
is_pending request unit r = r.id == request && r.unit_id == unit && is_waiting r.status

abbrev pub decided : RequestStatus → ℕ → ℕ → Request → Request
decided status approver now r = record r {
  status = status;
  decided_by = some approver;
  decided_at = some now;
}

-- `UPDATE approval_requests ... WHERE id = $3 AND unit_id = $4 AND status = 'pending' RETURNING`
unfoldable pub update_request : RequestStatus → ℕ → ℕ → ℕ → ℕ → Db → Result (EntityType × ℕ) × Db
update_request status request unit approver now d =
    elim (find (is_pending request unit) d.requests) [
      | none ↦ (err no_rows, d)
      | some r ↦ (
        ok (r.entity_type, r.entity_id),
        record d {
          requests =
              update_where (is_pending request unit) (decided status approver now) d.requests;
        },
      )
    ]

-- `UPDATE events SET status = $1, updated_at = now() WHERE id = $2`
unfoldable pub update_event : EventStatus → ℕ → ℕ → Db → Result (Unit {0}) × Db
update_event status id now d = (
  ok tt,
  record d {
    events =
        update_where (λ (e : EventRow). e.id == id)
          (λ (e : EventRow). record e { status = status; updated_at = now }) d.events;
  },
)

abbrev pub set_status : TransactionStatus → ℕ → List Transaction → List Transaction
set_status status id =
    update_where (λ (t : Transaction). t.id == id)
      (λ (t : Transaction). record t { status = status })

-- `UPDATE ledger_transactions SET status = $1 WHERE id = $2`
unfoldable pub update_transaction : TransactionStatus → ℕ → ℕ → Db → Result (Unit {0}) × Db
update_transaction status id now d =
    (ok tt, record d { transactions = set_status status id d.transactions })

abbrev pub is_debit : ℕ → PostingRow → Bool
is_debit t p = p.transaction_id == t && ltb_ℤ p.amount_cents (pos 0)

-- A set of keys in ascending order, as `ORDER BY account_id` gives them and `sortedKeys` visits.
pub insert_key : ℕ → List ℕ → List ℕ
insert_key k [] = k ∷ []
insert_key k (j ∷ js) =
    if k == j then j ∷ js else (if ltb k j then k ∷ j ∷ js else j ∷ insert_key k js)

pub debited_accounts : ℕ → List PostingRow → List ℕ
unfolding insert_key
debited_accounts t [] = []
debited_accounts t (p ∷ ps) =
    if is_debit t p then insert_key p.account_id (debited_accounts t ps) else debited_accounts t ps

abbrev pub debit_sum : ℕ → ℕ → List PostingRow → ℤ
debit_sum t a = sum_where (λ p. is_debit t p && p.account_id == a)

-- The rows of `SELECT account_id, SUM(amount_cents) ... GROUP BY account_id`; a sum that is no
-- int64 cannot be scanned.
pub group_debits : ℕ → List PostingRow → List ℕ → Result (List (ℕ × ℤ))
group_debits t ps [] = ok []
group_debits t ps (a ∷ rest) = elim (group_debits t ps rest) [
  | err e ↦ err e
  | ok rows ↦ if fits (debit_sum t a ps) then ok ((a, debit_sum t a ps) ∷ rows) else err db_error
]

abbrev status_found : Option Account → Result AccountStatus
status_found none = err no_rows
status_found (some a) = ok a.status

-- `SELECT status FROM ledger_accounts WHERE id = $1 FOR UPDATE`
unfoldable pub account_status : ℕ → Db → Result AccountStatus
account_status a d = status_found (find (λ (x : Account). x.id == a) d.accounts)

-- A balance that is no int64 cannot be scanned.
unfoldable pub scan_balance : ℕ → Db → Result ℤ
scan_balance a d = if fits (balance d a) then ok (balance d a) else err db_error

-- One round of the loop over the debited accounts.
unfoldable pub check_debit : ℕ → ℤ → M (Unit {0})
check_debit a debit = do
  status ← query (account_status a)
  lift (if is_opened status then ok tt else err request_account_closed)
  held ← query (scan_balance a)
  lift (if ltb_ℤ (add64 held debit) (pos 0) then err request_insufficient_funds else ok tt)

unfoldable pub check_debits : List (ℕ × ℤ) → M (Unit {0})
check_debits [] = pure tt
check_debits ((a, debit) ∷ rest) = check_debit a debit >> check_debits rest

-- The switch on the entity type, inside the database transaction.
unfoldable pub apply_decision : EntityType → ℕ → Bool → M (Unit {0})
apply_decision event id true = exec_tx (update_event EventStatus.published id)
apply_decision event id false = exec_tx (update_event EventStatus.withdrawn id)
apply_decision ledger_transaction id true = do
  debits ← query (λ d. group_debits id d.postings (debited_accounts id d.postings))
  check_debits debits
  exec_tx (update_transaction posted id)
apply_decision ledger_transaction id false = exec_tx (update_transaction rejected id)
apply_decision (entity s) id approve = pure tt

abbrev decision : Bool → RequestStatus
decision true = RequestStatus.approved
decision false = RequestStatus.refused

unfoldable pub decide_tx : ℕ → ℕ → ℕ → Bool → M (EntityType × ℕ)
decide_tx request unit approver approve = transact (do
  target ←
      map_error (replace_no_rows request_not_found)
        (exec_tx (update_request (decision approve) request unit approver))
  apply_decision target.0 target.1 approve
  pure target)

unfoldable pub decide : ℕ → ℕ → ℕ → Bool → M (Unit {0})
decide request unit approver approve = do
  target ← decide_tx request unit approver approve
  audit_log (
      decision_entry target.0 target.1 approver (if approve then "approve" else "reject")
        (some request))

-- The rows of PendingForUnit. Rows are listed newest first, and the query orders by age.
unfoldable pending_for_unit : ℕ → M (List Request)
pending_for_unit unit = query (λ d.
    ok (reverse (select (λ (r : Request). r.unit_id == unit && is_waiting r.status) d.requests)))
