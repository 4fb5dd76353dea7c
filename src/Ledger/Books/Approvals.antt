-- ===== src/Ledger/Books/Approvals.antt =====
-- Submissions, decisions, transfers and reversals keep the books.
use mathlib.Core.Path.{subst}
use Prim.Native.String.{String}
use scout_site.Prelude.{
  ℕ, ◌≡◌, refl, ap, ◌∙◌, inl, inr, Bool, true, false, List, [], ◌∷◌, arith, find, All-map,
  update_where, Option-cases,
}
use scout_site.Prelude.Int.{ℤ}
use scout_site.Store.Rows.{
  Transaction, TransactionStatus, TransactionType, EntityType, event, ledger_transaction, entity,
  EventStatus, RequestStatus, Posting, Db,
}
use scout_site.Store.Triple.{
  Triple, Keeps, Triple-transact, Triple-bind, Triple-pure, Triple-map_error,
}
use scout_site.Store.Keeps.{Statement, exec_tx-Statement, Keeps-Triple, keeps_rules}
use scout_site.Store.Books.{Books, Books-same, has-update_where, transaction_ids-update_where}
use scout_site.Approval.{
  insert_request, submit, is_pending, update_request, update_event, update_transaction, check_debit,
  check_debits, apply_decision, decide_tx, decide,
}
use scout_site.Ledger.Accounts.{balance_for_account}
use scout_site.Ledger.Post.{post_transaction}
use scout_site.Ledger.Reverse.{reverse_transaction}
use scout_site.Ledger.Transfer.{
  update_request_id, submit_transaction, submit_expense_for_approval, request_trip_fund_transfer,
}
use scout_site.Ledger.Books.Recorded.{insert_transaction-Books}
use scout_site.Ledger.Books.Accounts.{Books-Stable}

-- An update of transactions that leaves their identifiers and units alone.
Books-update_where :
    (q : Transaction → Bool) (f : Transaction → Transaction)
    → ((x : Transaction) → (f x).id ≡ x.id)
    → ((x : Transaction) → (f x).unit_id ≡ x.unit_id)
    → (d : Db) → Books d
    → Books (record d { transactions = update_where q f d.transactions })
Books-update_where q f same_id same_unit d b = record {
  balanced = b.balanced;
  scoped =
      All-map
        (λ p s. record {
          unit_id = s.unit_id;
          of_transaction =
              has-update_where q f same_id same_unit d.transactions p.transaction_id s.unit_id
              ∙ s.of_transaction;
          of_account = s.of_account;
        })
        d.postings b.scoped;
  account_keys = b.account_keys;
  transaction_keys =
      rw (transaction_ids-update_where q f same_id d.transactions) b.transaction_keys;
  idle = b.idle;
}

update_transaction-Books :
    (status : TransactionStatus) (t : ℕ) → Statement Books (update_transaction status t)
unfolding update_transaction
update_transaction-Books status t = record {
  at = λ now d d' u b e.
      subst Books (ap (λ y. y.1) e) (Books-update_where _ _ (λ x. refl) (λ x. refl) d b);
}

pub update_request_id-Books : (t r : ℕ) → Statement Books (update_request_id t r)
unfolding update_request_id
update_request_id-Books t r = record {
  at = λ now d d' u b e.
      subst Books (ap (λ y. y.1) e) (Books-update_where _ _ (λ x. refl) (λ x. refl) d b);
}

update_event-Books : (status : EventStatus) (i : ℕ) → Statement Books (update_event status i)
unfolding update_event
update_event-Books status i = record {
  at = λ now d d' u b e.
      subst Books (ap (λ y. y.1) e) (Books-same d _ refl refl refl (omega arith) b.idle b);
}

pub insert_request-Books :
    (kind : EntityType) (i unit by : ℕ) → Statement Books (insert_request kind i unit by)
unfolding insert_request
insert_request-Books kind i unit by = record {
  at = λ now d d' u b e.
      subst Books (ap (λ y. y.1) e) (Books-same d _ refl refl refl (omega arith) b.idle b);
}

update_request-Books :
    (status : RequestStatus) (r unit by : ℕ) → Statement Books (update_request status r unit by)
unfolding update_request
update_request-Books status r unit by = record {
  at = λ now d d' u b e. elim (Option-cases (find (is_pending r unit) d.requests)) [
    | inl missing ↦ absurd (cc (ap (λ y. y.0) (rw (missing, update_request) at e)))
    | inr (x, found) ↦
        subst Books (ap (λ y. y.1) (rw (found, update_request) at e))
          (Books-same d _ refl refl refl (omega arith) b.idle b)
  ];
}

ruleset request_rules = (
  keeps_rules, Books-Stable, insert_request-Books, update_request_id-Books,
  insert_transaction-Books,
)

pub submit-Books : (kind : EntityType) (i unit by : ℕ) → Keeps Books (submit kind i unit by)
unfolding submit
submit-Books kind i unit by = search request_rules

check_debit-Books : (a : ℕ) (debit : ℤ) → Keeps Books (check_debit a debit)
unfolding check_debit
check_debit-Books a debit = search request_rules

check_debits-Books : (rows : List (ℕ × ℤ)) → Keeps Books (check_debits rows)
unfolding check_debits
check_debits-Books [] = search request_rules
check_debits-Books ((a, debit) ∷ rows) =
    search (request_rules, check_debit-Books a debit, check_debits-Books rows)

apply_decision-Books :
    (kind : EntityType) (i : ℕ) (approve : Bool)
    → Triple Books (apply_decision kind i approve) (λ _ d. Books d) (λ _. Unit)
unfolding apply_decision
apply_decision-Books event i true = exec_tx-Statement _ (update_event-Books _ i)
apply_decision-Books event i false = exec_tx-Statement _ (update_event-Books _ i)
apply_decision-Books ledger_transaction i true =
    Triple-bind _ _ (Keeps-Triple (search keeps_rules)) λ rows.
      Triple-bind _ _ (Keeps-Triple (check_debits-Books rows))
        λ _. exec_tx-Statement _ (update_transaction-Books _ i)
apply_decision-Books ledger_transaction i false = exec_tx-Statement _ (update_transaction-Books _ i)
apply_decision-Books (entity s) i approve = Triple-pure tt (λ d b. b)

decide_tx-Books : (r unit by : ℕ) (approve : Bool) → Keeps Books (decide_tx r unit by approve)
unfolding decide_tx
decide_tx-Books r unit by approve =
    Triple-transact {R = λ _. Books} _
      (Triple-bind {R = λ _. Books} _ _
        (Triple-map_error _ _ (exec_tx-Statement _ (update_request-Books _ r unit by)))
        (λ target.
          Triple-bind {R = λ _. Books} _ _ (apply_decision-Books target.0 target.1 approve)
            (λ _. Triple-pure target (λ d b. b))))
      (λ d a b s. Books-Stable.commit d b) (λ d b. b)

pub decide-Books : (r unit by : ℕ) (approve : Bool) → Keeps Books (decide r unit by approve)
unfolding decide
decide-Books r unit by approve = search (keeps_rules, Books-Stable, decide_tx-Books)

submit_transaction-Books :
    (unit by : ℕ) (t : Transaction) → Keeps Books (submit_transaction unit by t)
unfolding submit_transaction
submit_transaction-Books unit by t = search (request_rules, submit-Books)

pub post_transaction-Books :
    (unit : ℕ) (type : TransactionType) (description : String) (by : ℕ) (ps : List Posting)
    → Keeps Books (post_transaction unit type description by ps)
unfolding post_transaction
post_transaction-Books unit type description by ps = search request_rules

pub submit_expense_for_approval-Books :
    (unit : ℕ) (description : String) (by : ℕ) (ps : List Posting)
    → Keeps Books (submit_expense_for_approval unit description by ps)
unfolding submit_expense_for_approval
submit_expense_for_approval-Books unit description by ps =
    search (request_rules, submit_transaction-Books)

pub request_trip_fund_transfer-Books :
    (unit scout fund : ℕ) (amount : ℤ) (description : String) (by : ℕ)
    → Keeps Books (request_trip_fund_transfer unit scout fund amount description by)
unfolding request_trip_fund_transfer balance_for_account
request_trip_fund_transfer-Books unit scout fund amount description by =
    search (request_rules, submit_transaction-Books) depth 12

pub reverse_transaction-Books : (unit t by : ℕ) → Keeps Books (reverse_transaction unit t by)
unfolding reverse_transaction
reverse_transaction-Books unit t by = search request_rules depth 14
