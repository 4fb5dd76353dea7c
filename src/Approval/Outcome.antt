-- ===== src/Approval/Outcome.antt =====
-- The outcome of Decide, an approval and its audit entry.
use mathlib.Core.Path.{subst}
use scout_site.Prelude.{
  ℕ, ◌≡◌, refl, sym, ap, inl, inr, Bool, true, false, none, some, List, [], ◌∷◌, arith, find,
  update_where, Option-cases,
}
use scout_site.Prelude.Int.{pos, ◌≤ℤ◌}
use scout_site.Store.Rows.{
  Account, Transaction, PostingRow, posted, is_opened, EntityType, event, ledger_transaction,
  entity, Request, RequestStatus, Db, AuditEntry, EventRow,
}
use scout_site.Store.Sums.{balance}
use scout_site.Store.Sql.{Error, Result, ok, err, ok-injective, World, exec_tx}
use scout_site.Store.Triple.{
  Triple, Outcome, Triple-pure, Triple-bind, Triple-map_error, Triple-exec_tx, Triple-transact,
  Triple-audit_log, Triple-from,
}
use scout_site.Approval.{is_pending, decided, update_request, decision, decide_tx, decide}
use scout_site.Approval.Decision.{approved_transactions, Applied, apply_decision-Triple}

-- A request that has been decided is pending no more.
find-decided :
    (status : RequestStatus) (by now request unit : ℕ) (rs : List Request)
    → scout_site.Store.Rows.is_waiting status ≡ false
    → find
        (is_pending request unit)
        (update_where (is_pending request unit) (decided status by now) rs)
      ≡ none
find-decided status by now request unit [] h = refl
find-decided status by now request unit (r ∷ rs) h =
    ground (arith, find-decided status by now request unit rs h)

-- The request has been approved in `d`, which made it `d'`.
pub record Approved (request unit : ℕ) (d d' : Db) : Type 0 where
  pub row : Request
  pub was_pending : find (is_pending request unit) d.requests ≡ some row
  pub pending_no_more : find (is_pending request unit) d'.requests ≡ none
  pub accounts_are : d'.accounts ≡ d.accounts
  pub postings_are : d'.postings ≡ d.postings
  pub transactions_are :
      d'.transactions ≡ approved_transactions row.entity_type row.entity_id d.transactions
  pub no_overdraft : (a : ℕ) → pos 0 ≤ℤ balance d a → pos 0 ≤ℤ balance d' a

record Taken (request unit : ℕ) (d0 : Db) (target : EntityType × ℕ) (d : Db) : Type 0 where
  row : Request
  rows : List Request
  was_pending : find (is_pending request unit) d0.requests ≡ some row
  pending_no_more : find (is_pending request unit) rows ≡ none
  target_is : target ≡ (row.entity_type, row.entity_id)
  db_is : d ≡ record d0 { requests = rows }

module _ (request unit approver : ℕ) (d0 : Db) where
  take :
      (now : ℕ) (d : Db) (target : EntityType × ℕ)
      → update_request RequestStatus.approved request unit approver now d0 ≡ (ok target, d)
      → Taken request unit d0 target d
  unfolding update_request
  take now d target e = elim (Option-cases (find (is_pending request unit) d0.requests)) [
    | inl missing ↦ absurd (cc (ap (λ y. y.0) (rw (missing, update_request) at e)))
    | inr (r, found) ↦
        let e' = rw (found, update_request) at e in
        record {
          row = r;
          rows =
              update_where (is_pending request unit) (decided RequestStatus.approved approver now)
                d0.requests;
          was_pending = found;
          pending_no_more =
              find-decided RequestStatus.approved approver now request unit d0.requests refl;
          target_is = sym (ok-injective _ _ (ap (λ y. y.0) e'));
          db_is = sym (ap (λ y. y.1) e');
        }
  ]

  taken :
      Triple
        (λ d. d ≡ d0)
        (exec_tx (update_request RequestStatus.approved request unit approver))
        (λ target d. Taken request unit d0 target d)
        (λ _. Unit)
  taken =
      Triple-exec_tx _
        (λ now d d' target e f. take now d' target (
          subst
            (λ x.
              update_request RequestStatus.approved request unit approver now x ≡ (ok target, d'))
            e f))
        (λ d. tt)

  Approved-of :
      (target : EntityType × ℕ) (d d' : Db)
      → Taken request unit d0 target d
      → Applied target.0 target.1 d d'
      → Approved request unit d0 d'
  unfolding balance
  Approved-of target d d' t a =
      let p = subst (λ x. Applied target.0 target.1 x d') t.db_is a in
      let q = subst (λ x. Applied x.0 x.1 (record d0 { requests = t.rows }) d') t.target_is p in
      record {
        row = t.row;
        was_pending = t.was_pending;
        pending_no_more =
            subst (λ x. find (is_pending request unit) x ≡ none) (sym q.requests_are)
              t.pending_no_more;
        accounts_are = q.accounts_are;
        postings_are = q.postings_are;
        transactions_are = q.transactions_are;
        no_overdraft = λ i h. q.no_overdraft i h;
      }

  again :
      (d : Db) (t : List ℕ) (l : List AuditEntry)
      → Approved request unit d0 d
      → Approved request unit d0 (record d { touched = t; audit = l })
  unfolding balance
  again d t l a = record {
    row = a.row;
    was_pending = a.was_pending;
    pending_no_more = a.pending_no_more;
    accounts_are = a.accounts_are;
    postings_are = a.postings_are;
    transactions_are = a.transactions_are;
    no_overdraft = a.no_overdraft;
  }

  decide_tx-Triple :
      Triple
        (λ d. d ≡ d0)
        (decide_tx request unit approver true)
        (λ _ d. Approved request unit d0 d)
        (λ d. d ≡ d0)
  unfolding decide_tx
  decide_tx-Triple =
      Triple-transact {R = λ _ d. Approved request unit d0 d} _
        (Triple-bind {R = λ target d. Taken request unit d0 target d} _ _
          (Triple-map_error _ _ taken)
          (λ target. Triple-from _ λ d t.
            Triple-bind {R = λ _ d'. Applied target.0 target.1 d d'} _ _
              (apply_decision-Triple d target.0 target.1)
              (λ _. Triple-pure target (λ d' a. Approved-of target d d' t a))))
        (λ d target a s. again d _ _ a) (λ d e. e)

  decide-Triple :
      Triple
        (λ d. d ≡ d0)
        (decide request unit approver true)
        (λ _ d. Approved request unit d0 d)
        (λ d. d ≡ d0)
  unfolding decide
  decide-Triple =
      Triple-bind {R = λ _ d. Approved request unit d0 d} _ _ decide_tx-Triple
        (λ target. Triple-audit_log _ (λ d a. a) (λ d a. again d _ _ a))

-- An approval that returns without an error was of a request that was pending, and it is pending
-- no more; it leaves the accounts and the postings alone, changes of the transactions only the
-- status of the one it is about, to posted, and leaves no account overdrawn that was not before.
-- One that returns an error leaves the database as it was, whichever statement failed.
pub decide-Approved :
    (request unit approver : ℕ) (w : World)
    → let (r, w') = decide request unit approver true w in
      Outcome (λ _ d. Approved request unit w.db d) (λ d. d ≡ w.db) r w'.db
decide-Approved request unit approver w = (decide-Triple request unit approver w.db).at w refl

module _ (request unit approver : ℕ) (approve : Bool) (d0 : Db) where
  nothing_pending :
      find (is_pending request unit) d0.requests ≡ none
      → Triple
          (λ d. d ≡ d0)
          (exec_tx (update_request (decision approve) request unit approver))
          (λ _ _. ⊥)
          (λ _. Unit)
  unfolding update_request
  nothing_pending missing =
      Triple-exec_tx _
        (λ now d d' target e f.
          absurd (cc (ap (λ y. y.0) (rw (missing, update_request) at (rw e at f)))))
        (λ d. tt)

  decide_nothing-Triple :
      find (is_pending request unit) d0.requests ≡ none
      → Triple (λ d. d ≡ d0) (decide request unit approver approve) (λ _ _. ⊥) (λ d. d ≡ d0)
  unfolding decide decide_tx
  decide_nothing-Triple missing =
      Triple-bind {R = λ _ _. ⊥} _ _
        (Triple-transact {R = λ _ _. ⊥} _
          (Triple-bind {R = λ _ _. ⊥} _ _ (Triple-map_error _ _ (nothing_pending missing))
            (λ target. Triple-from _ λ d never. absurd never))
          (λ d a never s. never) (λ d e. e))
        (λ target. Triple-from _ λ d never. absurd never)

-- A request that is not pending in the unit cannot be decided: neither an approval nor a refusal
-- of it succeeds, and the database stays as it was. With `decide-Approved`, no request is
-- approved and then decided again.
pub decide-missing :
    (request unit approver : ℕ) (approve : Bool) (w : World)
    → find (is_pending request unit) w.db.requests ≡ none
    → let (r, w') = decide request unit approver approve w in
      ((e : Error) × (r ≡ err e)) × (w'.db ≡ w.db)
decide-missing request unit approver approve w missing =
    result (decide request unit approver approve w).0 _
      ((decide_nothing-Triple request unit approver approve w.db missing).at w refl)
  where
    result :
        (r : Result (Unit {0})) (d : Db)
        → Outcome (λ _ _. ⊥) (λ x. x ≡ w.db) r d
        → ((e : Error) × (r ≡ err e)) × (d ≡ w.db)
    result (ok a) d never = absurd never
    result (err e) d same = ((e, refl), same)
