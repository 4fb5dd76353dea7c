-- ===== src/Ledger/Outcomes/Complete.antt =====
-- The outcome of CompleteReconciliation.

use scout_site.Prelude.{
  ℕ, ◌≡◌, refl, sym, ap, ◌∙◌, inl, inr, true, false, ◌&&◌, List, [], ◌∷◌, arith, any, update_where,
  Bool-cases,
}
use scout_site.Prelude.Int.{pos, add64, sub64, is_zero_iff, fits}
use scout_site.Store.Rows.{Reconciliation, is_completed, Db, AuditEntry}
use scout_site.Store.Sql.{ok, ok-injective, World, committed}
use scout_site.Store.Triple.{
  Triple, Outcome, Triple-pure, Triple-bind, Triple-lift, Triple-query, Triple-map_error,
  Triple-exec, Triple-audit_log, Triple-clock, with_entry,
}
use scout_site.Approval.Decision.{guard-false}
use scout_site.Ledger.Reconcile.{
  find_reconciliation, get_reconciliation, summarize_reconciliation, ReconciliationSummary,
  cleared_total, outstanding_total, read_summary, cleared_balance_cents, difference_cents, balanced,
  is_open_row, signed_off, update_completed, complete_reconciliation,
}
use scout_site.Ledger.Outcomes.Close.{guard-true}

-- The reconciliation `r` of the unit has been completed in `d`, which made it `d'`.
pub record Completed (unit r actor : ℕ) (d d' : Db) : Type 0 where
  pub row : Reconciliation
  pub now : ℕ
  pub found : find_reconciliation unit r d ≡ ok row
  pub was_underway : is_completed row.status ≡ false
  pub adds_up :
      sub64 row.closing_balance_cents
        (add64 row.opening_balance_cents (cleared_total d row.account_id r))
      ≡ pos 0
  pub reconciliations_are :
      d'.reconciliations
      ≡ update_where (is_open_row unit r) (signed_off actor now) d.reconciliations
  pub open_no_more : any (is_open_row unit r) d'.reconciliations ≡ false
  pub accounts_are : d'.accounts ≡ d.accounts
  pub transactions_are : d'.transactions ≡ d.transactions
  pub postings_are : d'.postings ≡ d.postings

none_open :
    (unit r actor now : ℕ) (xs : List Reconciliation)
    → any (is_open_row unit r) (update_where (is_open_row unit r) (signed_off actor now) xs) ≡ false
none_open unit r actor now [] = refl
none_open unit r actor now (x ∷ xs) = elim (Bool-cases (is_open_row unit r x)) [
  | inl e ↦ rw e (ground (arith, none_open unit r actor now xs))
  | inr e ↦ rw (e, e) (none_open unit r actor now xs)
]

-- What a summary of `x` says.
record Summarized (x : Reconciliation) (r : ℕ) (d : Db) (s : ReconciliationSummary) : Type 0 where
  of_row : s.reconciliation ≡ x
  total_is : s.cleared_total_cents ≡ cleared_total d x.account_id r

read_summary-ok :
    (x : Reconciliation) (r : ℕ) (d : Db) (s : ReconciliationSummary)
    → read_summary x r d ≡ ok s
    → Summarized x r d s
unfolding read_summary
read_summary-ok x r d s e =
    elim (Bool-cases
      (fits (cleared_total d x.account_id r) && fits (outstanding_total d x.account_id))) [
        | inl h ↦
            let is = sym (ok-injective _ _ (rw h at e)) in
            record {
              of_row = ap (λ (z : ReconciliationSummary). z.reconciliation) is;
              total_is = ap (λ (z : ReconciliationSummary). z.cleared_total_cents) is;
            }
        | inr h ↦ absurd (cc (rw h at e))
      ]

module _ (unit r actor : ℕ) (d0 : Db) where
  -- What has been found when all the guards have passed.
  abbrev Ready : Reconciliation → Type 0
  Ready x =
      (find_reconciliation unit r d0 ≡ ok x)
      × (is_completed x.status ≡ false)
      × (sub64 x.closing_balance_cents
            (add64 x.opening_balance_cents (cleared_total d0 x.account_id r))
          ≡ pos 0)

  ready :
      (x : Reconciliation) (s : ReconciliationSummary)
      → find_reconciliation unit r d0 ≡ ok x
      → Summarized x r d0 s
      → is_completed s.reconciliation.status ≡ false
      → balanced s ≡ true
      → Ready x
  unfolding balanced difference_cents cleared_balance_cents
  ready x s found q under zero = (
    found,
    ap (λ (z : Reconciliation). is_completed z.status) (sym q.of_row) ∙ under,
    rw (sym q.total_is, sym q.of_row) ((is_zero_iff _).0 zero),
  )

  completing :
      (x : Reconciliation) (now : ℕ) (d d' : Db) (u : Unit {0})
      → Ready x
      → d ≡ d0
      → update_completed unit r actor now d ≡ (ok u, d')
      → Completed unit r actor d0 (committed d')
  unfolding update_completed
  completing x now d d' u q same f =
      elim (Bool-cases (any (is_open_row unit r) d0.reconciliations)) [
        | inl some_open ↦
            let is = sym (ap (λ y. y.1) (rw some_open at (rw same at f))) in
            record {
              row = x;
              now = now;
              found = q.0;
              was_underway = q.1;
              adds_up = q.2;
              reconciliations_are = ap (λ (z : Db). z.reconciliations) is;
              open_no_more =
                  ap (λ (z : Db). any (is_open_row unit r) z.reconciliations) is
                  ∙ none_open unit r actor now d0.reconciliations;
              accounts_are = ap (λ (z : Db). z.accounts) is;
              transactions_are = ap (λ (z : Db). z.transactions) is;
              postings_are = ap (λ (z : Db). z.postings) is;
            }
        | inr all_closed ↦ absurd (cc (ap (λ y. y.0) (rw all_closed at (rw same at f))))
      ]

  Completed-audit :
      (e : AuditEntry) (d : Db)
      → Completed unit r actor d0 d
      → Completed unit r actor d0 (with_entry e d)
  Completed-audit e d c = record {
    row = c.row;
    now = c.now;
    found = c.found;
    was_underway = c.was_underway;
    adds_up = c.adds_up;
    reconciliations_are = c.reconciliations_are;
    open_no_more = c.open_no_more;
    accounts_are = c.accounts_are;
    transactions_are = c.transactions_are;
    postings_are = c.postings_are;
  }

  summarize_reconciliation-Triple :
      Triple
        (λ d. d ≡ d0)
        (summarize_reconciliation unit r)
        (λ s d.
          ((x : Reconciliation) × (find_reconciliation unit r d0 ≡ ok x) × Summarized x r d0 s)
          × (d ≡ d0))
        (λ d. d ≡ d0)
  unfolding summarize_reconciliation get_reconciliation
  summarize_reconciliation-Triple =
      Triple-bind {R = λ x d. (find_reconciliation unit r d0 ≡ ok x) × (d ≡ d0)} _ _
        (Triple-map_error _ _ (Triple-query _ (λ d x q e. (rw q at e, q)) (λ d q. q)))
        (λ x.
          Triple-query _ (λ d s q e. ((x, q.0, read_summary-ok x r d0 s (rw q.1 at e)), q.1))
            (λ d q. q.1))

  complete_reconciliation-Triple :
      Triple
        (λ d. d ≡ d0)
        (complete_reconciliation unit r actor)
        (λ _ d. Completed unit r actor d0 d)
        (λ d. d ≡ d0)
  unfolding complete_reconciliation
  complete_reconciliation-Triple = Triple-bind _ _ summarize_reconciliation-Triple (λ s.
      Triple-bind
        {R = λ _ d.
          ((x : Reconciliation) × (find_reconciliation unit r d0 ≡ ok x) × Summarized x r d0 s)
          × (is_completed s.reconciliation.status ≡ false)
          × (d ≡ d0)}
        _ _ (Triple-lift _ (λ u e d q. (q.0, guard-false _ _ e, q.1)) (λ d q. q.1))
        (λ _.
          Triple-bind {R = λ _ d. ((x : Reconciliation) × Ready x) × (d ≡ d0)} _ _
            (Triple-lift _
              (λ u e d q. ((q.0.0, ready q.0.0 s q.0.1 q.0.2 q.1 (guard-true _ _ e)), q.2))
              (λ d q. q.2))
            (λ _.
              Triple-bind {R = λ _. Completed unit r actor d0} _ _
                (Triple-exec (update_completed unit r actor)
                  (λ now d d' u q f t. completing q.0.0 now d d' u q.0.1 q.1 f) (λ d q. q.1))
                (λ _.
                  Triple-bind {R = λ _. Completed unit r actor d0} _ _
                    (Triple-audit_log _ (λ d c. c) (Completed-audit _))
                    (λ _.
                      Triple-bind {R = λ _. Completed unit r actor d0} _ _
                        (Triple-clock (λ now d c. c)) (λ now. Triple-pure _ (λ d c. c)))))))

-- CompleteReconciliation signs off the reconciliation it is given, only where it was one of the
-- unit and underway, and its closing balance less its opening balance and what is ticked off on it
-- is zero as an int64; it is underway no more, and no account, transaction or posting changes. With
-- any error the database stays as it was.
pub complete_reconciliation-Completed :
    (unit r actor : ℕ) (w : World)
    → let (s, w') = complete_reconciliation unit r actor w in
      Outcome (λ _. Completed unit r actor w.db) (λ d. d ≡ w.db) s w'.db
complete_reconciliation-Completed unit r actor w =
    (complete_reconciliation-Triple unit r actor w.db).at w refl
