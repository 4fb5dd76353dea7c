-- ===== src/Ledger/Books/Reconciliations.antt =====
-- Reconciling keeps the books: it marks postings and moves nothing.
use mathlib.Core.Path.{subst}
use scout_site.Prelude.{
  ℕ, ◌≡◌, refl, ap, ◌∙◌, inl, inr, Bool, Option, none, List, [], ◌∷◌, arith, any, All, update_where,
  Bool-cases,
}
use scout_site.Prelude.Int.{ℤ}
use scout_site.Store.Rows.{Account, Transaction, PostingRow, Reconciliation, Db}
use scout_site.Store.Sums.{sum_where}
use scout_site.Store.Sql.{committed, exec}
use scout_site.Store.Triple.{Keeps, Triple-exec}
use scout_site.Store.Keeps.{Statement, keeps_rules}
use scout_site.Store.Books.{IsScoped, Books, Books-same}
use scout_site.Ledger.Reconcile.{
  is_underway_of, insert_reconciliation, start_reconciliation, get_reconciliation, can_tick, ticked,
  with_marks, update_cleared, set_posting_cleared, is_open_row, update_completed,
  summarize_reconciliation, complete_reconciliation, delete_open, delete_reconciliation,
}
use scout_site.Ledger.Books.Accounts.{Books-Stable}

-- A sum that does not look at the marks is not changed by marking.
sum_where-ticked :
    (q : PostingRow → Bool) (target : Option ℕ) (r : PostingRow → Bool) (ps : List PostingRow)
    → ((p : PostingRow) → r (ticked target p) ≡ r p)
    → sum_where r (update_where q (ticked target) ps) ≡ sum_where r ps
unfolding sum_where
sum_where-ticked q target r [] h = refl
sum_where-ticked q target r (p ∷ ps) h = ground (arith, h p, sum_where-ticked q target r ps h)

IsScoped-ticked :
    (q : PostingRow → Bool) (target : Option ℕ) (as' : List Account) (ts : List Transaction)
    (ps : List PostingRow)
    → All (IsScoped as' ts) ps
    → All (IsScoped as' ts) (update_where q (ticked target) ps)
IsScoped-ticked q target as' ts [] h = tt
IsScoped-ticked q target as' ts (p ∷ ps) (s, h) = elim (Bool-cases (q p)) [
  | inl yes' ↦ rw yes' (
    record { unit_id = s.unit_id; of_transaction = s.of_transaction; of_account = s.of_account },
    IsScoped-ticked q target as' ts ps h,
  )
  | inr no' ↦ rw no' (s, IsScoped-ticked q target as' ts ps h)
]

Books-with_marks :
    (q : PostingRow → Bool) (target : Option ℕ) (d : Db)
    → Books d
    → Books (committed (with_marks q target d))
Books-with_marks q target d b = record {
  balanced = λ t. sum_where-ticked q target _ d.postings (λ p. refl) ∙ b.balanced t;
  scoped = IsScoped-ticked q target d.accounts d.transactions d.postings b.scoped;
  account_keys = b.account_keys;
  transaction_keys = b.transaction_keys;
  idle = refl;
}

update_cleared-Books :
    (target : Option ℕ) (account r posting : ℕ)
    → Keeps Books (exec (update_cleared target account r posting))
unfolding update_cleared
update_cleared-Books target account r posting =
    Triple-exec _
      (λ now d d' a b e s.
        elim (Bool-cases (any (can_tick d.transactions account r posting) d.postings)) [
          | inl some_row ↦
              subst Books (ap (λ y. committed y.1) (rw some_row at e))
                (Books-with_marks (can_tick d.transactions account r posting) target d b)
          | inr none_found ↦ absurd (cc (ap (λ y. y.0) (rw none_found at e)))
        ])
      (λ d b. b)

Books-reconciliations :
    (d : Db) (xs : List Reconciliation) → Books d → Books (record d { reconciliations = xs })
Books-reconciliations d xs b = Books-same d _ refl refl refl (omega arith) b.idle b

delete_open-Books : (unit r : ℕ) → Keeps Books (exec (delete_open unit r))
unfolding delete_open
delete_open-Books unit r =
    Triple-exec _
      (λ now d d' a b e s. elim (Bool-cases (any (is_open_row unit r) d.reconciliations)) [
        | inl some_row ↦
            subst Books (ap (λ y. committed y.1) (rw some_row at e))
              (Books-with_marks _ none _ (Books-reconciliations d _ b))
        | inr none_found ↦ absurd (cc (ap (λ y. y.0) (rw none_found at e)))
      ])
      (λ d b. b)

update_completed-Books : (unit r by : ℕ) → Statement Books (update_completed unit r by)
unfolding update_completed
update_completed-Books unit r by = record {
  at = λ now d d' u b e. elim (Bool-cases (any (is_open_row unit r) d.reconciliations)) [
    | inl some_row ↦ subst Books (ap (λ y. y.1) (rw some_row at e)) (Books-reconciliations d _ b)
    | inr none_found ↦ absurd (cc (ap (λ y. y.0) (rw none_found at e)))
  ];
}

insert_reconciliation-Books :
    (unit account date : ℕ) (opening closing : ℤ) (by : ℕ)
    → Statement Books (insert_reconciliation unit account date opening closing by)
unfolding insert_reconciliation
insert_reconciliation-Books unit account date opening closing by = record {
  at = λ now d d' u b e. elim (Bool-cases (any (is_underway_of account) d.reconciliations)) [
    | inl open_one ↦ absurd (cc (ap (λ y. y.0) (rw open_one at e)))
    | inr free ↦
        subst Books (ap (λ y. y.1) (rw free at e))
          (Books-same d _ refl refl refl (omega arith) b.idle b)
  ];
}

ruleset reconcile_rules = (
  keeps_rules, Books-Stable, update_cleared-Books, delete_open-Books, update_completed-Books,
  insert_reconciliation-Books,
)

pub start_reconciliation-Books :
    (unit account date : ℕ) (closing : ℤ) (by : ℕ)
    → Keeps Books (start_reconciliation unit account date closing by)
unfolding start_reconciliation
start_reconciliation-Books unit account date closing by = search reconcile_rules depth 14

pub set_posting_cleared-Books :
    (unit r posting : ℕ) (cleared : Bool) → Keeps Books (set_posting_cleared unit r posting cleared)
unfolding set_posting_cleared get_reconciliation
set_posting_cleared-Books unit r posting cleared = search reconcile_rules depth 12

pub complete_reconciliation-Books :
    (unit r by : ℕ) → Keeps Books (complete_reconciliation unit r by)
unfolding complete_reconciliation summarize_reconciliation get_reconciliation
complete_reconciliation-Books unit r by = search reconcile_rules depth 16

pub delete_reconciliation-Books : (unit r by : ℕ) → Keeps Books (delete_reconciliation unit r by)
unfolding delete_reconciliation get_reconciliation
delete_reconciliation-Books unit r by = search reconcile_rules depth 12
