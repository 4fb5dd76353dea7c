-- ===== src/Approval/Decision.antt =====
-- What an approval does to its entity, inside the database transaction of Decide.
use mathlib.Core.Path.{subst}
use scout_site.Prelude.{
  ℕ, ◌≡◌, refl, sym, ap, ◌∙◌, inl, inr, Bool, true, false, List, [], ◌∷◌, if◌then◌else◌, All,
  Bool-cases,
}
use scout_site.Prelude.Int.{ℤ, pos, fits, ◌≤ℤ◌}
use scout_site.Store.Rows.{
  Transaction, posted, EntityType, event, ledger_transaction, entity, Db, EventRow,
}
use scout_site.Store.Sums.{balance}
use scout_site.Store.Sql.{Error, Result, ok, err, ok-injective}
use scout_site.Store.Triple.{
  Triple, Triple-pure, Triple-bind, Triple-lift, Triple-query, Triple-exec_tx, Triple-from,
  Triple-weaken,
}
use scout_site.Approval.{
  update_event, set_status, update_transaction, debited_accounts, group_debits, scan_balance,
  check_debit, check_debits, apply_decision,
}
use scout_site.Approval.Debits.{IsCovered, nonneg-posted}

pub scan_balance-ok :
    (a : ℕ) (d : Db) (held : ℤ)
    → scan_balance a d ≡ ok held
    → (fits (balance d a) ≡ true) × (held ≡ balance d a)
unfolding scan_balance
scan_balance-ok a d held e = elim (Bool-cases (fits (balance d a))) [
  | inl h ↦ (h, sym (ok-injective _ _ (rw h at e)))
  | inr h ↦ absurd (cc (rw h at e))
]

pub guard-false :
    (x : Error) (b : Bool)
    → if◌then◌else◌ {A = Result (Unit {0})} b (err x) (ok tt) ≡ ok tt
    → b ≡ false
guard-false x true e = cc
guard-false x false e = refl

-- What an approval does to the transactions.
abbrev pub approved_transactions : EntityType → ℕ → List Transaction → List Transaction
approved_transactions ledger_transaction id ts = set_status posted id ts
approved_transactions event id ts = ts
approved_transactions (entity s) id ts = ts

pub record Applied (kind : EntityType) (id : ℕ) (d d' : Db) : Type 0 where
  pub accounts_are : d'.accounts ≡ d.accounts
  pub postings_are : d'.postings ≡ d.postings
  pub requests_are : d'.requests ≡ d.requests
  pub transactions_are : d'.transactions ≡ approved_transactions kind id d.transactions
  pub no_overdraft : (a : ℕ) → pos 0 ≤ℤ balance d a → pos 0 ≤ℤ balance d' a

module _ (d0 : Db) where
  check_debit-Triple :
      (a : ℕ) (debit : ℤ)
      → Triple
          (λ d. d ≡ d0)
          (check_debit a debit)
          (λ _ d. IsCovered d0 a debit × (d ≡ d0))
          (λ _. Unit)
  unfolding check_debit
  check_debit-Triple a debit =
      Triple-bind {R = λ _ d. d ≡ d0} _ _ (Triple-query _ (λ d s q e. q) (λ d q. tt)) (λ s.
        Triple-bind {R = λ _ d. d ≡ d0} _ _ (Triple-lift _ (λ u e d q. q) (λ d q. tt)) (λ _.
          Triple-bind
            {R = λ held d. ((fits (balance d0 a) ≡ true) × (held ≡ balance d0 a)) × (d ≡ d0)} _ _
            (Triple-query (scan_balance a)
              (λ d held q e. (scan_balance-ok a d0 held (rw q at e), q)) (λ d q. tt))
            (λ held.
              Triple-lift _
                (λ u e d q.
                  (record { fits_balance = q.0.0; covered = guard-false _ _ (rw q.0.1 at e) }, q.1))
                (λ d q. tt))))

  check_debits-Triple :
      (rows : List (ℕ × ℤ))
      → Triple
          (λ d. d ≡ d0)
          (check_debits rows)
          (λ _ d. All (λ row. IsCovered d0 row.0 row.1) rows × (d ≡ d0))
          (λ _. Unit)
  unfolding check_debits
  check_debits-Triple [] = Triple-pure tt (λ d e. (tt, e))
  check_debits-Triple ((a, debit) ∷ rows) =
      Triple-bind {R = λ _ d. IsCovered d0 a debit × (d ≡ d0)} _ _ (check_debit-Triple a debit)
        (λ _. Triple-from _ λ d1 q.
          Triple-weaken (λ d e. e ∙ q.1) (λ u d h. ((q.0, h.0), h.1)) (λ d h. h)
            (check_debits-Triple rows))

  unmoved :
      (kind : EntityType) (id : ℕ) (events : List EventRow)
      → approved_transactions kind id d0.transactions ≡ d0.transactions
      → Applied kind id d0 (record d0 { events = events })
  unmoved kind id events e = record {
    accounts_are = refl;
    postings_are = refl;
    requests_are = refl;
    transactions_are = sym e;
    no_overdraft = λ a h. unfold balance in h;
  }

  pub apply_decision-Triple :
      (kind : EntityType) (id : ℕ)
      → Triple (λ d. d ≡ d0) (apply_decision kind id true) (λ _ d. Applied kind id d0 d) (λ _. Unit)
  unfolding apply_decision update_event update_transaction
  apply_decision-Triple event id =
      Triple-exec_tx (update_event _ id)
        (λ now d d' u e f.
          subst (Applied event id d0) (ap (λ y. y.1) (rw (e, update_event) at f))
            (unmoved event id _ refl))
        (λ d. tt)
  apply_decision-Triple ledger_transaction id =
      Triple-bind
        {R = λ rows d.
          (group_debits id d0.postings (debited_accounts id d0.postings) ≡ ok rows) × (d ≡ d0)}
        _ _ (Triple-query _ (λ d rows q e. (rw q at e, q)) (λ d q. tt))
        (λ rows. Triple-from _ λ d1 q.
          Triple-bind {R = λ _ d. All (λ row. IsCovered d0 row.0 row.1) rows × (d ≡ d0)} _ _
            (Triple-weaken (λ d e. e ∙ q.1) (λ u d h. h) (λ d h. h) (check_debits-Triple rows))
            (λ _.
              Triple-exec_tx (update_transaction posted id)
                (λ now d d' u h f.
                  subst (Applied ledger_transaction id d0)
                    (ap (λ y. y.1) (rw (h.1, update_transaction) at f))
                    (record {
                      accounts_are = refl;
                      postings_are = refl;
                      requests_are = refl;
                      transactions_are = refl;
                      no_overdraft = λ a p. nonneg-posted id a d0 rows q.0 h.0 p;
                    }))
                (λ d. tt)))
  apply_decision-Triple (entity s) id =
      Triple-pure tt
        (λ d e. subst (Applied (entity s) id d0) (sym e) (unmoved (entity s) id d0.events refl))
