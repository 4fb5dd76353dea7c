-- ===== src/Ledger/Outcomes/Tick.antt =====
-- The outcome of SetPostingCleared.
use mathlib.Core.Path.{subst}
use scout_site.Prelude.{
  ℕ, ◌≡◌, refl, ap, inl, inr, Bool, true, false, ◌&&◌, ◌||◌, Option, none, some, List, [], ◌∷◌,
  arith, any, ◌==◌, update_where, if◌then◌else◌, Bool-cases,
}
use scout_site.Store.Rows.{Reconciliation, Transaction, is_completed, PostingRow, Db}
use scout_site.Store.Sums.{sum_where, balance}
use scout_site.Store.Sql.{ok, World, committed}
use scout_site.Store.Triple.{
  Triple, Outcome, Triple-bind, Triple-lift, Triple-query, Triple-map_error, Triple-exec,
}
use scout_site.Approval.Decision.{guard-false}
use scout_site.Ledger.Post.{same_id}
use scout_site.Ledger.Reconcile.{
  find_reconciliation, get_reconciliation, is_cleared, is_outstanding, can_tick, ticked, with_marks,
  cleared_total, update_cleared, set_posting_cleared,
}

-- What SetPostingCleared sets.
abbrev pub mark : Bool → ℕ → Option ℕ
mark cleared r = if cleared then some r else none

-- The posting has been ticked off, or no longer is, on reconciliation `r`, in `d`, which made it
-- `d'`.
pub record Ticked (unit r posting : ℕ) (cleared : Bool) (d d' : Db) : Type 0 where
  pub row : Reconciliation
  pub found : find_reconciliation unit r d ≡ ok row
  pub was_underway : is_completed row.status ≡ false
  pub tickable : any (can_tick d.transactions row.account_id r posting) d.postings ≡ true
  pub postings_are :
      d'.postings
      ≡ update_where
          (can_tick d.transactions row.account_id r posting)
          (ticked (mark cleared r))
          d.postings
  pub others_stay : (s a : ℕ) → (r == s) ≡ false → cleared_total d' a s ≡ cleared_total d a s
  pub balances_stay : (a : ℕ) → balance d' a ≡ balance d a
  pub reconciliations_are : d'.reconciliations ≡ d.reconciliations
  pub accounts_are : d'.accounts ≡ d.accounts
  pub transactions_are : d'.transactions ≡ d.transactions

-- A mark on `r` or none is no mark on `s`.
mark_other : (cleared : Bool) (r s : ℕ) → (r == s) ≡ false → same_id s (mark cleared r) ≡ false
mark_other true r s h = ground arith
mark_other false r s h = refl

-- A row that can be ticked on `r` is not ticked on `s`.
can_tick_other :
    (ts : List Transaction) (account r posting s : ℕ) (p : PostingRow)
    → (r == s) ≡ false
    → can_tick ts account r posting p ≡ true
    → same_id s p.reconciliation_id ≡ false
can_tick_other ts account r posting s p h e = other p.reconciliation_id (tick e)
  where
    tick :
        can_tick ts account r posting p ≡ true
        → (scout_site.Ledger.Reconcile.is_uncleared p.reconciliation_id
            || same_id r p.reconciliation_id)
          ≡ true
    tick e = ground arith

    other :
        (o : Option ℕ)
        → (scout_site.Ledger.Reconcile.is_uncleared o || same_id r o) ≡ true
        → same_id s o ≡ false
    other none k = refl
    other (some j) k = ground arith

sum_where-ticked :
    (ts : List Transaction) (account r posting s a : ℕ) (cleared : Bool) (ps : List PostingRow)
    → (r == s) ≡ false
    → sum_where
        (is_cleared ts a s)
        (update_where (can_tick ts account r posting) (ticked (mark cleared r)) ps)
      ≡ sum_where (is_cleared ts a s) ps
unfolding sum_where
sum_where-ticked ts account r posting s a cleared [] h = refl
sum_where-ticked ts account r posting s a cleared (p ∷ ps) h =
    elim (Bool-cases (can_tick ts account r posting p)) [
      | inl e ↦
          let was = can_tick_other ts account r posting s p h e in
          let now = mark_other cleared r s h in
          rw e (ground (arith, was, now, sum_where-ticked ts account r posting s a cleared ps h))
      | inr e ↦ rw (e, sum_where-ticked ts account r posting s a cleared ps h) refl
    ]

balance-ticked :
    (q : PostingRow → Bool) (f : ℕ → ℕ → Bool) (target : Option ℕ) (ps : List PostingRow)
    → sum_where (λ p. f p.account_id p.transaction_id) (update_where q (ticked target) ps)
      ≡ sum_where (λ p. f p.account_id p.transaction_id) ps
unfolding sum_where
balance-ticked q f target [] = refl
balance-ticked q f target (p ∷ ps) = elim (Bool-cases (q p)) [
  | inl e ↦ rw (e, balance-ticked q f target ps) refl
  | inr e ↦ rw (e, balance-ticked q f target ps) refl
]

module _ (unit r posting : ℕ) (cleared : Bool) (d0 : Db) where
  ticking :
      (x : Reconciliation) (now : ℕ) (d d' : Db) (u : Unit {0})
      → find_reconciliation unit r d0 ≡ ok x
      → is_completed x.status ≡ false
      → d ≡ d0
      → update_cleared (mark cleared r) x.account_id r posting now d ≡ (ok u, d')
      → Ticked unit r posting cleared d0 (committed d')
  unfolding update_cleared cleared_total balance
  ticking x now d d' u found under same f =
      elim (Bool-cases (any (can_tick d0.transactions x.account_id r posting) d0.postings)) [
        | inl some_row ↦
            let is = ap (λ y. y.1) (rw some_row at (rw same at f)) in
            subst (λ z. Ticked unit r posting cleared d0 (committed z)) is
              (record {
                row = x;
                found = found;
                was_underway = under;
                tickable = some_row;
                postings_are = refl;
                others_stay = λ s a h.
                    sum_where-ticked d0.transactions x.account_id r posting s a cleared d0.postings
                      h;
                balances_stay = λ a.
                    balance-ticked _
                      (λ i t. i == a && scout_site.Store.Sums.counts d0.transactions t)
                      (mark cleared r) d0.postings;
                reconciliations_are = refl;
                accounts_are = refl;
                transactions_are = refl;
              })
        | inr no_row ↦ absurd (cc (ap (λ y. y.0) (rw no_row at (rw same at f))))
      ]

  set_posting_cleared-Triple :
      Triple
        (λ d. d ≡ d0)
        (set_posting_cleared unit r posting cleared)
        (λ _ d. Ticked unit r posting cleared d0 d)
        (λ d. d ≡ d0)
  unfolding set_posting_cleared get_reconciliation
  set_posting_cleared-Triple =
      Triple-bind {R = λ x d. (find_reconciliation unit r d0 ≡ ok x) × (d ≡ d0)} _ _
        (Triple-map_error _ _ (Triple-query _ (λ d x q e. (rw q at e, q)) (λ d q. q)))
        (λ x.
          Triple-bind
            {R = λ _ d.
              (find_reconciliation unit r d0 ≡ ok x) × (is_completed x.status ≡ false) × (d ≡ d0)}
            _ _ (Triple-lift _ (λ u e d q. (q.0, guard-false _ _ e, q.1)) (λ d q. q.1))
            (λ _.
              Triple-exec _ (λ now d d' u q f t. ticking x now d d' u q.0 q.1 q.2 f) (λ d q. q.2)))

-- SetPostingCleared sets or removes the mark of the posting it is given, only on a reconciliation
-- of the unit that is underway and only where the posting is a posted one of its account that is
-- unmarked or marked on it. What is ticked off on any other reconciliation keeps its total, every
-- balance stays, and accounts, transactions and reconciliations do not change. With any error the
-- database stays as it was.
pub set_posting_cleared-Ticked :
    (unit r posting : ℕ) (cleared : Bool) (w : World)
    → let (s, w') = set_posting_cleared unit r posting cleared w in
      Outcome (λ _. Ticked unit r posting cleared w.db) (λ d. d ≡ w.db) s w'.db
set_posting_cleared-Ticked unit r posting cleared w =
    (set_posting_cleared-Triple unit r posting cleared w.db).at w refl
