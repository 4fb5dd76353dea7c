-- ===== src/Ledger/Outcomes/Close.antt =====
-- The outcome of CloseTripFund.

use scout_site.Prelude.{ℕ, ◌≡◌, refl, sym, ap, ◌∙◌, Bool, true, false, ◌==◌, arith, if◌then◌else◌}
use scout_site.Prelude.Int.{pos, is_zero_iff}
use scout_site.Store.Rows.{Account, trip_fund, same_type, is_opened, closed, Db, AuditEntry}
use scout_site.Store.Sums.{balance}
use scout_site.Store.Sql.{Result, ok, err, ok-injective, World, committed}
use scout_site.Store.Triple.{
  Triple, Outcome, Triple-pure, Triple-bind, Triple-lift, Triple-query, Triple-map_error,
  Triple-exec, Triple-audit_log, with_entry,
}
use scout_site.Approval.Decision.{scan_balance-ok}
use scout_site.Ledger.Accounts.{
  find_account, get_account, balance_for_account, check_closable, closed_account, update_closed,
  close_trip_fund,
}

-- The trip fund `account` of the unit has been closed in `d`, which made it `d'`.
pub record Closed (unit account : ℕ) (d : Db) (a : Account) (d' : Db) : Type 0 where
  pub row : Account
  pub found : find_account account d ≡ ok row
  pub of_unit : (row.unit_id == unit) ≡ true
  pub was_trip_fund : same_type row.account_type trip_fund ≡ true
  pub was_open : is_opened row.status ≡ true
  pub was_settled : balance d account ≡ pos 0
  pub returned : a ≡ record row { status = closed }
  pub accounts_are : d'.accounts ≡ closed_account account d.accounts
  pub transactions_are : d'.transactions ≡ d.transactions
  pub postings_are : d'.postings ≡ d.postings

check_closable-ok :
    (unit : ℕ) (a : Account)
    → check_closable unit a ≡ ok tt
    → ((a.unit_id == unit) ≡ true)
      × (same_type a.account_type trip_fund ≡ true)
      × (is_opened a.status ≡ true)
unfolding check_closable
check_closable-ok unit a e = ground arith

pub guard-true :
    (b : Bool) (x : scout_site.Store.Sql.Error)
    → if◌then◌else◌ {A = Result (Unit {0})} b (ok tt) (err x) ≡ ok tt
    → b ≡ true
guard-true true x e = refl
guard-true false x e = cc

module _ (unit account closed_by : ℕ) (d0 : Db) where
  -- What has been found when all the guards have passed.
  abbrev Closable : Account → Type 0
  Closable a =
      (find_account account d0 ≡ ok a)
      × (check_closable unit a ≡ ok tt)
      × (balance d0 account ≡ pos 0)

  closing :
      (now : ℕ) (a : Account) (d d' : Db) (u : Unit {0})
      → Closable a
      → d ≡ d0
      → update_closed account now d ≡ (ok u, d')
      → Closed unit account d0 (record a { status = closed }) (committed d')
  unfolding update_closed
  closing now a d d' u q same f =
      let is : d' ≡ record d0 { accounts = closed_account account d0.accounts } =
        sym (ap (λ y. y.1) (rw same at f)) in
      let checks = check_closable-ok unit a q.1 in
      record {
        row = a;
        found = q.0;
        of_unit = checks.0;
        was_trip_fund = checks.1;
        was_open = checks.2;
        was_settled = q.2;
        returned = refl;
        accounts_are = ap (λ (z : Db). z.accounts) is;
        transactions_are = ap (λ (z : Db). z.transactions) is;
        postings_are = ap (λ (z : Db). z.postings) is;
      }

  Closed-audit :
      (a : Account) (e : AuditEntry) (d : Db)
      → Closed unit account d0 a d
      → Closed unit account d0 a (with_entry e d)
  Closed-audit a e d c = record {
    row = c.row;
    found = c.found;
    of_unit = c.of_unit;
    was_trip_fund = c.was_trip_fund;
    was_open = c.was_open;
    was_settled = c.was_settled;
    returned = c.returned;
    accounts_are = c.accounts_are;
    transactions_are = c.transactions_are;
    postings_are = c.postings_are;
  }

  close_trip_fund-Triple :
      Triple
        (λ d. d ≡ d0)
        (close_trip_fund unit account closed_by)
        (Closed unit account d0)
        (λ d. d ≡ d0)
  unfolding close_trip_fund get_account balance_for_account
  close_trip_fund-Triple =
      Triple-bind {R = λ a d. (find_account account d0 ≡ ok a) × (d ≡ d0)} _ _
        (Triple-map_error _ _ (Triple-query _ (λ d a q e. (rw q at e, q)) (λ d q. q)))
        (λ a.
          Triple-bind
            {R = λ _ d.
              (find_account account d0 ≡ ok a) × (check_closable unit a ≡ ok tt) × (d ≡ d0)}
            _ _ (Triple-lift _ (λ u e d q. (q.0, e, q.1)) (λ d q. q.1))
            (λ _.
              Triple-bind
                {R = λ held d.
                  (find_account account d0 ≡ ok a)
                  × (check_closable unit a ≡ ok tt)
                  × (held ≡ balance d0 account)
                  × (d ≡ d0)}
                _ _
                (Triple-query _
                  (λ d held q e. (q.0, q.1, (scan_balance-ok account d0 held (rw q.2 at e)).1, q.2))
                  (λ d q. q.2))
                (λ held.
                  Triple-bind {R = λ _ d. Closable a × (d ≡ d0)} _ _
                    (Triple-lift _
                      (λ u e d q.
                        ((q.0, q.1, sym q.2 ∙ (is_zero_iff held).0 (guard-true _ _ e)), q.3))
                      (λ d q. q.3))
                    (λ _.
                      Triple-bind {R = λ _. Closed unit account d0 (record a { status = closed })} _
                        _
                        (Triple-exec (update_closed account)
                          (λ now d d' u q f t. closing now a d d' u q.0 q.1 f) (λ d q. q.1))
                        (λ _.
                          Triple-bind
                            {R = λ _. Closed unit account d0 (record a { status = closed })} _ _
                            (Triple-audit_log _ (λ d c. c) (Closed-audit _ _))
                            (λ _. Triple-pure _ (λ d c. c)))))))

-- CloseTripFund closes the account it is given and nothing else, and only where it was an open trip
-- fund of the unit with a balance of zero; with any error the database stays as it was.
pub close_trip_fund-Closed :
    (unit account closed_by : ℕ) (w : World)
    → let (r, w') = close_trip_fund unit account closed_by w in
      Outcome (Closed unit account w.db) (λ d. d ≡ w.db) r w'.db
close_trip_fund-Closed unit account closed_by w =
    (close_trip_fund-Triple unit account closed_by w.db).at w refl
