-- ===== src/Ledger/Books/Accounts.antt =====
-- The operations on accounts keep the books.
use scout_site.Prelude.{
  ℕ, ◌≡◌, refl, ap, ◌∙◌, inl, inr, true, List, ◌∷◌, arith, ◌==◌, any, All, All-map, Bool-cases,
}
use mathlib.Core.Path.{subst}
use Prim.Native.String.{String}
use scout_site.Store.Rows.{Account, PostingRow, Transaction, closed, Db}
use scout_site.Store.Sums.{owns}
use scout_site.Store.Sql.{Error, Result, ok, err, committed}
use scout_site.Store.Triple.{Keeps}
use scout_site.Store.Keeps.{Statement, Stable, keeps_rules}
use scout_site.Store.Books.{
  IsScoped, Books, Books-audit, owns-update_where, account_ids-update_where, Descending-le,
}
use scout_site.Ledger.Accounts.{
  NewAccount, new_account, with_account, conflicts, insert_account, ensure,
  ensure_unit_general_account, ensure_external_account, ensure_scout_account, create_trip_fund,
  get_account, balance_for_account, update_closed, close_trip_fund,
}

pub Books-Stable : Stable Books
Books-Stable = record {
  commit = λ d b. record {
    balanced = b.balanced;
    scoped = b.scoped;
    account_keys = b.account_keys;
    transaction_keys = b.transaction_keys;
    idle = refl;
  };
  entry = λ e d b. Books-audit d (e ∷ d.audit) b;
}

IsScoped-accounts :
    (as' bs : List Account) (ts : List Transaction) (ps : List PostingRow)
    → ((a u : ℕ) → owns as' a u ≡ true → owns bs a u ≡ true)
    → All (IsScoped as' ts) ps
    → All (IsScoped bs ts) ps
IsScoped-accounts as' bs ts ps f h =
    All-map
      (λ p s. record {
        unit_id = s.unit_id;
        of_transaction = s.of_transaction;
        of_account = f p.account_id s.unit_id s.of_account;
      })
      ps h

owns-cons :
    (x : Account) (as' : List Account) (a u : ℕ) → owns as' a u ≡ true → owns (x ∷ as') a u ≡ true
unfolding owns
owns-cons x as' a u h = ground arith

Books-with_account :
    (n : NewAccount) (d : Db) → Books d → Books (with_account (new_account n d.next_id) d)
Books-with_account n d b = record {
  balanced = b.balanced;
  scoped =
      IsScoped-accounts d.accounts _ d.transactions d.postings
        (owns-cons (new_account n d.next_id) d.accounts) b.scoped;
  account_keys = (omega arith, b.account_keys);
  transaction_keys = Descending-le _ (omega arith) b.transaction_keys;
  idle = b.idle;
}

pub insert_account-Books :
    (clash : Error) (n : NewAccount) → Statement Books (insert_account clash n)
unfolding insert_account
insert_account-Books clash n = record {
  at = λ now d d' a b e. elim (Bool-cases (any (conflicts (new_account n d.next_id)) d.accounts)) [
    | inl clashes ↦ absurd (cc (ap (λ y. y.0) (rw clashes at e)))
    | inr free ↦ subst Books (ap (λ y. y.1) (rw free at e)) (Books-with_account n d b)
  ];
}

update_closed-Books : (a : ℕ) → Statement Books (update_closed a)
unfolding update_closed
update_closed-Books a = record {
  at = λ now d d' u b e. subst Books (ap (λ y. y.1) e) (record {
    balanced = b.balanced;
    scoped =
        IsScoped-accounts d.accounts _ d.transactions d.postings
          (λ i v h. owns-update_where _ _ (λ x. refl) (λ x. refl) d.accounts i v ∙ h) b.scoped;
    account_keys =
        rw
          (account_ids-update_where (λ x. x.id == a) (λ x. record x { status = closed }) (λ x. refl)
            d.accounts)
          b.account_keys;
    transaction_keys = b.transaction_keys;
    idle = b.idle;
  });
}

ruleset account_rules = (keeps_rules, Books-Stable, insert_account-Books, update_closed-Books)

ensure-Books :
    (get : scout_site.Store.Sql.M Account) (n : NewAccount)
    → Keeps Books get
    → Keeps Books (ensure get n)
unfolding ensure
ensure-Books get n h = search account_rules

pub ensure_unit_general_account-Books : (unit : ℕ) → Keeps Books (ensure_unit_general_account unit)
unfolding ensure_unit_general_account
ensure_unit_general_account-Books unit = search account_rules

pub ensure_external_account-Books : (unit : ℕ) → Keeps Books (ensure_external_account unit)
unfolding ensure_external_account
ensure_external_account-Books unit = search account_rules

pub ensure_scout_account-Books :
    (unit member : ℕ) (name : String) → Keeps Books (ensure_scout_account unit member name)
unfolding ensure_scout_account
ensure_scout_account-Books unit member name = search account_rules

pub create_trip_fund-Books :
    (unit event : ℕ) (name : String) (by : ℕ) → Keeps Books (create_trip_fund unit event name by)
unfolding create_trip_fund
create_trip_fund-Books unit event name by = search account_rules

pub close_trip_fund-Books : (unit a by : ℕ) → Keeps Books (close_trip_fund unit a by)
unfolding close_trip_fund get_account balance_for_account
close_trip_fund-Books unit a by = search account_rules depth 12
