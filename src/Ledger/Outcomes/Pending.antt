-- ===== src/Ledger/Outcomes/Pending.antt =====
-- Expenses and transfers that wait for a decision leave every balance as it is.
use mathlib.Core.Path.{subst}
use Prim.Native.String.{String}
use scout_site.Prelude.{
  ℕ, ◌≡◌, refl, sym, ap, ◌∙◌, Bool, true, false, ◌&&◌, List, [], ◌∷◌, arith, ◌==◌, if◌then◌else◌,
}
use scout_site.Prelude.Int.{ℤ, pos, ◌+ℤ◌, int_laws}
use scout_site.Store.Rows.{
  Transaction, is_posted, TransactionType, pending_approval, EntityType, Posting, PostingRow, Db,
}
use scout_site.Store.Sums.{sum_where, counts, balance}
use scout_site.Store.Sql.{Result, World, ok, err}
use scout_site.Store.Triple.{Keeps, Triple-from, Triple-weaken, Outcome}
use scout_site.Store.Keeps.{Statement, Stable, keeps_rules}
use scout_site.Store.Books.{Books}
use scout_site.Approval.{insert_request, submit}
use scout_site.Ledger.Accounts.{balance_for_account}
use scout_site.Ledger.Post.{Draft, ordinary, insert_transaction}
use scout_site.Ledger.Transfer.{
  set_request, update_request_id, submit_transaction, submit_expense_for_approval,
  request_trip_fund_transfer,
}
use scout_site.Ledger.Books.Accounts.{Books-Stable}
use scout_site.Ledger.Books.Approvals.{insert_request-Books, update_request_id-Books}
use scout_site.Ledger.Outcomes.Insert.{insert_transaction-Added}

-- Sound books in which every balance is what it is in `d0`.
pub record Unmoved (d0 d : Db) : Type 0 where
  pub books : Books d
  pub balances : (a : ℕ) → balance d a ≡ balance d0 a

counts-set_request :
    (t r i : ℕ) (ts : List Transaction) → counts (set_request t r ts) i ≡ counts ts i
unfolding counts
counts-set_request t r i [] = refl
counts-set_request t r i (x ∷ ts) = ground (arith, counts-set_request t r i ts)

sum_where-set_request :
    (t r a : ℕ) (ts : List Transaction) (ps : List PostingRow)
    → sum_where (λ p. p.account_id == a && counts (set_request t r ts) p.transaction_id) ps
      ≡ sum_where (λ p. p.account_id == a && counts ts p.transaction_id) ps
unfolding sum_where
sum_where-set_request t r a ts [] = refl
sum_where-set_request t r a ts (p ∷ ps) =
    rw (counts-set_request t r p.transaction_id ts, sum_where-set_request t r a ts ps) refl

module _ (d0 : Db) where
  pub Unmoved-Stable : Stable (Unmoved d0)
  unfolding balance
  Unmoved-Stable = record {
    commit = λ d u. record { books = Books-Stable.commit d u.books; balances = u.balances };
    entry = λ e d u. record { books = Books-Stable.entry e d u.books; balances = u.balances };
  }

  insert_request-Unmoved :
      (kind : EntityType) (i unit by : ℕ) → Statement (Unmoved d0) (insert_request kind i unit by)
  unfolding insert_request balance
  insert_request-Unmoved kind i unit by = record {
    at = λ now d d' r u e. record {
      books = (insert_request-Books kind i unit by).at now d d' r u.books e;
      balances = subst (λ z. (a : ℕ) → balance z a ≡ balance d0 a) (ap (λ y. y.1) e) u.balances;
    };
  }

  update_request_id-Unmoved : (t r : ℕ) → Statement (Unmoved d0) (update_request_id t r)
  unfolding update_request_id balance
  update_request_id-Unmoved t r = record {
    at = λ now d d' x u e. record {
      books = (update_request_id-Books t r).at now d d' x u.books e;
      balances = λ a.
          sym (ap (λ y. balance y.1 a) e)
          ∙ sum_where-set_request t r a d.transactions d.postings
          ∙ u.balances a;
    };
  }

  plus_zero : (y : ℤ) → y +ℤ pos 0 ≡ y
  plus_zero y = omega int_laws

  plus_nothing : (b : Bool) (x y z : ℤ) → b ≡ false → x ≡ y +ℤ (if b then z else pos 0) → x ≡ y
  plus_nothing true x y z h e = cc
  plus_nothing false x y z h e = e ∙ plus_zero y

  insert_transaction-Unmoved :
      (x : Draft) (ps : List Posting)
      → is_posted x.status ≡ false
      → Keeps (Unmoved d0) (insert_transaction x ps)
  insert_transaction-Unmoved x ps waits = Triple-from _ λ d u.
      Triple-weaken (λ d' e. e)
        (λ t d' a. record {
          books = a.books;
          balances =
              λ i. plus_nothing (is_posted x.status) _ _ _ waits (a.balances i) ∙ u.balances i;
        })
        (λ d' e. subst (Unmoved d0) (sym e) u) (insert_transaction-Added x ps d u.books)

  insert_waiting-Unmoved :
      (unit : ℕ) (type : TransactionType) (description : String) (by : ℕ) (ps : List Posting)
      → Keeps
          (Unmoved d0)
          (insert_transaction (ordinary unit type description by pending_approval) ps)
  insert_waiting-Unmoved unit type description by ps =
      insert_transaction-Unmoved (ordinary unit type description by pending_approval) ps refl

  submit_transaction-Unmoved :
      (unit by : ℕ) (t : Transaction) → Keeps (Unmoved d0) (submit_transaction unit by t)
  unfolding submit_transaction submit
  submit_transaction-Unmoved unit by t =
      search (keeps_rules, Unmoved-Stable, insert_request-Unmoved, update_request_id-Unmoved) depth
        12

  submit_expense_for_approval-Keeps :
      (unit : ℕ) (description : String) (by : ℕ) (ps : List Posting)
      → Keeps (Unmoved d0) (submit_expense_for_approval unit description by ps)
  unfolding submit_expense_for_approval
  submit_expense_for_approval-Keeps unit description by ps =
      search (keeps_rules, insert_waiting-Unmoved, submit_transaction-Unmoved)

  request_trip_fund_transfer-Keeps :
      (unit scout fund : ℕ) (amount : ℤ) (description : String) (by : ℕ)
      → Keeps (Unmoved d0) (request_trip_fund_transfer unit scout fund amount description by)
  unfolding request_trip_fund_transfer balance_for_account
  request_trip_fund_transfer-Keeps unit scout fund amount description by =
      search (keeps_rules, insert_waiting-Unmoved, submit_transaction-Unmoved) depth 12

settled_either :
    {A : Type 0} {d0 : Db} (r : Result A) (d : Db)
    → Outcome (λ _ x. Unmoved d0 x) (Unmoved d0) r d
    → Unmoved d0 d
settled_either (ok a) d u = u
settled_either (err e) d u = u

at_rest : (d : Db) → Books d → Unmoved d d
at_rest d b = record { books = b; balances = λ a. refl }

-- On sound books, an expense that is submitted for approval leaves the books sound and the balance
-- of every account as it was, whether the call returns or fails, at whatever statement.
pub submit_expense_for_approval-Unmoved :
    (unit : ℕ) (description : String) (by : ℕ) (ps : List Posting) (w : World)
    → Books w.db
    → Unmoved w.db (submit_expense_for_approval unit description by ps w).1.db
submit_expense_for_approval-Unmoved unit description by ps w b =
    settled_either (submit_expense_for_approval unit description by ps w).0 _
      ((submit_expense_for_approval-Keeps w.db unit description by ps).at w (at_rest w.db b))

-- On sound books, a request for a transfer to a trip fund leaves the books sound and the balance of
-- every account as it was, whether the call returns or fails, at whatever statement.
pub request_trip_fund_transfer-Unmoved :
    (unit scout fund : ℕ) (amount : ℤ) (description : String) (by : ℕ) (w : World)
    → Books w.db
    → Unmoved w.db (request_trip_fund_transfer unit scout fund amount description by w).1.db
request_trip_fund_transfer-Unmoved unit scout fund amount description by w b =
    settled_either (request_trip_fund_transfer unit scout fund amount description by w).0 _ (
      (request_trip_fund_transfer-Keeps w.db unit scout fund amount description by).at w
        (at_rest w.db b))
