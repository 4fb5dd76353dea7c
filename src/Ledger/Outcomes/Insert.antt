-- ===== src/Ledger/Outcomes/Insert.antt =====
-- The outcome of insertTransaction and PostTransaction.
use mathlib.Core.Path.{subst}
use Prim.Native.String.{String}
use scout_site.Prelude.{
  ℕ, ◌≡◌, refl, sym, ap, ◌∙◌, Bool, true, false, List, [], ◌∷◌, ◌==◌, ==_refl, if◌then◌else◌, All,
}
use scout_site.Prelude.Int.{ℤ, pos, ◌+ℤ◌, is_zero, zero_of_sum, int_laws}
use scout_site.Store.Rows.{Transaction, TransactionType, is_posted, posted, Posting, Db, AuditEntry}
use scout_site.Store.Sums.{sum_where, transaction_sum, balance}
use scout_site.Store.Sql.{World}
use scout_site.Store.Triple.{Triple, Outcome, Triple-weaken}
use scout_site.Store.Books.{Books}
use scout_site.Ledger.Post.{
  Draft, ordinary, new_transaction, with_transaction, with_posting, reversed_already,
  insert_transaction, post_transaction,
}
use scout_site.Ledger.Post.Exact.{
  with_postings, posting_sum, recorded, Recorded, Accepted, insert_transaction-Triple,
}
use scout_site.Ledger.Post.Guards.{owns_open}
use scout_site.Ledger.Books.Recorded.{
  Books-recorded, accounts-with_postings, transactions-with_postings,
}
use scout_site.Ledger.Effects.{account_sum, balance-recorded}

posting_choice :
    (b : Bool) (x s y : ℤ) → b ≡ true → ((if b then x +ℤ s else s) +ℤ y) ≡ (s +ℤ (x +ℤ y))
posting_choice true x s y h = omega int_laws
posting_choice false x s y h = cc

pub transaction_sum-with_postings :
    (t : ℕ) (ps : List Posting) (d : Db)
    → transaction_sum t (with_postings t ps d).postings
      ≡ transaction_sum t d.postings +ℤ posting_sum ps
transaction_sum-with_postings t [] d = omega int_laws
transaction_sum-with_postings t (p ∷ ps) d =
    transaction_sum-with_postings t ps (with_posting t p d)
    ∙ unfold sum_where in
      posting_choice (t == t) p.amount_cents (transaction_sum t d.postings) (posting_sum ps)
        (==_refl t)

-- The transaction `t` has been added to `d` with the postings `ps`, which made it `d'`.
pub record Added (x : Draft) (ps : List Posting) (d : Db) (t : Transaction) (d' : Db) : Type 0 where
  pub books : Books d'
  pub status_is : t.status ≡ x.status
  pub id_is : t.id ≡ d.next_id
  pub reverses_is : t.reverses_transaction_id ≡ x.reverses_id
  pub not_reversed : reversed_already x.reverses_id d.transactions ≡ false
  pub transactions_are : d'.transactions ≡ t ∷ d.transactions
  pub accounts_are : d'.accounts ≡ d.accounts
  pub accounts_open :
      All
        (λ p.
          (owns_open d.accounts p.account_id x.unit_id ≡ true) × (is_zero p.amount_cents ≡ false))
        ps
  pub sums_to_zero : posting_sum ps ≡ pos 0
  pub balances :
      (a : ℕ)
      → balance d' a ≡ balance d a +ℤ (if is_posted x.status then account_sum a ps else pos 0)

module _ (x : Draft) (ps : List Posting) (d0 : Db) (sound : Books d0) where
  Recorded-Added :
      (t : Transaction) (d1 : Db) → Accepted x ps d0 → Recorded x ps d0 t d1 → Added x ps d0 t d1
  Recorded-Added t d1 accepted r =
      let new = new_transaction x d0.next_id r.now in
      let written = with_transaction new d0 in
      let books : Books (recorded x ps r.now d0) =
        Books-recorded x ps d0 sound accepted r.now r.at_commit in
      subst (Added x ps d0 t) (sym r.db_is) (record {
        books = books;
        status_is = ap (λ (y : Transaction). y.status) r.transaction_is;
        id_is = ap (λ (y : Transaction). y.id) r.transaction_is;
        reverses_is = ap (λ (y : Transaction). y.reverses_transaction_id) r.transaction_is;
        not_reversed = r.fresh;
        transactions_are =
            transactions-with_postings d0.next_id ps written
            ∙ ap (λ y. y ∷ d0.transactions) (sym r.transaction_is);
        accounts_are = accounts-with_postings d0.next_id ps written;
        accounts_open = accepted.accounts;
        sums_to_zero =
            zero_of_sum _ _
              (sym (transaction_sum-with_postings d0.next_id ps written)
                ∙ books.balanced d0.next_id)
              (sound.balanced d0.next_id);
        balances = λ a. balance-recorded x ps r.now d0 a sound;
      })

  Added-audit :
      (t : Transaction) (d1 : Db) (entries : List AuditEntry)
      → Added x ps d0 t d1
      → Added x ps d0 t (record d1 { audit = entries })
  Added-audit t d1 entries a = record {
    books = scout_site.Store.Books.Books-audit d1 entries a.books;
    status_is = a.status_is;
    id_is = a.id_is;
    reverses_is = a.reverses_is;
    not_reversed = a.not_reversed;
    transactions_are = a.transactions_are;
    accounts_are = a.accounts_are;
    accounts_open = a.accounts_open;
    sums_to_zero = a.sums_to_zero;
    balances = λ i. unfold balance in a.balances i;
  }

  pub insert_transaction-Added :
      Triple (λ d. d ≡ d0) (insert_transaction x ps) (Added x ps d0) (λ d. d ≡ d0)
  insert_transaction-Added =
      Triple-weaken (λ d e. e)
        (λ t d (accepted, (d1, r, (entries, e))).
          subst (Added x ps d0 t) (sym e)
            (Added-audit t d1 entries (Recorded-Added t d1 accepted r)))
        (λ d e. e) (insert_transaction-Triple x ps d0)

-- PostTransaction on sound books, whichever statements fail: an error has changed nothing; on
-- success the new posted transaction is the only one added, all its postings are non-zero and lie
-- on open accounts of the unit, they sum to exactly zero (no wrap-around), every balance has moved
-- by exactly what they come to on that account, and the books are sound.
pub post_transaction-Added :
    (unit : ℕ) (type : TransactionType) (description : String) (by : ℕ) (ps : List Posting)
    (w : World)
    → Books w.db
    → let (r, w') = post_transaction unit type description by ps w in
      Outcome (Added (ordinary unit type description by posted) ps w.db) (λ d. d ≡ w.db) r w'.db
unfolding post_transaction
post_transaction-Added unit type description by ps w sound =
    (insert_transaction-Added (ordinary unit type description by posted) ps w.db sound).at w refl
