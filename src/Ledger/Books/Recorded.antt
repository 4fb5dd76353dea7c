-- ===== src/Ledger/Books/Recorded.antt =====
-- Recording a transaction keeps the books.
use mathlib.Core.Path.{subst}
use scout_site.Prelude.{
  ℕ, ◌≤◌, ◌≡◌, refl, sym, ◌∙◌, inl, inr, true, false, List, [], ◌∷◌, arith, ltb, ◌==◌, ==_iff, All,
  All-map, Bool-cases, &&-true, ||-other, length,
}
use scout_site.Prelude.Int.{pos, is_zero, is_zero_iff}
use scout_site.Store.Rows.{Account, Transaction, Posting, PostingRow, Db}
use scout_site.Store.Sums.{sum_where, transaction_sum, owns}
use scout_site.Store.Sql.{ok, settled}
use scout_site.Store.Triple.{Keeps, Triple-from, Triple-weaken}
use scout_site.Store.Books.{Books-audit, has, IsScoped, Descending-le, Books}
use scout_site.Ledger.Post.{
  member, check_postings, Draft, new_transaction, with_transaction, with_posting,
  insert_transaction,
}
use scout_site.Ledger.Post.Exact.{with_postings, recorded, Accepted, insert_transaction-Triple}
use scout_site.Ledger.Post.Guards.{owns_open}

owns_open-owns : (as' : List Account) (a u : ℕ) → owns_open as' a u ≡ true → owns as' a u ≡ true
unfolding owns owns_open
owns_open-owns [] a u h = cc
owns_open-owns (x ∷ rest) a u h = ground (arith, owns_open-owns rest a u)

settled-member :
    (s : ℕ) (ts : List ℕ) (ps : List PostingRow)
    → settled ts ps ≡ true
    → member s ts ≡ true
    → transaction_sum s ps ≡ pos 0
unfolding settled
settled-member s [] ps h m = cc
settled-member s (t ∷ ts) ps h m =
    let (now, later) = &&-true (is_zero (transaction_sum t ps)) (settled ts ps) h in
    elim (Bool-cases (t == s)) [
      | inl same ↦ rw (← (==_iff t s).0 same) ((is_zero_iff _).0 now)
      | inr other ↦ settled-member s ts ps later (||-other (t == s) (member s ts) m other)
    ]

module _ (t : ℕ) where
  pub accounts-with_postings :
      (ps : List Posting) (d : Db) → (with_postings t ps d).accounts ≡ d.accounts
  accounts-with_postings [] d = refl
  accounts-with_postings (p ∷ ps) d = accounts-with_postings ps (with_posting t p d)

  pub transactions-with_postings :
      (ps : List Posting) (d : Db) → (with_postings t ps d).transactions ≡ d.transactions
  transactions-with_postings [] d = refl
  transactions-with_postings (p ∷ ps) d = transactions-with_postings ps (with_posting t p d)

  next_id-with_postings : (ps : List Posting) (d : Db) → d.next_id ≤ (with_postings t ps d).next_id
  next_id-with_postings [] d = omega arith
  next_id-with_postings (p ∷ ps) d = omega (arith, next_id-with_postings ps (with_posting t p d))

  member-with_postings :
      (ps : List Posting) (d : Db)
      → member t d.touched ≡ true
      → member t (with_postings t ps d).touched ≡ true
  member-with_postings [] d h = h
  member-with_postings (p ∷ ps) d h = member-with_postings ps (with_posting t p d) (ground arith)

  -- The sums of the other transactions stay.
  transaction_sum-with_postings_ne :
      (s : ℕ) (ps : List Posting) (d : Db)
      → (t == s) ≡ false
      → transaction_sum s (with_postings t ps d).postings ≡ transaction_sum s d.postings
  transaction_sum-with_postings_ne s [] d h = refl
  transaction_sum-with_postings_ne s (p ∷ ps) d h =
      transaction_sum-with_postings_ne s ps (with_posting t p d) h
      ∙ unfold sum_where in ground arith

  IsScoped-with_postings :
      (u : ℕ) (ps : List Posting) (d : Db)
      → has d.transactions t u ≡ true
      → All (λ p. owns d.accounts p.account_id u ≡ true) ps
      → All (IsScoped d.accounts d.transactions) d.postings
      → All (IsScoped d.accounts d.transactions) (with_postings t ps d).postings
  IsScoped-with_postings u [] d h o s = s
  IsScoped-with_postings u (p ∷ ps) d h (o, os) s =
      IsScoped-with_postings u ps (with_posting t p d) h os
        (record { unit_id = u; of_transaction = h; of_account = o }, s)

has-cons :
    (x : Transaction) (ts : List Transaction) (t u : ℕ)
    → has ts t u ≡ true
    → has (x ∷ ts) t u ≡ true
unfolding has
has-cons x ts t u h = ground arith

has-new : (x : Transaction) (ts : List Transaction) → has (x ∷ ts) x.id x.unit_id ≡ true
unfolding has
has-new x ts = ground arith

check_postings-nonempty :
    (ps : List Posting) (ids : List ℕ) → check_postings ps ≡ ok ids → ltb (length ps) 2 ≡ false
unfolding check_postings
check_postings-nonempty ps ids e = ground arith

member-written :
    (t : ℕ) (ps : List Posting) (d : Db)
    → ltb (length ps) 2 ≡ false
    → member t (with_postings t ps d).touched ≡ true
member-written t [] d h = cc
member-written t (p ∷ ps) d h = member-with_postings t ps (with_posting t p d) (ground arith)

module _ (x : Draft) (ps : List Posting) (d0 : Db) (sound : Books d0)
    (accepted : Accepted x ps d0) where
  pub Books-recorded :
      (now : ℕ)
      → let d1 = with_transaction (new_transaction x d0.next_id now) d0 in
        settled (with_postings d0.next_id ps d1).touched (with_postings d0.next_id ps d1).postings
          ≡ true
        → Books (recorded x ps now d0)
  Books-recorded now s =
      let new = new_transaction x d0.next_id now in
      let d1 = with_transaction new d0 in
      record {
        balanced = λ t. elim (Bool-cases (d0.next_id == t)) [
          | inl here ↦ settled-member t _ _ s (
              subst (λ i. member i (with_postings d0.next_id ps d1).touched ≡ true)
                ((==_iff d0.next_id t).0 here)
                (member-written d0.next_id ps d1
                  (check_postings-nonempty ps accepted.ids accepted.checked)))
          | inr other ↦ transaction_sum-with_postings_ne d0.next_id t ps d1 other ∙ sound.balanced t
        ];
        scoped =
            rw
              (accounts-with_postings d0.next_id ps d1, transactions-with_postings d0.next_id ps d1)
              (IsScoped-with_postings d0.next_id x.unit_id ps d1 (has-new new d0.transactions)
                (All-map (λ p h. owns_open-owns d0.accounts p.account_id x.unit_id h.0) ps
                  accepted.accounts)
                (All-map
                  (λ p h. record {
                    unit_id = h.unit_id;
                    of_transaction =
                        has-cons new d0.transactions p.transaction_id h.unit_id h.of_transaction;
                    of_account = h.of_account;
                  })
                  d0.postings sound.scoped));
        account_keys = rw (accounts-with_postings d0.next_id ps d1) (
            Descending-le _ (omega (arith, next_id-with_postings d0.next_id ps d1))
              sound.account_keys);
        transaction_keys =
            rw (transactions-with_postings d0.next_id ps d1)
              (omega (arith, next_id-with_postings d0.next_id ps d1), sound.transaction_keys);
        idle = refl;
      }

pub insert_transaction-Books :
    (x : Draft) (ps : List Posting) → Keeps Books (insert_transaction x ps)
insert_transaction-Books x ps = Triple-from _ λ d0 sound.
    Triple-weaken (λ d e. e)
      (λ t d (accepted, (d1, r, (entries, e))). subst Books (sym e) (
        Books-audit d1 entries
          (subst Books (sym r.db_is) (Books-recorded x ps d0 sound accepted r.now r.at_commit))))
      (λ d e. subst Books (sym e) sound) (insert_transaction-Triple x ps d0)
