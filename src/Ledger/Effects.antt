-- ===== src/Ledger/Effects.antt =====
-- What a recorded transaction does to the balances.
use mathlib.Core.Path.{subst, ap₂}
use scout_site.Prelude.{
  ℕ, ◌≤◌, ◌≡◌, ◌∙◌, inl, inr, Bool, true, false, ◌&&◌, List, [], ◌∷◌, arith, ◌==◌, ==_iff,
  if◌then◌else◌, All, Bool-cases,
}
use scout_site.Prelude.Int.{ℤ, pos, ◌+ℤ◌, int_laws}
use scout_site.Store.Rows.{Transaction, is_posted, Posting, PostingRow, Db}
use scout_site.Store.Sums.{sum_where, counts, balance}
use scout_site.Store.Books.{has, IsScoped, transaction_ids, Descending, Books, has-Descending}
use scout_site.Store.Books.Totals.{sum_where-ext, counts-Descending}
use scout_site.Ledger.Post.{Draft, new_transaction, with_transaction, with_posting}
use scout_site.Ledger.Post.Exact.{with_postings, recorded}
use scout_site.Ledger.Books.Recorded.{transactions-with_postings}

-- What the postings of a transaction come to on one account.
unfoldable pub account_sum : ℕ → List Posting → ℤ
account_sum a [] = pos 0
account_sum a (p ∷ ps) =
    if p.account_id == a then p.amount_cents +ℤ account_sum a ps else account_sum a ps

row_choice :
    (b c : Bool) (x s y r : ℤ)
    → ((if b && c then x +ℤ s else s) +ℤ (if c then y else pos 0))
      ≡ (s +ℤ (if c then (if b then x +ℤ y else y) else pos 0))
row_choice true true x s y r = omega int_laws
row_choice true false x s y r = omega int_laws
row_choice false true x s y r = omega int_laws
row_choice false false x s y r = omega int_laws

sum_where-with_postings :
    (a t : ℕ) (c : ℕ → Bool) (ps : List Posting) (d : Db)
    → sum_where (λ p. p.account_id == a && c p.transaction_id) (with_postings t ps d).postings
      ≡ sum_where (λ p. p.account_id == a && c p.transaction_id) d.postings
        +ℤ (if c t then account_sum a ps else pos 0)
unfolding account_sum
sum_where-with_postings a t c [] d = elim (Bool-cases (c t)) [
  | inl h ↦ rw h (omega int_laws)
  | inr h ↦ rw h (omega int_laws)
]
sum_where-with_postings a t c (p ∷ ps) d =
    sum_where-with_postings a t c ps (with_posting t p d)
    ∙ unfold sum_where in
      row_choice (p.account_id == a) (c t) p.amount_cents
        (sum_where (λ p. p.account_id == a && c p.transaction_id) d.postings) (account_sum a ps)
        (pos 0)

-- A fresh identifier is that of no earlier transaction.
counts-cons :
    (x : Transaction) (ts : List Transaction) (t u n : ℕ)
    → Descending n (transaction_ids ts)
    → n ≤ x.id
    → has ts t u ≡ true
    → counts (x ∷ ts) t ≡ counts ts t
unfolding counts
counts-cons x ts t u n h le e = elim (Bool-cases (x.id == t)) [
  | inl same ↦
      let unused : has ts t u ≡ false =
        has-Descending ts {n = n} t u h (subst (λ i. n ≤ i) ((==_iff x.id t).0 same) le) in
      absurd (cc unused)
  | inr other ↦ rw other
]

-- The balance of an account moves by what a posted transaction's postings come to on it, and
-- stays where the transaction is not posted.
pub balance-recorded :
    (x : Draft) (ps : List Posting) (now : ℕ) (d : Db) (a : ℕ)
    → Books d
    → balance (recorded x ps now d) a
      ≡ balance d a +ℤ (if is_posted x.status then account_sum a ps else pos 0)
unfolding balance
balance-recorded x ps now d a b =
    let new = new_transaction x d.next_id now in
    let d1 = with_transaction new d in
    rw (transactions-with_postings d.next_id ps d1) (
      sum_where-with_postings a d.next_id (counts (new ∷ d.transactions)) ps d1
      ∙ ap₂ (λ (s : ℤ) c. s +ℤ (if c then account_sum a ps else pos 0))
          (sum_where-ext _ _ d.postings (old d.postings b.scoped)) (unfold counts in fresh))
  where
    old :
        (rows : List PostingRow)
        → All (IsScoped d.accounts d.transactions) rows
        → All
            (λ p.
              (p.account_id == a
                && counts (new_transaction x d.next_id now ∷ d.transactions) p.transaction_id)
              ≡ (p.account_id == a && counts d.transactions p.transaction_id))
            rows
    old [] h = tt
    old (p ∷ rows) (s, h) = (
      rw (
          counts-cons (new_transaction x d.next_id now) d.transactions p.transaction_id s.unit_id
            d.next_id b.transaction_keys (omega arith) s.of_transaction),
      old rows h,
    )

    fresh : counts (new_transaction x d.next_id now ∷ d.transactions) d.next_id ≡ is_posted x.status
    fresh =
        ground
          (arith, counts-Descending d.transactions {n = d.next_id} d.next_id b.transaction_keys)
