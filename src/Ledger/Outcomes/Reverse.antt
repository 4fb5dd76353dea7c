-- ===== src/Ledger/Outcomes/Reverse.antt =====
-- The outcome of ReverseTransaction.
use mathlib.Core.Path.{subst}
use scout_site.Prelude.{
  ℕ, ◌≡◌, refl, sym, ap, ◌∙◌, inl, inr, Bool, true, false, ◌&&◌, some, List, [], ◌∷◌, arith, ◌==◌,
  ==_refl, if◌then◌else◌, All, Bool-cases,
}
use scout_site.Prelude.Int.{ℤ, pos, ◌+ℤ◌, ◌-ℤ◌, ◌≤ℤ◌, Fits, neg64, neg64_le, neg64_exact, int_laws}
use scout_site.Store.Rows.{Transaction, is_posted, posted, PostingRow, Db}
use scout_site.Store.Sums.{sum_where, transaction_sum, balance}
use scout_site.Store.Sql.{Result, ok, err, ok-injective, World, ◌>>=◌, ◌>>◌, lift, query}
use scout_site.Store.Triple.{
  Triple, Outcome, Triple-bind, Triple-lift, Triple-query, Triple-map_error, Triple-from,
  Triple-weaken,
}
use scout_site.Store.Books.{Books}
use scout_site.Ledger.Post.{reversed_already, insert_transaction}
use scout_site.Ledger.Post.Exact.{posting_sum}
use scout_site.Ledger.Effects.{account_sum}
use scout_site.Ledger.Outcomes.Insert.{Added, insert_transaction-Added}
use scout_site.Ledger.Reverse.{
  find_transaction, is_reversal, check_reversible, opposite_postings, reversal_draft,
  reverse_transaction,
}

-- What transaction `t` moved on account `a`.
abbrev pub share : ℕ → ℕ → List PostingRow → ℤ
share t a = sum_where (λ p. p.transaction_id == t && p.account_id == a)

sums_le : (x y s r : ℤ) → x +ℤ y ≤ℤ pos 0 → s +ℤ r ≤ℤ pos 0 → (x +ℤ s) +ℤ (y +ℤ r) ≤ℤ pos 0
sums_le x y s r h k = omega int_laws

sums_ge :
    (x y s r : ℤ)
    → x +ℤ y ≤ℤ pos 0
    → s +ℤ r ≤ℤ pos 0
    → pos 0 ≤ℤ (x +ℤ s) +ℤ (y +ℤ r)
    → (pos 0 ≤ℤ x +ℤ y) × (pos 0 ≤ℤ s +ℤ r)
sums_ge x y s r h k g = (omega int_laws, omega int_laws)

-- The wrapped opposites never come to more than the opposite of the sum.
opposite_le :
    (t : ℕ) (ps : List PostingRow)
    → All (λ p. Fits p.amount_cents) ps
    → posting_sum (opposite_postings t ps) +ℤ transaction_sum t ps ≤ℤ pos 0
unfolding opposite_postings sum_where
opposite_le t [] h = omega int_laws
opposite_le t (p ∷ ps) (f, h) = elim (Bool-cases (p.transaction_id == t)) [
  | inl own ↦ rw own (
      sums_le (neg64 p.amount_cents) p.amount_cents _ _ (neg64_le p.amount_cents f)
        (opposite_le t ps h))
  | inr other ↦ rw other (opposite_le t ps h)
]

negated :
    (b : Bool) (x y s r : ℤ)
    → y ≡ pos 0 -ℤ x
    → s ≡ pos 0 -ℤ r
    → (if b then y +ℤ s else s) ≡ pos 0 -ℤ (if b then x +ℤ r else r)
negated true x y s r e f = rw (e, f) (omega int_laws)
negated false x y s r e f = f

-- Where they come to just that, none has wrapped around, and each account gets back its share.
opposite_exact :
    (t a : ℕ) (ps : List PostingRow)
    → All (λ p. Fits p.amount_cents) ps
    → pos 0 ≤ℤ posting_sum (opposite_postings t ps) +ℤ transaction_sum t ps
    → account_sum a (opposite_postings t ps) ≡ pos 0 -ℤ share t a ps
unfolding opposite_postings sum_where account_sum
opposite_exact t a [] h g = omega int_laws
opposite_exact t a (p ∷ ps) (f, h) g = elim (Bool-cases (p.transaction_id == t)) [
  | inl own ↦
      let (here, later) =
        sums_ge (neg64 p.amount_cents) p.amount_cents _ _ (neg64_le p.amount_cents f)
          (opposite_le t ps h) (rw own at g) in
      rw own (
        negated (p.account_id == a) p.amount_cents (neg64 p.amount_cents) _ _
          (neg64_exact p.amount_cents f here) (opposite_exact t a ps h later))
  | inr other ↦ rw other (opposite_exact t a ps h (rw other at g))
]

-- `t` has been reversed by `r` in `d`, which made it `d'`.
pub record Reversed (unit t : ℕ) (d : Db) (r : Transaction) (d' : Db) : Type 0 where
  pub original : Transaction
  pub found : find_transaction unit t d ≡ ok original
  pub was_posted : is_posted original.status ≡ true
  pub was_no_reversal : is_reversal original.reverses_transaction_id ≡ false
  pub was_not_reversed : reversed_already (some t) d.transactions ≡ false
  pub now_reversed : reversed_already (some t) d'.transactions ≡ true
  pub posted_now : r.status ≡ posted
  pub transactions_are : d'.transactions ≡ r ∷ d.transactions
  pub balances : (a : ℕ) → balance d' a ≡ balance d a -ℤ share t a d.postings
  pub books : Books d'

check_reversible-ok :
    (x : Transaction)
    → check_reversible x ≡ ok tt
    → (is_posted x.status ≡ true) × (is_reversal x.reverses_transaction_id ≡ false)
unfolding check_reversible
check_reversible-ok x e = ground arith

balance_back : (b s x : ℤ) → s ≡ pos 0 -ℤ x → b +ℤ s ≡ b -ℤ x
balance_back b s x e = rw e (omega int_laws)

ge_of_zero : (s r : ℤ) → s ≡ pos 0 → r ≡ pos 0 → pos 0 ≤ℤ s +ℤ r
ge_of_zero s r e f = rw (e, f) (omega int_laws)

reversed_already-cons :
    (t : ℕ) (r : Transaction) (ts : List Transaction)
    → r.reverses_transaction_id ≡ some t
    → reversed_already (some t) (r ∷ ts) ≡ true
reversed_already-cons t r ts e = rw e (ground (arith, ==_refl t))

module _ (unit t actor : ℕ) (d0 : Db) (sound : Books d0)
    (bigints : All (λ p. Fits p.amount_cents) d0.postings) where
  Added-Reversed :
      (original : Transaction)
      → find_transaction unit t d0 ≡ ok original
      → check_reversible original ≡ ok tt
      → (r : Transaction) (d : Db)
      → Added (reversal_draft unit t actor original) (opposite_postings t d0.postings) d0 r d
      → Reversed unit t d0 r d
  Added-Reversed original found reversible r d a = record {
    original = original;
    found = found;
    was_posted = (check_reversible-ok original reversible).0;
    was_no_reversal = (check_reversible-ok original reversible).1;
    was_not_reversed = a.not_reversed;
    now_reversed = rw a.transactions_are (reversed_already-cons t r d0.transactions a.reverses_is);
    posted_now = a.status_is;
    transactions_are = a.transactions_are;
    balances = λ i.
        a.balances i
        ∙ balance_back (balance d0 i) _ _ (
            opposite_exact t i d0.postings bigints
              (ge_of_zero _ _ a.sums_to_zero (sound.balanced t)));
    books = a.books;
  }

  reverse_transaction-Triple :
      Triple (λ d. d ≡ d0) (reverse_transaction unit t actor) (Reversed unit t d0) (λ d. d ≡ d0)
  unfolding reverse_transaction
  reverse_transaction-Triple =
      Triple-bind {R = λ x d. (find_transaction unit t d0 ≡ ok x) × (d ≡ d0)} _ _
        (Triple-map_error _ _
          (Triple-query (find_transaction unit t) (λ d x q e. (rw q at e, q)) (λ d q. q)))
        (λ x.
          Triple-bind
            {R = λ _ d.
              (find_transaction unit t d0 ≡ ok x) × (check_reversible x ≡ ok tt) × (d ≡ d0)}
            _ _ (Triple-lift _ (λ u e d q. (q.0, e, q.1)) (λ d q. q.1))
            (λ _. Triple-from _ λ d1 q. rest x d1 q.0 q.1 q.2))
    where
      rest :
          (x : Transaction) (d1 : Db)
          → find_transaction unit t d0 ≡ ok x
          → check_reversible x ≡ ok tt
          → d1 ≡ d0
          → Triple
              (λ d. d ≡ d1)
              (do
                already ← query (λ d. ok (reversed_already (some t) d.transactions))
                lift (if already then err scout_site.Store.Sql.Error.not_reversible else ok tt)
                postings ← query (λ d. ok (opposite_postings t d.postings))
                insert_transaction (reversal_draft unit t actor x) postings)
              (Reversed unit t d0)
              (λ d. d ≡ d0)
      rest x d1 found reversible same =
          Triple-bind {R = λ _ d. d ≡ d0} _ _
            (Triple-query _ (λ d b q e. q ∙ same) (λ d q. q ∙ same))
            (λ b.
              Triple-bind {R = λ _ d. d ≡ d0} _ _ (Triple-lift _ (λ u e d q. q) (λ d q. q)) (λ _.
                Triple-bind {R = λ ps d. (ps ≡ opposite_postings t d0.postings) × (d ≡ d0)} _ _
                  (Triple-query _
                    (λ d ps q e.
                      (sym (ok-injective _ _ e) ∙ ap (λ z. opposite_postings t z.postings) q, q))
                    (λ d q. q))
                  (λ ps. Triple-from _ λ d2 q.
                    Triple-weaken (λ d e. e ∙ q.1)
                      (λ r d a.
                        Added-Reversed x found reversible r d
                          (subst (λ z. Added (reversal_draft unit t actor x) z d0 r d) q.0 a))
                      (λ d e. e)
                      (insert_transaction-Added (reversal_draft unit t actor x) ps d0 sound))))

-- ReverseTransaction on sound books whose amounts are int64, whichever statements fail: an error
-- has changed nothing; on success the transaction was a posted one of the unit, no reversal itself
-- and never reversed before, it counts as reversed from now on, one posted transaction has been
-- added, and every balance is back by exactly what the original had moved on that account.
pub reverse_transaction-Reversed :
    (unit t actor : ℕ) (w : World)
    → Books w.db
    → All (λ p. Fits p.amount_cents) w.db.postings
    → let (r, w') = reverse_transaction unit t actor w in
      Outcome (Reversed unit t w.db) (λ d. d ≡ w.db) r w'.db
reverse_transaction-Reversed unit t actor w sound bigints =
    (reverse_transaction-Triple unit t actor w.db sound bigints).at w refl
