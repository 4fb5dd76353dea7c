-- ===== src/Store/Books/Totals.antt =====
-- A unit's accounts together hold nothing: the external account is the negative of the rest.
use scout_site.Prelude.{
  ℕ, ◌≤◌, ◌≡◌, refl, sym, ◌∙◌, inl, inr, Bool, true, false, ◌&&◌, ◌||◌, List, [], ◌∷◌, arith, ◌==◌,
  if◌then◌else◌, any, All, Bool-cases,
}
use scout_site.Prelude.Int.{ℤ, pos, ◌+ℤ◌, int_laws}
use scout_site.Store.Rows.{Account, Transaction, is_posted, PostingRow, Db}
use scout_site.Store.Sums.{sum_where, transaction_sum, counts, balance, owns}
use scout_site.Store.Books.{
  has, IsScoped, account_ids, transaction_ids, Descending, Books, owns-Descending, has-Descending,
}

-- The sum of the balances of a unit's accounts.
accounts_total : Db → ℕ → List Account → ℤ
accounts_total d u [] = pos 0
accounts_total d u (a ∷ rest) =
    if a.unit_id == u then balance d a.id +ℤ accounts_total d u rest else accounts_total d u rest

pub unit_total : Db → ℕ → ℤ
unfolding accounts_total
unit_total d u = accounts_total d u d.accounts

pub sum_where-ext :
    (q r : PostingRow → Bool) (ps : List PostingRow)
    → All (λ p. q p ≡ r p) ps
    → sum_where q ps ≡ sum_where r ps
unfolding sum_where
sum_where-ext q r [] h = refl
sum_where-ext q r (p ∷ ps) (e, h) = ground (arith, sum_where-ext q r ps h)

sum_where-none :
    (q : PostingRow → Bool) (ps : List PostingRow)
    → ((p : PostingRow) → q p ≡ false)
    → sum_where q ps ≡ pos 0
unfolding sum_where
sum_where-none q [] h = refl
sum_where-none q (p ∷ ps) h = ground (arith, h p, sum_where-none q ps h)

add_choice :
    (b c : Bool) (x s s1 s2 : ℤ)
    → (b && c) ≡ false
    → s ≡ s1 +ℤ s2
    → (if b || c then x +ℤ s else s) ≡ (if b then x +ℤ s1 else s1) +ℤ (if c then x +ℤ s2 else s2)
add_choice true true x s s1 s2 h e = cc
add_choice true false x s s1 s2 h e = rw e (omega int_laws)
add_choice false true x s s1 s2 h e = rw e (omega int_laws)
add_choice false false x s s1 s2 h e = e

-- Disjoint conditions add up.
pub sum_where-or :
    (q r : PostingRow → Bool) (ps : List PostingRow)
    → ((p : PostingRow) → (q p && r p) ≡ false)
    → sum_where (λ p. q p || r p) ps ≡ sum_where q ps +ℤ sum_where r ps
unfolding sum_where
sum_where-or q r [] h = omega int_laws
sum_where-or q r (p ∷ ps) h =
    add_choice (q p) (r p) p.amount_cents _ _ _ (h p) (sum_where-or q r ps h)

pub sum_where-same :
    (q r : PostingRow → Bool) (ps : List PostingRow)
    → ((p : PostingRow) → q p ≡ r p)
    → sum_where q ps ≡ sum_where r ps
unfolding sum_where
sum_where-same q r [] h = refl
sum_where-same q r (p ∷ ps) h = ground (arith, h p, sum_where-same q r ps h)

-- The balances of the accounts are one sum over the postings.
accounts_total-sum :
    (d : Db) (u n : ℕ) (as' : List Account)
    → Descending n (account_ids as')
    → accounts_total d u as'
      ≡ sum_where
          (λ p. owns as' p.account_id u && counts d.transactions p.transaction_id)
          d.postings
unfolding accounts_total owns balance
accounts_total-sum d u n [] h = sym (sum_where-none _ d.postings (λ p. refl))
accounts_total-sum d u n (a ∷ rest) (lt, h) =
    let ih : accounts_total d u rest
        ≡ sum_where (λ p. owns rest p.account_id u && counts d.transactions p.transaction_id)
            d.postings =
      accounts_total-sum d u a.id rest h in
    elim (Bool-cases (a.unit_id == u)) [
      | inl here ↦ rw here (
          rw ih (
            sym (
              sum_where-or (λ p. p.account_id == a.id && counts d.transactions p.transaction_id)
                (λ p. owns rest p.account_id u && counts d.transactions p.transaction_id) d.postings
                (λ p. ground (arith, owns-Descending rest {n = a.id} p.account_id u h)))
            ∙ sum_where-same _ _ d.postings (λ p. ground arith)))
      | inr elsewhere ↦ rw elsewhere (ih ∙ sum_where-same _ _ d.postings (λ p. ground arith))
    ]

-- A posted transaction of that id in that unit.
unfoldable counts_in : List Transaction → ℕ → ℕ → Bool
counts_in ts u t = any (λ (x : Transaction). x.id == t && (is_posted x.status && x.unit_id == u)) ts

counts_in-Descending :
    (ts : List Transaction) {n : ℕ} (i u : ℕ)
    → Descending n (transaction_ids ts)
    → n ≤ i
    → counts_in ts u i ≡ false
unfolding counts_in
counts_in-Descending [] i u h le = refl
counts_in-Descending (t ∷ rest) i u (lt, h) le =
    ground (arith, counts_in-Descending rest {n = t.id} i u h)

pub counts-Descending :
    (ts : List Transaction) {n : ℕ} (i : ℕ)
    → Descending n (transaction_ids ts)
    → n ≤ i
    → counts ts i ≡ false
unfolding counts
counts-Descending [] i h le = refl
counts-Descending (t ∷ rest) i (lt, h) le = ground (arith, counts-Descending rest {n = t.id} i h)

-- The posted transactions of a unit move nothing in all.
counts_in-sum :
    (u n : ℕ) (ts : List Transaction) (ps : List PostingRow)
    → Descending n (transaction_ids ts)
    → ((t : ℕ) → transaction_sum t ps ≡ pos 0)
    → sum_where (λ p. counts_in ts u p.transaction_id) ps ≡ pos 0
counts_in-sum u n [] ps h b = unfold counts_in in sum_where-none _ ps (λ p. refl)
counts_in-sum u n (t ∷ rest) ps (lt, h) b =
    let ih : sum_where (λ p. counts_in rest u p.transaction_id) ps ≡ pos 0 =
      counts_in-sum u t.id rest ps h b in
    elim (Bool-cases (is_posted t.status && t.unit_id == u)) [
      | inl here ↦
          sum_where-same (λ p. counts_in (t ∷ rest) u p.transaction_id)
            (λ p. p.transaction_id == t.id || counts_in rest u p.transaction_id) ps
            (λ p. unfold counts_in in ground arith)
          ∙ sum_where-or (λ p. p.transaction_id == t.id) (λ p. counts_in rest u p.transaction_id) ps
              (λ p. ground (arith, counts_in-Descending rest {n = t.id} p.transaction_id u h))
          ∙ rw (b t.id, ih) (omega int_laws)
      | inr elsewhere ↦
          sum_where-same (λ p. counts_in (t ∷ rest) u p.transaction_id)
            (λ p. counts_in rest u p.transaction_id) ps (λ p. unfold counts_in in ground arith)
          ∙ ih
    ]

-- What is found in one unit is found in no other.
owns_unique :
    (n : ℕ) (as' : List Account) (i u v : ℕ)
    → Descending n (account_ids as')
    → owns as' i v ≡ true
    → owns as' i u ≡ (u == v)
unfolding owns
owns_unique n [] i u v h e = cc
owns_unique n (a ∷ rest) i u v (lt, h) e = ground (
  arith,
  owns_unique a.id rest i u v h,
  owns-Descending rest {n = a.id} i u h,
  owns-Descending rest {n = a.id} i v h,
)

counts-counts_in :
    (n : ℕ) (ts : List Transaction) (t u v : ℕ)
    → Descending n (transaction_ids ts)
    → has ts t v ≡ true
    → counts_in ts u t ≡ (counts ts t && (u == v))
unfolding has counts counts_in
counts-counts_in n [] t u v h e = cc
counts-counts_in n (x ∷ rest) t u v (lt, h) e = ground (
  arith,
  counts-counts_in x.id rest t u v h,
  has-Descending rest {n = x.id} t v h,
  counts_in-Descending rest {n = x.id} t u h,
  counts-Descending rest {n = x.id} t h,
)

-- In sound books the posted postings to the accounts of a unit sum to zero.
pub owned_total-zero :
    (d : Db) (u : ℕ)
    → Books d
    → sum_where
        (λ p. owns d.accounts p.account_id u && counts d.transactions p.transaction_id)
        d.postings
      ≡ pos 0
owned_total-zero d u b =
    sum_where-ext _ (λ p. counts_in d.transactions u p.transaction_id) d.postings
      (scoped d.postings b.scoped)
    ∙ counts_in-sum u d.next_id d.transactions d.postings b.transaction_keys b.balanced
  where
    scoped :
        (ps : List PostingRow)
        → All (IsScoped d.accounts d.transactions) ps
        → All
            (λ p.
              (owns d.accounts p.account_id u && counts d.transactions p.transaction_id)
              ≡ counts_in d.transactions u p.transaction_id)
            ps
    scoped [] h = tt
    scoped (p ∷ ps) (s, h) = (
      ground (
        arith,
        owns_unique d.next_id d.accounts p.account_id u s.unit_id b.account_keys s.of_account,
        counts-counts_in d.next_id d.transactions p.transaction_id u s.unit_id b.transaction_keys
            s.of_transaction,
      ),
      scoped ps h,
    )

-- In sound books the balances of a unit's accounts, the external one included, sum to zero.
pub unit_total-zero : (d : Db) (u : ℕ) → Books d → unit_total d u ≡ pos 0
unfolding unit_total
unit_total-zero d u b =
    accounts_total-sum d u d.next_id d.accounts b.account_keys ∙ owned_total-zero d u b
