-- ===== src/Store/Books.antt =====
-- The invariant of a unit's books, over the tables alone.
pub mod Totals
use scout_site.Prelude.{
  ℕ, ◌+◌, ◌≤◌, ◌<◌, ◌≡◌, refl, sym, ap, ◌∙◌, inl, inr, Bool, true, false, ◌&&◌, ◌||◌, Option, none,
  some, List, [], ◌∷◌, arith, ◌==◌, if◌then◌else◌, any, update_where, All, All-map, Bool-cases,
}
use scout_site.Prelude.Int.{ℤ, pos, ◌+ℤ◌, is_zero, is_zero_iff}
use scout_site.Store.Rows.{Account, Transaction, PostingRow, Db, AuditEntry}
use scout_site.Store.Sums.{sum_where, transaction_sum, counts, balance, owns}
use scout_site.Store.Sql.{settled, committed}

-- There is a transaction of that id in that unit.
unfoldable pub has : List Transaction → ℕ → ℕ → Bool
has ts t u = any (λ (x : Transaction). x.id == t && x.unit_id == u) ts

-- The posting's account belongs to the unit of its transaction.
pub record IsScoped (accounts : List Account) (ts : List Transaction) (p : PostingRow)
    : Type 0 where
  pub unit_id : ℕ
  pub of_transaction : has ts p.transaction_id unit_id ≡ true
  pub of_account : owns accounts p.account_id unit_id ≡ true

abbrev pub account_ids : List Account → List ℕ
account_ids [] = []
account_ids (a ∷ rest) = a.id ∷ account_ids rest

abbrev pub transaction_ids : List Transaction → List ℕ
transaction_ids [] = []
transaction_ids (t ∷ rest) = t.id ∷ transaction_ids rest

-- Newest first, with fresh identifiers: each is below those before it, and below `n`.
abbrev pub Descending : ℕ → List ℕ → Type 0
Descending n [] = Unit
Descending n (i ∷ is) = (i < n) × Descending i is

pub record Books (d : Db) : Type 0 where
  pub balanced : (t : ℕ) → transaction_sum t d.postings ≡ pos 0
  pub scoped : All (IsScoped d.accounts d.transactions) d.postings
  pub account_keys : Descending d.next_id (account_ids d.accounts)
  pub transaction_keys : Descending d.next_id (transaction_ids d.transactions)
  pub idle : d.touched ≡ []

pub Descending-le : {n m : ℕ} (is : List ℕ) → n ≤ m → Descending n is → Descending m is
Descending-le [] h k = tt
Descending-le (i ∷ is) h (lt, k) = (omega arith, k)

-- What was not yet used as an identifier is found nowhere.
pub owns-Descending :
    (as' : List Account) {n : ℕ} (i u : ℕ)
    → Descending n (account_ids as')
    → n ≤ i
    → owns as' i u ≡ false
unfolding owns
owns-Descending [] i u h le = refl
owns-Descending (a ∷ rest) i u (lt, h) le = ground (arith, owns-Descending rest {n = a.id} i u h)

pub has-Descending :
    (ts : List Transaction) {n : ℕ} (i u : ℕ)
    → Descending n (transaction_ids ts)
    → n ≤ i
    → has ts i u ≡ false
unfolding has
has-Descending [] i u h le = refl
has-Descending (a ∷ rest) i u (lt, h) le = ground (arith, has-Descending rest {n = a.id} i u h)

-- Updates of other columns.
pub has-update_where :
    (q : Transaction → Bool) (f : Transaction → Transaction)
    → ((x : Transaction) → (f x).id ≡ x.id)
    → ((x : Transaction) → (f x).unit_id ≡ x.unit_id)
    → (ts : List Transaction) (t u : ℕ) → has (update_where q f ts) t u ≡ has ts t u
unfolding has
has-update_where q f same_id same_unit [] t u = refl
has-update_where q f same_id same_unit (x ∷ ts) t u =
    ground (arith, same_id x, same_unit x, has-update_where q f same_id same_unit ts t u)

pub transaction_ids-update_where :
    (q : Transaction → Bool) (f : Transaction → Transaction)
    → ((x : Transaction) → (f x).id ≡ x.id)
    → (ts : List Transaction) → transaction_ids (update_where q f ts) ≡ transaction_ids ts
transaction_ids-update_where q f same_id [] = refl
transaction_ids-update_where q f same_id (x ∷ ts) =
    ground (arith, same_id x, transaction_ids-update_where q f same_id ts)

pub owns-update_where :
    (q : Account → Bool) (f : Account → Account)
    → ((x : Account) → (f x).id ≡ x.id)
    → ((x : Account) → (f x).unit_id ≡ x.unit_id)
    → (as' : List Account) (a u : ℕ) → owns (update_where q f as') a u ≡ owns as' a u
unfolding owns
owns-update_where q f same_id same_unit [] t u = refl
owns-update_where q f same_id same_unit (x ∷ rest) t u =
    ground (arith, same_id x, same_unit x, owns-update_where q f same_id same_unit rest t u)

pub account_ids-update_where :
    (q : Account → Bool) (f : Account → Account)
    → ((x : Account) → (f x).id ≡ x.id)
    → (as' : List Account) → account_ids (update_where q f as') ≡ account_ids as'
account_ids-update_where q f same_id [] = refl
account_ids-update_where q f same_id (x ∷ rest) =
    ground (arith, same_id x, account_ids-update_where q f same_id rest)

-- The audit log is no part of the books.
pub Books-audit :
    (d : Db) (entries : List AuditEntry) → Books d → Books (record d { audit = entries })
Books-audit d entries b = record {
  balanced = b.balanced;
  scoped = b.scoped;
  account_keys = b.account_keys;
  transaction_keys = b.transaction_keys;
  idle = b.idle;
}

-- Nor are the tables that hold no money.
pub Books-same :
    (d e : Db)
    → e.accounts ≡ d.accounts
    → e.transactions ≡ d.transactions
    → e.postings ≡ d.postings
    → d.next_id ≤ e.next_id
    → e.touched ≡ []
    → Books d
    → Books e
Books-same d e a t p n idle b = record {
  balanced = λ s. rw p (b.balanced s);
  scoped = rw (a, t, p) b.scoped;
  account_keys = rw a (Descending-le _ n b.account_keys);
  transaction_keys = rw t (Descending-le _ n b.transaction_keys);
  idle = idle;
}
