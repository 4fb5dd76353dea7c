-- ===== src/Store/Sums.antt =====
-- The SUM of the queries over ledger_postings. Postgres sums bigint exactly.
use scout_site.Prelude.{ℕ, Bool, ◌&&◌, List, [], ◌∷◌, ◌==◌, if◌then◌else◌, any}
use scout_site.Prelude.Int.{ℤ, pos, ◌+ℤ◌}
use scout_site.Store.Rows.{Account, Transaction, PostingRow, Db, is_posted}

-- `SELECT COALESCE(SUM(amount_cents), 0) FROM ledger_postings WHERE ...`
unfoldable pub sum_where : (PostingRow → Bool) → List PostingRow → ℤ
sum_where q [] = pos 0
sum_where q (p ∷ ps) = if q p then p.amount_cents +ℤ sum_where q ps else sum_where q ps

-- The sum that the trigger ledger_check_transaction_balance computes.
abbrev pub transaction_sum : ℕ → List PostingRow → ℤ
transaction_sum t = sum_where (λ p. p.transaction_id == t)

-- The join with ledger_transactions and `t.status = 'posted'`.
unfoldable pub counts : List Transaction → ℕ → Bool
counts ts t = any (λ (x : Transaction). x.id == t && is_posted x.status) ts

-- The balance of an account: its postings from posted transactions.
unfoldable pub balance : Db → ℕ → ℤ
unfolding counts
balance d a =
    sum_where (λ p. p.account_id == a && counts d.transactions p.transaction_id) d.postings

-- There is an account of that id in that unit.
unfoldable pub owns : List Account → ℕ → ℕ → Bool
owns accounts a u = any (λ (x : Account). x.id == a && x.unit_id == u) accounts
