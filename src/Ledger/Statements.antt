-- ===== src/Ledger/Statements.antt =====
-- The lists of transactions with their postings, from transactionsQuery of
-- internal/ledger/ledger.go.
pub mod Grouped
use Prim.Native.String.{String}
use scout_site.Prelude.{
  ℕ, Bool, true, false, not, ◌&&◌, ◌||◌, Option, none, some, List, [], ◌∷◌, ◌++◌, map, ltb, leb,
  ◌==◌, if◌then◌else◌, any, find, select, take,
}
use scout_site.Prelude.Int.{ℤ, pos, add64}
use scout_site.Store.Rows.{
  Account, Transaction, TransactionStatus, pending_approval, is_expense, PostingRow, Db,
}
use scout_site.Store.Sql.{ok, M, query, pure, ◌>>=◌}

pub record PostingDetail : Type 0 where
  pub account_id : ℕ
  pub account_name : String
  pub amount_cents : ℤ

pub record TransactionDetail : Type 0 where
  pub transaction : Transaction
  reversed_by_transaction_id : Option ℕ
  pub postings : List PostingDetail

-- A row of the join: a transaction, its reversal, and one of its postings.
pub record JoinRow : Type 0 where
  pub transaction : Transaction
  pub reversed_by : Option ℕ
  pub posting : PostingDetail

-- The reversal of a transaction; at most one row has its key (0038_transaction_reversal.sql).
abbrev reverses : ℕ → Option ℕ → Bool
reverses t none = false
reverses t (some r) = r == t

abbrev id_of : Option Transaction → Option ℕ
id_of none = none
id_of (some t) = some t.id

reversal_of : ℕ → List Transaction → Option ℕ
reversal_of t ts = id_of (find (λ (x : Transaction). reverses t x.reverses_transaction_id) ts)

-- The join of one transaction with postings and their accounts.
join_postings : Db → Transaction → List PostingRow → List JoinRow
unfolding reversal_of
join_postings d t [] = []
join_postings d t (p ∷ ps) =
    let rest = join_postings d t ps in
    if p.transaction_id == t.id
    then elim (find (λ (a : Account). a.id == p.account_id) d.accounts) [
      | none ↦ rest
      | some a ↦
          record {
            transaction = t;
            reversed_by = reversal_of t.id d.transactions;
            posting = record {
              account_id = p.account_id;
              account_name = a.name;
              amount_cents = p.amount_cents;
            };
          }
          ∷ rest
    ]
    else rest

-- ORDER BY, of two transactions at a time.
insert_by : (Transaction → Transaction → Bool) → Transaction → List Transaction → List Transaction
insert_by before t [] = t ∷ []
insert_by before t (u ∷ us) =
    let rest = insert_by before t us in if before u t then u ∷ rest else t ∷ u ∷ us

order_by : (Transaction → Transaction → Bool) → List Transaction → List Transaction
unfolding insert_by
order_by before [] = []
order_by before (t ∷ ts) = insert_by before t (order_by before ts)

join_rows : Db → List Transaction → List JoinRow
unfolding join_postings
join_rows d [] = []
join_rows d (t ∷ ts) = join_postings d t d.postings ++ join_rows d ts

abbrev detail_of : JoinRow → TransactionDetail
detail_of r = record {
  transaction = r.transaction;
  reversed_by_transaction_id = r.reversed_by;
  postings = r.posting ∷ [];
}

-- One round of the loop: a posting goes to the detail of its transaction, or opens one.
unfoldable pub add_row : JoinRow → List TransactionDetail → List TransactionDetail
add_row r [] = detail_of r ∷ []
add_row r (td ∷ tds) =
    let rest = add_row r tds in
    if td.transaction.id == r.transaction.id
    then record td { postings = td.postings ++ r.posting ∷ [] } ∷ tds
    else td ∷ rest

unfoldable pub group_rows : List JoinRow → List TransactionDetail → List TransactionDetail
unfolding add_row
group_rows [] tds = tds
group_rows (r ∷ rs) tds = group_rows rs (add_row r tds)

-- The query, by the WHERE and the ORDER BY it is given.
unfoldable pub transactions_query :
    (Db → Transaction → Bool) → (Transaction → Transaction → Bool) → M (List TransactionDetail)
unfolding group_rows join_rows order_by
transactions_query wanted before =
    query
      (λ d. ok (group_rows (join_rows d (order_by before (select (wanted d) d.transactions))) []))

-- occurred_at DESC, id
abbrev newest_first : Transaction → Transaction → Bool
newest_first x y =
    ltb y.occurred_at x.occurred_at || (x.occurred_at == y.occurred_at && ltb x.id y.id)

-- occurred_at, id
abbrev pub oldest_first : Transaction → Transaction → Bool
oldest_first x y =
    ltb x.occurred_at y.occurred_at || (x.occurred_at == y.occurred_at && ltb x.id y.id)

abbrev pub touches : ℕ → Db → Transaction → Bool
touches a d t = any (λ (p : PostingRow). p.transaction_id == t.id && p.account_id == a) d.postings

-- `if limit > 0 && len(all) > limit { all = all[:limit] }`; a limit that is not positive is 0 here.
abbrev limited : ℕ → List TransactionDetail → List TransactionDetail
limited limit all = if limit == 0 then all else take limit all

unfoldable transactions_for_unit : ℕ → ℕ → M (List TransactionDetail)
transactions_for_unit unit limit = do
  all ← transactions_query (λ d t. t.unit_id == unit) newest_first
  pure (limited limit all)

unfoldable transactions_for_account : ℕ → ℕ → M (List TransactionDetail)
transactions_for_account account limit = do
  all ← transactions_query (touches account) newest_first
  pure (limited limit all)

abbrev is_pending_approval : TransactionStatus → Bool
is_pending_approval pending_approval = true
is_pending_approval _ = false

-- The query orders by time alone; rows of one time come in the order of their keys here.
unfoldable pending_transfers_for_unit : ℕ → M (List TransactionDetail)
pending_transfers_for_unit unit =
    transactions_query
      (λ d t.
        t.unit_id == unit && is_pending_approval t.status && not (is_expense t.transaction_type))
      oldest_first

unfoldable transactions_for_account_in_range : ℕ → ℕ → ℕ → M (List TransactionDetail)
transactions_for_account_in_range account from to =
    transactions_query
      (λ d t. touches account d t && leb from t.occurred_at && leb t.occurred_at to) oldest_first

-- The loop of AmountForAccount, after `total`.
amount_from : ℤ → ℕ → List PostingDetail → ℤ
amount_from total account [] = total
amount_from total account (p ∷ ps) =
    amount_from (if p.account_id == account then add64 total p.amount_cents else total) account ps

unfoldable amount_for_account : TransactionDetail → ℕ → ℤ
unfolding amount_from
amount_for_account t account = amount_from (pos 0) account t.postings
