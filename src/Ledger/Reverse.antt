-- ===== src/Ledger/Reverse.antt =====
-- ReverseTransaction, internal/ledger/ledger.go.
use Prim.Native.String.{◌++◌ as append}
use scout_site.Prelude.{
  ℕ, Bool, true, false, ◌&&◌, Option, none, some, List, [], ◌∷◌, ◌==◌, if◌then◌else◌, find,
}
use scout_site.Prelude.Int.{neg64}
use scout_site.Store.Rows.{Transaction, is_posted, reversal, posted, Posting, PostingRow, Db}
use scout_site.Store.Sql.{
  no_rows, account_not_found, not_reversible, Result, ok, err, M, lift, ◌>>=◌, ◌>>◌, query,
  map_error, replace_no_rows,
}
use scout_site.Ledger.Post.{reversed_already, Draft, insert_transaction}

abbrev transaction_found : Option Transaction → Result Transaction
transaction_found none = err no_rows
transaction_found (some t) = ok t

-- `SELECT ... FROM ledger_transactions WHERE id = $1 AND unit_id = $2`
unfoldable pub find_transaction : ℕ → ℕ → Db → Result Transaction
find_transaction unit t d =
    transaction_found (find (λ (x : Transaction). x.id == t && x.unit_id == unit) d.transactions)

abbrev pub is_reversal : Option ℕ → Bool
is_reversal none = false
is_reversal (some r) = true

unfoldable pub check_reversible : Transaction → Result (Unit {0})
check_reversible t =
    if is_posted t.status
    then if is_reversal t.reverses_transaction_id then err not_reversible else ok tt
    else err not_reversible

-- The opposite of each posting of a transaction; `-p.AmountCents` wraps around.
unfoldable pub opposite_postings : ℕ → List PostingRow → List Posting
opposite_postings t [] = []
opposite_postings t (p ∷ ps) =
    if p.transaction_id == t
    then record { account_id = p.account_id; amount_cents = neg64 p.amount_cents }
      ∷ opposite_postings t ps
    else opposite_postings t ps

abbrev pub reversal_draft : ℕ → ℕ → ℕ → Transaction → Draft
reversal_draft unit t actor original = record {
  unit_id = unit;
  transaction_type = reversal;
  description = append "Reversal of: " original.description;
  created_by = actor;
  status = posted;
  reverses_id = some t;
}

unfoldable pub reverse_transaction : ℕ → ℕ → ℕ → M Transaction
reverse_transaction unit t actor = do
  original ← map_error (replace_no_rows account_not_found) (query (find_transaction unit t))
  lift (check_reversible original)
  already ← query (λ d. ok (reversed_already (some t) d.transactions))
  lift (if already then err not_reversible else ok tt)
  postings ← query (λ d. ok (opposite_postings t d.postings))
  insert_transaction (reversal_draft unit t actor original) postings
