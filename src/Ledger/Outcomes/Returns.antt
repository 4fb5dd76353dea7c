-- ===== src/Ledger/Outcomes/Returns.antt =====
-- PostTransaction returns: what it is given is recorded where no statement fails.

use Prim.Native.String.{String}
use scout_site.Prelude.{ℕ, ◌≡◌, refl, ap, ◌∙◌, true, false, List, [], ◌∷◌, All, All-map}
use scout_site.Prelude.Int.{ℤ, pos, ◌+ℤ◌, is_zero}
use scout_site.Store.Rows.{TransactionType, posted, Posting, PostingRow, Db}
use scout_site.Store.Sums.{transaction_sum}
use scout_site.Store.Sql.{ok, settled, committed, pure}
use scout_site.Store.Triple.{with_entry}
use scout_site.Store.Calm.{
  calm, lift-calm, query-calm, exec_tx-calm, transact-calm, bind-calm, audit_log-calm,
}
use scout_site.Store.Books.{Books}
use scout_site.Ledger.Post.{
  Draft, ordinary, new_transaction, with_transaction, with_posting, reversed_already,
  check_postings, check_accounts, select_statuses, insert_transaction_row, insert_posting_row,
  insert_postings, record_transaction, insert_transaction, post_transaction, audit_entry, created,
}
use scout_site.Ledger.Post.Exact.{with_postings, posting_sum}
use scout_site.Ledger.Post.Guards.{check_postings-All}
use scout_site.Ledger.Outcomes.Insert.{transaction_sum-with_postings}

module _ (now : ℕ) where
  insert_postings-calm :
      (t : ℕ) (ps : List Posting) (d : Db)
      → All (λ p. is_zero p.amount_cents ≡ false) ps
      → insert_postings t ps (calm now d) ≡ (ok tt, calm now (with_postings t ps d))
  unfolding insert_postings insert_posting_row pure
  insert_postings-calm t [] d h = refl
  insert_postings-calm t (p ∷ ps) d (here, later) =
      bind-calm now _ _ tt d (with_posting t p d) _
        (exec_tx-calm now (insert_posting_row t p) tt d (with_posting t p d) (rw here refl))
        (insert_postings-calm t ps (with_posting t p d) later)

zeros : (a b : ℤ) → a ≡ pos 0 → b ≡ pos 0 → a +ℤ b ≡ pos 0
unfolding ◌+ℤ◌
zeros a b e f = rw (e, f) refl

settled-with_postings :
    (t : ℕ) (ps : List Posting) (d : Db) (rows : List PostingRow)
    → is_zero (transaction_sum t rows) ≡ true
    → settled d.touched rows ≡ true
    → settled (with_postings t ps d).touched rows ≡ true
unfolding settled
settled-with_postings t [] d rows z s = s
settled-with_postings t (p ∷ ps) d rows z s =
    settled-with_postings t ps (with_posting t p d) rows z (rw (z, s) refl)

module _ (x : Draft) (ps : List Posting) (now : ℕ) (d : Db) where
  abbrev written : Db
  written = with_postings d.next_id ps (with_transaction (new_transaction x d.next_id now) d)

  settled-written :
      Books d → posting_sum ps ≡ pos 0 → settled written.touched written.postings ≡ true
  unfolding settled
  settled-written sound zero_sum =
      settled-with_postings d.next_id ps (with_transaction (new_transaction x d.next_id now) d)
        written.postings
        (ap is_zero (
          transaction_sum-with_postings d.next_id ps
            (with_transaction (new_transaction x d.next_id now) d)
          ∙ zeros _ _ (sound.balanced d.next_id) zero_sum))
        (rw sound.idle refl)

  insert_transaction-calm :
      Books d
      → (ids : List ℕ) → check_postings ps ≡ ok ids
      → check_accounts ids (select_statuses ids x.unit_id d.accounts) ≡ ok tt
      → reversed_already x.reverses_id d.transactions ≡ false
      → posting_sum ps ≡ pos 0
      → insert_transaction x ps (calm now d) ≡ (
        ok (new_transaction x d.next_id now),
        calm now (
            with_entry
              (audit_entry "ledger_transaction" d.next_id x.created_by (created x.status))
              (committed written)),
      )
  unfolding insert_transaction record_transaction insert_transaction_row pure
  insert_transaction-calm sound ids checked accounts fresh zero_sum =
      bind-calm now _ _ ids d d _ (lift-calm now _ ids d checked) (
        bind-calm now _ _ _ d d _ (query-calm now _ _ d refl) (
          bind-calm now _ _ tt d d _ (lift-calm now _ tt d accounts) (
            bind-calm now _ _ (new_transaction x d.next_id now) d (committed written) _
              (transact-calm now _ (new_transaction x d.next_id now) d written
                (bind-calm now _ _ (new_transaction x d.next_id now) d
                  (with_transaction (new_transaction x d.next_id now) d) _
                  (exec_tx-calm now (insert_transaction_row x) _ d _ (rw fresh refl))
                  (bind-calm now _ _ tt _ written _
                    (insert_postings-calm now d.next_id ps _
                      (All-map (λ p h. h.1) ps (check_postings-All ps ids checked)))
                    refl))
                (settled-written sound zero_sum))
              (bind-calm now _ _ tt (committed written) _ _ (audit_log-calm now _ _) refl))))

-- PostTransaction returns a transaction where no statement fails, on sound books, if the postings
-- pass the checks on their number and amounts, their accounts pass the check on being open accounts
-- of the unit, and they sum to exactly zero.
pub post_transaction-returns :
    (unit : ℕ) (type : TransactionType) (description : String) (by : ℕ) (ps : List Posting)
    (now : ℕ) (d : Db) (ids : List ℕ)
    → Books d
    → check_postings ps ≡ ok ids
    → check_accounts ids (select_statuses ids unit d.accounts) ≡ ok tt
    → posting_sum ps ≡ pos 0
    → (post_transaction unit type description by ps (calm now d)).0
      ≡ ok (new_transaction (ordinary unit type description by posted) d.next_id now)
unfolding post_transaction
post_transaction-returns unit type description by ps now d ids sound checked accounts zero_sum =
    ap (λ r. r.0)
      (insert_transaction-calm (ordinary unit type description by posted) ps now d sound ids checked
        accounts refl zero_sum)
