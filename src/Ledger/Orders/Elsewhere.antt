-- ===== src/Ledger/Orders/Elsewhere.antt =====
-- What the writes to the ledger and to the allocations leave alone: the orders.

use Prim.Native.String.{String}
use scout_site.Prelude.{
  ℕ, ◌≡◌, refl, sym, ap, ◌∙◌, inl, inr, Option, none, some, List, [], ◌∷◌, any, Bool-cases,
}
use scout_site.Prelude.Text.{Bytes}
use scout_site.Prelude.Int.{ℤ, is_zero}
use scout_site.Store.Rows.{TransactionType, Posting, Db}
use scout_site.Store.Sql.{Error, Result}
use scout_site.Store.Triple.{Triple, Keeps, Triple-pure, Triple-bind, Triple-transact}
use scout_site.Store.Keeps.{Statement, Stable, exec_tx-Statement, keeps_rules}
use scout_site.Ledger.Post.{
  Draft, insert_transaction_row, insert_posting_row, insert_postings, record_transaction,
  insert_transaction, reversed_already, post_transaction,
}
use scout_site.Ledger.Accounts.{
  NewAccount, new_account, conflicts, insert_account, ensure, ensure_unit_general_account,
  ensure_scout_account,
}
use scout_site.Ledger.Fundraisers.{
  Decimals, stored, get_fundraiser, insert_allocation, record_fundraiser_allocation,
}

-- A property of the orders alone.
module _ (P : Db → Type 0)
    (P-same : (d e : Db)
      → e.fundraising.fundraiser_orders ≡ d.fundraising.fundraiser_orders
      → P d
      → P e) where
  pub orders-Stable : Stable P
  orders-Stable = record { commit = λ d s. P-same d _ refl s; entry = λ e d s. P-same d _ refl s }

  -- A statement that writes to other tables.
  elsewhere :
      {A : Type 0} (f : ℕ → Db → Result A × Db)
      → ((now : ℕ) (d : Db)
          → (f now d).1.fundraising.fundraiser_orders ≡ d.fundraising.fundraiser_orders)
      → Statement P f
  elsewhere f same = record {
    at = λ now d d' a s e.
        P-same d d'
          (ap (λ (y : Db). y.fundraising.fundraiser_orders) (sym (ap (λ y. y.1) e)) ∙ same now d) s;
  }

  insert_account-P : (clash : Error) (n : NewAccount) → Statement P (insert_account clash n)
  unfolding insert_account
  insert_account-P clash n = elsewhere _ (λ now d.
      elim (Bool-cases (any (conflicts (new_account n d.next_id)) d.accounts)) [
        | inl h ↦ rw h refl
        | inr h ↦ rw h refl
      ])

  insert_postings-P :
      (t : ℕ) (ps : List Posting) → Triple P (insert_postings t ps) (λ _. P) (λ _. Unit)
  unfolding insert_postings insert_posting_row
  insert_postings-P t [] = Triple-pure tt (λ d s. s)
  insert_postings-P t (p ∷ ps) =
      Triple-bind {R = λ _. P} _ _
        (exec_tx-Statement (insert_posting_row t p) (
          elsewhere _ (λ now d. elim (Bool-cases (is_zero p.amount_cents)) [
            | inl h ↦ rw h refl
            | inr h ↦ rw h refl
          ])))
        (λ u. insert_postings-P t ps)

  insert_row-P : (x : Draft) → Statement P (insert_transaction_row x)
  unfolding insert_transaction_row
  insert_row-P x = elsewhere _ (λ now d.
      elim (Bool-cases (reversed_already x.reverses_id d.transactions)) [
        | inl h ↦ rw h refl
        | inr h ↦ rw h refl
      ])

  record_transaction-P : (x : Draft) (ps : List Posting) → Keeps P (record_transaction x ps)
  unfolding record_transaction
  record_transaction-P x ps =
      Triple-transact {R = λ _. P} _
        (Triple-bind {R = λ _. P} _ _ (exec_tx-Statement _ (insert_row-P x)) (λ t.
          Triple-bind {R = λ _. P} _ _ (insert_postings-P t.id ps) (λ u. Triple-pure t (λ d s. s))))
        (λ d a s h. orders-Stable.commit d s) (λ d s. s)

  stored-P :
      {A : Type 0} (o : Option Bytes) (f : Bytes → Db → Result A × Db)
      → ((text : Bytes) → Statement P (λ now. f text))
      → Statement P (λ now. stored o f)
  stored-P none f h = record { at = λ now d d' a b e. absurd (cc (ap (λ y. y.0) e)) }
  stored-P (some text) f h = h text

  insert_allocation-P :
      (f member : ℕ) (gross cents : ℤ) (t by : ℕ) (quantity : Bytes)
      → Statement P (λ now. insert_allocation f member gross cents t by quantity)
  unfolding insert_allocation
  insert_allocation-P f member gross cents t by quantity = elsewhere _ (λ now d. refl)

  ruleset stays_rules = (
    keeps_rules, orders-Stable, insert_account-P, record_transaction-P, stored-P,
    insert_allocation-P,
  )

  post_transaction-P :
      (unit : ℕ) (type : TransactionType) (description : String) (by : ℕ) (ps : List Posting)
      → Keeps P (post_transaction unit type description by ps)
  unfolding post_transaction insert_transaction
  post_transaction-P unit type description by ps = search stays_rules depth 12

  general-P : (unit : ℕ) → Keeps P (ensure_unit_general_account unit)
  unfolding ensure_unit_general_account ensure
  general-P unit = search stays_rules

  scout-P : (unit member : ℕ) (name : String) → Keeps P (ensure_scout_account unit member name)
  unfolding ensure_scout_account ensure
  scout-P unit member name = search stays_rules

  module _ (n : Decimals) where
    pub allocation-P :
        (f member : ℕ) (name : Bytes) (gross : ℤ) (quantity : Bytes) (by : ℕ)
        → Keeps P (record_fundraiser_allocation n f member name gross quantity by)
    unfolding record_fundraiser_allocation get_fundraiser
    allocation-P f member name gross quantity by =
        search (stays_rules, post_transaction-P, general-P, scout-P) depth 20
