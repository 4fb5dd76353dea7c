-- ===== src/Ledger/Books/Fundraising.antt =====
-- Fundraisers and their orders keep the books.
use mathlib.Core.Path.{subst}
use scout_site.Prelude.{
  ℕ, ◌+◌, ◌≤◌, refl, ap, inl, inr, Bool, true, false, Option, none, some, List, [], ◌∷◌, arith, any,
  Bool-cases,
}
use scout_site.Prelude.Text.{Bytes}
use scout_site.Prelude.Int.{ℤ}
use scout_site.Store.Rows.{Db}
use scout_site.Store.Fundraising.{
  AllocationMode, percentage, fixed_per_item, other, Fundraising, FundraiserOrder,
  FundraiserOrderItem,
}
use scout_site.Store.Sql.{Result, ok, pure, ◌>>=◌, ◌>>◌, exec_tx, transact}
use scout_site.Store.Triple.{Triple, Keeps, Triple-transact, Triple-bind, Triple-pure, Triple-raise}
use scout_site.Store.Keeps.{Statement, exec_tx-Statement, keeps_rules}
use scout_site.Store.Books.{Books, Books-same}
use scout_site.Ledger.Books.Accounts.{
  Books-Stable, ensure_unit_general_account-Books, ensure_scout_account-Books,
}
use scout_site.Ledger.Books.Approvals.{post_transaction-Books}
use scout_site.Ledger.Fundraisers.{
  Decimals, update_fundraising, stored, insert_fundraiser, update_rule, get_fundraiser,
  insert_allocation, create_fundraiser, confirm_rule, confirm_fundraiser_cap,
  record_fundraiser_allocation,
}
use scout_site.Ledger.Orders.{
  Buyer, insert_order, insert_order_items, create_fundraiser_order, get_fundraiser_order,
  member_display_name, update_credited, update_paid, update_scout, update_canceled,
  is_unsettled_order, credit_order, credit_order_if_ready, mark_fundraiser_order_paid,
  resolve_fundraiser_order_scout, cancel_fundraiser_order,
}
use scout_site.Ledger.Storefront.{
  insert_item, show_storefront, is_in, hide_storefronts, choose_storefront,
  set_storefront_fundraiser,
}

-- A statement that changes no table of the ledger.
Books-other :
    (d : Db) (t : Fundraising) (n : ℕ)
    → d.next_id ≤ n
    → Books d
    → Books (record d { fundraising = t; next_id = n })
Books-other d t n h b = Books-same d _ refl refl refl h b.idle b

update-Books :
    (f : Fundraising → Fundraising) → Statement Books (λ now d. (ok tt, update_fundraising f d))
update-Books f = record {
  at = λ now d d' a b e.
      subst Books (ap (λ y. y.1) e) (Books-other d (f d.fundraising) d.next_id (omega arith) b);
}

pub stored-Books :
    {A : Type 0} (o : Option Bytes) (f : Bytes → Db → Result A × Db)
    → ((text : Bytes) → Statement Books (λ now. f text))
    → Statement Books (λ now. stored o f)
stored-Books none f h = record { at = λ now d d' a b e. absurd (cc (ap (λ y. y.0) e)) }
stored-Books (some text) f h = h text

insert_fundraiser-Books :
    (unit : ℕ) (name : Bytes) (mode : AllocationMode) (percent : Bytes) (cents : ℤ)
    (event : Option ℕ) (by : ℕ)
    → Statement Books (λ now. insert_fundraiser unit name mode percent cents event by)
unfolding insert_fundraiser
insert_fundraiser-Books unit name mode percent cents event by = record {
  at = λ now d d' a b e.
      subst Books (ap (λ y. y.1) e) (Books-other d _ (d.next_id + 1) (omega arith) b);
}

pub insert_allocation-Books :
    (id member : ℕ) (gross credited : ℤ) (t by : ℕ) (quantity : Bytes)
    → Statement Books (λ now. insert_allocation id member gross credited t by quantity)
unfolding insert_allocation
insert_allocation-Books id member gross credited t by quantity = record {
  at = λ now d d' a b e.
      subst Books (ap (λ y. y.1) e) (Books-other d _ (d.next_id + 1) (omega arith) b);
}

insert_item-Books :
    (id : ℕ) (name : Bytes) (price : ℤ) (order : ℕ)
    → Statement Books (λ now. insert_item id name price order)
unfolding insert_item
insert_item-Books id name price order = record {
  at = λ now d d' a b e.
      subst Books (ap (λ y. y.1) e) (Books-other d _ (d.next_id + 1) (omega arith) b);
}

insert_order-Books :
    (id unit : ℕ) (buyer : Buyer) (scout : Option ℕ) (total : ℤ) (by : Option ℕ)
    → Statement Books (λ now. insert_order id unit buyer scout total by)
unfolding insert_order
insert_order-Books id unit buyer scout total by = record {
  at = λ now d d' a b e.
      subst Books (ap (λ y. y.1) e) (Books-other d _ (d.next_id + 1) (omega arith) b);
}

show_storefront-Books : (id unit : ℕ) → Statement Books (λ now. show_storefront id unit)
unfolding show_storefront
show_storefront-Books id unit = record {
  at = λ now d d' a b e. elim (Bool-cases (any (is_in id unit) d.fundraising.fundraisers)) [
    | inl h ↦ subst Books (ap (λ y. y.1) (rw h at e)) (Books-other d _ d.next_id (omega arith) b)
    | inr h ↦ absurd (cc (ap (λ y. y.0) (rw h at e)))
  ];
}

update_canceled-Books : (id : ℕ) → Statement Books (λ now. update_canceled id)
unfolding update_canceled
update_canceled-Books id = record {
  at = λ now d d' a b e.
      elim (Bool-cases (any (is_unsettled_order id) d.fundraising.fundraiser_orders)) [
        | inl h ↦
            subst Books (ap (λ y. y.1) (rw h at e)) (Books-other d _ d.next_id (omega arith) b)
        | inr h ↦ absurd (cc (ap (λ y. y.0) (rw h at e)))
      ];
}

ruleset fundraising_rules = (
  keeps_rules, Books-Stable, update-Books, stored-Books, insert_fundraiser-Books,
  insert_allocation-Books, insert_item-Books, update_canceled-Books, post_transaction-Books,
  ensure_unit_general_account-Books, ensure_scout_account-Books,
)

module _ (n : Decimals) where
  pub create_fundraiser-Books :
      (unit : ℕ) (name : Bytes) (mode : AllocationMode) (percent : Bytes) (cents : ℤ)
      (event : Option ℕ) (by : ℕ)
      → Keeps Books (create_fundraiser n unit name mode percent cents event by)
  unfolding create_fundraiser
  create_fundraiser-Books unit name percentage percent cents event by = search fundraising_rules
  create_fundraiser-Books unit name fixed_per_item percent cents event by = search fundraising_rules
  create_fundraiser-Books unit name (other mode) percent cents event by = search fundraising_rules

  confirm_rule-Books :
      (id : ℕ) (mode : AllocationMode) (percent : Bytes) (cents : ℤ)
      → Keeps Books (confirm_rule n id mode percent cents)
  unfolding confirm_rule update_rule
  confirm_rule-Books id percentage percent cents = search fundraising_rules
  confirm_rule-Books id fixed_per_item percent cents = search fundraising_rules
  confirm_rule-Books id (other mode) percent cents = search fundraising_rules

  pub confirm_fundraiser_cap-Books :
      (id : ℕ) (mode : AllocationMode) (percent : Bytes) (cents : ℤ) (by : ℕ)
      → Keeps Books (confirm_fundraiser_cap n id mode percent cents by)
  unfolding confirm_fundraiser_cap
  confirm_fundraiser_cap-Books id mode percent cents by =
      search (fundraising_rules, confirm_rule-Books)

  pub record_fundraiser_allocation-Books :
      (id member : ℕ) (name : Bytes) (gross : ℤ) (quantity : Bytes) (by : ℕ)
      → Keeps Books (record_fundraiser_allocation n id member name gross quantity by)
  unfolding record_fundraiser_allocation get_fundraiser
  record_fundraiser_allocation-Books id member name gross quantity by =
      search fundraising_rules depth 20

  credit_order-Books :
      (id actor : ℕ) (o : FundraiserOrder) (items : List FundraiserOrderItem) (scout : Option ℕ)
      → Keeps Books (credit_order n id actor o items scout)
  unfolding credit_order member_display_name update_credited
  credit_order-Books id actor o items none = search fundraising_rules
  credit_order-Books id actor o items (some scout) =
      search (fundraising_rules, record_fundraiser_allocation-Books) depth 14

  credit_order_if_ready-Books : (id actor : ℕ) → Keeps Books (credit_order_if_ready n id actor)
  unfolding credit_order_if_ready get_fundraiser_order
  credit_order_if_ready-Books id actor = search (fundraising_rules, credit_order-Books)

  pub mark_fundraiser_order_paid-Books :
      (id actor : ℕ) → Keeps Books (mark_fundraiser_order_paid n id actor)
  unfolding mark_fundraiser_order_paid update_paid
  mark_fundraiser_order_paid-Books id actor =
      search (fundraising_rules, credit_order_if_ready-Books)

  pub resolve_fundraiser_order_scout-Books :
      (id : ℕ) (scout : Option ℕ) (actor : ℕ)
      → Keeps Books (resolve_fundraiser_order_scout n id scout actor)
  unfolding resolve_fundraiser_order_scout update_scout
  resolve_fundraiser_order_scout-Books id none actor = search fundraising_rules
  resolve_fundraiser_order_scout-Books id (some scout) actor =
      search (fundraising_rules, credit_order_if_ready-Books)

pub cancel_fundraiser_order-Books : (id actor : ℕ) → Keeps Books (cancel_fundraiser_order id actor)
unfolding cancel_fundraiser_order
cancel_fundraiser_order-Books id actor = search fundraising_rules

insert_order_items-Books :
    (order : ℕ) (items : List FundraiserOrderItem)
    → Triple Books (insert_order_items order items) (λ _. Books) (λ _. Unit)
unfolding insert_order_items
insert_order_items-Books order [] = Triple-pure tt (λ d b. b)
insert_order_items-Books order (i ∷ items) =
    Triple-bind {R = λ _. Books} _ _ (exec_tx-Statement _ (update-Books _))
      (λ u. insert_order_items-Books order items)

pub create_fundraiser_order-Books :
    (id unit : ℕ) (buyer : Buyer) (scout : Option ℕ) (items : List FundraiserOrderItem)
    (by : Option ℕ)
    → Keeps Books (create_fundraiser_order id unit buyer scout items by)
unfolding create_fundraiser_order
create_fundraiser_order-Books id unit buyer scout items by =
    search (fundraising_rules, placed) depth 12
  where
    placed :
        (total : ℤ)
        → Keeps Books (
            transact (do
              o ← exec_tx (λ now. insert_order id unit buyer scout total by)
              insert_order_items o.id items
              pure o))
    placed total =
        Triple-transact {R = λ _. Books} _
          (Triple-bind {R = λ _. Books} _ _
            (exec_tx-Statement _ (insert_order-Books id unit buyer scout total by))
            (λ o.
              Triple-bind {R = λ _. Books} _ _ (insert_order_items-Books o.id items)
                (λ u. Triple-pure o (λ d b. b))))
          (λ d o b s. Books-Stable.commit d b) (λ d b. b)

choose_storefront-Books :
    (unit : ℕ) (id : Option ℕ) (enabled : Bool)
    → Triple Books (choose_storefront unit id enabled) (λ _. Books) (λ _. Unit)
choose_storefront-Books unit id false = Triple-pure tt (λ d b. b)
choose_storefront-Books unit none true = Triple-raise _ (λ d b. tt)
choose_storefront-Books unit (some id) true = exec_tx-Statement _ (show_storefront-Books id unit)

pub set_storefront_fundraiser-Books :
    (unit : ℕ) (id : Option ℕ) (enabled : Bool)
    → Keeps Books (set_storefront_fundraiser unit id enabled)
unfolding set_storefront_fundraiser hide_storefronts
set_storefront_fundraiser-Books unit id enabled =
    Triple-transact {R = λ _. Books} _
      (Triple-bind {R = λ _. Books} _ _ (exec_tx-Statement _ (update-Books _))
        (λ u. choose_storefront-Books unit id enabled))
      (λ d o b s. Books-Stable.commit d b) (λ d b. b)
