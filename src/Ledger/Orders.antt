-- ===== src/Ledger/Orders.antt =====
-- The orders at the storefront of a fundraiser, internal/ledger/fundraiser_storefront.go.
pub mod Total
pub mod Elsewhere
pub mod Stays
pub mod Unmoved
pub mod Settled
mod Tests
use scout_site.Prelude.{
  ℕ, ◌+◌, ◌*◌, Bool, true, false, ◌&&◌, ◌||◌, not, Option, none, some, List, [], ◌∷◌, ◌++◌, ltb,
  ◌==◌, if◌then◌else◌, find, any, select, update_where,
}
use scout_site.Prelude.Text.{Bytes, trim_space}
use scout_site.Prelude.Int.{ℤ, pos, ◌*ℤ◌, wrap, add64, mul64, leb_ℤ, ltb_ℤ}
use scout_site.Store.Rows.{Db, AuditEntry}
use scout_site.Store.Fundraising.{
  Fundraiser, FundraiserAllocation, FundraiserItem, FundraiserOrderItem, OrderStatus, pending, paid,
  credited, canceled, FundraiserOrder, OrderItemRow, MemberName, Fundraising,
}
use scout_site.Store.Sql.{
  Error, db_error, no_rows, unique_violation, bad_item, no_names, no_items, bad_item_price,
  bad_item_quantity, order_too_large, order_not_positive, no_scout_chosen, order_settled,
  fundraiser_not_found, no_fundraiser_chosen, Result, ok, err, M, pure, raise, lift, ◌>>=◌, ◌>>◌,
  query, exec, exec_tx, transact, audit_log, or_else, if_no_rows,
}
use scout_site.Ledger.Post.{audit_entry}
use scout_site.Ledger.Fundraisers.{
  Decimals, update_fundraising, has_fundraiser_id, get_fundraiser, record_fundraiser_allocation,
}
use scout_site.Ledger.Storefront.{is_empty}

abbrev pub max_order_item_quantity : ℕ
max_order_item_quantity = 10_000

abbrev pub max_order_total_cents : ℕ
max_order_total_cents = 100_000_000

-- The sum of CreateFundraiserOrder in int64, with the checks of each line.
unfoldable pub add_items : ℤ → List FundraiserOrderItem → Result ℤ
add_items total [] = ok total
add_items total (i ∷ items) =
    let next = add64 total (mul64 i.unit_price_cents i.quantity) in
    let rest = add_items next items in
    if leb_ℤ i.unit_price_cents (pos 0) || ltb_ℤ (pos max_order_total_cents) i.unit_price_cents
    then err bad_item_price
    else (if leb_ℤ i.quantity (pos 0) || ltb_ℤ (pos max_order_item_quantity) i.quantity
        then err bad_item_quantity
        else (if ltb_ℤ (pos max_order_total_cents) next then err order_too_large else rest))

abbrev pub require_positive : Result ℤ → Result ℤ
require_positive (err e) = err e
require_positive (ok total) = if leb_ℤ total (pos 0) then err order_not_positive else ok total

-- The total of an order, if its lines are acceptable.
unfoldable pub order_total : List FundraiserOrderItem → Result ℤ
unfolding add_items
order_total [] = err no_items
order_total (i ∷ items) = require_positive (add_items (pos 0) (i ∷ items))

-- What a buyer enters.
pub record Buyer : Type 0 where
  pub name : Bytes
  pub email : Bytes
  pub phone : Bytes
  pub scout_name : Bytes

unfoldable pub insert_order :
    ℕ → ℕ → Buyer → Option ℕ → ℤ → Option ℕ → Db → Result FundraiserOrder × Db
insert_order id unit buyer scout total by d =
    let o : FundraiserOrder = record {
      id = d.next_id;
      fundraiser_id = id;
      unit_id = unit;
      buyer_name = trim_space buyer.name;
      buyer_email = trim_space buyer.email;
      buyer_phone = trim_space buyer.phone;
      scout_name_entered = trim_space buyer.scout_name;
      scout_member_id = scout;
      total_cents = total;
      status = pending;
      fundraiser_allocation_id = none;
      created_by = by;
    } in
    (
      ok o,
      record d {
        fundraising = record d.fundraising {
          fundraiser_orders = o ∷ d.fundraising.fundraiser_orders;
        };
        next_id = d.next_id + 1;
      },
    )

abbrev pub with_item_row : ℕ → FundraiserOrderItem → Db → Db
with_item_row order i = update_fundraising (λ t. record t {
  fundraiser_order_items = record { order_id = order; item = i } ∷ t.fundraiser_order_items;
})

-- The loop that inserts the lines.
unfoldable pub insert_order_items : ℕ → List FundraiserOrderItem → M (Unit {0})
insert_order_items order [] = pure tt
insert_order_items order (i ∷ items) =
    exec_tx (λ now d. (ok tt, with_item_row order i d)) >> insert_order_items order items

abbrev pub order_entry : ℕ → Option ℕ → Prim.Native.String.String → AuditEntry
order_entry id actor action = record {
  entity_type = "fundraiser_order";
  entity_id = id;
  actor_id = actor;
  action = action;
  approval_request_id = none;
}

unfoldable pub create_fundraiser_order :
    ℕ → ℕ → Buyer → Option ℕ → List FundraiserOrderItem → Option ℕ → M FundraiserOrder
create_fundraiser_order id unit buyer scout items by = do
  lift (
      if is_empty (trim_space buyer.name) || is_empty (trim_space buyer.scout_name)
      then err no_names
      else ok tt)
  total ← lift (order_total items)
  o ← transact (do
    o ← exec_tx (λ now. insert_order id unit buyer scout total by)
    insert_order_items o.id items
    pure o)
  audit_log (order_entry o.id by "create")
  pure o

abbrev pub has_order_id : ℕ → FundraiserOrder → Bool
has_order_id id o = o.id == id

unfoldable pub find_order : ℕ → Db → Result FundraiserOrder
find_order id d = elim (find (has_order_id id) d.fundraising.fundraiser_orders) [
  | none ↦ err no_rows
  | some o ↦ ok o
]

-- The lines of an order; their order does not matter to what is done with them here.
unfoldable pub items_of : ℕ → List OrderItemRow → List FundraiserOrderItem
items_of order [] = []
items_of order (r ∷ rows) =
    let rest = items_of order rows in if r.order_id == order then r.item ∷ rest else rest

unfoldable pub get_fundraiser_order : ℕ → M (FundraiserOrder × List FundraiserOrderItem)
get_fundraiser_order id = do
  o ← query (find_order id)
  items ← query (λ d. ok (items_of o.id d.fundraising.fundraiser_order_items))
  pure (o, items)

-- The loop that adds the quantities up.
unfoldable pub add_quantities : ℤ → List FundraiserOrderItem → ℤ
add_quantities qty [] = qty
add_quantities qty (i ∷ items) = add_quantities (add64 qty i.quantity) items

unfoldable pub member_display_name : ℕ → M Bytes
member_display_name id = query (λ d.
    elim (find (λ (m : MemberName). m.member_id == id) d.fundraising.member_names) [
      | none ↦ err no_rows
      | some m ↦ ok (trim_space (m.first_name ++ 32 ∷ m.last_name))
    ])

-- The Scout to credit, where the order is paid, its Scout is known and it has no credit.
abbrev pub scout_to_credit : OrderStatus → Option ℕ → Option ℕ → Option ℕ
scout_to_credit paid (some scout) none = some scout
scout_to_credit _ _ _ = none

abbrev pub ready_scout : FundraiserOrder → Option ℕ
ready_scout o = scout_to_credit o.status o.scout_member_id o.fundraiser_allocation_id

abbrev pub credited_by : ℕ → FundraiserOrder → FundraiserOrder
credited_by allocation o = record o {
  status = credited;
  fundraiser_allocation_id = some allocation;
}

-- `UPDATE fundraiser_orders SET status = 'credited', fundraiser_allocation_id = $1 ...`
unfoldable pub update_credited : ℕ → ℕ → Db → Db
update_credited id allocation = update_fundraising (λ t. record t {
  fundraiser_orders = update_where (has_order_id id) (credited_by allocation) t.fundraiser_orders;
})

abbrev pub is_pending_order : ℕ → FundraiserOrder → Bool
is_pending_order id o = has_order_id id o && elim o.status [ pending ↦ true | _ ↦ false ]

-- `UPDATE fundraiser_orders SET status = 'paid' ... WHERE id = $1 AND status = 'pending'`
unfoldable pub update_paid : ℕ → Db → Db
update_paid id = update_fundraising (λ t. record t {
  fundraiser_orders =
      update_where (is_pending_order id) (λ (o : FundraiserOrder). record o { status = paid })
        t.fundraiser_orders;
})

unfoldable pub update_scout : ℕ → ℕ → Db → Db
update_scout id scout = update_fundraising (λ t. record t {
  fundraiser_orders =
      update_where (has_order_id id)
        (λ (o : FundraiserOrder). record o { scout_member_id = some scout }) t.fundraiser_orders;
})

abbrev pub is_unsettled_order : ℕ → FundraiserOrder → Bool
is_unsettled_order id o =
    has_order_id id o && elim o.status [ pending ↦ true | paid ↦ true | _ ↦ false ]

-- `UPDATE fundraiser_orders SET status = 'canceled' ... AND status IN ('pending', 'paid')`
unfoldable pub update_canceled : ℕ → Db → Result (Unit {0}) × Db
update_canceled id d =
    if any (is_unsettled_order id) d.fundraising.fundraiser_orders
    then (
      ok tt,
      update_fundraising
          (λ t. record t {
            fundraiser_orders =
                update_where (is_unsettled_order id)
                  (λ (o : FundraiserOrder). record o { status = canceled }) t.fundraiser_orders;
          })
          d,
    )
    else (err order_settled, d)

module _ (n : Decimals) where
  -- What creditOrderIfReady does with an order that is ready, for this Scout.
  unfoldable pub credit_order :
      ℕ → ℕ → FundraiserOrder → List FundraiserOrderItem → Option ℕ → M FundraiserOrder
  credit_order id actor o items none = pure o
  credit_order id actor o items (some scout) = do
    name ← member_display_name scout
    a ←
        record_fundraiser_allocation n o.fundraiser_id scout name o.total_cents
          (n.itoa (add_quantities (pos 0) items)) actor
    exec (λ now d. (ok tt, update_credited id a.id d))
    audit_log (order_entry o.id (some actor) "credit")
    pure (credited_by a.id o)

  unfoldable pub credit_order_if_ready : ℕ → ℕ → M FundraiserOrder
  credit_order_if_ready id actor = do
    found ← get_fundraiser_order id
    credit_order id actor found.0 found.1 (ready_scout found.0)

  unfoldable pub mark_fundraiser_order_paid : ℕ → ℕ → M FundraiserOrder
  mark_fundraiser_order_paid id actor = do
    exec (λ now d. (ok tt, update_paid id d))
    audit_log (order_entry id (some actor) "mark_paid")
    credit_order_if_ready id actor

  unfoldable pub resolve_fundraiser_order_scout : ℕ → Option ℕ → ℕ → M FundraiserOrder
  resolve_fundraiser_order_scout id none actor = raise no_scout_chosen
  resolve_fundraiser_order_scout id (some scout) actor = do
    exec (λ now d. (ok tt, update_scout id scout d))
    audit_log (order_entry id (some actor) "resolve_scout")
    credit_order_if_ready id actor

unfoldable pub cancel_fundraiser_order : ℕ → ℕ → M (Unit {0})
cancel_fundraiser_order id actor =
    exec (λ now. update_canceled id) >> audit_log (order_entry id (some actor) "cancel")
