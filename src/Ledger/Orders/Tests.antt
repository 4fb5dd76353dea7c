-- ===== src/Ledger/Orders/Tests.antt =====
-- Orders at a concrete database.
use mathlib.Core.Logic.{◌↔◌}
use scout_site.Prelude.{◌≡◌, refl, true, none, some, List, [], ◌∷◌, All}
use scout_site.Prelude.Text.{codes}
use scout_site.Prelude.Int.{pos, ◌≤ℤ◌, mul64, add64, ◌*ℤ◌, ◌+ℤ◌, wrap}
use scout_site.Store.Rows.{Db}
use scout_site.Store.Fundraising.{FundraiserOrderItem, credited, FundraiserOrder}
use scout_site.Store.Sql.{ok}
use scout_site.Ledger.Session.{empty_db, no_fundraising}
use scout_site.Ledger.Fundraisers.Examples.{whole_cents}
use scout_site.Ledger.Orders.{max_order_total_cents, add_items, order_total, find_order}
use scout_site.Ledger.Orders.Total.{IsAcceptable, exact_total, order_total_iff}
use scout_site.Ledger.Orders.Stays.{Settled}
use scout_site.Ledger.Orders.Unmoved.{Unmoved}
use scout_site.Ledger.Orders.Settled.{
  OrderEvent, mark_paid, cancel, resolve_scout, play_orders, play_orders-Settled,
}

abbrev popcorn : List FundraiserOrderItem
popcorn =
    record { item_name = codes "popcorn"; unit_price_cents = pos 1500; quantity = pos 2 }
    ∷ record { item_name = codes "wreath"; unit_price_cents = pos 2500; quantity = pos 1 }
    ∷ []

order_total-run : order_total popcorn ≡ ok (pos 5500)
unfolding order_total add_items add64 mul64 ◌*ℤ◌ ◌+ℤ◌ wrap
order_total-run = refl

order_total_iff_example : (order_total popcorn ≡ ok (pos 5500)) ↔ (
    (¬ (popcorn ≡ []))
    × (All IsAcceptable popcorn
        × ((exact_total popcorn ≤ℤ pos max_order_total_cents) × (pos 5500 ≡ exact_total popcorn))))
order_total_iff_example = order_total_iff popcorn (pos 5500)

abbrev settled_order : FundraiserOrder
settled_order = record {
  id = 7;
  fundraiser_id = 3;
  unit_id = 9;
  buyer_name = codes "Ann";
  buyer_email = [];
  buyer_phone = [];
  scout_name_entered = codes "Bo";
  scout_member_id = some 5;
  total_cents = pos 5500;
  status = credited;
  fundraiser_allocation_id = some 6;
  created_by = none;
}

abbrev shop_db : Db
shop_db = record empty_db {
  fundraising = record no_fundraising { fundraiser_orders = settled_order ∷ [] };
  next_id = 8;
}

abbrev again : List OrderEvent
again =
    record { call = mark_paid 7 2; now = 1; faults = [] }
    ∷ record { call = resolve_scout 7 (some 4) 2; now = 2; faults = true ∷ [] }
    ∷ record { call = cancel 7 2; now = 3; faults = [] }
    ∷ []

abbrev once_more : OrderEvent
once_more = record { call = mark_paid 7 2; now = 4; faults = [] }

play_orders-Settled_example :
    Settled 7 credited (some 6) (pos 5500) (play_orders whole_cents again shop_db)
    × Unmoved
        (play_orders whole_cents again shop_db)
        (play_orders whole_cents (once_more ∷ []) (play_orders whole_cents again shop_db))
unfolding find_order
play_orders-Settled_example =
    play_orders-Settled whole_cents again shop_db 7 settled_order once_more refl refl refl
