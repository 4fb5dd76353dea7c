-- ===== src/Store/Fundraising.antt =====
-- The rows of fundraisers and of the orders at their storefronts (0006_ledger.sql and
-- 0032_fundraiser_storefront.sql) with the Go structs of internal/ledger. The newest row is first. A
-- column that is NULL, "" in Go, is an `Option` where the code asks for that.
use scout_site.Prelude.{ℕ, Bool, Option, List}
use scout_site.Prelude.Text.{Bytes}
use scout_site.Prelude.Int.{ℤ}

-- "percentage", "fixed_per_item", or whatever else a caller gives.
pub data AllocationMode : Type 0 where
  percentage fixed_per_item : AllocationMode
  other : Bytes → AllocationMode

pub record Fundraiser : Type 0 where
  pub id : ℕ
  pub unit_id : ℕ
  pub name : Bytes
  pub allocation_mode : AllocationMode
  pub allocation_percent : Bytes
  pub allocation_fixed_cents : ℤ
  pub needs_council_confirmation : Bool
  pub created_by : ℕ
  pub event_id : Option ℕ
  pub storefront_enabled : Bool
  pub button_image_url : Bytes

pub record FundraiserAllocation : Type 0 where
  pub id : ℕ
  pub fundraiser_id : ℕ
  pub member_id : ℕ
  pub gross_amount_cents : ℤ
  pub quantity : Bytes
  pub credited_cents : ℤ
  pub ledger_transaction_id : ℕ
  pub created_by : ℕ

pub record FundraiserItem : Type 0 where
  pub id : ℕ
  pub fundraiser_id : ℕ
  pub name : Bytes
  pub price_cents : ℤ
  pub sort_order : ℕ

-- A line of an order.
pub record FundraiserOrderItem : Type 0 where
  pub item_name : Bytes
  pub unit_price_cents : ℤ
  pub quantity : ℤ

pub data OrderStatus : Type 0 where
  pending paid credited canceled : OrderStatus

-- An order without its lines.
pub record FundraiserOrder : Type 0 where
  pub id : ℕ
  pub fundraiser_id : ℕ
  pub unit_id : ℕ
  pub buyer_name : Bytes
  pub buyer_email : Bytes
  pub buyer_phone : Bytes
  pub scout_name_entered : Bytes
  pub scout_member_id : Option ℕ
  pub total_cents : ℤ
  pub status : OrderStatus
  pub fundraiser_allocation_id : Option ℕ
  pub created_by : Option ℕ

-- A row of fundraiser_order_items.
pub record OrderItemRow : Type 0 where
  pub order_id : ℕ
  pub item : FundraiserOrderItem

-- The name of a member.
pub record MemberName : Type 0 where
  pub member_id : ℕ
  pub first_name : Bytes
  pub last_name : Bytes

pub record Fundraising : Type 0 where
  pub fundraisers : List Fundraiser
  pub fundraiser_allocations : List FundraiserAllocation
  pub fundraiser_items : List FundraiserItem
  pub fundraiser_orders : List FundraiserOrder
  pub fundraiser_order_items : List OrderItemRow
  pub member_names : List MemberName
