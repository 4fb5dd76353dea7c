-- ===== src/Ledger/Fundraisers.antt =====
-- Fundraisers and the shares of their proceeds, internal/ledger/ledger.go.
pub mod Examples
use scout_site.Prelude.{
  ℕ, ◌+◌, Bool, true, false, ◌&&◌, Option, none, some, List, [], ◌∷◌, ◌==◌, if◌then◌else◌, find,
  select, update_where,
}
use scout_site.Prelude.Text.{Bytes, codes}
use scout_site.Prelude.Int.{ℤ, pos, neg64, leb_ℤ, ltb_ℤ}
use scout_site.Store.Rows.{Account, Transaction, Posting, fundraiser_allocation, Db}
use scout_site.Store.Fundraising.{
  AllocationMode, percentage, fixed_per_item, other, Fundraiser, FundraiserAllocation, Fundraising,
}
use scout_site.Store.Sql.{
  Error, db_error, no_rows, unknown_mode, amount_not_positive, bad_percent, bad_quantity,
  credit_not_positive, credit_exceeds_gross, Result, ok, err, M, pure, raise, lift, ◌>>=◌, ◌>>◌,
  query, exec, audit_log,
}
use scout_site.Ledger.Post.{audit_entry, post_transaction}
use scout_site.Ledger.Accounts.{ensure_unit_general_account, ensure_scout_account}

-- What the code uses of code it does not hold: PostgreSQL's numeric(5,2) and numeric(10,2), as the
-- text that comes back for a text that is stored; strconv and the floating point numbers, with
-- math.Round; and the texts that are made of names.
pub record Decimals : Type 1 where
  pub percent_text : Bytes → Option Bytes
  pub quantity_text : Bytes → Option Bytes
  pub Float : Type 0
  pub parse_float : Bytes → Option Float
  pub float_of : ℤ → Float
  pub times : Float → Float → Float
  pub over : Float → Float → Float
  pub is_positive : Float → Bool
  pub round_to_int64 : Float → ℤ
  pub itoa : ℤ → Bytes
  pub account_name : Bytes → Prim.Native.String.String
  pub share_text : Bytes → Bytes → Prim.Native.String.String

abbrev pub update_fundraising : (Fundraising → Fundraising) → Db → Db
update_fundraising f d = record d { fundraising = f d.fundraising }

abbrev pub with_fundraiser : Fundraiser → Db → Db
with_fundraiser f d = record d {
  fundraising = record d.fundraising { fundraisers = f ∷ d.fundraising.fundraisers };
  next_id = d.next_id + 1;
}

-- `INSERT INTO fundraisers ... RETURNING`
unfoldable pub insert_fundraiser :
    ℕ → Bytes → AllocationMode → Bytes → ℤ → Option ℕ → ℕ → Db → Result Fundraiser × Db
insert_fundraiser unit name mode percent cents event by d =
    let f : Fundraiser = record {
      id = d.next_id;
      unit_id = unit;
      name = name;
      allocation_mode = mode;
      allocation_percent = percent;
      allocation_fixed_cents = cents;
      needs_council_confirmation = true;
      created_by = by;
      event_id = event;
      storefront_enabled = false;
      button_image_url = [];
    } in
    (ok f, with_fundraiser f d)

abbrev pub has_fundraiser_id : ℕ → Fundraiser → Bool
has_fundraiser_id id f = f.id == id

abbrev pub ruled : AllocationMode → Bytes → ℤ → Fundraiser → Fundraiser
ruled mode percent cents f = record f {
  allocation_mode = mode;
  allocation_percent = percent;
  allocation_fixed_cents = cents;
  needs_council_confirmation = false;
}

-- `UPDATE fundraisers SET allocation_mode = ... WHERE id = $2`
unfoldable pub update_rule : ℕ → AllocationMode → Bytes → ℤ → Db → Db
update_rule id mode percent cents = update_fundraising (λ t. record t {
  fundraisers = update_where (has_fundraiser_id id) (ruled mode percent cents) t.fundraisers;
})

-- A text that has to be a number for its column.
abbrev pub stored : {A : Type 0} → Option Bytes → (Bytes → Db → Result A × Db) → Db → Result A × Db
stored none f d = (err db_error, d)
stored (some text) f d = f text d

unfoldable pub find_fundraiser : ℕ → Db → Result Fundraiser
find_fundraiser id d = elim (find (has_fundraiser_id id) d.fundraising.fundraisers) [
  | none ↦ err no_rows
  | some f ↦ ok f
]

unfoldable pub get_fundraiser : ℕ → M Fundraiser
get_fundraiser id = query (find_fundraiser id)

unfoldable pub list_fundraisers_for_unit : ℕ → M (List Fundraiser)
list_fundraisers_for_unit unit =
    query (λ d. ok (select (λ (f : Fundraiser). f.unit_id == unit) d.fundraising.fundraisers))

unfoldable pub allocations_for_fundraiser : ℕ → M (List FundraiserAllocation)
allocations_for_fundraiser id = query (λ d. ok (
    select (λ (a : FundraiserAllocation). a.fundraiser_id == id)
      d.fundraising.fundraiser_allocations))

-- `INSERT INTO fundraiser_allocations ... RETURNING`
unfoldable pub insert_allocation :
    ℕ → ℕ → ℤ → ℤ → ℕ → ℕ → Bytes → Db → Result FundraiserAllocation × Db
insert_allocation id member gross credited transaction by quantity d =
    let a : FundraiserAllocation = record {
      id = d.next_id;
      fundraiser_id = id;
      member_id = member;
      gross_amount_cents = gross;
      quantity = quantity;
      credited_cents = credited;
      ledger_transaction_id = transaction;
      created_by = by;
    } in
    (
      ok a,
      record d {
        fundraising = record d.fundraising {
          fundraiser_allocations = a ∷ d.fundraising.fundraiser_allocations;
        };
        next_id = d.next_id + 1;
      },
    )

-- Where the quantity is "", NULL is stored.
abbrev pub quantity_column : (Bytes → Option Bytes) → Bytes → Option Bytes
quantity_column numeric [] = some []
quantity_column numeric (c ∷ s) = numeric (c ∷ s)

-- The two lines of the transaction that credits a share.
abbrev pub share_postings : ℕ → ℕ → ℤ → List Posting
share_postings general scout cents =
    record { account_id = general; amount_cents = neg64 cents }
    ∷ record { account_id = scout; amount_cents = cents }
    ∷ []

module _ (n : Decimals) where
  unfoldable pub create_fundraiser :
      ℕ → Bytes → AllocationMode → Bytes → ℤ → Option ℕ → ℕ → M Fundraiser
  create_fundraiser unit name percentage percent cents event by = do
    f ← exec (λ now.
        stored (n.percent_text percent)
          (λ text. insert_fundraiser unit name percentage text (pos 0) event by))
    audit_log (audit_entry "fundraiser" f.id by "create")
    pure f
  create_fundraiser unit name fixed_per_item percent cents event by = do
    f ← exec (λ now. insert_fundraiser unit name fixed_per_item [] cents event by)
    audit_log (audit_entry "fundraiser" f.id by "create")
    pure f
  create_fundraiser unit name (other mode) percent cents event by = raise unknown_mode

  -- The UPDATE of ConfirmFundraiserCap.
  unfoldable pub confirm_rule : ℕ → AllocationMode → Bytes → ℤ → M (Unit {0})
  unfolding update_rule
  confirm_rule id percentage percent cents = exec (λ now.
      stored (n.percent_text percent) (λ text d. (ok tt, update_rule id percentage text (pos 0) d)))
  confirm_rule id fixed_per_item percent cents =
      exec (λ now d. (ok tt, update_rule id fixed_per_item [] cents d))
  confirm_rule id (other mode) percent cents = raise unknown_mode

  unfoldable pub confirm_fundraiser_cap : ℕ → AllocationMode → Bytes → ℤ → ℕ → M (Unit {0})
  confirm_fundraiser_cap id mode percent cents by =
      confirm_rule id mode percent cents
      >> audit_log (audit_entry "fundraiser" id by "confirm_council_cap")

  abbrev percent_share : ℤ → Option n.Float → Result ℤ
  percent_share gross none = err bad_percent
  percent_share gross (some pct) =
      ok (n.round_to_int64 (n.over (n.times (n.float_of gross) pct) (n.float_of (pos 100))))

  abbrev item_share : ℤ → Option n.Float → Result ℤ
  item_share cents none = err bad_quantity
  item_share cents (some qty) =
      if n.is_positive qty
      then ok (n.round_to_int64 (n.times qty (n.float_of cents)))
      else err bad_quantity

  -- The share by the rule of the fundraiser.
  abbrev share_by_mode : Fundraiser → ℤ → Bytes → AllocationMode → Result ℤ
  share_by_mode f gross quantity percentage =
      percent_share gross (n.parse_float f.allocation_percent)
  share_by_mode f gross quantity fixed_per_item =
      item_share f.allocation_fixed_cents (n.parse_float quantity)
  share_by_mode f gross quantity (other mode) = err unknown_mode

  unfoldable pub compute_share : Fundraiser → ℤ → Bytes → Result ℤ
  compute_share f gross quantity = share_by_mode f gross quantity f.allocation_mode

  -- The limits of a share.
  unfoldable pub check_share : ℤ → ℤ → Result (Unit {0})
  check_share gross credited =
      if leb_ℤ credited (pos 0)
      then err credit_not_positive
      else (if ltb_ℤ gross credited then err credit_exceeds_gross else ok tt)

  unfoldable pub record_fundraiser_allocation :
      ℕ → ℕ → Bytes → ℤ → Bytes → ℕ → M FundraiserAllocation
  record_fundraiser_allocation id member name gross quantity by = do
    lift (if leb_ℤ gross (pos 0) then err amount_not_positive else ok tt)
    f ← get_fundraiser id
    credited ← lift (compute_share f gross quantity)
    lift (check_share gross credited)
    general ← ensure_unit_general_account f.unit_id
    scout ← ensure_scout_account f.unit_id member (n.account_name name)
    t ←
        post_transaction f.unit_id fundraiser_allocation (n.share_text f.name name) by
          (share_postings general.id scout.id credited)
    a ← exec (λ now.
        stored (quantity_column n.quantity_text quantity)
          (insert_allocation id member gross credited t.id by))
    audit_log (audit_entry "fundraiser_allocation" a.id by "create")
    pure a
