-- ===== src/Ledger/Storefront.antt =====
-- The items and the storefront of a fundraiser, internal/ledger/fundraiser_storefront.go.
use scout_site.Prelude.{
  ℕ, ◌+◌, Bool, true, false, ◌&&◌, ◌||◌, not, Option, none, some, List, [], ◌∷◌, ltb, ◌==◌,
  if◌then◌else◌, find, any, select, update_where,
}
use scout_site.Prelude.Text.{Bytes, trim_space}
use scout_site.Prelude.Int.{ℤ, pos, leb_ℤ}
use scout_site.Store.Rows.{Db}
use scout_site.Store.Fundraising.{Fundraiser, FundraiserItem}
use scout_site.Store.Sql.{
  no_rows, bad_item, fundraiser_not_found, no_fundraiser_chosen, Result, ok, err, M, pure, raise,
  lift, ◌>>=◌, ◌>>◌, query, exec, exec_tx, transact,
}
use scout_site.Ledger.Fundraisers.{update_fundraising, has_fundraiser_id}

abbrev pub is_empty : Bytes → Bool
is_empty [] = true
is_empty (c ∷ s) = false

-- An item needs a name and a positive price.
abbrev pub is_bad_item : Bytes → ℤ → Bool
is_bad_item name price = is_empty name || leb_ℤ price (pos 0)

-- `SELECT COALESCE(MAX(sort_order) + 1, 0)`
unfoldable pub next_sort_order : ℕ → List FundraiserItem → ℕ
next_sort_order id [] = 0
next_sort_order id (i ∷ rest) =
    let n = next_sort_order id rest in
    if i.fundraiser_id == id then (if ltb n (i.sort_order + 1) then i.sort_order + 1 else n) else n

unfoldable pub insert_item : ℕ → Bytes → ℤ → ℕ → Db → Result FundraiserItem × Db
insert_item id name price order d =
    let i : FundraiserItem = record {
      id = d.next_id;
      fundraiser_id = id;
      name = name;
      price_cents = price;
      sort_order = order;
    } in
    (
      ok i,
      record d {
        fundraising = record d.fundraising {
          fundraiser_items = i ∷ d.fundraising.fundraiser_items;
        };
        next_id = d.next_id + 1;
      },
    )

unfoldable pub add_fundraiser_item : ℕ → Bytes → ℤ → M FundraiserItem
add_fundraiser_item id name price = do
  lift (if is_bad_item (trim_space name) price then err bad_item else ok tt)
  order ← query (λ d. ok (next_sort_order id d.fundraising.fundraiser_items))
  exec (λ now. insert_item id (trim_space name) price order)

abbrev pub has_item_id : ℕ → FundraiserItem → Bool
has_item_id id i = i.id == id

unfoldable pub update_fundraiser_item : ℕ → Bytes → ℤ → M (Unit {0})
update_fundraiser_item id name price =
    lift (if is_bad_item (trim_space name) price then err bad_item else ok tt)
    >> exec (λ now d. (
      ok tt,
      update_fundraising
          (λ t. record t {
            fundraiser_items =
                update_where (has_item_id id)
                  (λ (i : FundraiserItem). record i { name = trim_space name; price_cents = price })
                  t.fundraiser_items;
          })
          d,
    ))

unfoldable pub delete_fundraiser_item : ℕ → M (Unit {0})
delete_fundraiser_item id = exec (λ now d. (
  ok tt,
  update_fundraising
      (λ t. record t { fundraiser_items = select (λ i. not (has_item_id id i)) t.fundraiser_items })
      d,
))

unfoldable pub get_fundraiser_item : ℕ → M FundraiserItem
get_fundraiser_item id = query (λ d. elim (find (has_item_id id) d.fundraising.fundraiser_items) [
  | none ↦ err no_rows
  | some i ↦ ok i
])

unfoldable pub set_fundraiser_button_image : ℕ → Bytes → M (Unit {0})
set_fundraiser_button_image id url = exec (λ now d. (
  ok tt,
  update_fundraising
      (λ t. record t {
        fundraisers =
            update_where (has_fundraiser_id id)
              (λ (f : Fundraiser). record f { button_image_url = trim_space url }) t.fundraisers;
      })
      d,
))

abbrev pub shown_in : ℕ → Fundraiser → Bool
shown_in unit f = f.unit_id == unit && f.storefront_enabled

abbrev pub with_storefront : Bool → Fundraiser → Fundraiser
with_storefront on f = record f { storefront_enabled = on }

-- `UPDATE fundraisers SET storefront_enabled = false WHERE unit_id = $1 AND storefront_enabled`
unfoldable pub hide_storefronts : ℕ → Db → Db
hide_storefronts unit = update_fundraising (λ t. record t {
  fundraisers = update_where (shown_in unit) (with_storefront false) t.fundraisers;
})

abbrev pub is_in : ℕ → ℕ → Fundraiser → Bool
is_in id unit f = f.id == id && f.unit_id == unit

-- `UPDATE fundraisers SET storefront_enabled = true WHERE id = $1 AND unit_id = $2`
unfoldable pub show_storefront : ℕ → ℕ → Db → Result (Unit {0}) × Db
show_storefront id unit d =
    if any (is_in id unit) d.fundraising.fundraisers
    then (
      ok tt,
      update_fundraising
          (λ t. record t {
            fundraisers = update_where (is_in id unit) (with_storefront true) t.fundraisers;
          })
          d,
    )
    else (err fundraiser_not_found, d)

-- The second half of SetStorefrontFundraiser.
abbrev pub choose_storefront : ℕ → Option ℕ → Bool → M (Unit {0})
choose_storefront unit id false = pure tt
choose_storefront unit none true = raise no_fundraiser_chosen
choose_storefront unit (some id) true = exec_tx (λ now. show_storefront id unit)

unfoldable pub set_storefront_fundraiser : ℕ → Option ℕ → Bool → M (Unit {0})
unfolding hide_storefronts show_storefront
set_storefront_fundraiser unit id enabled =
    transact
      (exec_tx (λ now d. (ok tt, hide_storefronts unit d)) >> choose_storefront unit id enabled)
