-- ===== src/Ledger/Orders/Total.antt =====
-- The total of an order is the sum of its lines: its checks keep it within 64 bits.
use mathlib.Core.Logic.{◌↔◌}
use native.Mathlib.Nat.{mul-le-mul}
use mathlib.Core.Path.{ap₂}
use scout_site.Prelude.{
  ℕ, ◌+◌, ◌*◌, ◌≤◌, ◌≡◌, refl, sym, ap, ◌∙◌, inl, inr, false, ◌||◌, List, [], ◌∷◌, arith, All,
  Bool-cases,
}
use scout_site.Prelude.Int.{
  ℤ, pos, negsuc, ◌+ℤ◌, ◌*ℤ◌, ◌≤ℤ◌, add64, mul64, wrap, leb_ℤ, ltb_ℤ, pos_part, mul64_exact, +ℤ_pos,
  *ℤ_pos, pos_of_positive, wrap-eq_of_Fits,
}
use scout_site.Store.Fundraising.{FundraiserOrderItem}
use scout_site.Store.Sql.{ok, ok-injective, Result-cases}
use scout_site.Ledger.Orders.{
  max_order_item_quantity, max_order_total_cents, add_items, require_positive, order_total,
}

-- A line with a price and a quantity within their limits.
pub record IsAcceptable (i : FundraiserOrderItem) : Type 0 where
  pub price_positive : pos 1 ≤ℤ i.unit_price_cents
  pub price_small : i.unit_price_cents ≤ℤ pos max_order_total_cents
  pub quantity_positive : pos 1 ≤ℤ i.quantity
  pub quantity_small : i.quantity ≤ℤ pos max_order_item_quantity

-- The sum of the lines, without any limit to its size.
unfoldable pub exact_total : List FundraiserOrderItem → ℤ
exact_total [] = pos 0
exact_total (i ∷ items) = i.unit_price_cents *ℤ i.quantity +ℤ exact_total items

-- The same sum, on natural numbers.
abbrev total_of : List FundraiserOrderItem → ℕ
total_of [] = 0
total_of (i ∷ items) = pos_part i.unit_price_cents * pos_part i.quantity + total_of items

exact_total-pos :
    (items : List FundraiserOrderItem)
    → All IsAcceptable items
    → exact_total items ≡ pos (total_of items)
unfolding exact_total
exact_total-pos [] h = refl
exact_total-pos (i ∷ items) (a, h) =
    ap₂ (λ x y. x +ℤ y)
      (ap₂ (λ x y. x *ℤ y) (pos_of_positive i.unit_price_cents a.price_positive)
          (pos_of_positive i.quantity a.quantity_positive)
        ∙ *ℤ_pos (pos_part i.unit_price_cents) (pos_part i.quantity))
      (exact_total-pos items h)
    ∙ +ℤ_pos _ (total_of items)

part_le : (a : ℤ) (c : ℕ) → pos 1 ≤ℤ a → a ≤ℤ pos c → pos_part a ≤ c
part_le (pos n) c h g = omega (arith, g)
part_le (negsuc n) c h g = absurd (omega (arith, h))

next_exact :
    (n : ℕ) (i : FundraiserOrderItem)
    → n ≤ max_order_total_cents
    → IsAcceptable i
    → add64 (pos n) (mul64 i.unit_price_cents i.quantity)
      ≡ pos (n + pos_part i.unit_price_cents * pos_part i.quantity)
unfolding add64
next_exact n i h a =
    let p = pos_part i.unit_price_cents in
    let q = pos_part i.quantity in
    let low : p ≤ 100_000_000 = part_le _ _ a.price_positive a.price_small in
    let few : q ≤ 10_000 = part_le _ _ a.quantity_positive a.quantity_small in
    ap₂ (λ x y. add64 (pos n) (mul64 x y)) (pos_of_positive i.unit_price_cents a.price_positive)
      (pos_of_positive i.quantity a.quantity_positive)
    ∙ ap (add64 (pos n)) (mul64_exact p q low few)
    ∙ ap wrap (+ℤ_pos n (p * q))
    ∙ wrap-eq_of_Fits (pos (n + p * q)) (omega (arith, h, mul-le-mul low few), omega arith)

-- What the checks of a line say.
price_checks :
    (i : FundraiserOrderItem)
    → (leb_ℤ i.unit_price_cents (pos 0) || ltb_ℤ (pos max_order_total_cents) i.unit_price_cents)
      ≡ false
    → (leb_ℤ i.quantity (pos 0) || ltb_ℤ (pos max_order_item_quantity) i.quantity) ≡ false
    → IsAcceptable i
price_checks i h g = record {
  price_positive = ground (arith, h);
  price_small = ground (arith, h);
  quantity_positive = ground (arith, g);
  quantity_small = ground (arith, g);
}

IsAcceptable-price :
    (i : FundraiserOrderItem)
    → IsAcceptable i
    → (leb_ℤ i.unit_price_cents (pos 0) || ltb_ℤ (pos max_order_total_cents) i.unit_price_cents)
      ≡ false
IsAcceptable-price i a = ground (arith, a.price_positive, a.price_small)

IsAcceptable-quantity :
    (i : FundraiserOrderItem)
    → IsAcceptable i
    → (leb_ℤ i.quantity (pos 0) || ltb_ℤ (pos max_order_item_quantity) i.quantity) ≡ false
IsAcceptable-quantity i a = ground (arith, a.quantity_positive, a.quantity_small)

abbrev product : FundraiserOrderItem → ℕ
product i = pos_part i.unit_price_cents * pos_part i.quantity

add_items_complete :
    (n : ℕ) (items : List FundraiserOrderItem)
    → n + total_of items ≤ max_order_total_cents
    → All IsAcceptable items
    → add_items (pos n) items ≡ ok (pos (n + total_of items))
unfolding add_items
add_items_complete n [] h a = ap (λ k. ok (pos k)) (omega arith)
add_items_complete n (i ∷ items) h (a, all) =
    rw (IsAcceptable-price i a, IsAcceptable-quantity i a, next_exact n i (omega (arith, h)) a)
      (let within : ltb_ℤ (pos max_order_total_cents) (pos (n + product i)) ≡ false =
          ground (arith, h) in
        rw within (
          add_items_complete (n + product i) items (omega (arith, h)) all
          ∙ ap (λ k. ok (pos k)) (omega arith)))

add_items_sound :
    (n : ℕ) (items : List FundraiserOrderItem) (t : ℤ)
    → n ≤ max_order_total_cents
    → add_items (pos n) items ≡ ok t
    → All IsAcceptable items
      × ((t ≡ pos (n + total_of items)) × (n + total_of items ≤ max_order_total_cents))
unfolding add_items
add_items_sound n [] t h e =
    (tt, (sym (ok-injective _ _ e) ∙ ap pos (omega arith), omega (arith, h)))
add_items_sound n (i ∷ items) t h e =
    elim (Bool-cases
      (leb_ℤ i.unit_price_cents (pos 0) || ltb_ℤ (pos max_order_total_cents) i.unit_price_cents)) [
        | inl b ↦ absurd (cc (rw (b, add_items) at e))
        | inr b ↦
            elim (Bool-cases
              (leb_ℤ i.quantity (pos 0) || ltb_ℤ (pos max_order_item_quantity) i.quantity)) [
                | inl c ↦ absurd (cc (rw (b, c, add_items) at e))
                | inr c ↦
                    let a = price_checks i b c in
                    let next = next_exact n i h a in
                    elim (Bool-cases (ltb_ℤ (pos max_order_total_cents) (pos (n + product i)))) [
                      | inl f ↦ absurd (cc (rw (b, c, next, f, add_items) at e))
                      | inr f ↦
                          let (all, (sum, low)) =
                            add_items_sound (n + product i) items t (ground (arith, f))
                              (rw (b, c, next, f, add_items) at e) in
                          ((a, all), (sum ∙ ap pos (omega arith), omega (arith, low)))
                    ]
              ]
      ]

-- A line adds at least one cent.
total_positive :
    (i : FundraiserOrderItem) (items : List FundraiserOrderItem)
    → IsAcceptable i
    → 1 ≤ total_of (i ∷ items)
total_positive i items a =
    let one : 1 * 1 ≤ product i =
      mul-le-mul (at_least _ a.price_positive) (at_least _ a.quantity_positive) in
    omega (arith, one)
  where
    at_least : (x : ℤ) → pos 1 ≤ℤ x → 1 ≤ pos_part x
    at_least (pos n) h = omega (arith, h)
    at_least (negsuc n) h = absurd (omega (arith, h))

not_nil : (i : FundraiserOrderItem) (items : List FundraiserOrderItem) → ¬ (i ∷ items ≡ [])
not_nil i items h = absurd cc

-- An order is accepted exactly where it has a line, each line has a price and a quantity within
-- their limits, and the sum of the lines, computed without a bound, is at most MaxOrderTotalCents;
-- its total is then that sum, so 64 bits lose nothing.
pub order_total_iff :
    (items : List FundraiserOrderItem) (t : ℤ)
    → (order_total items ≡ ok t) ↔ (
        (¬ (items ≡ []))
        × (All IsAcceptable items
            × ((exact_total items ≤ℤ pos max_order_total_cents) × (t ≡ exact_total items))))
unfolding order_total
order_total_iff items t = (accepted items, acceptable items)
  where
    accepted :
        (items : List FundraiserOrderItem)
        → order_total items ≡ ok t
        → (¬ (items ≡ []))
          × (All IsAcceptable items
              × ((exact_total items ≤ℤ pos max_order_total_cents) × (t ≡ exact_total items)))
    accepted [] e = absurd cc
    accepted (i ∷ items) e = elim (Result-cases (add_items (pos 0) (i ∷ items))) [
      | inl f ↦ absurd (cc (sym (ap require_positive f.1) ∙ e))
      | inr f ↦
          let (all, (sum, low)) = add_items_sound 0 (i ∷ items) f.0 (omega arith) f.1 in
          let exact = exact_total-pos (i ∷ items) all in
          elim (Bool-cases (leb_ℤ f.0 (pos 0))) [
            | inl g ↦ absurd (cc (rw g at (sym (ap require_positive f.1) ∙ e)))
            | inr g ↦
                let same : f.0 ≡ t =
                  ok-injective _ _ (rw g at (sym (ap require_positive f.1) ∙ e)) in
                (
                  not_nil i items,
                  (
                    all,
                    (
                      rw exact (omega (arith, low)),
                      sym same ∙ sum ∙ ap pos (omega arith) ∙ sym exact,
                    ),
                  ),
                )
          ]
    ]

    acceptable :
        (items : List FundraiserOrderItem)
        → (¬ (items ≡ []))
          × (All IsAcceptable items
              × ((exact_total items ≤ℤ pos max_order_total_cents) × (t ≡ exact_total items)))
        → order_total items ≡ ok t
    acceptable [] h = absurd (h.0 refl)
    acceptable (i ∷ items) (h, ((a, all), (low, same))) =
        let exact = exact_total-pos (i ∷ items) (a, all) in
        let sum = add_items_complete 0 (i ∷ items) (omega (arith, rw exact at low)) (a, all) in
        let zero_add : 0 + total_of (i ∷ items) ≡ total_of (i ∷ items) = omega arith in
        let some_cents : leb_ℤ (pos (total_of (i ∷ items))) (pos 0) ≡ false =
          ground (arith, total_positive i items a) in
        ap require_positive (sum ∙ ap (λ k. ok (pos k)) zero_add)
        ∙ rw some_cents (ap ok (sym (same ∙ exact)))
