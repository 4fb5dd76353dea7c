-- ===== src/Paging/Items.antt =====
-- Each item of a listing is on exactly one page.
use mathlib.Core.Logic.{◌↔◌}
use native.Mathlib.Nat.{div-mul-le_self, lt-div-mul-add, le-div_iff_mul-le, div-eq_of_lt-le}
use scout_site.Prelude.{ℕ, ◌+◌, ◌-◌, ◌*◌, ◌/◌, ◌≤◌, ◌<◌, ◌≡◌, sym, ap, ◌∙◌, some, arith}
use scout_site.Prelude.Text.{Bytes}
use scout_site.Prelude.Int.{pos}
use scout_site.Paging.{Urls, at_least_one, at_most, asked_page, page_count, new_pager}

page_count-enough : (total size i : ℕ) → 1 ≤ size → i < total → i / size + 1 ≤ page_count total size
unfolding page_count
page_count-enough total size i h g =
    let low = div-mul-le_self i size in
    let room : (i / size + 1) * size ≤ total + size - 1 = grind (arith, low, h, g) in
    let fits = (le-div_iff_mul-le h).1 room in ground (arith, fits)

-- The items of a page of this size that starts at a multiple of it.
on_page :
    (total size i k : ℕ)
    → 1 ≤ size
    → i < total
    → ((k * size ≤ i) × (i < at_most total (k * size + size))) ↔ (i / size ≡ k)
on_page total size i k h g = (within, here)
  where
    within : (k * size ≤ i) × (i < at_most total (k * size + size)) → i / size ≡ k
    within (low, high) = div-eq_of_lt-le size low (grind (arith, high, g))

    here : i / size ≡ k → (k * size ≤ i) × (i < at_most total (k * size + size))
    here e =
        let low : k * size ≤ i = rw (sym e) (div-mul-le_self i size) in
        let high : i < k * size + size = rw (sym e) (lt-div-mul-add h) in
        (low, ground (arith, high, g))

-- An item of a listing is on the page that is asked for, one of those there are, exactly where the
-- page is the item's place divided by the size, and one; and there is such a page. So each item is on
-- exactly one page.
pub new_pager-item :
    (u : Urls) (total size i k : ℕ) (raw path : Bytes)
    → 1 ≤ size
    → i < total
    → u.atoi raw ≡ some (pos (k + 1))
    → k + 1 ≤ page_count total size
    → (i / size + 1 ≤ page_count total size)
      × (let p = new_pager u total size raw path in
          ((p.first ≤ i) × (i < p.end)) ↔ (i / size + 1 ≡ k + 1))
unfolding new_pager
new_pager-item u total size i k raw path h g asked there =
    let per_page : at_least_one size ≡ size = ground (arith, h) in
    let wanted : asked_page (u.atoi raw) ≡ k + 1 = ap asked_page asked ∙ ground arith in
    let kept : at_most (page_count total size) (k + 1) ≡ k + 1 = ground (arith, there) in
    let before : k + 1 - 1 ≡ k = omega arith in
    let (within, here) = on_page total size i k h g in
    (
      page_count-enough total size i h g,
      rw (per_page, wanted, kept, before)
          ((λ p. omega (arith, within p)), (λ e. here (omega (arith, e)))),
    )
