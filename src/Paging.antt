-- ===== src/Paging.antt =====
-- The pages of a listing, internal/web/paging.go.
pub mod Items
mod Tests
use scout_site.Prelude.{
  ℕ, ◌+◌, ◌-◌, ◌*◌, ◌/◌, Bool, true, false, Option, none, some, [], ltb, leb, ◌++◌, if◌then◌else◌,
}
use scout_site.Prelude.Text.{Bytes}
use scout_site.Prelude.Int.{ℤ, pos, pos_part, ltb_ℤ}

-- strconv.Atoi, and the query of a URL with a page in it.
pub record Urls : Type 0 where
  pub atoi : Bytes → Option ℤ
  pub page_query : ℕ → Bytes

pub record Pager : Type 0 where
  pub page : ℕ
  pub pages : ℕ
  pub first : ℕ
  pub end : ℕ
  pub prev_url : Bytes
  pub next_url : Bytes

-- A number is at least one.
abbrev pub at_least_one : ℕ → ℕ
at_least_one n = if ltb n 1 then 1 else n

-- How many pages there are, for a size of at least one.
unfoldable pub page_count : ℕ → ℕ → ℕ
page_count total size = at_least_one ((total + size - 1) / size)

-- The page that was asked for.
abbrev pub asked_page : Option ℤ → ℕ
asked_page none = 1
asked_page (some p) = if ltb_ℤ p (pos 1) then 1 else pos_part p

-- One past the end is the last.
abbrev pub at_most : ℕ → ℕ → ℕ
at_most last n = if ltb last n then last else n

unfoldable pub page_url : Urls → Bytes → ℕ → Bytes
page_url u path page = if leb page 1 then path else path ++ u.page_query page

-- The numbers here stay far from 2 ^ 63.
unfoldable pub new_pager : Urls → ℕ → ℕ → Bytes → Bytes → Pager
unfolding page_count page_url
new_pager u total size raw path =
    let per_page = at_least_one size in
    let pages = page_count total per_page in
    let page = at_most pages (asked_page (u.atoi raw)) in
    let first = (page - 1) * per_page in
    record {
      page = page;
      pages = pages;
      first = first;
      end = at_most total (first + per_page);
      prev_url = if ltb 1 page then page_url u path (page - 1) else [];
      next_url = if ltb page pages then page_url u path (page + 1) else [];
    }
