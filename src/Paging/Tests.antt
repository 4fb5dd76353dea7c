-- ===== src/Paging/Tests.antt =====
-- The second page of a gallery of thirty.
use mathlib.Core.Logic.{◌↔◌}
use scout_site.Prelude.{◌+◌, ◌/◌, ◌≤◌, ◌<◌, ◌≡◌, refl, some, arith}
use scout_site.Prelude.Text.{codes}
use scout_site.Prelude.Int.{pos}
use scout_site.Paging.{Urls, page_count, page_url, new_pager}
use scout_site.Paging.Items.{new_pager-item}

abbrev some_urls : Urls
some_urls = record { atoi = λ s. some (pos 2); page_query = λ n. codes "?page=n" }

second_page : (new_pager some_urls 30 12 (codes "2") (codes "/gallery")).end ≡ 24
unfolding new_pager page_count page_url
second_page = refl

new_pager-item_example :
    (20 / 12 + 1 ≤ page_count 30 12)
    × (let p = new_pager some_urls 30 12 (codes "2") (codes "/gallery") in
        ((p.first ≤ 20) × (20 < p.end)) ↔ (20 / 12 + 1 ≡ 1 + 1))
unfolding page_count
new_pager-item_example =
    new_pager-item some_urls 30 12 20 1 (codes "2") (codes "/gallery") (omega arith) (omega arith)
      refl (omega arith)
