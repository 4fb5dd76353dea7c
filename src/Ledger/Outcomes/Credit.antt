-- ===== src/Ledger/Outcomes/Credit.antt =====
-- What it means that a Scout's share of a fundraiser is credited: RecordFundraiserAllocation,
-- internal/ledger/ledger.go.

use scout_site.Prelude.{ℕ, ◌≡◌, ◌∙◌, true, List, ◌∷◌, ◌⊎◌}
use scout_site.Prelude.Text.{Bytes}
use scout_site.Prelude.Int.{ℤ, pos, ◌+ℤ◌, leb_ℤ, ltb_ℤ}
use scout_site.Store.Rows.{Account, Db}
use scout_site.Store.Fundraising.{Fundraiser, FundraiserAllocation}
use scout_site.Store.Sums.{balance}
use scout_site.Store.Sql.{ok}
use scout_site.Store.Books.{Books}
use scout_site.Ledger.Effects.{account_sum}
use scout_site.Ledger.Outcomes.Pending.{Unmoved}
use scout_site.Ledger.Fundraisers.{Decimals, share_postings, find_fundraiser, compute_share}
use scout_site.Ledger.Outcomes.Ensured.{is_general, is_individual}

module _ (n : Decimals) (id member : ℕ) (gross : ℤ) (quantity : Bytes) where
  -- A share that the rule of the fundraiser gives, from above zero up to the gross amount.
  pub record IsShare (d0 : Db) (f : Fundraiser) (credited : ℤ) : Type 0 where
    pub found : find_fundraiser id d0 ≡ ok f
    pub by_rule : compute_share n f gross quantity ≡ ok credited
    pub positive : ltb_ℤ (pos 0) credited ≡ true
    pub within : leb_ℤ credited gross ≡ true

  -- From the unit's general fund to the Scout's account: the two accounts lie in the unit of the
  -- fundraiser, and every balance has moved by exactly what the two lines come to on it.
  pub record Credited (d0 : Db) (credited : ℤ) (d : Db) : Type 0 where
    pub books : Books d
    pub fundraiser : Fundraiser
    pub share : IsShare d0 fundraiser credited
    pub general : Account
    pub scout : Account
    pub general_is : is_general fundraiser.unit_id general ≡ true
    pub scout_is : is_individual fundraiser.unit_id member scout ≡ true
    pub balances :
        (i : ℕ)
        → balance d i ≡ balance d0 i +ℤ account_sum i (share_postings general.id scout.id credited)

  -- The allocation is listed, with the share that was credited.
  abbrev pub Allocated : Db → FundraiserAllocation → Db → Type 0
  Allocated d0 a d =
      (rest : List FundraiserAllocation) × (d.fundraising.fundraiser_allocations ≡ a ∷ rest)
      × (a.member_id ≡ member)
      × (a.fundraiser_id ≡ id)
      × (a.gross_amount_cents ≡ gross)
      × Credited d0 a.credited_cents d

  -- On an error nothing has moved, or the share has, without an allocation.
  abbrev pub Failed : Db → Db → Type 0
  Failed d0 d = Unmoved d0 d ⊎ ((credited : ℤ) × Credited d0 credited d)

  pub Credited-same :
      (d0 : Db) (credited : ℤ) (d d' : Db)
      → Books d'
      → ((i : ℕ) → balance d' i ≡ balance d i)
      → Credited d0 credited d
      → Credited d0 credited d'
  Credited-same d0 credited d d' books same c = record {
    books = books;
    fundraiser = c.fundraiser;
    share = c.share;
    general = c.general;
    scout = c.scout;
    general_is = c.general_is;
    scout_is = c.scout_is;
    balances = λ i. same i ∙ c.balances i;
  }
