-- ===== src/Ledger/Outcomes/Share.antt =====
-- A Scout's share of a fundraiser is credited: RecordFundraiserAllocation, internal/ledger/ledger.go.
use Prim.Native.String.{String}
use scout_site.Prelude.{ℕ}
use scout_site.Prelude.Text.{Bytes}
use scout_site.Prelude.Int.{ℤ}
use scout_site.Store.Rows.{Db}
use scout_site.Store.Fundraising.{Fundraiser, FundraiserAllocation}
use scout_site.Store.Sql.{◌>>=◌, ◌>>◌}
use scout_site.Store.Triple.{Triple}
use scout_site.Store.Books.{Books}
use scout_site.Ledger.Fundraisers.{Decimals}
use scout_site.Ledger.Outcomes.Credit.{IsShare, Credited, Allocated, Failed}

module _ (n : Decimals) (id member : ℕ) (name : Bytes) (gross : ℤ) (quantity : Bytes) (by : ℕ) where
  module _ (d0 : Db) where
    abbrev HasShare : Fundraiser → ℤ → Type 0
    HasShare = IsShare n id member gross quantity d0

    abbrev HasCredited : ℤ → Db → Type 0
    HasCredited = Credited n id member gross quantity d0

    abbrev HasAllocated : FundraiserAllocation → Db → Type 0
    HasAllocated = Allocated n id member gross quantity d0

    abbrev HasFailed : Db → Type 0
    HasFailed = Failed n id member gross quantity d0
