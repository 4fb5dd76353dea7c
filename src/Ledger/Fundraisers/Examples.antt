-- ===== src/Ledger/Fundraisers/Examples.antt =====
-- Concrete numbers for the tests.
use scout_site.Prelude.{some, [], length}
use scout_site.Prelude.Int.{ℤ, pos, ◌*ℤ◌, ltb_ℤ}
use scout_site.Ledger.Fundraisers.{Decimals}

-- Numbers that are whole: a text stands for its length, and a share is computed in cents.
abbrev pub whole_cents : Decimals
whole_cents = record {
  percent_text = λ s. some s;
  quantity_text = λ s. some s;
  Float = ℤ;
  parse_float = λ s. some (pos (length s));
  float_of = λ a. a;
  times = λ a b. a *ℤ b;
  over = λ a b. a;
  is_positive = ltb_ℤ (pos 0);
  round_to_int64 = λ a. a;
  itoa = λ a. [];
  account_name = λ s. "Individual Account";
  share_text = λ f s. "share";
}
