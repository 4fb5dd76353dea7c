-- ===== src/Icalendar/Stamps.antt =====
-- What a feed relies on of the formats of package time, and parseTime of
-- internal/icalendar/parse.go on times that are so written.
use scout_site.Prelude.{
  ℕ, ◌+◌, ◌*◌, ◌<◌, true, false, [], ◌∷◌, ◌++◌, some, ◌≡◌, refl, sym, ap, ◌∙◌, ◌==◌, arith, length,
  length-append,
}
use scout_site.Prelude.Text.{Bytes}
use scout_site.Prelude.Int.{pos}
use scout_site.Prelude.Trim.{IsPrinted, IsPrinted-append, trim_space-IsPrinted}
use scout_site.Icalendar.RoundTrip.{HasNoBreak}
use scout_site.Icalendar.Property.{Params}
use scout_site.Icalendar.Event.{Times, utc_zone, day, ends_in_z, parse_time}
use mathlib.Core.Path.{subst}

-- The end of the year 9999, after which years have more than four digits.
abbrev pub max_time : ℕ
max_time = 315_537_897_600

-- Within the years of four digits, a time is written in 15 bytes and "Z", a date in 8, both are
-- read back, and the day after one is 86400 seconds later, in UTC.
pub record IsClock (t : Times) : Type 0 where
  pub utc_form :
      (u : ℕ)
      → u < max_time
      → (d : Bytes) × (t.format_utc u ≡ d ++ (90 ∷ [])) × (length d ≡ 15) × IsPrinted d
  pub parse_utc-format_utc : (u : ℕ) → u < max_time → t.parse_utc (t.format_utc u) ≡ some u
  pub date_form :
      (n : ℕ)
      → day * n < max_time
      → (length (t.format_date utc_zone (day * n)) ≡ 8)
        × IsPrinted (t.format_date utc_zone (day * n))
  pub parse_date-format_date :
      (n : ℕ)
      → day * n < max_time
      → t.parse_date (t.format_date utc_zone (day * n)) ≡ some (day * n)
  pub add_days-next : (u : ℕ) → u + day < max_time → t.add_days utc_zone (pos 1) u ≡ u + day

pub IsPrinted-HasNoBreak : (s : Bytes) → IsPrinted s → HasNoBreak s
IsPrinted-HasNoBreak [] h = tt
IsPrinted-HasNoBreak (c ∷ s) ((e, _), h) = (ground arith, (ground arith, IsPrinted-HasNoBreak s h))

ends_in_z-append : (s : Bytes) → ends_in_z (s ++ (90 ∷ [])) ≡ true
unfolding ends_in_z
ends_in_z-append [] = refl
ends_in_z-append (c ∷ []) = refl
ends_in_z-append (c ∷ d ∷ s) = ends_in_z-append (d ∷ s)

module _ (t : Times) (clock : IsClock t) where
  pub format_utc-IsPrinted : (u : ℕ) → u < max_time → IsPrinted (t.format_utc u)
  format_utc-IsPrinted u h =
      let (d, form, _, printed) = clock.utc_form u h in
      subst IsPrinted (sym form)
        (IsPrinted-append d (90 ∷ []) printed ((omega arith, omega arith), tt))

  length-format_utc : (u : ℕ) → u < max_time → length (t.format_utc u) ≡ 16
  length-format_utc u h =
      let (d, form, size, _) = clock.utc_form u h in
      ap length form ∙ omega (arith, length-append d (90 ∷ []), size)

  pub parse_time-format_utc :
      (params : Params) (u : ℕ)
      → u < max_time
      → parse_time t params (t.format_utc u) ≡ some (u, false)
  unfolding parse_time
  parse_time-format_utc params u h =
      let (d, form, _, _) = clock.utc_form u h in
      let long : (length (t.format_utc u) == 8) ≡ false = ground (arith, length-format_utc u h) in
      let zulu : ends_in_z (t.format_utc u) ≡ true = ap ends_in_z form ∙ ends_in_z-append d in
      rw
        (
          trim_space-IsPrinted _ (format_utc-IsPrinted u h),
          long,
          zulu,
          clock.parse_utc-format_utc u h,
        )
        refl

  pub parse_time-format_date :
      (params : Params) (n : ℕ)
      → day * n < max_time
      → parse_time t params (t.format_date utc_zone (day * n)) ≡ some (day * n, true)
  unfolding parse_time
  parse_time-format_date params n h =
      let (size, printed) = clock.date_form n h in
      let short : (length (t.format_date utc_zone (day * n)) == 8) ≡ true = rw size refl in
      rw (trim_space-IsPrinted _ printed, short, clock.parse_date-format_date n h) refl
