-- ===== src/Icalendar/Event.antt =====
-- An event and its times: internal/icalendar/icalendar.go, and parseTime of parse.go beside it.
use scout_site.Prelude.{
  ℕ, ◌/◌, ◌%◌, ◌+◌, Bool, true, false, Option, [], ◌∷◌, ◌==◌, if◌then◌else◌, length,
}
use scout_site.Prelude.Text.{Bytes, codes, trim_space}
use scout_site.Prelude.Int.{ℤ}
use mathlib.Core.Option
use scout_site.Icalendar.Property.{Params, param}

-- What the package uses of time and strconv. An instant is the number of whole seconds since the
-- zero time, the start of the year 1 in UTC; a time.Location is a number, and UTC is 0.
pub record Times : Type 0 where
  pub atoi : Bytes → Option ℤ
  -- Format and Parse of "20060102T150405Z", in UTC. Format of "20060102" in a Location, and Parse,
  -- which is in UTC.
  pub format_utc : ℕ → Bytes
  pub format_date : ℕ → ℕ → Bytes
  pub parse_utc : Bytes → Option ℕ
  pub parse_date : Bytes → Option ℕ
  -- LoadLocation, and ParseInLocation of "20060102T150405".
  pub load_location : Bytes → Option ℕ
  pub parse_in_location : Bytes → ℕ → Option ℕ
  -- AddDate of days, which may be negative, in a Location; of months and of years, in UTC.
  pub add_days : ℕ → ℤ → ℕ → ℕ
  pub add_months : ℕ → ℕ → ℕ
  pub add_years : ℕ → ℕ → ℕ

-- The Location time.UTC.
abbrev pub utc_zone : ℕ
utc_zone = 0

abbrev pub day : ℕ
day = 86_400

-- t.Weekday() in UTC, from Sunday; the year 1 begins on a Monday.
abbrev pub weekday : ℕ → ℕ
weekday t = (t / day + 1) % 7

-- A time is an instant with a Location, `start_zone` and `end_zone`; that of LastModified is never
-- asked for.
pub record Event : Type 0 where
  pub uid : Bytes
  pub summary : Bytes
  pub description : Bytes
  pub location : Bytes
  pub url : Bytes
  pub start : ℕ
  pub start_zone : ℕ
  pub end : ℕ
  pub end_zone : ℕ
  pub all_day : Bool
  pub last_modified : ℕ
  pub cancelled : Bool

-- t.IsZero()
abbrev pub is_zero_time : ℕ → Bool
is_zero_time t = t == 0

-- strings.HasSuffix(s, "Z")
unfoldable pub ends_in_z : Bytes → Bool
ends_in_z [] = false
ends_in_z (c ∷ []) = c == 90
ends_in_z (c ∷ d ∷ s) = ends_in_z (d ∷ s)

module _ (t : Times) where
  -- The zone of the parameter TZID, or UTC.
  abbrev zone_of : Bytes → ℕ
  zone_of [] = utc_zone
  zone_of (c ∷ s) = Option.get_or (t.load_location (c ∷ s)) utc_zone

  -- The time, which is in UTC, and whether it is a date.
  unfoldable pub parse_time : Params → Bytes → Option (ℕ × Bool)
  unfolding trim_space ends_in_z param
  parse_time params raw =
      let value = trim_space raw in
      if length value == 8
      then Option.map (λ u. (u, true)) (t.parse_date value)
      else (if ends_in_z value
          then Option.map (λ u. (u, false)) (t.parse_utc value)
          else Option.map (λ u. (u, false))
              (t.parse_in_location value (zone_of (param (codes "TZID") params))))
