-- ===== src/Icalendar/Examples.antt =====
-- A feed with a clock of its own, which writes seconds and days in decimal digits, the lowest first.
use scout_site.Prelude.{
  ℕ, zero, suc, ◌+◌, ◌-◌, ◌*◌, ◌/◌, ◌%◌, ◌^◌, ◌<◌, ◌≤◌, true, false, List, [], ◌∷◌, ◌++◌, none,
  some, ◌==◌, leb, if◌then◌else◌, ◌≡◌, inl, refl, arith, length, select, All,
}
use scout_site.Prelude.Text.{Bytes, codes}
use scout_site.Prelude.Int.{pos, pos_part, neg_part, mul64, ◌*ℤ◌}
use scout_site.Icalendar.Event.{Times, Event, utc_zone, day}
use scout_site.Icalendar.Stamps.{max_time, IsClock}
use scout_site.Prelude.Trim.{IsPrinted}
use scout_site.Icalendar.Property.{split_property}
use scout_site.Icalendar.Recurrence.{Rrule, daily, weekly, max_expansion, parse_rrule, occurrences}
use scout_site.Icalendar.Window.{IsOccurrence, Allows, occurrences-IsOccurrence}
use scout_site.Icalendar.Regular.{by_count, up_to, series, AddsDays, occurrences-Repeats}
use scout_site.Icalendar.Published.{IsPublished, no_break, no_break_sound}
use scout_site.Icalendar.{escape_text}
use scout_site.Icalendar.Escape.{HasNoReturn}
use scout_site.Icalendar.RoundTrip.{HasNoBreak}
use scout_site.Icalendar.Parse.{parsed, not_calendar, is_within, max_feed_bytes, parse}
use scout_site.Icalendar.Render.{render, render_event}
use scout_site.Icalendar.Import.{parse-render}
use native.Mathlib.Nat.{pow-suc}
use mathlib.Core.Path.{ap, sym, ◌∙◌}
use mathlib.Core.List.{append-nil}

low_digits : ℕ → ℕ → Bytes
low_digits zero n = []
low_digits (suc k) n = (48 + n % 10) ∷ low_digits k (n / 10)

value : Bytes → ℕ
value [] = 0
value (c ∷ s) = let rest = value s in if c == 90 then 0 else c - 48 + 10 * rest

value-low_digits :
    (k n : ℕ) (s : Bytes) → n < 10 ^ k → value s ≡ 0 → value (low_digits k n ++ s) ≡ n
unfolding low_digits value
value-low_digits zero n s h e = omega (arith, e)
value-low_digits (suc k) n s h e =
    ground (arith, value-low_digits k (n / 10) s (omega (arith, pow-suc 10 k)) e)

length-low_digits : (k n : ℕ) → length (low_digits k n) ≡ k
unfolding low_digits
length-low_digits zero n = refl
length-low_digits (suc k) n = ap suc (length-low_digits k (n / 10))

low_digits-IsPrinted : (k n : ℕ) → IsPrinted (low_digits k n)
unfolding low_digits
low_digits-IsPrinted zero n = tt
low_digits-IsPrinted (suc k) n = ((omega arith, omega arith), low_digits-IsPrinted k (n / 10))

unfoldable simple_clock : Times
unfolding low_digits value
simple_clock = record {
  atoi = λ s. some (pos (value s));
  format_utc = λ u. low_digits 15 u ++ (90 ∷ []);
  format_date = λ zone u. low_digits 8 (u / day);
  parse_utc = λ s. some (value s);
  parse_date = λ s. some (day * value s);
  load_location = λ s. none;
  parse_in_location = λ s zone. none;
  add_days = λ zone n u. u + day * pos_part n - day * neg_part n;
  add_months = λ n u. u + day * (30 * n);
  add_years = λ n u. u + day * (365 * n);
}

simple_clock-IsClock : IsClock simple_clock
unfolding simple_clock
simple_clock-IsClock = record {
  utc_form = λ u h. (low_digits 15 u, refl, length-low_digits 15 u, low_digits-IsPrinted 15 u);
  parse_utc-format_utc = λ u h. ap some (value-low_digits 15 u (90 ∷ []) (omega (arith, h)) refl);
  date_form = λ n h. (length-low_digits 8 (day * n / day), low_digits-IsPrinted 8 (day * n / day));
  parse_date-format_date = λ n h. ap some (read_day n h);
  add_days-next = λ u h. omega arith;
}
  where
    read_day : (n : ℕ) → day * n < max_time → day * value (low_digits 8 (day * n / day)) ≡ day * n
    read_day n h =
        ap (λ x. day * value x) (sym (append-nil (low_digits 8 (day * n / day))))
        ∙ ap (λ x. day * x) (value-low_digits 8 (day * n / day) [] (omega (arith, h)) refl)
        ∙ omega arith

-- A camp of three days without a name that needs escaping, and a meeting with one that does.
abbrev camp : Event
camp = record {
  uid = codes "1@site";
  summary = codes "Camp";
  description = [];
  location = [];
  url = [];
  start = day * 739000;
  start_zone = utc_zone;
  end = day * 739002;
  end_zone = utc_zone;
  all_day = true;
  last_modified = 0;
  cancelled = false;
}

abbrev meeting : Event
meeting = record {
  uid = codes "2@site";
  summary = codes "Meeting; bring: rope, tent";
  description = 10 ∷ codes "see below";
  location = codes "Hall";
  url = codes "https://x.test/?a=1,2";
  start = day * 739100 + 68_400;
  start_zone = utc_zone;
  end = 0;
  end_zone = utc_zone;
  all_day = false;
  last_modified = day * 738000;
  cancelled = true;
}

no_return : (s : Bytes) → no_break s ≡ true → HasNoReturn s
no_return s h = returns s (no_break_sound s h)
  where
    returns : (s : Bytes) → HasNoBreak s → HasNoReturn s
    returns [] k = tt
    returns (c ∷ s) (_, (e, k)) = (e, returns s k)

camp-IsPublished : IsPublished camp
camp-IsPublished = record {
  uid_given = (_, _, refl);
  uid_text = no_return camp.uid refl;
  summary_text = no_return camp.summary refl;
  description_text = tt;
  location_text = tt;
  url_text = tt;
  start_utc = refl;
  end_utc = refl;
  start_in = omega arith;
  end_in = omega arith;
  modified_in = omega arith;
  start_date = λ dated. (739000, refl);
  end_date = λ dated. (739002, refl);
}

meeting-IsPublished : IsPublished meeting
meeting-IsPublished = record {
  uid_given = (_, _, refl);
  uid_text = no_return meeting.uid refl;
  summary_text = no_return meeting.summary refl;
  description_text = (refl, no_return (codes "see below") refl);
  location_text = no_return meeting.location refl;
  url_text = no_break_sound meeting.url refl;
  start_utc = refl;
  end_utc = refl;
  start_in = omega arith;
  end_in = omega arith;
  modified_in = omega arith;
  start_date = λ dated. cc;
  end_date = λ dated. cc;
}

abbrev calendar : List Event
calendar = camp ∷ meeting ∷ []

abbrev written : Bytes
written = render simple_clock (day * 738900) (codes "Troop 1, Yonkers") calendar

written_short : length written ≤ max_feed_bytes
unfolding simple_clock render render_event escape_text
written_short = omega arith

parse-render_example :
    parse simple_clock false written (day * 738990) (day * 739050)
    ≡ parsed (select (is_within (day * 738990) (day * 739050)) calendar)
parse-render_example =
    parse-render simple_clock (day * 738900) (day * 738990) (day * 739050)
      (codes "Troop 1, Yonkers") calendar simple_clock-IsClock
      (camp-IsPublished, (meeting-IsPublished, tt)) (omega arith) written_short

-- Only the camp is in the window.
camp_alone : select (is_within (day * 738990) (day * 739050)) calendar ≡ camp ∷ []
camp_alone = refl

-- A page that is no calendar.
not_a_calendar : parse simple_clock false (codes "<html></html>") 0 max_time ≡ not_calendar
unfolding parse
not_a_calendar = refl

-- The colon in quotes does not end the parameters.
quoted_colon : split_property (codes "DTSTART;TZID=\"A:B\":20260901T190000") ≡ record {
  name = codes "DTSTART";
  params = (codes "TZID", codes "A:B") ∷ [];
  value = codes "20260901T190000";
}
unfolding split_property
quoted_colon = refl

abbrev every_other_day : Rrule
every_other_day = parse_rrule simple_clock (codes "FREQ=DAILY;INTERVAL=2;COUNT=3")

rule_read :
    parse_rrule simple_clock (codes "freq=weekly;BYDAY=TU,+1TH")
    ≡ record { freq = some weekly; interval = 1; count = 0; until = 0; by_day = 2 ∷ 4 ∷ [] }
unfolding parse_rrule
rule_read = refl

abbrev thrice : Rrule
thrice = record { freq = some daily; interval = 2; count = 3; until = 0; by_day = [] }

simple_clock-AddsDays : AddsDays simple_clock
unfolding simple_clock
simple_clock-AddsDays = record { add_days-within = λ n u h. omega arith }

-- Two of the three lie in the window.
occurrences-Repeats_example :
    occurrences simple_clock thrice (day * 10) (day * 11) (day * 99)
    ≡ select
        (λ c. leb (day * 11) c)
        (by_count 3 0 (up_to (day * 99) (series (suc max_expansion) (day * 2) (day * 10))))
occurrences-Repeats_example =
    occurrences-Repeats simple_clock thrice (day * 2) (day * 10) (day * 11) (day * 99)
      (inl (refl, refl)) simple_clock-AddsDays (omega arith)

two_occurrences :
    occurrences simple_clock thrice (day * 10) (day * 11) (day * 99) ≡ day * 12 ∷ day * 14 ∷ []
unfolding occurrences simple_clock
two_occurrences = refl

occurrences-IsOccurrence_example :
    All
      (IsOccurrence thrice (day * 10) (day * 11) (day * 99))
      (occurrences simple_clock thrice (day * 10) (day * 11) (day * 99))
    × Allows thrice (length (occurrences simple_clock thrice (day * 10) (day * 11) (day * 99)))
occurrences-IsOccurrence_example =
    occurrences-IsOccurrence simple_clock thrice (day * 10) (day * 11) (day * 99)

-- Forever, but from two years before the window on: the steps are used up before it.
abbrev forever : Rrule
forever = record { freq = some daily; interval = 1; count = 0; until = 0; by_day = [] }

never_reached : occurrences simple_clock forever 0 (day * 730) (day * 800) ≡ []
unfolding occurrences simple_clock
never_reached = refl

-- A rule for Tuesdays and Thursdays that starts on a Thursday loses the last Tuesday when the window
-- ends on a Wednesday: day 15 is a Tuesday, and the window ends with day 16.
abbrev two_days : Rrule
two_days = record { freq = some weekly; interval = 1; count = 0; until = 0; by_day = 2 ∷ 4 ∷ [] }

last_week_lost : occurrences simple_clock two_days (day * 10) 0 (day * 16) ≡ day * 10 ∷ []
unfolding occurrences simple_clock mul64 ◌*ℤ◌
last_week_lost = refl
