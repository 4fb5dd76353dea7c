-- ===== src/Icalendar/Parse.antt =====
-- The events of a feed: Parse, parsedEvent, set and expand of internal/icalendar/parse.go.
use scout_site.Prelude.{
  ℕ, suc, ◌+◌, ◌-◌, Bool, true, false, not, ◌||◌, List, [], ◌∷◌, ◌++◌, Option, none, some, ◌==◌,
  ltb, leb, if◌then◌else◌, any, take,
}
use scout_site.Prelude.Text.{Bytes, codes, same_bytes, trim_space, to_upper, to_lower}
use scout_site.Icalendar.{comma, unescape_text}
use scout_site.Icalendar.Fold.{unfold_lines}
use scout_site.Icalendar.Property.{Property, Params, split, split_property}
use scout_site.Icalendar.Event.{Times, Event, utc_zone, day, is_zero_time, parse_time}
use scout_site.Icalendar.Recurrence.{max_expansion, Frequency, parse_rrule, occurrences}

abbrev pub max_feed_bytes : ℕ
max_feed_bytes = 5_242_880

-- strings.EqualFold with a text of ASCII letters other than K and S, which have no other folds.
unfoldable pub equal_fold : Bytes → Bytes → Bool
unfolding to_lower
equal_fold a b = same_bytes (to_lower a) (to_lower b)

-- The dates of exdates are the keys of a map.
pub record ParsedEvent : Type 0 where
  pub ev : Event
  pub rrule : Bytes
  pub exdates : List ℕ
  pub has_start : Bool

abbrev pub no_event : ParsedEvent
no_event = record {
  ev = record {
    uid = [];
    summary = [];
    description = [];
    location = [];
    url = [];
    start = 0;
    start_zone = utc_zone;
    end = 0;
    end_zone = utc_zone;
    all_day = false;
    last_modified = 0;
    cancelled = false;
  };
  rrule = [];
  exdates = [];
  has_start = false;
}

abbrev pub set_start : Option (ℕ × Bool) → ParsedEvent → ParsedEvent
set_start none p = p
set_start (some (u, dated)) p = record p {
  ev = record p.ev { start = u; start_zone = utc_zone; all_day = dated };
  has_start = true;
}

-- The end of a date is exclusive.
abbrev pub set_end : Option (ℕ × Bool) → ParsedEvent → ParsedEvent
set_end none p = p
set_end (some (u, dated)) p = record p {
  ev = record p.ev { end = if dated then u - day else u; end_zone = utc_zone };
}

abbrev pub set_modified : Option (ℕ × Bool) → ParsedEvent → ParsedEvent
set_modified none p = p
set_modified (some (u, dated)) p = record p { ev = record p.ev { last_modified = u } }

abbrev add_date : Option (ℕ × Bool) → List ℕ → List ℕ
add_date none dates = dates
add_date (some (u, dated)) dates = u ∷ dates

-- Neither before `from` nor after `until`.
abbrev pub is_within : ℕ → ℕ → Event → Bool
is_within from until e = not (ltb e.start from || ltb until e.start)

module _ (t : Times) where
  unfoldable pub read_exdates : Params → List Bytes → List ℕ → List ℕ
  unfolding parse_time trim_space
  read_exdates params [] dates = dates
  read_exdates params (one ∷ rest) dates =
      read_exdates params rest (add_date (parse_time t params (trim_space one)) dates)

  unfoldable pub set : ParsedEvent → Bytes → Params → Bytes → ParsedEvent
  unfolding unescape_text parse_time equal_fold read_exdates split
  set p name params value =
      if same_bytes name (codes "UID")
      then record p { ev = record p.ev { uid = unescape_text value } }
      else if same_bytes name (codes "SUMMARY")
      then record p { ev = record p.ev { summary = unescape_text value } }
      else if same_bytes name (codes "DESCRIPTION")
      then record p { ev = record p.ev { description = unescape_text value } }
      else if same_bytes name (codes "LOCATION")
      then record p { ev = record p.ev { location = unescape_text value } }
      else if same_bytes name (codes "URL")
      then record p { ev = record p.ev { url = value } }
      else if same_bytes name (codes "STATUS")
      then record p { ev = record p.ev { cancelled = equal_fold value (codes "CANCELLED") } }
      else if same_bytes name (codes "RRULE")
      then record p { rrule = value }
      else if same_bytes name (codes "DTSTART")
      then set_start (parse_time t params value) p
      else if same_bytes name (codes "DTEND")
      then set_end (parse_time t params value) p
      else if same_bytes name (codes "LAST-MODIFIED")
      then set_modified (parse_time t params value) p
      else if same_bytes name (codes "EXDATE")
      then record p { exdates = read_exdates params (split comma value) p.exdates }
      else p

  -- The event at one of its occurrences.
  abbrev at_occurrence : Event → ℕ → Event
  at_occurrence e occ = record e {
    start = occ;
    end = if is_zero_time e.end then 0 else occ + e.end - e.start;
    end_zone = if is_zero_time e.end then e.end_zone else e.start_zone;
    uid = e.uid ++ (45 ∷ t.format_utc occ);
  }

  -- The loop over the occurrences, from the index `i`.
  unfoldable pub expand_each : ParsedEvent → ℕ → List ℕ → List Event
  expand_each p i [] = []
  expand_each p i (occ ∷ occs) =
      let rest = expand_each p (suc i) occs in
      if any (λ u. u == occ) p.exdates
      then rest
      else at_occurrence p.ev occ ∷ (if leb max_expansion i then [] else rest)

  abbrev expand_by : Option Frequency → ParsedEvent → List ℕ → List Event
  unfolding expand_each
  expand_by none p occs = p.ev ∷ []
  expand_by (some f) p occs = expand_each p 0 occs

  abbrev expand_rule : Bytes → ParsedEvent → ℕ → ℕ → List Event
  unfolding parse_rrule occurrences expand_each
  expand_rule [] p from until = if is_within from until p.ev then p.ev ∷ [] else []
  expand_rule (c ∷ s) p from until =
      let rule = parse_rrule t (c ∷ s) in
      expand_by rule.freq p (occurrences t rule p.ev.start from until)

  unfoldable pub expand : ParsedEvent → ℕ → ℕ → List Event
  unfolding parse_rrule occurrences expand_each
  expand p from until =
      if not p.has_start || same_bytes p.ev.uid [] then [] else expand_rule p.rrule p from until

-- The variables of Parse.
pub record Reading : Type 0 where
  pub events : List Event
  pub current : Option ParsedEvent

pub data Parsed : Type 0 where
  read_failed : Parsed
  not_calendar : Parsed
  parsed : List Event → Parsed

module _ (t : Times) (from until : ℕ) where
  abbrev end_event : List Event → Option ParsedEvent → Reading
  unfolding expand
  end_event events none = record { events = events; current = none }
  end_event events (some p) = record { events = events ++ expand t p from until; current = none }

  abbrev set_current : Option ParsedEvent → Bytes → Property → Option ParsedEvent
  unfolding set
  set_current none name p = none
  set_current (some e) name p = some (set t e name p.params p.value)

  abbrev read_property : Reading → Property → Reading
  unfolding set expand to_upper equal_fold
  read_property s p =
      let name = to_upper p.name in
      if same_bytes name (codes "BEGIN")
      then (if equal_fold p.value (codes "VEVENT") then record s { current = some no_event } else s)
      else if same_bytes name (codes "END")
      then (if equal_fold p.value (codes "VEVENT") then end_event s.events s.current else s)
      else record s { current = set_current s.current name p }

  unfoldable pub read_line : Reading → Bytes → Reading
  unfolding split_property set expand to_upper equal_fold
  read_line s raw = read_property s (split_property raw)

  -- The loop over the lines.
  unfoldable pub read_lines : Reading → List Bytes → Reading
  read_lines s [] = s
  read_lines s (raw ∷ lines) = read_lines (read_line s raw) lines

unfoldable pub contains_calendar_start : List Bytes → Bool
unfolding equal_fold trim_space
contains_calendar_start lines = any (λ l. equal_fold (trim_space l) (codes "BEGIN:VCALENDAR")) lines

unfoldable pub parse_lines : Times → ℕ → ℕ → Option (List Bytes) → Parsed
unfolding read_lines contains_calendar_start
parse_lines t from until none = read_failed
parse_lines t from until (some lines) =
    if contains_calendar_start lines
    then parsed
        (Reading.events (read_lines t from until (record { events = []; current = none }) lines))
    else not_calendar

-- `fails` says whether the Scanner ends with an error.
unfoldable pub parse : Times → Bool → Bytes → ℕ → ℕ → Parsed
unfolding unfold_lines parse_lines
parse t fails content from until =
    parse_lines t from until (unfold_lines fails (take max_feed_bytes content))
