-- ===== src/Icalendar/Recurrence.antt =====
-- Repeating events: rrule, parseRRule, occurrences and step of internal/icalendar/parse.go.
use scout_site.Prelude.{
  ℕ, zero, suc, ◌+◌, ◌-◌, ◌*◌, ◌/◌, ◌%◌, Bool, true, false, ◌&&◌, ◌||◌, List, [], ◌∷◌, ◌++◌, Option,
  none, some, ◌==◌, ltb, leb, if◌then◌else◌,
}
use scout_site.Prelude.Text.{Bytes, codes, same_bytes, trim_space, to_upper}
use scout_site.Prelude.Int.{ℤ, pos, negsuc, mul64}
use scout_site.Icalendar.{comma, semicolon}
use scout_site.Icalendar.Property.{equals, cut, split, trim_left_where}
use scout_site.Icalendar.Event.{Times, utc_zone, day, weekday, is_zero_time, parse_time}

abbrev pub max_expansion : ℕ
max_expansion = 500

pub data Frequency : Type 0 where
  daily weekly monthly yearly : Frequency

-- A frequency that is missing is the empty text of the code; a count of zero is none given, and
-- the zero time no end.
pub record Rrule : Type 0 where
  pub freq : Option Frequency
  pub interval : ℕ
  pub count : ℕ
  pub until : ℕ
  pub by_day : List ℕ

abbrev read_frequency : Bytes → Option Frequency → Option Frequency
read_frequency v other =
    if same_bytes v (codes "DAILY")
    then some daily
    else if same_bytes v (codes "WEEKLY")
    then some weekly
    else if same_bytes v (codes "MONTHLY")
    then some monthly
    else if same_bytes v (codes "YEARLY")
    then some yearly
    else other

-- strconv.Atoi, and the test that the number is positive.
abbrev positive_or : Option ℤ → ℕ → ℕ
positive_or none other = other
positive_or (some (negsuc n)) other = other
positive_or (some (pos zero)) other = other
positive_or (some (pos (suc n))) other = suc n

-- weekdays[d]
abbrev weekday_named : Bytes → Option ℕ
weekday_named d =
    if same_bytes d (codes "SU")
    then some 0
    else if same_bytes d (codes "MO")
    then some 1
    else if same_bytes d (codes "TU")
    then some 2
    else if same_bytes d (codes "WE")
    then some 3
    else if same_bytes d (codes "TH")
    then some 4
    else if same_bytes d (codes "FR")
    then some 5
    else if same_bytes d (codes "SA")
    then some 6
    else none

-- A byte of "+-0123456789".
abbrev is_ordinal : ℕ → Bool
is_ordinal c = c == 43 || (c == 45 || (leb 48 c && leb c 57))

unfoldable pub read_days : List ℕ → List Bytes → List ℕ
unfolding to_upper trim_space trim_left_where
read_days days [] = days
read_days days (d ∷ ds) =
    elim (weekday_named (trim_left_where is_ordinal (to_upper (trim_space d)))) [
      | none ↦ read_days days ds
      | some w ↦ read_days (days ++ (w ∷ [])) ds
    ]

module _ (t : Times) where
  abbrev until_or : Option (ℕ × Bool) → ℕ → ℕ
  until_or none other = other
  until_or (some (u, dated)) other = u

  -- One part of the rule.
  unfoldable pub set_part : Rrule → Bytes → Bytes → Rrule
  unfolding to_upper parse_time split read_days
  set_part r k v =
      let key = to_upper k in
      if same_bytes key (codes "FREQ")
      then record r { freq = read_frequency (to_upper v) r.freq }
      else if same_bytes key (codes "INTERVAL")
      then record r { interval = positive_or (t.atoi v) r.interval }
      else if same_bytes key (codes "COUNT")
      then record r { count = positive_or (t.atoi v) r.count }
      else if same_bytes key (codes "UNTIL")
      then record r { until = until_or (parse_time t [] v) r.until }
      else if same_bytes key (codes "BYDAY")
      then record r { by_day = read_days r.by_day (split comma v) }
      else r

  unfoldable pub set_parts : Rrule → List Bytes → Rrule
  unfolding cut set_part
  set_parts r [] = r
  set_parts r (part ∷ parts) = elim (cut equals part) [
    | none ↦ set_parts r parts
    | some (k, v) ↦ set_parts (set_part r k v) parts
  ]

  unfoldable pub parse_rrule : Bytes → Rrule
  unfolding set_parts split
  parse_rrule s =
      set_parts (record { freq = none; interval = 1; count = 0; until = 0; by_day = [] })
        (split semicolon s)

  -- 7*r.interval is a product of Go's int.
  abbrev step_by : Option Frequency → ℕ → ℕ → ℕ
  step_by (some daily) n u = t.add_days utc_zone (pos n) u
  step_by (some weekly) n u = t.add_days utc_zone (mul64 (pos 7) (pos n)) u
  step_by (some monthly) n u = t.add_months n u
  step_by (some yearly) n u = t.add_years n u
  step_by none n u = t.add_days utc_zone (pos 1) u

  abbrev pub step : Rrule → ℕ → ℕ
  step r u = step_by r.freq r.interval u

-- The earlier of the window's end and the rule's.
abbrev pub stop_of : Rrule → ℕ → ℕ
stop_of r until =
    if is_zero_time r.until then until else if ltb r.until until then r.until else until

-- The days named, in the week of `cur` and at its time of day.
abbrev week_start : ℕ → ℕ
week_start cur = cur - day * weekday cur

unfoldable pub days_of_week : ℕ → List ℕ → List ℕ
days_of_week cur [] = []
days_of_week cur (w ∷ ws) =
    (day * ((week_start cur + day * w) / day) + cur % day) ∷ days_of_week cur ws

abbrev candidates_by : Option Frequency → List ℕ → ℕ → List ℕ
candidates_by (some weekly) (w ∷ ws) cur = days_of_week cur (w ∷ ws)
candidates_by _ _ cur = cur ∷ []

abbrev pub candidates : Rrule → ℕ → List ℕ
candidates r cur = candidates_by r.freq r.by_day cur

-- The variables of the loop, and whether it has returned.
pub record Walk : Type 0 where
  pub out : List ℕ
  pub emitted : ℕ
  pub done : Bool

abbrev pub emitting : ℕ → ℕ → Walk → Walk
emitting from c w = record w {
  out = if ltb c from then w.out else w.out ++ (c ∷ []);
  emitted = suc w.emitted;
}

-- As many as the rule counts.
abbrev pub full : Rrule → Walk → Bool
full r w = ltb 0 r.count && leb r.count w.emitted

module _ (r : Rrule) (start from stop : ℕ) where
  -- The inner loop.
  unfoldable pub emit : List ℕ → Walk → Walk
  emit [] w = w
  emit (c ∷ cs) w =
      let skipped = emit cs w in
      let next = emit cs (emitting from c w) in
      if ltb c start || ltb stop c
      then skipped
      else if full r w
      then record w { done = true }
      else next

  -- The outer loop, of `steps` rounds at most.
  unfoldable pub walk : Times → ℕ → ℕ → Walk → List ℕ
  unfolding emit days_of_week
  walk t zero cur w = w.out
  walk t (suc steps) cur w =
      let w' = emit (candidates r cur) w in
      let rest = walk t steps (step t r cur) w' in
      if ltb stop cur then w.out else if w'.done then w'.out else rest

-- steps runs from 0 to maxExpansion.
unfoldable pub occurrences : Times → Rrule → ℕ → ℕ → ℕ → List ℕ
unfolding walk
occurrences t r start from until =
    walk r start from (stop_of r until) t (suc max_expansion) start
      (record { out = []; emitted = 0; done = false })
