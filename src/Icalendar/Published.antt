-- ===== src/Icalendar/Published.antt =====
-- The feed of published events consists of content lines: Render and renderEvent of
-- internal/icalendar/render.go.
use scout_site.Prelude.{
  ℕ, ◌+◌, ◌*◌, ◌<◌, Bool, true, false, ◌&&◌, not, List, [], ◌∷◌, ◌++◌, ◌≡◌, ◌==◌, inl, inr, refl,
  sym, arith, Bool-cases, &&-true, All,
}
use scout_site.Prelude.Text.{Bytes, codes}
use scout_site.Icalendar.{newline, return, escape_text}
use scout_site.Icalendar.Escape.{
  Without, HasNoReturn, escape_text-Without-newline, escape_text-HasNoReturn,
}
use scout_site.Icalendar.Fold.{is_blank}
use scout_site.Icalendar.RoundTrip.{HasNoBreak, HasNoBreak-append, IsContentLine}
use scout_site.Icalendar.Event.{Times, Event, utc_zone, day, is_zero_time}
use scout_site.Icalendar.Stamps.{max_time, IsClock, format_utc-IsPrinted, IsPrinted-HasNoBreak}
use scout_site.Icalendar.Render.{
  text_line, start_line, end_lines, url_lines, modified_lines, status_lines, render_event,
  render_events, feed_lines,
}
use mathlib.Core.Path.{subst}

-- An event that a feed can say: it has a UID, its texts have no carriage return, its address is on
-- one line, its times are in UTC and before the year 10000, and those of a date are whole days.
pub record IsPublished (e : Event) : Type 0 where
  pub uid_given : (c : ℕ) × (rest : Bytes) × (e.uid ≡ c ∷ rest)
  pub uid_text : HasNoReturn e.uid
  pub summary_text : HasNoReturn e.summary
  pub description_text : HasNoReturn e.description
  pub location_text : HasNoReturn e.location
  pub url_text : HasNoBreak e.url
  pub start_utc : e.start_zone ≡ utc_zone
  pub end_utc : e.end_zone ≡ utc_zone
  pub start_in : e.start < max_time
  pub end_in : e.end + day < max_time
  pub modified_in : e.last_modified < max_time
  pub start_date : e.all_day ≡ true → (n : ℕ) × (e.start ≡ day * n)
  pub end_date : e.all_day ≡ true → (n : ℕ) × (e.end ≡ day * n)

HasNoBreak-of : (s : Bytes) → Without newline s → HasNoReturn s → HasNoBreak s
HasNoBreak-of [] h k = tt
HasNoBreak-of (c ∷ s) (e, h) (r, k) = (e, (r, HasNoBreak-of s h k))

escape_text-HasNoBreak : (s : Bytes) → HasNoBreak (escape_text s)
escape_text-HasNoBreak s =
    HasNoBreak-of (escape_text s) (escape_text-Without-newline s) (escape_text-HasNoReturn s)

-- A test of constant lines.
abbrev pub no_break : Bytes → Bool
no_break [] = true
no_break (c ∷ s) = (not (c == newline) && not (c == return)) && no_break s

abbrev content_line : Bytes → Bool
content_line [] = false
content_line (c ∷ s) = not (is_blank c) && no_break (c ∷ s)

pub no_break_sound : (s : Bytes) → no_break s ≡ true → HasNoBreak s
no_break_sound [] h = tt
no_break_sound (c ∷ s) h =
    let (first, rest) = &&-true _ (no_break s) h in
    (ground (arith, first), (ground (arith, first), no_break_sound s rest))

constant : (s : Bytes) → content_line s ≡ true → IsContentLine s
constant [] h = cc
constant (c ∷ s) h =
    let (first, rest) = &&-true _ (no_break (c ∷ s)) h in
    (ground (arith, first), no_break_sound (c ∷ s) rest)

IsContentLine-append : (s t : Bytes) → IsContentLine s → HasNoBreak t → IsContentLine (s ++ t)
IsContentLine-append [] t h k = absurd h
IsContentLine-append (c ∷ s) t (e, h) k = (e, HasNoBreak-append (c ∷ s) t h k)

-- A constant before a value.
headed : (s t : Bytes) → content_line s ≡ true → HasNoBreak t → IsContentLine (s ++ t)
headed s t h k = IsContentLine-append s t (constant s h) k

All-append :
    (xs ys : List Bytes)
    → All IsContentLine xs
    → All IsContentLine ys
    → All IsContentLine (xs ++ ys)
All-append [] ys h k = k
All-append (x ∷ xs) ys (e, h) k = (e, All-append xs ys h k)

text_line-All :
    (name value : Bytes) → content_line name ≡ true → All IsContentLine (text_line name value)
text_line-All name [] h = tt
text_line-All name (c ∷ s) h = (headed name _ h (escape_text-HasNoBreak (c ∷ s)), tt)

url_lines-All : (url : Bytes) → HasNoBreak url → All IsContentLine (url_lines url)
url_lines-All [] h = tt
url_lines-All (c ∷ s) h = (headed (codes "URL:") (c ∷ s) refl h, tt)

status_lines-All : (cancelled : Bool) → All IsContentLine (status_lines cancelled)
status_lines-All true = (constant (codes "STATUS:CANCELLED") refl, tt)
status_lines-All false = tt

module _ (t : Times) (clock : IsClock t) where
  stamp-HasNoBreak : (u : ℕ) → u < max_time → HasNoBreak (t.format_utc u)
  stamp-HasNoBreak u h = IsPrinted-HasNoBreak _ (format_utc-IsPrinted t clock u h)

  date-HasNoBreak : (u n : ℕ) → u ≡ day * n → u < max_time → HasNoBreak (t.format_date utc_zone u)
  date-HasNoBreak u n e h =
      subst (λ x. HasNoBreak (t.format_date utc_zone x)) (sym e)
        (IsPrinted-HasNoBreak _ (clock.date_form n (omega arith)).1)

  start_line-IsContentLine : (e : Event) → IsPublished e → IsContentLine (start_line t e)
  start_line-IsContentLine e p = elim (Bool-cases e.all_day) [
    | inl dated ↦
        let (n, whole) = p.start_date dated in
        rw (dated, p.start_utc)
          (headed (codes "DTSTART;VALUE=DATE:") _ refl (date-HasNoBreak e.start n whole p.start_in))
    | inr timed ↦ rw timed (headed (codes "DTSTART:") _ refl (stamp-HasNoBreak e.start p.start_in))
  ]

  end_lines-All : (e : Event) → IsPublished e → All IsContentLine (end_lines t e)
  end_lines-All e p = elim (Bool-cases (is_zero_time e.end)) [
    | inl no_end ↦ rw no_end tt
    | inr given ↦ elim (Bool-cases e.all_day) [
      | inl dated ↦
          let (n, whole) = p.end_date dated in
          rw (given, dated, p.end_utc, clock.add_days-next e.end p.end_in)
            (
              headed (codes "DTEND;VALUE=DATE:") _ refl
                  (date-HasNoBreak (e.end + day) (n + 1) (omega (arith, whole)) p.end_in),
              tt,
            )
      | inr timed ↦
          rw (given, timed)
            (headed (codes "DTEND:") _ refl (stamp-HasNoBreak e.end (omega (arith, p.end_in))), tt)
    ]
  ]

  modified_lines-All : (e : Event) → IsPublished e → All IsContentLine (modified_lines t e)
  modified_lines-All e p = elim (Bool-cases (is_zero_time e.last_modified)) [
    | inl no_time ↦ rw no_time tt
    | inr given ↦ rw given (
      headed (codes "LAST-MODIFIED:") _ refl (stamp-HasNoBreak e.last_modified p.modified_in),
      tt,
    )
  ]

  render_event-All :
      (stamp : ℕ)
      → stamp < max_time
      → (e : Event) → IsPublished e
      → All IsContentLine (render_event t stamp e)
  unfolding render_event
  render_event-All stamp h e p = (
    constant (codes "BEGIN:VEVENT") refl,
    (
      headed (codes "UID:") _ refl (escape_text-HasNoBreak e.uid),
      (
        headed (codes "DTSTAMP:") _ refl (stamp-HasNoBreak stamp h),
        (
          start_line-IsContentLine e p,
          All-append (end_lines t e) _ (end_lines-All e p) (
              All-append (text_line (codes "SUMMARY:") e.summary) _
                (text_line-All (codes "SUMMARY:") e.summary refl)
                (All-append (text_line (codes "DESCRIPTION:") e.description) _
                  (text_line-All (codes "DESCRIPTION:") e.description refl)
                  (All-append (text_line (codes "LOCATION:") e.location) _
                    (text_line-All (codes "LOCATION:") e.location refl)
                    (All-append (url_lines e.url) _ (url_lines-All e.url p.url_text) (
                      All-append (modified_lines t e) _ (modified_lines-All e p) (
                        All-append (status_lines e.cancelled) _ (status_lines-All e.cancelled)
                          (constant (codes "END:VEVENT") refl, tt))))))),
        ),
      ),
    ),
  )

  render_events-All :
      (stamp : ℕ)
      → stamp < max_time
      → (es : List Event) → All IsPublished es
      → All IsContentLine (render_events t stamp es)
  unfolding render_events
  render_events-All stamp h [] ps = (constant (codes "END:VCALENDAR") refl, tt)
  render_events-All stamp h (e ∷ es) (p, ps) =
      All-append (render_event t stamp e) _ (render_event-All stamp h e p)
        (render_events-All stamp h es ps)

  pub feed_lines-All :
      (stamp : ℕ) (name : Bytes)
      → stamp < max_time
      → (es : List Event) → All IsPublished es
      → All IsContentLine (feed_lines t stamp name es)
  unfolding feed_lines
  feed_lines-All stamp name h es ps = (
    constant (codes "BEGIN:VCALENDAR") refl,
    (
      constant (codes "VERSION:2.0") refl,
      (
        constant (codes "PRODID:-//47 Yonkers Scouting//Scout Site//EN") refl,
        (
          constant (codes "CALSCALE:GREGORIAN") refl,
          (
            constant (codes "METHOD:PUBLISH") refl,
            All-append (text_line (codes "X-WR-CALNAME:") name) _
                (text_line-All (codes "X-WR-CALNAME:") name refl)
                (
                  constant (codes "REFRESH-INTERVAL;VALUE=DURATION:PT4H") refl,
                  (constant (codes "X-PUBLISHED-TTL:PT4H") refl, render_events-All stamp h es ps),
                ),
          ),
        ),
      ),
    ),
  )
