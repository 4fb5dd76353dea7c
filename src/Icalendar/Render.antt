-- ===== src/Icalendar/Render.antt =====
-- A feed of events: Render and renderEvent of internal/icalendar/render.go.
use scout_site.Prelude.{ℕ, Bool, List, [], ◌∷◌, ◌++◌, if◌then◌else◌}
use scout_site.Prelude.Text.{Bytes, codes}
use scout_site.Prelude.Int.{pos}
use scout_site.Icalendar.{escape_text}
use scout_site.Icalendar.Fold.{line, is_empty}
use scout_site.Icalendar.Event.{Times, Event, is_zero_time}

-- The calls of line, one for each text.
unfoldable pub write_lines : List Bytes → Bytes
unfolding line
write_lines [] = []
write_lines (s ∷ ls) = line s ++ write_lines ls

abbrev pub text_line : Bytes → Bytes → List Bytes
text_line name value = if is_empty value then [] else (name ++ escape_text value) ∷ []

abbrev pub url_lines : Bytes → List Bytes
url_lines url = if is_empty url then [] else (codes "URL:" ++ url) ∷ []

abbrev pub status_lines : Bool → List Bytes
status_lines cancelled = if cancelled then codes "STATUS:CANCELLED" ∷ [] else []

module _ (t : Times) where
  abbrev pub start_line : Event → Bytes
  start_line e =
      if e.all_day
      then codes "DTSTART;VALUE=DATE:" ++ t.format_date e.start_zone e.start
      else codes "DTSTART:" ++ t.format_utc e.start

  -- The last day is inclusive in an event and exclusive in a feed.
  abbrev pub end_lines : Event → List Bytes
  end_lines e =
      if is_zero_time e.end
      then []
      else (if e.all_day
          then codes "DTEND;VALUE=DATE:"
            ++ t.format_date e.end_zone (t.add_days e.end_zone (pos 1) e.end)
          else codes "DTEND:" ++ t.format_utc e.end)
        ∷ []

  abbrev pub modified_lines : Event → List Bytes
  modified_lines e =
      if is_zero_time e.last_modified
      then []
      else (codes "LAST-MODIFIED:" ++ t.format_utc e.last_modified) ∷ []

  unfoldable pub render_event : ℕ → Event → List Bytes
  render_event stamp e =
      codes "BEGIN:VEVENT"
      ∷ (codes "UID:" ++ escape_text e.uid)
      ∷ (codes "DTSTAMP:" ++ t.format_utc stamp)
      ∷ start_line e
      ∷ (end_lines e
          ++ (text_line (codes "SUMMARY:") e.summary
              ++ (text_line (codes "DESCRIPTION:") e.description
                  ++ (text_line (codes "LOCATION:") e.location
                      ++ (url_lines e.url
                          ++ (modified_lines e
                              ++ (status_lines e.cancelled ++ (codes "END:VEVENT" ∷ []))))))))

  -- The loop over the events, and the last line.
  unfoldable pub render_events : ℕ → List Event → List Bytes
  unfolding render_event
  render_events stamp [] = codes "END:VCALENDAR" ∷ []
  render_events stamp (e ∷ es) = render_event stamp e ++ render_events stamp es

  unfoldable pub feed_lines : ℕ → Bytes → List Event → List Bytes
  unfolding render_events
  feed_lines stamp name events =
      codes "BEGIN:VCALENDAR"
      ∷ codes "VERSION:2.0"
      ∷ codes "PRODID:-//47 Yonkers Scouting//Scout Site//EN"
      ∷ codes "CALSCALE:GREGORIAN"
      ∷ codes "METHOD:PUBLISH"
      ∷ (text_line (codes "X-WR-CALNAME:") name
          ++ (codes "REFRESH-INTERVAL;VALUE=DURATION:PT4H"
              ∷ codes "X-PUBLISHED-TTL:PT4H"
              ∷ render_events stamp events))

  -- `stamp` is the time at which the feed is written.
  unfoldable pub render : ℕ → Bytes → List Event → Bytes
  unfolding write_lines feed_lines
  render stamp name events = write_lines (feed_lines stamp name events)
