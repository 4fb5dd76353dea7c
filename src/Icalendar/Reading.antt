-- ===== src/Icalendar/Reading.antt =====
-- The lines of one event are read back: renderEvent of internal/icalendar/render.go, and set and
-- the loop of Parse of internal/icalendar/parse.go.
use scout_site.Prelude.{
  ℕ, ◌+◌, ◌*◌, ◌<◌, Bool, true, false, List, [], ◌∷◌, ◌++◌, none, some, ◌≡◌, inl, inr, refl, sym,
  ap, ◌∙◌, arith, Bool-cases, ==_iff,
}
use scout_site.Prelude.Text.{Bytes, codes}
use scout_site.Icalendar.{escape_text}
use scout_site.Icalendar.Escape.{HasNoReturn, unescape_text-escape_text}
use scout_site.Icalendar.Property.{Params}
use scout_site.Icalendar.Event.{Times, Event, utc_zone, day, is_zero_time, parse_time}
use scout_site.Icalendar.Stamps.{max_time, IsClock, parse_time-format_utc, parse_time-format_date}
use scout_site.Icalendar.Published.{IsPublished}
use scout_site.Icalendar.Parse.{
  ParsedEvent, Reading, no_event, expand, set_start, set_end, set_modified, read_line, read_lines,
}
use scout_site.Icalendar.Render.{
  text_line, start_line, end_lines, url_lines, modified_lines, status_lines, render_event,
}
use mathlib.Core.Path.{subst}

-- The parameters of a line "DTSTART;VALUE=DATE:".
abbrev value_date : Params
value_date = (codes "VALUE", codes "DATE") ∷ []

-- What has been read of an event at its end.
abbrev pub read_event : Event → ParsedEvent
read_event e = record { ev = e; rrule = []; exdates = []; has_start = true }

module _ (t : Times) (from until : ℕ) where
  abbrev reads : Reading → List Bytes → Reading
  reads = read_lines t from until

  read_lines-append :
      (s : Reading) (xs ys : List Bytes) → reads s (xs ++ ys) ≡ reads (reads s xs) ys
  unfolding read_lines
  read_lines-append s [] ys = refl
  read_lines-append s (x ∷ xs) ys = read_lines-append (read_line t from until s x) xs ys

  -- The lines of a part, and then the rest.
  pub then_lines :
      (s s' : Reading) (xs ys : List Bytes) → reads s xs ≡ s' → reads s (xs ++ ys) ≡ reads s' ys
  then_lines s s' xs ys h = read_lines-append s xs ys ∙ ap (λ r. reads r ys) h

  read_date :
      IsClock t
      → (u n : ℕ) (params : Params) → u ≡ day * n
      → u < max_time
      → parse_time t params (t.format_date utc_zone u) ≡ some (u, true)
  read_date clock u n params whole h =
      subst (λ x. parse_time t params (t.format_date utc_zone x) ≡ some (x, true)) (sym whole)
        (parse_time-format_date t clock params n (omega (arith, whole)))

  module _ (events : List Event) where
    -- Within an event.
    abbrev at : ParsedEvent → Reading
    at p = record { events = events; current = some p }

    read-summary :
        (p : ParsedEvent) (s : Bytes)
        → HasNoReturn s
        → p.ev.summary ≡ []
        → reads (at p) (text_line (codes "SUMMARY:") s)
          ≡ at (record p { ev = record p.ev { summary = s } })
    unfolding read_lines read_line
    read-summary p [] h e = ap (λ x. at (record p { ev = record p.ev { summary = x } })) e
    read-summary p (c ∷ s) h e =
        ap (λ x. at (record p { ev = record p.ev { summary = x } }))
          (unescape_text-escape_text (c ∷ s) h)

    read-description :
        (p : ParsedEvent) (s : Bytes)
        → HasNoReturn s
        → p.ev.description ≡ []
        → reads (at p) (text_line (codes "DESCRIPTION:") s)
          ≡ at (record p { ev = record p.ev { description = s } })
    unfolding read_lines read_line
    read-description p [] h e = ap (λ x. at (record p { ev = record p.ev { description = x } })) e
    read-description p (c ∷ s) h e =
        ap (λ x. at (record p { ev = record p.ev { description = x } }))
          (unescape_text-escape_text (c ∷ s) h)

    read-location :
        (p : ParsedEvent) (s : Bytes)
        → HasNoReturn s
        → p.ev.location ≡ []
        → reads (at p) (text_line (codes "LOCATION:") s)
          ≡ at (record p { ev = record p.ev { location = s } })
    unfolding read_lines read_line
    read-location p [] h e = ap (λ x. at (record p { ev = record p.ev { location = x } })) e
    read-location p (c ∷ s) h e =
        ap (λ x. at (record p { ev = record p.ev { location = x } }))
          (unescape_text-escape_text (c ∷ s) h)

    read-url :
        (p : ParsedEvent) (s : Bytes)
        → p.ev.url ≡ []
        → reads (at p) (url_lines s) ≡ at (record p { ev = record p.ev { url = s } })
    unfolding read_lines read_line
    read-url p [] e = ap (λ x. at (record p { ev = record p.ev { url = x } })) e
    read-url p (c ∷ s) e = refl

    read-status :
        (p : ParsedEvent) (b : Bool)
        → p.ev.cancelled ≡ false
        → reads (at p) (status_lines b) ≡ at (record p { ev = record p.ev { cancelled = b } })
    unfolding read_lines read_line
    read-status p false e = ap (λ x. at (record p { ev = record p.ev { cancelled = x } })) e
    read-status p true e = refl

    read-start :
        (p : ParsedEvent) (e : Event)
        → IsClock t
        → IsPublished e
        → reads (at p) (start_line t e ∷ [])
          ≡ at (record p {
            ev = record p.ev { start = e.start; start_zone = e.start_zone; all_day = e.all_day };
            has_start = true;
          })
    unfolding read_lines read_line
    read-start p e clock h = elim (Bool-cases e.all_day) [
      | inl dated ↦
          let (n, whole) = h.start_date dated in
          rw (dated, h.start_utc)
            (ap (λ r. at (set_start r p)) (read_date clock e.start n value_date whole h.start_in))
      | inr timed ↦
          rw (timed, h.start_utc)
            (ap (λ r. at (set_start r p)) (parse_time-format_utc t clock [] e.start h.start_in))
    ]

    read-end :
        (p : ParsedEvent) (e : Event)
        → IsClock t
        → IsPublished e
        → p.ev.end ≡ 0
        → p.ev.end_zone ≡ utc_zone
        → reads (at p) (end_lines t e)
          ≡ at (record p { ev = record p.ev { end = e.end; end_zone = e.end_zone } })
    unfolding read_lines read_line
    read-end p e clock h none_yet zone_yet = elim (Bool-cases (is_zero_time e.end)) [
      | inl no_end ↦
          rw (no_end, h.end_utc)
            (ap (λ z. at (record p { ev = record p.ev { end_zone = z } })) zone_yet
              ∙ ap (λ x. at (record p { ev = record p.ev { end = x; end_zone = utc_zone } }))
                  (none_yet ∙ sym ((==_iff e.end 0).0 no_end)))
      | inr given ↦ elim (Bool-cases e.all_day) [
        | inl dated ↦
            let (n, whole) = h.end_date dated in
            rw (given, dated, h.end_utc, clock.add_days-next e.end h.end_in)
              (ap (λ r. at (set_end r p))
                  (read_date clock (e.end + day) (n + 1) value_date (omega (arith, whole)) h.end_in)
                ∙ ap (λ x. at (record p { ev = record p.ev { end = x; end_zone = utc_zone } }))
                    (omega arith))
        | inr timed ↦
            rw (given, timed, h.end_utc)
              (ap (λ r. at (set_end r p))
                (parse_time-format_utc t clock [] e.end (omega (arith, h.end_in))))
      ]
    ]

    read-modified :
        (p : ParsedEvent) (e : Event)
        → IsClock t
        → IsPublished e
        → p.ev.last_modified ≡ 0
        → reads (at p) (modified_lines t e)
          ≡ at (record p { ev = record p.ev { last_modified = e.last_modified } })
    unfolding read_lines read_line
    read-modified p e clock h none_yet = elim (Bool-cases (is_zero_time e.last_modified)) [
      | inl no_time ↦ rw no_time (
          ap (λ x. at (record p { ev = record p.ev { last_modified = x } }))
            (none_yet ∙ sym ((==_iff e.last_modified 0).0 no_time)))
      | inr given ↦ rw given (
          ap (λ r. at (set_modified r p))
            (parse_time-format_utc t clock [] e.last_modified h.modified_in))
    ]

    -- The first lines, up to the start.
    read-head :
        (stamp : ℕ) (e : Event) (rest : List Bytes)
        → IsPublished e
        → reads
            (record { events = events; current = none })
            (codes "BEGIN:VEVENT"
              ∷ (codes "UID:" ++ escape_text e.uid)
              ∷ (codes "DTSTAMP:" ++ t.format_utc stamp)
              ∷ rest)
          ≡ reads (at (record no_event { ev = record no_event.ev { uid = e.uid } })) rest
    unfolding read_lines read_line
    read-head stamp e rest h =
        ap (λ x. reads (at (record no_event { ev = record no_event.ev { uid = x } })) rest)
          (unescape_text-escape_text e.uid h.uid_text)

    read-tail :
        (p : ParsedEvent)
        → reads (at p) (codes "END:VEVENT" ∷ [])
          ≡ record { events = events ++ expand t p from until; current = none }
    unfolding read_lines read_line
    read-tail p = refl

    -- A published event is one round of its lines.
    pub read-render_event :
        (stamp : ℕ) (e : Event)
        → IsClock t
        → IsPublished e
        → reads (record { events = events; current = none }) (render_event t stamp e)
          ≡ record { events = events ++ expand t (read_event e) from until; current = none }
    unfolding render_event
    read-render_event stamp e clock h =
        read-head stamp e _ h
        ∙ then_lines _ _ (start_line t e ∷ []) _ (read-start _ e clock h)
        ∙ then_lines _ _ (end_lines t e) _ (read-end _ e clock h refl refl)
        ∙ then_lines _ _ (text_line (codes "SUMMARY:") e.summary) _
            (read-summary _ e.summary h.summary_text refl)
        ∙ then_lines _ _ (text_line (codes "DESCRIPTION:") e.description) _
            (read-description _ e.description h.description_text refl)
        ∙ then_lines _ _ (text_line (codes "LOCATION:") e.location) _
            (read-location _ e.location h.location_text refl)
        ∙ then_lines _ _ (url_lines e.url) _ (read-url _ e.url refl)
        ∙ then_lines _ _ (modified_lines t e) _ (read-modified _ e clock h refl)
        ∙ then_lines _ _ (status_lines e.cancelled) _ (read-status _ e.cancelled refl)
        ∙ read-tail (read_event e)
