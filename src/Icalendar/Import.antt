-- ===== src/Icalendar/Import.antt =====
-- A published feed is read back: Render of internal/icalendar/render.go and Parse of
-- internal/icalendar/parse.go.
use scout_site.Prelude.{
  ℕ, zero, suc, ◌<◌, ◌≤◌, true, false, not, ◌||◌, List, [], ◌∷◌, ◌++◌, none, if◌then◌else◌, ◌≡◌,
  refl, sym, ap, ◌∙◌, arith, All, length, take, select,
}
use scout_site.Prelude.Text.{Bytes, same_bytes}
use scout_site.Icalendar.Fold.{unfold_lines}
use scout_site.Icalendar.RoundTrip.{unfold_lines-write_lines}
use scout_site.Icalendar.Event.{Times, Event}
use scout_site.Icalendar.Stamps.{max_time, IsClock}
use scout_site.Icalendar.Published.{IsPublished, feed_lines-All}
use scout_site.Icalendar.Parse.{
  Reading, parsed, is_within, expand, read_line, read_lines, contains_calendar_start,
  max_feed_bytes, parse_lines, parse,
}
use scout_site.Icalendar.Render.{render_event, render_events, feed_lines, render}
use mathlib.Core.List.{append_assoc, append-nil}
use scout_site.Icalendar.Reading.{read_event, then_lines, read-render_event}

module _ (t : Times) (from until : ℕ) where
  abbrev reads : Reading → List Bytes → Reading
  reads = read_lines t from until

  abbrev within : List Event → List Event
  within = select (is_within from until)

  expand-read_event :
      (e : Event)
      → IsPublished e
      → expand t (read_event e) from until ≡ (if is_within from until e then e ∷ [] else [])
  unfolding expand
  expand-read_event e h =
      let (c, rest, given) = h.uid_given in
      ap
        (λ x.
          if not true || same_bytes x []
          then []
          else (if is_within from until e then e ∷ [] else []))
        given

  select-step :
      (e : Event) (es : List Event)
      → (if is_within from until e then e ∷ [] else []) ++ within es ≡ within (e ∷ es)
  select-step e es = ground arith

  read-render_events :
      (stamp : ℕ) (events es : List Event)
      → IsClock t
      → All IsPublished es
      → reads (record { events = events; current = none }) (render_events t stamp es)
        ≡ record { events = events ++ within es; current = none }
  unfolding render_events read_lines read_line
  read-render_events stamp events [] clock hs =
      ap (λ x. record { events = x; current = none }) (sym (append-nil events))
  read-render_events stamp events (e ∷ es) clock (h, hs) =
      then_lines t from until (record { events = events; current = none }) _
        (render_event t stamp e) _ (read-render_event t from until events stamp e clock h)
      ∙ read-render_events stamp (events ++ expand t (read_event e) from until) es clock hs
      ∙ ap (λ x. record { events = x; current = none })
          (append_assoc events _ (within es)
            ∙ ap (λ x. events ++ x)
                (ap (λ x. x ++ within es) (expand-read_event e h) ∙ select-step e es))

  -- The lines before the events.
  read-feed_lines :
      (stamp : ℕ) (name : Bytes) (es : List Event)
      → IsClock t
      → All IsPublished es
      → reads (record { events = []; current = none }) (feed_lines t stamp name es)
        ≡ record { events = within es; current = none }
  unfolding feed_lines read_lines read_line
  read-feed_lines stamp [] es clock hs = read-render_events stamp [] es clock hs
  read-feed_lines stamp (c ∷ s) es clock hs = read-render_events stamp [] es clock hs

take-all : (n : ℕ) (s : Bytes) → length s ≤ n → take n s ≡ s
take-all zero [] h = refl
take-all zero (c ∷ s) h = absurd (omega arith)
take-all (suc n) [] h = refl
take-all (suc n) (c ∷ s) h = ap (λ x. c ∷ x) (take-all n s (omega arith))

-- A feed of published events, whose times are in UTC, that is at most MaxFeedBytes long, and is
-- written before the year 10000 and read without an error, yields exactly those of the events that
-- start neither before `from` nor after `until`, unchanged and in order, whatever its name.
pub parse-render :
    (t : Times) (stamp from until : ℕ) (name : Bytes) (es : List Event)
    → IsClock t
    → All IsPublished es
    → stamp < max_time
    → length (render t stamp name es) ≤ max_feed_bytes
    → parse t false (render t stamp name es) from until ≡ parsed (select (is_within from until) es)
unfolding parse parse_lines render feed_lines contains_calendar_start
parse-render t stamp from until name es clock hs early short =
    ap (λ x. parse_lines t from until (unfold_lines false x))
      (take-all max_feed_bytes (render t stamp name es) short)
    ∙ ap (parse_lines t from until) (
        unfold_lines-write_lines (feed_lines t stamp name es)
          (feed_lines-All t clock stamp name early es hs))
    ∙ ap (λ (r : Reading). parsed r.events) (read-feed_lines t from until stamp name es clock hs)
