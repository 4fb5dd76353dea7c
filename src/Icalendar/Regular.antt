-- ===== src/Icalendar/Regular.antt =====
-- The occurrences of rules at a fixed distance, as a list: occurrences and step of
-- internal/icalendar/parse.go.
use scout_site.Prelude.{
  ℕ, zero, suc, ◌+◌, ◌-◌, ◌*◌, ◌^◌, ◌≤◌, ◌<◌, true, false, ◌&&◌, List, [], ◌∷◌, ◌++◌, some, ltb,
  leb, if◌then◌else◌, ◌≡◌, ◌⊎◌, inl, inr, refl, sym, ap, ◌∙◌, arith, Bool-cases, take, select,
}
use scout_site.Prelude.Int.{pos, mul64, wrap, *ℤ_pos, wrap-eq_of_Fits}
use scout_site.Icalendar.Event.{Times, utc_zone, day}
use scout_site.Icalendar.Recurrence.{
  Rrule, Walk, max_expansion, daily, weekly, candidates, full, emit, step, stop_of, walk,
  occurrences,
}
use mathlib.Core.List.{append_assoc, append-nil}

-- A daily rule, or a weekly one that names no days, repeats every `gap` seconds.
abbrev pub Repeats : Rrule → ℕ → Type 0
Repeats r gap =
    ((r.freq ≡ some daily) × (gap ≡ day * r.interval))
    ⊎ ((r.freq ≡ some weekly) × (r.by_day ≡ []) × (gap ≡ day * (7 * r.interval)))

-- What the rules rely on of AddDate: days are added to a time in UTC where the sum is one of 64 bits.
pub record AddsDays (t : Times) : Type 0 where
  pub add_days-within :
      (n u : ℕ) → u + day * n < 2 ^ 63 → t.add_days utc_zone (pos n) u ≡ u + day * n

-- `n` times from `cur` on.
abbrev pub series : ℕ → ℕ → ℕ → List ℕ
series zero gap cur = []
series (suc n) gap cur = cur ∷ series n gap (cur + gap)

abbrev pub up_to : ℕ → List ℕ → List ℕ
up_to stop [] = []
up_to stop (c ∷ cs) = if leb c stop then c ∷ up_to stop cs else []

-- What is left of a list by a count, of which `n` are used; a count of zero leaves all.
abbrev pub by_count : ℕ → ℕ → List ℕ → List ℕ
by_count zero n cs = cs
by_count (suc k) n cs = take (suc k - n) cs

candidates-Repeats : (r : Rrule) (gap u : ℕ) → Repeats r gap → candidates r u ≡ u ∷ []
candidates-Repeats r gap u (inl (freq, _)) = rw freq refl
candidates-Repeats r gap u (inr (freq, days, _)) = rw (freq, days) refl

times_seven : (n : ℕ) → 7 * n < 2 ^ 63 → mul64 (pos 7) (pos n) ≡ pos (7 * n)
unfolding mul64
times_seven n h = ap wrap (*ℤ_pos 7 n) ∙ wrap-eq_of_Fits (pos (7 * n)) (h, omega arith)

step-Repeats :
    (t : Times) (r : Rrule) (gap u : ℕ)
    → Repeats r gap
    → AddsDays t
    → u + gap < 2 ^ 63
    → step t r u ≡ u + gap
step-Repeats t r gap u (inl (freq, e)) adds small =
    rw (freq, e) (adds.add_days-within r.interval u (omega (arith, e, small)))
step-Repeats t r gap u (inr (freq, _, e)) adds small = rw freq (
    ap (λ z. t.add_days utc_zone z u) (times_seven r.interval (omega (arith, e, small)))
    ∙ adds.add_days-within (7 * r.interval) u (omega (arith, e, small))
    ∙ ap (λ z. u + z) (sym e))

stop_of-le : (r : Rrule) (until : ℕ) → stop_of r until ≤ until
stop_of-le r until = ground arith

take-nil : (n : ℕ) → take {A = ℕ} n [] ≡ []
take-nil zero = refl
take-nil (suc n) = refl

by_count-over : (k n c : ℕ) (cs : List ℕ) → (ltb 0 k && leb k n) ≡ true → by_count k n (c ∷ cs) ≡ []
by_count-over zero n c cs h = cc
by_count-over (suc k) n c cs h = let used_up : suc k - n ≡ 0 = ground (arith, h) in rw used_up refl

by_count-room :
    (k n c : ℕ) (cs : List ℕ)
    → (ltb 0 k && leb k n) ≡ false
    → by_count k n (c ∷ cs) ≡ c ∷ by_count k (suc n) cs
by_count-room zero n c cs h = refl
by_count-room (suc k) n c cs h =
    let one_more : suc k - n ≡ suc (suc k - suc n) = ground (arith, h) in rw one_more refl

by_count-nil : (k n : ℕ) → by_count k n [] ≡ []
by_count-nil zero n = refl
by_count-nil (suc k) n = take-nil (suc k - n)

module _ (t : Times) (r : Rrule) (gap start from stop : ℕ) (regular : Repeats r gap)
    (adds : AddsDays t) (small : stop + gap < 2 ^ 63) where
  abbrev since : List ℕ → List ℕ
  since = select (λ c. leb from c)

  abbrev ahead : ℕ → ℕ → ℕ → List ℕ
  ahead n cur used = since (by_count r.count used (up_to stop (series n gap cur)))

  walk-Repeats :
      (n cur : ℕ) (out : List ℕ) (used : ℕ)
      → start ≤ cur
      → walk r start from stop t n cur (record { out = out; emitted = used; done = false })
        ≡ out ++ ahead n cur used
  unfolding walk emit
  walk-Repeats zero cur out used later = rw (by_count-nil r.count used) (sym (append-nil out))
  walk-Repeats (suc n) cur out used later = elim (Bool-cases (ltb stop cur)) [
    | inl past ↦
        let late : leb cur stop ≡ false = ground (arith, past) in
        rw (past, late, by_count-nil r.count used) (sym (append-nil out))
    | inr on ↦
        let w : Walk = record { out = out; emitted = used; done = false } in
        let rest = series n gap (cur + gap) in
        let reached_by : cur ≤ stop = ground (arith, on) in
        let in_time : leb cur stop ≡ true = ground (arith, on) in
        let not_before : ltb cur start ≡ false = ground (arith, later) in
        elim (Bool-cases (full r w)) [
          | inl over ↦
              rw
                (
                  candidates-Repeats r gap cur regular,
                  on,
                  in_time,
                  not_before,
                  over,
                  by_count-over r.count used cur (up_to stop rest) over,
                )
                (sym (append-nil out))
          | inr room ↦
              rw
                (
                  candidates-Repeats r gap cur regular,
                  on,
                  in_time,
                  not_before,
                  room,
                  by_count-room r.count used cur (up_to stop rest) room,
                  step-Repeats t r gap cur regular adds (omega (arith, reached_by, small)),
                )
                (elim (Bool-cases (ltb cur from)) [
                  | inl before ↦
                      let hidden : leb from cur ≡ false = ground (arith, before) in
                      rw (before, hidden)
                        (walk-Repeats n (cur + gap) out (suc used) (omega (arith, later)))
                  | inr reached ↦
                      let shown : leb from cur ≡ true = ground (arith, reached) in
                      rw (reached, shown)
                        (walk-Repeats n (cur + gap) (out ++ (cur ∷ [])) (suc used)
                            (omega (arith, later))
                          ∙ append_assoc out (cur ∷ []) (ahead n (cur + gap) (suc used)))
                ])
        ]
  ]

-- Where AddDate adds days in UTC as long as the sum is one of 64 bits, and a step from the end of the
-- window is, the occurrences of a daily rule, or of a weekly one that names no days, are these: the
-- 501 times from the start of its event on at its distance, up to the end of the window and of the
-- rule, of these the first ones by its count, and of these the ones that are not before the window.
pub occurrences-Repeats :
    (t : Times) (r : Rrule) (gap start from until : ℕ)
    → Repeats r gap
    → AddsDays t
    → until + gap < 2 ^ 63
    → occurrences t r start from until
      ≡ select
          (λ c. leb from c)
          (by_count r.count 0 (up_to (stop_of r until) (series (suc max_expansion) gap start)))
unfolding occurrences
occurrences-Repeats t r gap start from until regular adds small =
    walk-Repeats t r gap start from (stop_of r until) regular adds
      (omega (arith, stop_of-le r until, small)) (suc max_expansion) start [] 0 (omega arith)
