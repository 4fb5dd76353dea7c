-- ===== src/Icalendar/Window.antt =====
-- Where the occurrences of a repeating event lie, and how many there are: occurrences of
-- internal/icalendar/parse.go.
use scout_site.Prelude.{
  ℕ, zero, suc, ◌≤◌, false, ◌||◌, List, [], ◌∷◌, ◌++◌, ltb, ◌≡◌, ◌⊎◌, inl, inr, arith, Bool-cases,
  length, length-append, All, All-map,
}
use scout_site.Icalendar.Event.{Times, is_zero_time}
use scout_site.Icalendar.Recurrence.{
  Rrule, Walk, max_expansion, candidates, emitting, full, emit, step, stop_of, walk, occurrences,
}

-- A rule without a count allows any number.
abbrev pub Allows : Rrule → ℕ → Type 0
Allows r n = (r.count ≡ 0) ⊎ (n ≤ r.count)

abbrev pub IsOccurrence : Rrule → ℕ → ℕ → ℕ → ℕ → Type 0
IsOccurrence r start from until c =
    (start ≤ c) × (from ≤ c) × (c ≤ until) × ((r.until ≡ 0) ⊎ (c ≤ r.until))

All-append_one : (P : ℕ → Type 0) (xs : List ℕ) (c : ℕ) → All P xs → P c → All P (xs ++ (c ∷ []))
All-append_one P [] c h k = (k, tt)
All-append_one P (x ∷ xs) c (e, h) k = (e, All-append_one P xs c h k)

module _ (r : Rrule) (start from stop : ℕ) where
  abbrev IsIn : ℕ → Type 0
  IsIn c = (start ≤ c) × (from ≤ c) × (c ≤ stop)

  -- What every round keeps.
  record IsBounded (w : Walk) : Type 0 where
    inside : All IsIn w.out
    counted : length w.out ≤ w.emitted
    allowed : Allows r w.emitted

  emitting-IsBounded :
      (c : ℕ) (w : Walk)
      → start ≤ c
      → c ≤ stop
      → full r w ≡ false
      → IsBounded w
      → IsBounded (emitting from c w)
  emitting-IsBounded c w later earlier room b = elim (Bool-cases (ltb c from)) [
    | inl before ↦
        rw before (record { inside = b.inside; counted = omega (arith, b.counted); allowed = more })
    | inr since ↦ rw since (record {
      inside = All-append_one IsIn w.out c b.inside (later, ground (arith, since), earlier);
      counted = omega (arith, b.counted, length-append w.out (c ∷ []));
      allowed = more;
    })
  ]
    where
      more : Allows r (suc w.emitted)
      more = elim b.allowed [
        | inl none_given ↦ inl none_given
        | inr some_left ↦ ground (arith, room)
      ]

  emit-IsBounded : (cs : List ℕ) (w : Walk) → IsBounded w → IsBounded (emit r start from stop cs w)
  unfolding emit
  emit-IsBounded [] w b = b
  emit-IsBounded (c ∷ cs) w b = elim (Bool-cases (ltb c start || ltb stop c)) [
    | inl outside ↦ rw outside (emit-IsBounded cs w b)
    | inr inside ↦ elim (Bool-cases (full r w)) [
      | inl over ↦
          rw (inside, over) (record { inside = b.inside; counted = b.counted; allowed = b.allowed })
      | inr room ↦
          rw (inside, room)
            (emit-IsBounded cs (emitting from c w)
              (emitting-IsBounded c w (ground (arith, inside)) (ground (arith, inside)) room b))
    ]
  ]

  abbrev IsResult : List ℕ → Type 0
  IsResult out = All IsIn out × Allows r (length out)

  finished : (w : Walk) → IsBounded w → IsResult w.out
  finished w b = (
    b.inside,
    elim b.allowed [
      | inl none_given ↦ inl none_given
      | inr within ↦ inr (omega (arith, within, b.counted))
    ],
  )

  walk-IsResult :
      (t : Times) (steps cur : ℕ) (w : Walk)
      → IsBounded w
      → IsResult (walk r start from stop t steps cur w)
  unfolding walk
  walk-IsResult t zero cur w b = finished w b
  walk-IsResult t (suc steps) cur w b = elim (Bool-cases (ltb stop cur)) [
    | inl past ↦ rw past (finished w b)
    | inr on ↦
        let w' = emit r start from stop (candidates r cur) w in
        let b' = emit-IsBounded (candidates r cur) w b in
        elim (Bool-cases w'.done) [
          | inl over ↦ rw (on, over) (finished w' b')
          | inr more ↦ rw (on, more) (walk-IsResult t steps (step t r cur) w' b')
        ]
  ]

stop_of-le :
    (r : Rrule) (until c : ℕ) → c ≤ stop_of r until → (c ≤ until) × ((r.until ≡ 0) ⊎ (c ≤ r.until))
stop_of-le r until c h = elim (Bool-cases (is_zero_time r.until)) [
  | inl endless ↦ (rw endless at h, inl (ground (arith, endless)))
  | inr ends ↦ ground (arith, rw ends at h)
]

-- Whatever package time answers, each occurrence of a rule lies in the window, not before the start
-- of its event and not after the end of the rule, and there are at most as many as its count.
pub occurrences-IsOccurrence :
    (t : Times) (r : Rrule) (start from until : ℕ)
    → All (IsOccurrence r start from until) (occurrences t r start from until)
      × Allows r (length (occurrences t r start from until))
unfolding occurrences
occurrences-IsOccurrence t r start from until =
    let (inside, allowed) =
      walk-IsResult r start from (stop_of r until) t (suc max_expansion) start
        (record { out = []; emitted = 0; done = false })
        (record { inside = tt; counted = omega arith; allowed = inr (omega arith) }) in
    (
      All-map (λ c h. let (ends, ruled) = stop_of-le r until c h.2 in (h.0, h.1, ends, ruled)) _
          inside,
      allowed,
    )
