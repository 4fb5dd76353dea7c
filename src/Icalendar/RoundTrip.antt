-- ===== src/Icalendar/RoundTrip.antt =====
-- Folded lines are read back: line of internal/icalendar/render.go and unfold of
-- internal/icalendar/parse.go.
use scout_site.Prelude.{
  ℕ, zero, suc, ◌≤◌, false, List, [], ◌∷◌, ◌++◌, some, ◌==◌, leb, length, take, drop, ◌≡◌, inl, inr,
  refl, sym, ap, ◌∙◌, arith, Bool-cases, All,
}
use scout_site.Prelude.Text.{Bytes}
use scout_site.Icalendar.{newline, return}
use scout_site.Icalendar.Fold.{
  fold_at, space, is_blank, is_empty, back_off, fold_line, line, scan_lines, trim_returns,
  join_last, add_line, add_lines, unfold_lines,
}
use scout_site.Icalendar.Render.{write_lines}
use mathlib.Core.List.{append_assoc, append-nil}

-- A text of one line: no byte of it ends a line.
abbrev pub HasNoBreak : Bytes → Type 0
HasNoBreak [] = Unit
HasNoBreak (c ∷ s) = ((c == newline) ≡ false) × (((c == return) ≡ false) × HasNoBreak s)

-- A line that does not look like the continuation of another.
abbrev pub IsContentLine : Bytes → Type 0
IsContentLine [] = ⊥
IsContentLine (c ∷ s) = (is_blank c ≡ false) × HasNoBreak (c ∷ s)

pub HasNoBreak-append : (s t : Bytes) → HasNoBreak s → HasNoBreak t → HasNoBreak (s ++ t)
HasNoBreak-append [] t h k = k
HasNoBreak-append (c ∷ s) t (e, (r, h)) k = (e, (r, HasNoBreak-append s t h k))

pub HasNoBreak-take : (n : ℕ) (s : Bytes) → HasNoBreak s → HasNoBreak (take n s)
HasNoBreak-take zero s h = tt
HasNoBreak-take (suc n) [] h = tt
HasNoBreak-take (suc n) (c ∷ s) (e, (r, h)) = (e, (r, HasNoBreak-take n s h))

pub HasNoBreak-drop : (n : ℕ) (s : Bytes) → HasNoBreak s → HasNoBreak (drop n s)
HasNoBreak-drop zero s h = h
HasNoBreak-drop (suc n) [] h = tt
HasNoBreak-drop (suc n) (c ∷ s) (e, (r, h)) = HasNoBreak-drop n s h

take-drop : (n : ℕ) (s : Bytes) → take n s ++ drop n s ≡ s
take-drop zero s = refl
take-drop (suc n) [] = refl
take-drop (suc n) (c ∷ s) = ap (λ x. c ∷ x) (take-drop n s)

pub scan_lines-end :
    (s r : Bytes)
    → HasNoBreak s
    → scan_lines (s ++ (return ∷ newline ∷ r)) ≡ (s ++ (return ∷ [])) ∷ scan_lines r
unfolding scan_lines
scan_lines-end [] r h = refl
scan_lines-end (c ∷ s) r (e, (_, h)) = rw (e, scan_lines-end s r h) refl

pub trim_returns-end : (s : Bytes) → HasNoBreak s → trim_returns (s ++ (return ∷ [])) ≡ s
unfolding trim_returns
trim_returns-end [] h = refl
trim_returns-end (c ∷ []) (_, (e, h)) = rw e refl
trim_returns-end (c ∷ d ∷ s) (_, (_, h)) = rw (trim_returns-end (d ∷ s) h) refl

-- One line of the feed is one round.
add_lines-end :
    (lines : List Bytes) (s r : Bytes)
    → HasNoBreak s
    → add_lines lines (scan_lines (s ++ (return ∷ newline ∷ r)))
      ≡ add_lines (add_line lines s) (scan_lines r)
unfolding add_lines
add_lines-end lines s r h =
    ap (λ x. add_lines lines x) (scan_lines-end s r h)
    ∙ ap (λ x. add_lines (add_line lines x) (scan_lines r)) (trim_returns-end s h)

join_last-append :
    (lines : List Bytes) (l t : Bytes) → join_last t (lines ++ (l ∷ [])) ≡ lines ++ ((l ++ t) ∷ [])
unfolding join_last
join_last-append [] l t = refl
join_last-append (k ∷ []) l t = refl
join_last-append (k ∷ m ∷ ks) l t = ap (λ x. k ∷ x) (join_last-append (m ∷ ks) l t)

is_empty-append : (lines : List Bytes) (l : Bytes) → is_empty (lines ++ (l ∷ [])) ≡ false
is_empty-append [] l = refl
is_empty-append (k ∷ ks) l = refl

add_line-continued :
    (lines : List Bytes) (l t : Bytes)
    → add_line (lines ++ (l ∷ [])) (space ∷ t) ≡ lines ++ ((l ++ t) ∷ [])
unfolding add_line
add_line-continued lines l t = rw (is_empty-append lines l) (join_last-append lines l t)

add_line-content :
    (lines : List Bytes) (s : Bytes) → IsContentLine s → add_line lines s ≡ lines ++ (s ∷ [])
unfolding add_line
add_line-content lines [] h = absurd h
add_line-content lines (c ∷ s) (e, h) = rw e refl

-- The rest of a folded line, which follows the blank of a continuation.
add_lines-fold_line_rest :
    (fuel : ℕ) (lines : List Bytes) (l t r : Bytes)
    → HasNoBreak t
    → add_lines (lines ++ (l ∷ [])) (scan_lines ((space ∷ fold_line fuel t) ++ r))
      ≡ add_lines (lines ++ ((l ++ t) ∷ [])) (scan_lines r)
unfolding fold_line
add_lines-fold_line_rest zero lines l t r h = rw (append_assoc t (return ∷ newline ∷ []) r) (
    add_lines-end (lines ++ (l ∷ [])) (space ∷ t) r (refl, (refl, h))
    ∙ ap (λ x. add_lines x (scan_lines r)) (add_line-continued lines l t))
add_lines-fold_line_rest (suc fuel) lines l t r h =
    elim (Bool-cases (leb (suc fold_at) (length t))) [
      | inr short ↦
          rw (short, append_assoc t (return ∷ newline ∷ []) r)
            (add_lines-end (lines ++ (l ∷ [])) (space ∷ t) r (refl, (refl, h))
              ∙ ap (λ x. add_lines x (scan_lines r)) (add_line-continued lines l t))
      | inl long ↦
          let cut = back_off fold_at t in
          let more = fold_line fuel (drop cut t) in
          rw (long, append_assoc (take cut t) (return ∷ newline ∷ space ∷ more) r)
            (add_lines-end (lines ++ (l ∷ [])) (space ∷ take cut t) ((space ∷ more) ++ r)
                (refl, (refl, HasNoBreak-take cut t h))
              ∙ ap (λ x. add_lines x (scan_lines ((space ∷ more) ++ r)))
                  (add_line-continued lines l (take cut t))
              ∙ add_lines-fold_line_rest fuel lines (l ++ take cut t) (drop cut t) r
                  (HasNoBreak-drop cut t h)
              ∙ ap (λ x. add_lines (lines ++ (x ∷ [])) (scan_lines r))
                  (append_assoc l (take cut t) (drop cut t) ∙ ap (λ x. l ++ x) (take-drop cut t)))
    ]

pub back_off-positive : (cut : ℕ) (s : Bytes) → 1 ≤ cut → 1 ≤ back_off cut s
unfolding back_off
back_off-positive zero s h = h
back_off-positive (suc zero) s h = ground arith
back_off-positive (suc (suc cut)) s h = ground (arith, back_off-positive (suc cut) s)

pub back_off-bounded : (cut : ℕ) (s : Bytes) → back_off cut s ≤ cut
unfolding back_off
back_off-bounded zero s = omega arith
back_off-bounded (suc cut) s = ground (arith, back_off-bounded cut s)

IsContentLine-take : (n : ℕ) (s : Bytes) → 1 ≤ n → IsContentLine s → IsContentLine (take n s)
IsContentLine-take zero s p h = absurd (omega (arith, p))
IsContentLine-take (suc n) [] p h = h
IsContentLine-take (suc n) (c ∷ s) p (e, h) = (e, HasNoBreak-take (suc n) (c ∷ s) h)

IsContentLine-HasNoBreak : (s : Bytes) → IsContentLine s → HasNoBreak s
IsContentLine-HasNoBreak [] h = tt
IsContentLine-HasNoBreak (c ∷ s) h = h.1

add_lines-fold_line :
    (fuel : ℕ) (lines : List Bytes) (s r : Bytes)
    → IsContentLine s
    → add_lines lines (scan_lines (fold_line fuel s ++ r))
      ≡ add_lines (lines ++ (s ∷ [])) (scan_lines r)
unfolding fold_line
add_lines-fold_line zero lines s r h = rw (append_assoc s (return ∷ newline ∷ []) r) (
    add_lines-end lines s r (IsContentLine-HasNoBreak s h)
    ∙ ap (λ x. add_lines x (scan_lines r)) (add_line-content lines s h))
add_lines-fold_line (suc fuel) lines s r h = elim (Bool-cases (leb (suc fold_at) (length s))) [
  | inr short ↦
      rw (short, append_assoc s (return ∷ newline ∷ []) r)
        (add_lines-end lines s r (IsContentLine-HasNoBreak s h)
          ∙ ap (λ x. add_lines x (scan_lines r)) (add_line-content lines s h))
  | inl long ↦
      let cut = back_off fold_at s in
      let more = fold_line fuel (drop cut s) in
      let clean = IsContentLine-take cut s (back_off-positive fold_at s (omega arith)) h in
      rw (long, append_assoc (take cut s) (return ∷ newline ∷ space ∷ more) r)
        (add_lines-end lines (take cut s) ((space ∷ more) ++ r)
            (IsContentLine-HasNoBreak (take cut s) clean)
          ∙ ap (λ x. add_lines x (scan_lines ((space ∷ more) ++ r)))
              (add_line-content lines (take cut s) clean)
          ∙ add_lines-fold_line_rest fuel lines (take cut s) (drop cut s) r
              (HasNoBreak-drop cut s (IsContentLine-HasNoBreak s h))
          ∙ ap (λ x. add_lines (lines ++ (x ∷ [])) (scan_lines r)) (take-drop cut s))
]

-- A line that is written is the next one read.
add_lines-line :
    (lines : List Bytes) (s r : Bytes)
    → IsContentLine s
    → add_lines lines (scan_lines (line s ++ r)) ≡ add_lines (lines ++ (s ∷ [])) (scan_lines r)
unfolding line
add_lines-line lines s r h = add_lines-fold_line (length s) lines s r h

add_lines-write_lines :
    (lines ls : List Bytes)
    → All IsContentLine ls
    → add_lines lines (scan_lines (write_lines ls)) ≡ lines ++ ls
unfolding add_lines scan_lines write_lines
add_lines-write_lines lines [] h = sym (append-nil lines)
add_lines-write_lines lines (s ∷ ls) (e, h) =
    add_lines-line lines s (write_lines ls) e
    ∙ add_lines-write_lines (lines ++ (s ∷ [])) ls h
    ∙ append_assoc lines (s ∷ []) ls

-- The content lines that are written, each folded as its length wants, are what is read back where
-- reading does not fail; a content line is not empty, has no line end in it and does not begin with
-- a blank.
pub unfold_lines-write_lines :
    (ls : List Bytes) → All IsContentLine ls → unfold_lines false (write_lines ls) ≡ some ls
unfolding unfold_lines
unfold_lines-write_lines ls h = ap some (add_lines-write_lines [] ls h)
