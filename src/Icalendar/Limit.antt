-- ===== src/Icalendar/Limit.antt =====
-- How long a folded line gets: line of internal/icalendar/render.go.
use scout_site.Prelude.{
  ℕ, zero, suc, ◌-◌, ◌≤◌, [], ◌∷◌, ◌++◌, leb, length, take, drop, inl, inr, refl, arith, Bool-cases,
  All, length-append, sym,
}
use scout_site.Prelude.Text.{Bytes}
use scout_site.Icalendar.{newline, return}
use scout_site.Icalendar.Fold.{fold_at, space, back_off, fold_line, line, scan_lines, trim_returns}
use scout_site.Icalendar.RoundTrip.{
  HasNoBreak, HasNoBreak-append, HasNoBreak-take, HasNoBreak-drop, scan_lines-end, trim_returns-end,
  back_off-positive, back_off-bounded,
}
use mathlib.Core.Path.{subst}
use mathlib.Core.List.{append_assoc}

-- A line of the feed with the blank it may begin with.
abbrev pub IsFolded : Bytes → Type 0
IsFolded l = length (trim_returns l) ≤ suc fold_at

length-take_le : (n : ℕ) (s : Bytes) → length (take n s) ≤ n
length-take_le zero s = omega arith
length-take_le (suc n) [] = omega arith
length-take_le (suc n) (c ∷ s) = omega (arith, length-take_le n s)

length-drop_le : (n : ℕ) (s : Bytes) → length (drop n s) ≤ length s - n
length-drop_le zero s = omega arith
length-drop_le (suc n) [] = omega arith
length-drop_le (suc n) (c ∷ s) = omega (arith, length-drop_le n s)

IsFolded-text : (s : Bytes) → HasNoBreak s → length s ≤ suc fold_at → IsFolded (s ++ (return ∷ []))
IsFolded-text s h b = subst (λ x. length x ≤ suc fold_at) (sym (trim_returns-end s h)) b

All-end :
    (s r : Bytes)
    → HasNoBreak s
    → length s ≤ suc fold_at
    → All IsFolded (scan_lines r)
    → All IsFolded (scan_lines (s ++ (return ∷ newline ∷ r)))
All-end s r h b rest =
    subst (λ x. All IsFolded x) (sym (scan_lines-end s r h)) (IsFolded-text s h b, rest)

-- `pre` is the blank of a continuation, or nothing.
chunk-IsFolded :
    (pre s r : Bytes)
    → HasNoBreak pre
    → length pre ≤ 1
    → HasNoBreak s
    → length s ≤ fold_at
    → All IsFolded (scan_lines r)
    → All IsFolded (scan_lines (pre ++ (s ++ (return ∷ newline ∷ r))))
chunk-IsFolded pre s r p one h b rest =
    subst (λ x. All IsFolded (scan_lines x)) (append_assoc pre s (return ∷ newline ∷ r))
      (All-end (pre ++ s) r (HasNoBreak-append pre s p h)
        (omega (arith, length-append pre s, one, b)) rest)

nothing-IsFolded : All IsFolded (scan_lines [])
unfolding scan_lines
nothing-IsFolded = tt

fold_line-IsFolded :
    (fuel : ℕ) (pre s : Bytes)
    → HasNoBreak pre
    → length pre ≤ 1
    → HasNoBreak s
    → length s ≤ fuel
    → All IsFolded (scan_lines (pre ++ fold_line fuel s))
unfolding fold_line
fold_line-IsFolded zero pre s p one h enough =
    chunk-IsFolded pre s [] p one h (omega (arith, enough)) nothing-IsFolded
fold_line-IsFolded (suc fuel) pre s p one h enough =
    elim (Bool-cases (leb (suc fold_at) (length s))) [
      | inr short ↦
          rw short (chunk-IsFolded pre s [] p one h (ground (arith, short)) nothing-IsFolded)
      | inl long ↦
          let cut = back_off fold_at s in
          let shorter : length (drop cut s) ≤ fuel =
            omega
              (arith, length-drop_le cut s, back_off-positive fold_at s (omega arith), enough) in
          rw long (
            chunk-IsFolded pre (take cut s) (space ∷ fold_line fuel (drop cut s)) p one
              (HasNoBreak-take cut s h)
              (omega (arith, length-take_le cut s, back_off-bounded fold_at s))
              (fold_line-IsFolded fuel (space ∷ []) (drop cut s) (refl, (refl, tt)) (omega arith)
                (HasNoBreak-drop cut s h) shorter))
    ]

-- For a text without line ends, no line that is written has more than foldAt octets and a blank.
pub line-IsFolded : (s : Bytes) → HasNoBreak s → All IsFolded (scan_lines (line s))
unfolding line
line-IsFolded s h = fold_line-IsFolded (length s) [] s tt (omega arith) h (omega arith)
