-- ===== src/Icalendar/Escape.antt =====
-- Texts come back from their escaped form.
use scout_site.Prelude.{
  ℕ, ◌≡◌, refl, sym, ap, ◌∙◌, inl, inr, false, [], ◌∷◌, ◌++◌, ◌==◌, ==_iff, Bool-cases, All,
}
use mathlib.Core.Path.{subst}
use scout_site.Prelude.Text.{Bytes}
use scout_site.Icalendar.{
  backslash, semicolon, comma, newline, return, lower_n, escaped, replace_all, replace_crlf,
  escape_specials, escape_text, unescape_text,
}

abbrev pub Without : ℕ → Bytes → Type 0
Without b = All (λ c. (c == b) ≡ false)

abbrev pub HasNoReturn : Bytes → Type 0
HasNoReturn = Without return

Without-concat : (b : ℕ) (s t : Bytes) → Without b s → Without b t → Without b (s ++ t)
Without-concat b [] t h g = g
Without-concat b (c ∷ s) t (e, h) g = (e, Without-concat b s t h g)

Without-replace_all :
    (a b : ℕ) (new s : Bytes) → Without a new → Without a s → Without a (replace_all b new s)
unfolding replace_all
Without-replace_all a b new [] n h = tt
Without-replace_all a b new (c ∷ s) n (e, h) = elim (Bool-cases (c == b)) [
  | inl same ↦ rw same (Without-concat a new _ n (Without-replace_all a b new s n h))
  | inr other ↦ rw other (e, Without-replace_all a b new s n h)
]

-- The byte that is replaced is gone.
Without-replaced : (b : ℕ) (new s : Bytes) → Without b new → Without b (replace_all b new s)
unfolding replace_all
Without-replaced b new [] n = tt
Without-replaced b new (c ∷ s) n = elim (Bool-cases (c == b)) [
  | inl same ↦ rw same (Without-concat b new _ n (Without-replaced b new s n))
  | inr other ↦ rw other (other, Without-replaced b new s n)
]

-- An escaped text is on one line.
pub escape_text-Without-newline : (s : Bytes) → Without newline (escape_text s)
unfolding escape_text
escape_text-Without-newline s =
    let lines = replace_crlf (escaped lower_n) (escape_specials s) in
    Without-replace_all newline return (escaped lower_n)
      (replace_all newline (escaped lower_n) lines) (refl, (refl, tt))
      (Without-replaced newline (escaped lower_n) lines (refl, (refl, tt)))

pub escape_text-HasNoReturn : (s : Bytes) → HasNoReturn (escape_text s)
unfolding escape_text
escape_text-HasNoReturn s =
    let lines = replace_crlf (escaped lower_n) (escape_specials s) in
    Without-replaced return (escaped lower_n) (replace_all newline (escaped lower_n) lines)
      (refl, (refl, tt))

replace_all-return : (new s : Bytes) → HasNoReturn s → replace_all return new s ≡ s
unfolding replace_all
replace_all-return new [] h = refl
replace_all-return new (c ∷ s) (e, h) = rw (e, replace_all-return new s h) refl

replace_crlf-return : (new s : Bytes) → HasNoReturn s → replace_crlf new s ≡ s
unfolding replace_crlf
replace_crlf-return new [] h = refl
replace_crlf-return new (c ∷ []) h = refl
replace_crlf-return new (c ∷ d ∷ s) (e, h) = rw (e, replace_crlf-return new (d ∷ s) h) refl

-- The replacements that a text without returns meets.
abbrev escape : Bytes → Bytes
escape s = replace_all newline (escaped lower_n) (escape_specials s)

escape_text-escape : (s : Bytes) → HasNoReturn s → escape_text s ≡ escape s
unfolding escape_text escape_specials
escape_text-escape s h =
    let clean : HasNoReturn (escape_specials s) =
      Without-replace_all return comma (escaped comma) _ (refl, (refl, tt))
        (Without-replace_all return semicolon (escaped semicolon) _ (refl, (refl, tt))
          (Without-replace_all return backslash (escaped backslash) s (refl, (refl, tt)) h)) in
    ap (λ x. replace_all return (escaped lower_n) (replace_all newline (escaped lower_n) x))
      (replace_crlf-return (escaped lower_n) _ clean)
    ∙ replace_all-return (escaped lower_n) _
        (Without-replace_all return newline (escaped lower_n) _ (refl, (refl, tt)) clean)

unescape_text-plain :
    (c : ℕ) (s : Bytes) → (c == backslash) ≡ false → unescape_text (c ∷ s) ≡ c ∷ unescape_text s
unfolding unescape_text
unescape_text-plain c [] h = refl
unescape_text-plain c (d ∷ s) h = rw h refl

unescape_text-escape : (s : Bytes) → unescape_text (escape s) ≡ s
unfolding escape_specials replace_all unescape_text
unescape_text-escape [] = refl
unescape_text-escape (c ∷ s) = elim (Bool-cases (c == backslash)) [
  | inl e ↦
      subst (λ x. unescape_text (escape (x ∷ s)) ≡ x ∷ s) (sym ((==_iff c backslash).0 e))
        (ap (λ x. backslash ∷ x) (unescape_text-escape s))
  | inr not_slash ↦ elim (Bool-cases (c == semicolon)) [
    | inl e ↦
        subst (λ x. unescape_text (escape (x ∷ s)) ≡ x ∷ s) (sym ((==_iff c semicolon).0 e))
          (ap (λ x. semicolon ∷ x) (unescape_text-escape s))
    | inr not_semi ↦ elim (Bool-cases (c == comma)) [
      | inl e ↦
          subst (λ x. unescape_text (escape (x ∷ s)) ≡ x ∷ s) (sym ((==_iff c comma).0 e))
            (ap (λ x. comma ∷ x) (unescape_text-escape s))
      | inr not_comma ↦ elim (Bool-cases (c == newline)) [
        | inl e ↦
            subst (λ x. unescape_text (escape (x ∷ s)) ≡ x ∷ s) (sym ((==_iff c newline).0 e))
              (ap (λ x. newline ∷ x) (unescape_text-escape s))
        | inr not_line ↦
            rw (not_slash, not_semi, not_comma, not_line)
              (unescape_text-plain c _ not_slash ∙ ap (λ x. c ∷ x) (unescape_text-escape s))
      ]
    ]
  ]
]

-- A text without carriage returns is what is read back from its escaped form.
pub unescape_text-escape_text : (s : Bytes) → HasNoReturn s → unescape_text (escape_text s) ≡ s
unescape_text-escape_text s h = ap unescape_text (escape_text-escape s h) ∙ unescape_text-escape s
