-- ===== src/Prelude/Trim.antt =====
-- strings.TrimSpace leaves a text without spaces as it is.
use scout_site.Prelude.{ℕ, ◌<◌, ◌≡◌, refl, sym, ap, ◌∙◌, [], ◌∷◌, ◌++◌, arith, All}
use scout_site.Prelude.Text.{Bytes, leading_space, trailing_space, trim_by, trim_space}
use mathlib.Core.Path.{subst}
use mathlib.Core.List.{reverse, reverse-cons, reverse-reverse}

-- Bytes of ASCII after the space.
abbrev pub IsPrinted : Bytes → Type 0
IsPrinted = All (λ c. (32 < c) × (c < 128))

pub IsPrinted-append : (s r : Bytes) → IsPrinted s → IsPrinted r → IsPrinted (s ++ r)
IsPrinted-append [] r h k = k
IsPrinted-append (c ∷ s) r (e, h) k = (e, IsPrinted-append s r h k)

IsPrinted-reverse : (s : Bytes) → IsPrinted s → IsPrinted (reverse s)
IsPrinted-reverse [] h = tt
IsPrinted-reverse (c ∷ s) (e, h) =
    subst IsPrinted (sym (reverse-cons c s))
      (IsPrinted-append (reverse s) (c ∷ []) (IsPrinted-reverse s h) (e, tt))

leading_space-IsPrinted : (c : ℕ) (s : Bytes) → IsPrinted (c ∷ s) → leading_space (c ∷ s) ≡ 0
leading_space-IsPrinted c [] h = ground arith
leading_space-IsPrinted c (b ∷ []) h = ground arith
leading_space-IsPrinted c (b ∷ a ∷ s) h = ground arith

trailing_space-IsPrinted : (c : ℕ) (s : Bytes) → IsPrinted (c ∷ s) → trailing_space (c ∷ s) ≡ 0
trailing_space-IsPrinted c [] h = ground arith
trailing_space-IsPrinted c (b ∷ []) h = ground arith
trailing_space-IsPrinted c (b ∷ a ∷ s) h = ground arith

trim_by-IsPrinted :
    (width : Bytes → ℕ)
    → ((c : ℕ) (s : Bytes) → IsPrinted (c ∷ s) → width (c ∷ s) ≡ 0)
    → (s : Bytes) → IsPrinted s
    → trim_by width 0 s ≡ s
unfolding trim_by
trim_by-IsPrinted width none [] h = refl
trim_by-IsPrinted width none (c ∷ s) h = rw (trim_by, none c s h) refl

pub trim_space-IsPrinted : (s : Bytes) → IsPrinted s → trim_space s ≡ s
unfolding trim_space
trim_space-IsPrinted s h =
    ap (λ x. reverse (trim_by trailing_space 0 (reverse x)))
      (trim_by-IsPrinted leading_space leading_space-IsPrinted s h)
    ∙ ap reverse (
        trim_by-IsPrinted trailing_space trailing_space-IsPrinted (reverse s)
          (IsPrinted-reverse s h))
    ∙ reverse-reverse s
