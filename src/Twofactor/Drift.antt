-- ===== src/Twofactor/Drift.antt =====
-- Which codes are accepted at which times.
use mathlib.Core.Logic.{◌↔◌}
use scout_site.Prelude.{
  ℕ, ◌+◌, ◌/◌, ◌%◌, ◌≤◌, ◌<◌, ◌≡◌, refl, sym, ap, ◌∙◌, inl, inr, true, Option, none, some, List, [],
  ◌∷◌, arith, ◌==◌, length, Bool-cases, any, ==_iff,
}
use scout_site.Prelude.Text.{Bytes, same_bytes, same_bytes_eq, same_bytes_refl, trim_space}
use scout_site.Prelude.Trim.{trim_space-IsPrinted}
use scout_site.Store.Sql.{Result, ok, err, ok-injective}
use scout_site.Twofactor.{
  Primitives, digits, step_seconds, code, of_key, current_code, match_steps, steps_at, verify,
  decimal,
}

module _ (p : Primitives) (secret : Bytes) where
  -- The codes of all steps can be computed, or that of none.
  code_at_every_step :
      (step other : ℕ) (x : Bytes)
      → code p secret step ≡ ok x
      → (y : Bytes) × (code p secret other ≡ ok y)
  unfolding code
  code_at_every_step step other x h = same _ h
    where
      same :
          (key : Option Bytes)
          → of_key p step key ≡ ok x
          → (y : Bytes) × (of_key p other key ≡ ok y)
      same none h = absurd cc
      same (some k) h = (_, refl)

  match_steps_sound :
      (submitted : Bytes) (steps : List ℕ)
      → match_steps p secret submitted steps ≡ ok true
      → (step : ℕ) × ((any (λ s. s == step) steps ≡ true) × (code p secret step ≡ ok submitted))
  unfolding match_steps
  match_steps_sound submitted [] h = absurd cc
  match_steps_sound submitted (s ∷ steps) h =
      elim (scout_site.Store.Sql.Result-cases (code p secret s)) [
        | inl e ↦ absurd (cc (rw (e.1, match_steps) at h))
        | inr found ↦ elim (Bool-cases (same_bytes found.0 submitted)) [
          | inl e ↦ (s, (ground arith, found.1 ∙ ap ok (same_bytes_eq found.0 submitted e)))
          | inr e ↦
              let (step, (m, c)) =
                match_steps_sound submitted steps (rw (found.1, e, match_steps) at h) in
              (step, (ground (arith, m), c))
        ]
      ]

  match_steps_complete :
      (submitted : Bytes) (steps : List ℕ) (step : ℕ)
      → any (λ s. s == step) steps ≡ true
      → code p secret step ≡ ok submitted
      → match_steps p secret submitted steps ≡ ok true
  unfolding match_steps
  match_steps_complete submitted [] step m h = absurd cc
  match_steps_complete submitted (s ∷ steps) step m h =
      let found = code_at_every_step step s submitted h in
      rw (found.1, match_steps)
        (elim (Bool-cases (same_bytes found.0 submitted)) [
          | inl e ↦ rw e refl
          | inr e ↦ rw e (elim (Bool-cases (s == step)) [
            | inl same ↦
                let alike : found.0 ≡ submitted =
                  ok-injective _ _
                    (sym found.1 ∙ ap (code p secret) ((==_iff s step).0 same) ∙ h) in
                absurd
                  (cc (sym e ∙ ap (λ y. same_bytes y submitted) alike ∙ same_bytes_refl submitted))
            | inr other ↦ match_steps_complete submitted steps step (ground (arith, m, other)) h
          ])
        ])

  -- The steps next to the step of a time, and itself.
  abbrev pub Near : ℕ → ℕ → Type 0
  Near now step = (step ≤ now / step_seconds + 1) × (now / step_seconds ≤ step + 1)

  member-Near :
      (s step : ℕ) → any (λ t. t == step) (steps_at p s) ≡ true → (step ≤ s + 1) × (s ≤ step + 1)
  member-Near s step h = ground (arith, h)

  Near-member :
      (s step : ℕ) → step ≤ s + 1 → s ≤ step + 1 → any (λ t. t == step) (steps_at p s) ≡ true
  Near-member s step h g = ground (arith, h, g)

  code-length : (step : ℕ) (x : Bytes) → code p secret step ≡ ok x → length x ≡ digits
  unfolding code decimal
  code-length step x h = same _ h
    where
      same : (key : Option Bytes) → of_key p step key ≡ ok x → length x ≡ digits
      same none h = absurd cc
      same (some k) h = ap length (sym (ok-injective _ _ h))

  -- Verify accepts a text exactly where, without the spaces around it, it is the code of the step of
  -- the time, of the step before or of the step after.
  pub verify_iff :
      (now : ℕ) (submitted : Bytes)
      → (verify p now secret submitted ≡ ok true)
        ↔ ((step : ℕ) × (Near now step × (code p secret step ≡ ok (trim_space submitted))))
  unfolding verify
  verify_iff now submitted = (accepted, near)
    where
      accepted :
          verify p now secret submitted ≡ ok true
          → (step : ℕ) × (Near now step × (code p secret step ≡ ok (trim_space submitted)))
      accepted h = elim (Bool-cases (length (trim_space submitted) == digits)) [
        | inl e ↦
            let (step, (m, c)) =
              match_steps_sound (trim_space submitted) (steps_at p (now / step_seconds))
                (rw (e, verify) at h) in
            (step, (member-Near (now / step_seconds) step m, c))
        | inr e ↦ absurd (cc (rw (e, verify) at h))
      ]

      near :
          (step : ℕ) × (Near now step × (code p secret step ≡ ok (trim_space submitted)))
          → verify p now secret submitted ≡ ok true
      near (step, ((low, high), c)) = rw ((==_iff _ _).1 (code-length step _ c)) (
          match_steps_complete (trim_space submitted) (steps_at p (now / step_seconds)) step
            (Near-member (now / step_seconds) step low high) c)

  digit-IsPrinted : (n : ℕ) → (32 < 48 + n % 10) × (48 + n % 10 < 128)
  digit-IsPrinted n = (omega arith, omega arith)

  trim_space-code : (step : ℕ) (x : Bytes) → code p secret step ≡ ok x → trim_space x ≡ x
  unfolding code decimal
  trim_space-code step x h = same _ h
    where
      trimmed : (n : ℕ) → trim_space (decimal 6 n) ≡ decimal 6 n
      trimmed n = trim_space-IsPrinted (decimal 6 n) (
        digit-IsPrinted _,
        (
          digit-IsPrinted _,
          (digit-IsPrinted _, (digit-IsPrinted _, (digit-IsPrinted _, (digit-IsPrinted _, tt)))),
        ),
      )

      same : (key : Option Bytes) → of_key p step key ≡ ok x → trim_space x ≡ x
      same none h = absurd cc
      same (some k) h = let e = ok-injective _ _ h in ap trim_space (sym e) ∙ trimmed _ ∙ e

  -- A code computed at one time is accepted at any other that is at most 30 seconds away.
  pub verify-current_code :
      (now later : ℕ) (x : Bytes)
      → now ≤ later + step_seconds
      → later ≤ now + step_seconds
      → current_code p now secret ≡ ok x
      → verify p later secret x ≡ ok true
  unfolding current_code
  verify-current_code now later x h g c = (verify_iff later x).1 (
    now / step_seconds,
    ((ground (arith, h), ground (arith, g)), c ∙ ap ok (sym (trim_space-code _ x c))),
  )
