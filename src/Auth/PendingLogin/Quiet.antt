-- ===== src/Auth/PendingLogin/Quiet.antt =====
-- Checking a code says nothing of its own about the login that waits, and leaves its rows alone.

use scout_site.Prelude.{
  ℕ, ◌/◌, ◌≡◌, refl, sym, ap, ◌∙◌, inl, inr, Bool, true, false, Option, none, some, List, [], ◌∷◌,
  ◌==◌, if◌then◌else◌, length, Bool-cases,
}
use scout_site.Prelude.Text.{Bytes, same_bytes, trim_space}
use scout_site.Store.Rows.{Db}
use scout_site.Store.Logins.{PendingLogin, BackupCode}
use scout_site.Store.Sql.{Error, invalid_totp_code, Result, ok, err, M, ◌>>=◌, query}
use scout_site.Store.Post.{
  Post, Post-pure, Post-raise, Post-lift, Post-query, Post-exec, Post-clock, Post-bind,
}
use scout_site.Twofactor.{Primitives, step_seconds, steps_at, of_key, code, verify, match_steps}
use scout_site.Auth.{Crypto}
use scout_site.Auth.SecondFactor.{
  redeem_code, redeem_first, try_backup_codes, confirmed_secret, check_app, second_factor_status,
  verify_second_factor_code,
}

abbrev pub rows_of : Db → List PendingLogin
rows_of d = d.logins.pending_two_factor_logins

abbrev pub is_wrong_error : Error → Bool
is_wrong_error invalid_totp_code = true
is_wrong_error _ = false

-- Whether a result says that the code that was given is wrong.
abbrev pub is_wrong_code : {A : Type 0} → Result A → Bool
is_wrong_code (ok a) = false
is_wrong_code (err e) = is_wrong_error e

-- The rows are as they were, and the result is not that the code is wrong.
abbrev pub Quiet : List PendingLogin → {A : Type 0} → Result A → Db → Type 0
Quiet rows r d = (rows_of d ≡ rows) × (is_wrong_code r ≡ false)

module _ (rows : List PendingLogin) where
  abbrev pub Same : Db → Type 0
  Same d = rows_of d ≡ rows

  pub query-Quiet :
      {A : Type 0} (f : Db → A) → Post Same (query (λ d. ok (f d))) (λ r d. Quiet rows r d)
  query-Quiet f = Post-query _ (λ d e. (e, refl)) (λ d e. (e, refl))

  of_key-quiet :
      (p : Primitives) (step : ℕ) (key : Option Bytes) → is_wrong_code (of_key p step key) ≡ false
  of_key-quiet p step none = refl
  of_key-quiet p step (some key) = refl

  match_steps-quiet :
      (p : Primitives) (secret submitted : Bytes) (steps : List ℕ)
      → is_wrong_code (match_steps p secret submitted steps) ≡ false
  unfolding match_steps code
  match_steps-quiet p secret submitted [] = refl
  match_steps-quiet p secret submitted (step ∷ steps) =
      next (match_steps p secret submitted steps) (match_steps-quiet p secret submitted steps)
        (code p secret step) (of_key-quiet p step _)
    where
      next :
          (rest : Result Bool)
          → is_wrong_code rest ≡ false
          → (r : Result Bytes) → is_wrong_code r ≡ false
          → is_wrong_code (elim r [
            | err e ↦ err e
            | ok want ↦ if same_bytes want submitted then ok true else rest
          ])
            ≡ false
      next rest h (err e) k = k
      next rest h (ok want) k = elim (Bool-cases (same_bytes want submitted)) [
        | inl e ↦ rw e refl
        | inr e ↦ rw e h
      ]

  verify-quiet :
      (p : Primitives) (now : ℕ) (secret submitted : Bytes)
      → is_wrong_code (verify p now secret submitted) ≡ false
  unfolding verify
  verify-quiet p now secret submitted = elim (Bool-cases (length (trim_space submitted) == 6)) [
    | inl e ↦
        rw e (match_steps-quiet p secret (trim_space submitted) (steps_at p (now / step_seconds)))
    | inr e ↦ rw e refl
  ]

  bind-Quiet :
      {A B : Type 0} (m : M A) (f : A → M B)
      → Post Same m (Quiet rows)
      → ((a : A) → Post Same (f a) (Quiet rows))
      → Post Same (m >>= f) (Quiet rows)
  bind-Quiet m f hm hf =
      Post-bind {S = Quiet rows} m f hm (λ a. record { at = λ w q. (hf a).at w q.0 }) (λ e d h. h)

  check_app-Quiet :
      (p : Primitives) (user : ℕ) (submitted : Bytes) (secret : Option Bytes)
      → Post Same (check_app p user submitted secret) (Quiet rows)
  unfolding second_factor_status
  check_app-Quiet p user submitted (some secret) =
      bind-Quiet _ _ (Post-clock (λ now d e. (e, refl)))
        (λ now. Post-lift _ (λ d e. (e, verify-quiet p now secret submitted)))
  check_app-Quiet p user submitted none = bind-Quiet _ _ (query-Quiet _) (λ s.
      elim (Bool-cases (s.1 == 0)) [
        | inl e ↦ rw e (Post-raise _ (λ d h. (h, refl)))
        | inr e ↦ rw e (Post-pure _ (λ d h. (h, refl)))
      ])

  redeem_first-Quiet : (o : Option BackupCode) → Post Same (redeem_first o) (Quiet rows)
  unfolding redeem_code
  redeem_first-Quiet none = Post-pure _ (λ d e. (e, refl))
  redeem_first-Quiet (some b) =
      bind-Quiet _ _
        (Post-exec _ (λ now d d' u e h. (ap rows_of (sym (ap (λ y. y.1) h)) ∙ e, refl))
          (λ now d d' x e h. absurd (cc (ap (λ y. y.0) h))) (λ d e. (e, refl)))
        (λ u. Post-pure _ (λ d h. (h, refl)))

  pub verify_second_factor_code-Quiet :
      (c : Crypto) (p : Primitives) (user : ℕ) (submitted : Bytes)
      → Post Same (verify_second_factor_code c p user submitted) (Quiet rows)
  unfolding verify_second_factor_code try_backup_codes
  verify_second_factor_code-Quiet c p user submitted = bind-Quiet _ _ (query-Quiet _) (λ row.
      bind-Quiet _ _ (check_app-Quiet p user submitted (confirmed_secret row)) (λ accepted.
        elim (Bool-cases accepted) [
          | inl e ↦ rw e (Post-pure _ (λ d h. (h, refl)))
          | inr e ↦ rw e (bind-Quiet _ _ (query-Quiet _) (λ found. redeem_first-Quiet _))
        ]))
