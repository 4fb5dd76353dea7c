-- ===== src/Auth/PendingLogin/Attempts.antt =====
-- How many codes can be tried at a login that waits for its second step.
use mathlib.Core.Path.{subst}
use scout_site.Prelude.{
  ℕ, ◌+◌, ◌≤◌, ◌≡◌, refl, sym, ap, ◌∙◌, inl, inr, Bool, true, false, Option, none, some, List, [],
  ◌∷◌, arith, leb, if◌then◌else◌, find, update_where, Bool-cases,
}
use scout_site.Prelude.Text.{Bytes}
use scout_site.Store.Rows.{Db}
use scout_site.Store.Logins.{PendingLogin}
use scout_site.Store.Sql.{
  Error, db_error, no_rows, invalid_pending_login, replace_no_rows, Result, ok, err, World, ◌>>=◌,
  map_error, begin,
}
use scout_site.Store.Post.{
  Post, Post-pure, Post-raise, Post-query, Post-exec, Post-map_error, Post-close_tx, Post-clock,
  Post-bind,
}
use scout_site.Twofactor.{Primitives}
use scout_site.Auth.{Crypto}
use scout_site.Auth.Tokens.{row_of, query_now}
use scout_site.Auth.SecondFactor.{verify_second_factor_code}
use scout_site.Auth.PendingLogin.{
  max_pending_two_factor_attempts, is_login, is_live_login, delete_login, tried, count_attempt,
  find_live_login, answer, discard, verify_pending_two_factor_login,
  record_pending_two_factor_failure,
}
use scout_site.Auth.PendingLogin.Quiet.{
  rows_of, is_wrong_error, is_wrong_code, Quiet, Same, query-Quiet, verify_second_factor_code-Quiet,
}
use scout_site.Auth.PendingLogin.Left.{
  attempts_left, attempts_left-without, attempts_left-tried, attempts_left-spent,
}

-- Whether a result tells if the code that was given is right.
abbrev pub is_reply : {A : Type 0} → Result A → Bool
is_reply (ok a) = true
is_reply (err e) = is_wrong_error e

module _ (hash : Bytes) (rows : List PendingLogin) where
  -- A reply takes an attempt.
  abbrev Charged : {A : Type 0} → Result A → Db → Type 0
  Charged r d =
      attempts_left hash (rows_of d) + (if is_reply r then 1 else 0) ≤ attempts_left hash rows

  -- The last statement took an attempt, or failed and changed no row.
  abbrev Taken : Result (Unit {0}) → Db → Type 0
  Taken (ok u) d = attempts_left hash (rows_of d) + 1 ≤ attempts_left hash rows
  Taken (err e) d = (rows_of d ≡ rows) × (e ≡ db_error)

  Charged-failed :
      (e : Error) (d : Db)
      → rows_of d ≡ rows
      → is_wrong_error e ≡ false
      → attempts_left hash (rows_of d) + (if is_wrong_error e then 1 else 0)
        ≤ attempts_left hash rows
  Charged-failed e d same quiet = rw (same, quiet) (omega arith)

  module _ (c : Crypto) (token : Bytes) (is_hash : c.hash_token token ≡ hash) where
    answer-Charged :
        (row : PendingLogin) (accepted : Bool)
        → 1 ≤ attempts_left hash rows
        → attempts_left hash (update_where (is_login hash) tried rows) + 1 ≤ attempts_left hash rows
        → Post (Same rows) (answer c token row accepted) Charged
    unfolding delete_login count_attempt
    answer-Charged row true some_left less =
        Post-bind {S = Taken} _ _
          (Post-close_tx _ tt
            (λ now d e. rw (e, is_hash, attempts_left-without hash rows) some_left)
            (λ d e. (e, refl)))
          (λ u. Post-pure _ (λ d h. h)) (λ e d h. Charged-failed e d h.0 (ap is_wrong_error h.1))
    answer-Charged row false some_left less =
        Post-bind {S = Taken} _ _
          (Post-close_tx _ tt (λ now d e. rw (e, is_hash) less) (λ d e. (e, refl)))
          (λ u. Post-raise _ (λ d h. h)) (λ e d h. Charged-failed e d h.0 (ap is_wrong_error h.1))

    -- No more than was left is left, and the result is not that the code is wrong.
    abbrev NoMore : {A : Type 0} → Result A → Db → Type 0
    NoMore r d =
        (attempts_left hash (rows_of d) ≤ attempts_left hash rows) × (is_wrong_code r ≡ false)

    discard-Charged : Post (Same rows) (discard c token) Charged
    unfolding delete_login
    discard-Charged =
        Post-bind {S = NoMore} _ _
          (Post-close_tx _ tt
            (λ now d e. (rw (e, is_hash, attempts_left-without hash rows) (omega arith), refl))
            (λ d e. (rw e (omega arith), refl)))
          (λ u. Post-raise _ (λ d h. omega (arith, h.0))) (λ e d h. rw h.1 (omega (arith, h.0)))

    -- What the lookup of the pending login leaves.
    abbrev Found : Result PendingLogin → Db → Type 0
    Found (ok p) d =
        (rows_of d ≡ rows) × ((now : ℕ) × (find (is_live_login hash now) rows ≡ some p))
    Found (err e) d = (rows_of d ≡ rows) × (is_wrong_error e ≡ false)

    lookup-Found :
        Post
          (Same rows)
          (map_error
            (replace_no_rows invalid_pending_login)
            (query_now (find_live_login (c.hash_token token))))
          Found
    unfolding find_live_login replace_no_rows
    lookup-Found = Post-map_error _ _ (
        Post-bind {S = Quiet rows} _ _ (Post-clock (λ now d e. (e, refl)))
          (λ now. Post-query _ (λ d e. row now _ d e.0 refl) (λ d e. (e.0, refl)))
          (λ e d h. (h.0, replaced e h.1)))
      where
        replaced :
            (e : Error)
            → is_wrong_error e ≡ false
            → is_wrong_error (replace_no_rows invalid_pending_login e) ≡ false
        replaced no_rows h = refl
        replaced e h = h

        row :
            (now : ℕ) (o : Option PendingLogin) (d : Db)
            → rows_of d ≡ rows
            → find (is_live_login (c.hash_token token) now) (rows_of d) ≡ o
            → Found
                (elim (row_of o) [
                  | ok a ↦ ok a
                  | err e ↦ err (replace_no_rows invalid_pending_login e)
                ])
                d
        row now none d e h = (e, refl)
        row now (some p) d e h = (
          e,
          (
            now,
            ap (λ hs. find (is_live_login hs now) rows) (sym is_hash)
                ∙ ap (find (is_live_login (c.hash_token token) now)) (sym e)
                ∙ h,
          ),
        )

    verify-Charged :
        (p : Primitives) (submitted : Bytes)
        → Post (Same rows) (verify_pending_two_factor_login c p token submitted) Charged
    unfolding verify_pending_two_factor_login begin
    verify-Charged p submitted =
        Post-bind {S = Quiet rows} _ _ (query-Quiet rows _)
          (λ u. record { at = λ w q. looked.at w q.0 }) (λ e d h. Charged-failed e d h.0 h.1)
      where
        checked :
            (row : PendingLogin)
            → 1 ≤ attempts_left hash rows
            → attempts_left hash (update_where (is_login hash) tried rows) + 1
              ≤ attempts_left hash rows
            → Post
                (Same rows)
                (verify_second_factor_code c p row.user_id submitted >>= answer c token row)
                Charged
        checked row some_left less =
            Post-bind {S = Quiet rows} _ _
              (verify_second_factor_code-Quiet rows c p row.user_id submitted)
              (λ accepted. record {
                at = λ w q. (answer-Charged row accepted some_left less).at w q.0;
              })
              (λ e d h. Charged-failed e d h.0 h.1)

        looked :
            Post
              (Same rows)
              (map_error
                  (replace_no_rows invalid_pending_login)
                  (query_now (find_live_login (c.hash_token token)))
                >>= λ row.
                    if leb max_pending_two_factor_attempts row.attempts
                    then discard c token
                    else verify_second_factor_code c p row.user_id submitted >>= answer c token row)
              Charged
        looked =
            Post-bind {S = Found} _ _ lookup-Found
              (λ row. record {
                at = λ w q. elim (Bool-cases (leb max_pending_two_factor_attempts row.attempts)) [
                  | inl full ↦ rw full (discard-Charged.at w q.0)
                  | inr room ↦
                      let less = attempts_left-spent hash q.1.0 rows row q.1.1 room in
                      rw room ((checked row (omega (arith, less)) less).at w q.0)
                ];
              })
              (λ e d h. Charged-failed e d h.0 h.1)

-- What may be done with the token of a pending login: a code is submitted, or the answer of a
-- security key turned out wrong.
pub data Try : Type 0 where
  code_submitted : Bytes → Try
  key_failed : Try

-- When it is done, with the statements that fail.
pub record Attempt : Type 0 where
  pub now : ℕ
  pub faults : List Bool
  pub try : Try

record_failure-NoMore :
    (c : Crypto) (token : Bytes) (rows : List PendingLogin)
    → Post (Same rows) (record_pending_two_factor_failure c token) (λ _ d.
      attempts_left (c.hash_token token) (rows_of d) ≤ attempts_left (c.hash_token token) rows)
unfolding record_pending_two_factor_failure count_attempt
record_failure-NoMore c token rows =
    Post-exec _
      (λ now d d' u e h.
        subst
          (λ x.
            attempts_left (c.hash_token token) (rows_of x)
            ≤ attempts_left (c.hash_token token) rows)
          (ap (λ y. y.1) h) (rw e (attempts_left-tried (c.hash_token token) rows)))
      (λ now d d' x e h. absurd (cc (ap (λ y. y.0) h))) (λ d e. rw e (omega arith))

module _ (c : Crypto) (p : Primitives) (token : Bytes) where
  -- How many of the attempts tell whether a code is right.
  unfoldable pub replies : List Attempt → Db → ℕ
  replies [] d = 0
  replies (a ∷ rest) d =
      let world : World = record { db = d; faults = a.faults; now = a.now } in
      elim a.try [
        | code_submitted submitted ↦
            (let (r, w) = verify_pending_two_factor_login c p token submitted world in
              (if is_reply r then 1 else 0) + replies rest w.db)
        | key_failed ↦ replies rest (record_pending_two_factor_failure c token world).1.db
      ]

  -- However often a login that waits for its second step is tried, at whatever times, with whatever
  -- codes, and whichever statements fail, at most as many of the calls of
  -- VerifyPendingTwoFactorLogin tell whether a code is right as the rows of its token have attempts
  -- left, of the five of each.
  pub replies-bounded :
      (rest : List Attempt) (d : Db)
      → replies rest d ≤ attempts_left (c.hash_token token) d.logins.pending_two_factor_logins
  unfolding replies
  replies-bounded [] d = omega arith
  replies-bounded (a ∷ rest) d = one (λ x. replies-bounded rest x) a.try
    where
      world : World
      world = record { db = d; faults = a.faults; now = a.now }

      one :
          ((x : Db) → replies rest x ≤ attempts_left (c.hash_token token) (rows_of x))
          → (t : Try)
          → (elim t [
            | code_submitted submitted ↦
                (let (r, w) = verify_pending_two_factor_login c p token submitted world in
                  (if is_reply r then 1 else 0) + replies rest w.db)
            | key_failed ↦ replies rest (record_pending_two_factor_failure c token world).1.db
          ])
            ≤ attempts_left (c.hash_token token) d.logins.pending_two_factor_logins
      one later (code_submitted submitted) = omega (
        arith,
        (verify-Charged (c.hash_token token) (rows_of d) c token refl p submitted).at world refl,
        later _,
      )
      one later key_failed =
          omega (arith, (record_failure-NoMore c token (rows_of d)).at world refl, later _)
