-- ===== src/Auth/Lockout/Refines.antt =====
-- CheckLockout answers as the history of an address says.
use mathlib.Core.Path.{subst}
use scout_site.Prelude.{ℕ, ◌≡◌, refl, sym, ap, ◌∙◌, inl, inr, none, List, [], ◌∷◌, Bool-cases}
use scout_site.Prelude.Text.{Bytes, same_bytes, same_bytes_eq}
use scout_site.Store.Rows.{Db}
use scout_site.Store.Logins.{Logins}
use scout_site.Store.Sql.{
  Result, ok, World, settled, committed, clock, pure, query, next_fault, later_faults, ◌>>=◌,
}
use scout_site.Store.Calm.{calm, exec-calm}
use scout_site.Auth.{normalize_email, with_logins, update_logins}
use scout_site.Auth.Lockout.{
  lockout_of, check_lockout, upsert_failure, record_login_failure, delete_failures,
  clear_login_failures,
}
use scout_site.Auth.Lockout.Burst.{
  Attempt, failed, cleared, happen, history, is_locked, Represents, row_at, lockout_of-is_locked,
  row_at-upsert_failure, row_at-upsert_elsewhere, again-Represents, find-select_here,
  find-select_elsewhere,
}

pub check_lockout-calm :
    (email : Bytes) (now : ℕ) (d : Db)
    → check_lockout email (calm now d)
      ≡ (ok (lockout_of now (row_at (normalize_email email) d.logins)), calm now d)
unfolding check_lockout query clock pure next_fault later_faults ◌>>=◌
check_lockout-calm email now d = refl

abbrev pub after_failure : Bytes → ℕ → Db → Db
after_failure email now d =
    committed (with_logins (upsert_failure (normalize_email email) now d.logins) d)

pub record_login_failure-calm :
    (email : Bytes) (now : ℕ) (d : Db)
    → d.touched ≡ []
    → record_login_failure email (calm now d) ≡ (ok tt, calm now (after_failure email now d))
unfolding record_login_failure settled
record_login_failure-calm email now d idle =
    exec-calm now (update_logins (upsert_failure (normalize_email email))) tt d _ refl
      (ap (λ t. settled t d.postings) idle)

abbrev after_clearing : Bytes → ℕ → Db → Db
after_clearing email now d =
    committed (with_logins (delete_failures (normalize_email email) now d.logins) d)

clear_login_failures-calm :
    (email : Bytes) (now : ℕ) (d : Db)
    → d.touched ≡ []
    → clear_login_failures email (calm now d) ≡ (ok tt, calm now (after_clearing email now d))
unfolding clear_login_failures settled
clear_login_failures-calm email now d idle =
    exec-calm now (update_logins (delete_failures (normalize_email email))) tt d _ refl
      (ap (λ t. settled t d.postings) idle)

-- One event, in the table and in the history.
failure-Represents :
    (key email : Bytes) (now : ℕ) (l : Logins) (ts : List ℕ)
    → Represents (row_at key l) ts
    → Represents
        (row_at key (upsert_failure (normalize_email email) now l))
        (history key (failed email now ∷ []) ts)
failure-Represents key email now l ts r =
    elim (Bool-cases (same_bytes (normalize_email email) key)) [
      | inl same ↦ rw same (
          subst (λ z. Represents (row_at key (upsert_failure z now l)) (now ∷ ts))
            (sym (same_bytes_eq (normalize_email email) key same))
            (subst (λ o. Represents o (now ∷ ts)) (sym (row_at-upsert_failure key now l))
              (again-Represents now (row_at key l) key ts r)))
      | inr other ↦ rw other (
          subst (λ o. Represents o ts)
            (sym (row_at-upsert_elsewhere (normalize_email email) key now l other)) r)
    ]

clearing-Represents :
    (key email : Bytes) (now : ℕ) (l : Logins) (ts : List ℕ)
    → Represents (row_at key l) ts
    → Represents
        (row_at key (delete_failures (normalize_email email) now l))
        (history key (cleared email now ∷ []) ts)
unfolding delete_failures
clearing-Represents key email now l ts r =
    elim (Bool-cases (same_bytes (normalize_email email) key)) [
      | inl same ↦ rw same (
          subst (λ z. Represents (row_at key (delete_failures z now l)) [])
            (sym (same_bytes_eq (normalize_email email) key same))
            (subst (λ o. Represents o []) (sym (find-select_here key l.login_failures)) tt))
      | inr other ↦ rw other (
          subst (λ o. Represents o ts)
            (sym (find-select_elsewhere (normalize_email email) key l.login_failures other)) r)
    ]

happen-Represents :
    (key : Bytes) (es : List Attempt) (d : Db) (ts : List ℕ)
    → d.touched ≡ []
    → Represents (row_at key d.logins) ts
    → Represents (row_at key (happen es d).logins) (history key es ts)
unfolding happen
happen-Represents key [] d ts idle r = r
happen-Represents key (failed email now ∷ es) d ts idle r =
    subst
      (λ z. Represents (row_at key (happen es z).logins) (history key (failed email now ∷ es) ts))
      (sym (
        ap (λ (y : Result (Unit {0}) × World). y.1.db)
          (record_login_failure-calm email now d idle)))
      (happen-Represents key es (after_failure email now d) _ refl
        (failure-Represents key email now d.logins ts r))
happen-Represents key (cleared email now ∷ es) d ts idle r =
    subst
      (λ z. Represents (row_at key (happen es z).logins) (history key (cleared email now ∷ es) ts))
      (sym (
        ap (λ (y : Result (Unit {0}) × World). y.1.db)
          (clear_login_failures-calm email now d idle)))
      (happen-Represents key es (after_clearing email now d) _ refl
        (clearing-Represents key email now d.logins ts r))

-- Let an address have no row of failures, and let failures and clearings of this and other addresses
-- be recorded, each without a fault. Then CheckLockout answers that it is locked out exactly if the
-- latest of its failures since it was last cleared lies within the window, and the burst that this
-- one ends, each failure of which lies within the window of the one before, has at least
-- MaxLoginFailures. The burst as a whole may be longer than the window: failures older than it count.
pub check_lockout-is_locked :
    (email : Bytes) (es : List Attempt) (now : ℕ) (d : Db)
    → d.touched ≡ []
    → row_at (normalize_email email) d.logins ≡ none
    → (check_lockout email (calm now (happen es d))).0
      ≡ ok (is_locked now (history (normalize_email email) es []))
check_lockout-is_locked email es now d idle fresh =
    ap (λ (y : Result _ × World). y.0) (check_lockout-calm email now (happen es d))
    ∙ ap ok (
        lockout_of-is_locked now (row_at (normalize_email email) (happen es d).logins) _ (
          happen-Represents (normalize_email email) es d [] idle
            (subst (λ o. Represents o []) (sym fresh) tt)))
