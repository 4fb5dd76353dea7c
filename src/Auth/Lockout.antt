-- ===== src/Auth/Lockout.antt =====
-- Authenticate and the counts of failures and of reset requests, internal/auth/auth.go.
pub mod Burst
pub mod Refines
pub mod Guesses
use scout_site.Prelude.{
  ℕ, ◌+◌, Bool, true, false, not, Option, none, some, List, [], ◌∷◌, ltb, leb, if◌then◌else◌, find,
  any, select, update_where,
}
use scout_site.Prelude.Text.{Bytes, same_bytes}
use scout_site.Store.Rows.{Db}
use scout_site.Store.Logins.{Logins, User, Failures, ResetRequests}
use scout_site.Store.Sql.{
  best_effort, Error, no_rows, invalid_credentials, account_locked, Result, ok, err, World, M, pure,
  raise, lift, ◌>>=◌, ◌>>◌, query, exec, clock, if_no_rows,
}
use scout_site.Auth.{
  Crypto, max_login_failures, login_lockout_window, max_password_reset_requests,
  password_reset_request_window, normalize_email, update_logins, with_logins, find_by_email,
}

abbrev pub is_of : Bytes → Failures → Bool
is_of email f = same_bytes f.email email

-- Whether a time lies more than `window` seconds before `now`: `time.Since(t) > window`, and
-- `t < now - window` in SQL.
abbrev pub is_stale : ℕ → ℕ → ℕ → Bool
is_stale window now t = ltb (t + window) now

-- The decision of CheckLockout on the row it has read, if there is one.
abbrev pub lockout_of : ℕ → Option Failures → Bool
lockout_of now none = false
lockout_of now (some f) =
    if is_stale login_lockout_window now f.last_failure_at
    then false
    else leb max_login_failures f.failure_count

unfoldable pub check_lockout : Bytes → M Bool
check_lockout email = do
  row ← query (λ d. ok (find (is_of (normalize_email email)) d.logins.login_failures))
  now ← clock
  pure (lockout_of now row)

abbrev pub failed_again : ℕ → Failures → Failures
failed_again now f =
    if is_stale login_lockout_window now f.last_failure_at
    then record f { failure_count = 1; first_failure_at = now; last_failure_at = now }
    else record f { failure_count = f.failure_count + 1; last_failure_at = now }

-- `INSERT INTO login_failures ... ON CONFLICT (email) DO UPDATE`
unfoldable pub upsert_failure : Bytes → ℕ → Logins → Logins
upsert_failure email now l =
    if any (is_of email) l.login_failures
    then record l {
      login_failures = update_where (is_of email) (failed_again now) l.login_failures;
    }
    else record l {
      login_failures =
          record { email = email; failure_count = 1; first_failure_at = now; last_failure_at = now }
          ∷ l.login_failures;
    }

unfoldable pub record_login_failure : Bytes → M (Unit {0})
record_login_failure email = exec (update_logins (upsert_failure (normalize_email email)))

-- `DELETE FROM login_failures WHERE email = $1`
unfoldable pub delete_failures : Bytes → ℕ → Logins → Logins
delete_failures email now l = record l {
  login_failures = select (λ f. not (is_of email f)) l.login_failures;
}

unfoldable pub clear_login_failures : Bytes → M (Unit {0})
clear_login_failures email = exec (update_logins (delete_failures (normalize_email email)))

-- A query of which every error is taken for an unknown address.
unfoldable pub or_none : {A : Type 0} → M A → M (Option A)
or_none m w = let (r, w') = m w in elim r [ ok a ↦ (ok (some a), w') | err e ↦ (ok none, w') ]

abbrev pub accepts : Crypto → Bytes → Option User → Option User
accepts c password none = none
accepts c password (some u) = if c.matches u.password_hash password then some u else none

-- What Authenticate does once the password is known to be right or wrong.
abbrev pub conclude : Bytes → Option User → M User
conclude email none = best_effort (record_login_failure email) >> raise invalid_credentials
conclude email (some u) = best_effort (clear_login_failures email) >> pure u

unfoldable pub authenticate : Crypto → Bytes → Bytes → M User
authenticate c email password = do
  locked ← check_lockout (normalize_email email)
  lift (if locked then err account_locked else ok tt)
  found ← or_none (query (find_by_email (normalize_email email)))
  conclude (normalize_email email) (accepts c password found)

abbrev pub requests_of : Bytes → ResetRequests → Bool
requests_of email r = same_bytes r.email email

abbrev pub requested_again : ℕ → ResetRequests → ResetRequests
requested_again now r =
    if is_stale password_reset_request_window now r.last_request_at
    then record r { request_count = 1; first_request_at = now; last_request_at = now }
    else record r { request_count = r.request_count + 1; last_request_at = now }

abbrev pub first_request : Bytes → ℕ → ResetRequests
first_request email now = record {
  email = email;
  request_count = 1;
  first_request_at = now;
  last_request_at = now;
}

-- `INSERT INTO password_reset_requests ... ON CONFLICT (email) DO UPDATE ... RETURNING`
unfoldable pub upsert_request : Bytes → ℕ → Db → Result ℕ × Db
upsert_request email now d = elim (find (requests_of email) d.logins.password_reset_requests) [
  | none ↦ (
    ok 1,
    with_logins
        (record d.logins {
          password_reset_requests = first_request email now ∷ d.logins.password_reset_requests;
        })
        d,
  )
  | some r ↦ (
    ok (requested_again now r).request_count,
    with_logins
        (record d.logins {
          password_reset_requests =
              update_where (requests_of email) (requested_again now)
                d.logins.password_reset_requests;
        })
        d,
  )
]

unfoldable pub record_and_check_password_reset_request : Bytes → M Bool
record_and_check_password_reset_request email = do
  count ← exec (upsert_request (normalize_email email))
  pure (leb count max_password_reset_requests)

unfoldable pub user_by_email : Bytes → M (Option User)
user_by_email email = or_none (query (find_by_email (normalize_email email)))
