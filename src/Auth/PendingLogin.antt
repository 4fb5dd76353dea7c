-- ===== src/Auth/PendingLogin.antt =====
-- Logins that wait for their second step, internal/auth/totp.go.
pub mod Quiet
pub mod Left
pub mod Attempts
use scout_site.Prelude.{
  ℕ, ◌+◌, ◌*◌, Bool, true, false, not, ◌&&◌, Option, none, some, List, [], ◌∷◌, ltb, leb,
  if◌then◌else◌, find, any, select, update_where,
}
use scout_site.Prelude.Text.{Bytes, same_bytes}
use scout_site.Store.Rows.{Db}
use scout_site.Store.Logins.{Logins, PendingLogin}
use scout_site.Store.Sql.{
  no_rows, invalid_pending_login, invalid_totp_code, Result, ok, err, M, pure, raise, lift, ◌>>=◌,
  ◌>>◌, query, exec, exec_tx, clock, map_error, replace_no_rows, begin, close_tx,
}
use scout_site.Twofactor.{Primitives}
use scout_site.Auth.{Crypto, drawn, minute, with_logins, update_logins}
use scout_site.Auth.Tokens.{is_live, row_of, query_now}
use scout_site.Auth.SecondFactor.{verify_second_factor_code}

abbrev pub pending_two_factor_duration : ℕ
pending_two_factor_duration = 5 * minute

abbrev pub max_pending_two_factor_attempts : ℕ
max_pending_two_factor_attempts = 5

abbrev pub is_login : Bytes → PendingLogin → Bool
is_login hash p = same_bytes p.token hash

abbrev pub is_live_login : Bytes → ℕ → PendingLogin → Bool
is_live_login hash now p = is_login hash p && is_live now p.expires_at

unfoldable pub insert_pending_login : Bytes → ℕ → Bytes → ℕ → ℕ → Logins → Logins
insert_pending_login hash user next expires now l = record l {
  pending_two_factor_logins =
      record { token = hash; user_id = user; next = next; expires_at = expires; attempts = 0 }
      ∷ l.pending_two_factor_logins;
}

abbrev pub without_login : Bytes → List PendingLogin → List PendingLogin
without_login hash = select (λ p. not (is_login hash p))

-- `DELETE FROM pending_two_factor_logins WHERE token = $1`
unfoldable pub delete_login : Bytes → ℕ → Logins → Logins
delete_login hash now l = record l {
  pending_two_factor_logins = without_login hash l.pending_two_factor_logins;
}

abbrev pub tried : PendingLogin → PendingLogin
tried p = record p { attempts = p.attempts + 1 }

-- `UPDATE pending_two_factor_logins SET attempts = attempts + 1 WHERE token = $1`
unfoldable pub count_attempt : Bytes → ℕ → Logins → Logins
count_attempt hash now l = record l {
  pending_two_factor_logins = update_where (is_login hash) tried l.pending_two_factor_logins;
}

unfoldable pub find_live_login : Bytes → ℕ → Db → Result PendingLogin
find_live_login hash now d =
    row_of (find (is_live_login hash now) d.logins.pending_two_factor_logins)

-- `DELETE FROM pending_two_factor_logins WHERE token = $1 AND expires_at > now()`
unfoldable pub delete_live_login : Bytes → ℕ → Db → Result (Unit {0}) × Db
delete_live_login hash now d =
    if any (is_live_login hash now) d.logins.pending_two_factor_logins
    then (
      ok tt,
      with_logins
          (record d.logins {
            pending_two_factor_logins =
                select (λ p. not (is_live_login hash now p)) d.logins.pending_two_factor_logins;
          })
          d,
    )
    else (err invalid_pending_login, d)

abbrev pub is_open_login : Bytes → ℕ → PendingLogin → Bool
is_open_login hash now p =
    is_live_login hash now p && ltb p.attempts max_pending_two_factor_attempts

-- One statement and the COMMIT.
abbrev pub last_statement : (ℕ → Logins → Logins) → M (Unit {0})
last_statement f = close_tx (exec_tx (update_logins f))

module _ (c : Crypto) where
  unfoldable pub create_pending_two_factor_login : Option Bytes → ℕ → Bytes → M (Bytes × ℕ)
  create_pending_two_factor_login draw user next = do
    token ← lift (drawn draw)
    now ← clock
    exec (
        update_logins
          (insert_pending_login (c.hash_token token) user next (now + pending_two_factor_duration)))
    pure (token, now + pending_two_factor_duration)

  unfoldable pub pending_two_factor_login_exists : Bytes → M Bool
  pending_two_factor_login_exists token = query_now (λ now d.
      ok (any (is_live_login (c.hash_token token) now) d.logins.pending_two_factor_logins))

  -- What follows the check of the code; the code's own writes are not part of the transaction.
  abbrev pub answer : Bytes → PendingLogin → Bool → M (ℕ × Bytes)
  answer token p true =
      last_statement (delete_login (c.hash_token token)) >> pure (p.user_id, p.next)
  answer token p false =
      last_statement (count_attempt (c.hash_token token)) >> raise invalid_totp_code

  -- A pending login with too many attempts is discarded.
  abbrev pub discard : Bytes → M (ℕ × Bytes)
  discard token = last_statement (delete_login (c.hash_token token)) >> raise invalid_pending_login

  unfoldable pub verify_pending_two_factor_login : Primitives → Bytes → Bytes → M (ℕ × Bytes)
  verify_pending_two_factor_login p token code = do
    begin
    row ←
        map_error (replace_no_rows invalid_pending_login)
          (query_now (find_live_login (c.hash_token token)))
    if leb max_pending_two_factor_attempts row.attempts
        then discard token
        else verify_second_factor_code c p row.user_id code >>= answer token row

  unfoldable pub pending_two_factor_login_owner : Bytes → M (ℕ × Bytes)
  pending_two_factor_login_owner token = do
    row ← map_error (replace_no_rows invalid_pending_login) (
        query_now (λ now d.
          row_of
            (find (is_open_login (c.hash_token token) now) d.logins.pending_two_factor_logins)))
    pure (row.user_id, row.next)

  unfoldable pub record_pending_two_factor_failure : Bytes → M (Unit {0})
  record_pending_two_factor_failure token =
      exec (update_logins (count_attempt (c.hash_token token)))

  unfoldable pub consume_pending_two_factor_login : Bytes → M (Unit {0})
  consume_pending_two_factor_login token = exec (delete_live_login (c.hash_token token))
