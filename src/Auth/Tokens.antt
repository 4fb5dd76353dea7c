-- ===== src/Auth/Tokens.antt =====
-- Sessions, reset links and pending changes of a temporary password, internal/auth/auth.go.
pub mod Redeem
pub mod Lifetime
use scout_site.Prelude.{
  ℕ, ◌+◌, Bool, true, false, not, ◌&&◌, Option, none, some, List, [], ◌∷◌, ltb, ◌==◌, if◌then◌else◌,
  find, any, select, update_where,
}
use scout_site.Prelude.Text.{Bytes, same_bytes}
use scout_site.Store.Rows.{Db}
use scout_site.Store.Logins.{Logins, User, Session, ResetToken, PendingChange}
use scout_site.Store.Sql.{
  Error, no_rows, invalid_reset_token, invalid_pending_change, Result, ok, err, M, pure, lift,
  ◌>>=◌, ◌>>◌, query, exec, exec_tx, transact, clock, map_error,
}
use scout_site.Auth.{
  Crypto, drawn, session_duration, reset_token_duration, pending_password_change_duration,
  update_logins, find_user,
}
use scout_site.Auth.Lockout.{or_none}

abbrev pub row_of : {A : Type 0} → Option A → Result A
row_of none = err no_rows
row_of (some a) = ok a

-- `expires_at > now()`
abbrev pub is_live : ℕ → ℕ → Bool
is_live now expires_at = ltb now expires_at

abbrev pub is_unused : Option ℕ → Bool
is_unused none = true
is_unused (some t) = false

-- `UPDATE users SET password_hash = $1, must_change_password = false WHERE id = $2`
abbrev pub set_password : ℕ → Bytes → List User → List User
set_password user hash =
    update_where (λ (u : User). u.id == user)
      (λ (u : User). record u { password_hash = hash; must_change_password = false })

unfoldable pub update_password : ℕ → Bytes → ℕ → Logins → Logins
update_password user hash now l = record l { users = set_password user hash l.users }

-- `DELETE FROM sessions WHERE user_id = $1`
unfoldable pub delete_sessions : ℕ → ℕ → Logins → Logins
delete_sessions user now l = record l {
  sessions = select (λ (s : Session). not (s.user_id == user)) l.sessions;
}

-- DestroySessionsForUserTx, inside a transaction.
unfoldable pub destroy_sessions_for_user_tx : ℕ → M (Unit {0})
destroy_sessions_for_user_tx user = exec_tx (update_logins (delete_sessions user))

unfoldable pub insert_reset_token : Bytes → ℕ → ℕ → ℕ → Logins → Logins
insert_reset_token hash user expires now l = record l {
  password_reset_tokens =
      record { token = hash; user_id = user; expires_at = expires; used_at = none }
      ∷ l.password_reset_tokens;
}

unfoldable pub insert_pending_change : Bytes → ℕ → Bytes → ℕ → ℕ → Logins → Logins
insert_pending_change hash user next expires now l = record l {
  pending_password_changes =
      record { token = hash; user_id = user; next = next; expires_at = expires }
      ∷ l.pending_password_changes;
}

unfoldable pub insert_session : Bytes → ℕ → ℕ → ℕ → Logins → Logins
insert_session hash user expires now l = record l {
  sessions = record { token = hash; user_id = user; expires_at = expires } ∷ l.sessions;
}

-- The WHERE clause of ConsumeResetToken.
abbrev pub is_redeemable : Bytes → ℕ → ResetToken → Bool
is_redeemable hash now t =
    same_bytes t.token hash && is_unused t.used_at && is_live now t.expires_at

unfoldable pub find_reset_token : Bytes → ℕ → Db → Result ResetToken
find_reset_token hash now d = row_of (find (is_redeemable hash now) d.logins.password_reset_tokens)

abbrev pub spent : ℕ → ResetToken → ResetToken
spent now t = record t { used_at = some now }

abbrev pub has_token : Bytes → ResetToken → Bool
has_token hash t = same_bytes t.token hash

-- `UPDATE password_reset_tokens SET used_at = now() WHERE token = $1`
unfoldable pub mark_used : Bytes → ℕ → Logins → Logins
mark_used hash now l = record l {
  password_reset_tokens = update_where (has_token hash) (spent now) l.password_reset_tokens;
}

-- Every error of the first query is taken for an unknown token.
abbrev pub replace_error : Error → Error → Error
replace_error instead e = instead

abbrev pub is_pending_change : Bytes → ℕ → PendingChange → Bool
is_pending_change hash now p = same_bytes p.token hash && is_live now p.expires_at

unfoldable pub find_pending_change : Bytes → ℕ → Db → Result PendingChange
find_pending_change hash now d =
    row_of (find (is_pending_change hash now) d.logins.pending_password_changes)

-- `DELETE FROM pending_password_changes WHERE token = $1`
unfoldable pub delete_pending_change : Bytes → ℕ → Logins → Logins
delete_pending_change hash now l = record l {
  pending_password_changes =
      select (λ (p : PendingChange). not (same_bytes p.token hash)) l.pending_password_changes;
}

abbrev pub is_session : Bytes → ℕ → Session → Bool
is_session hash now s = same_bytes s.token hash && is_live now s.expires_at

abbrev pub user_of : Option Session → Db → Result User
user_of none d = err no_rows
user_of (some s) d = find_user s.user_id d

-- The join of a live session with its user.
unfoldable pub find_session_user : Bytes → ℕ → Db → Result User
find_session_user hash now d = user_of (find (is_session hash now) d.logins.sessions) d

-- A query of the database and its clock.
abbrev pub query_now : {A : Type 0} → (ℕ → Db → Result A) → M A
query_now f = clock >>= λ now. query (f now)

module _ (c : Crypto) where
  unfoldable pub create_reset_token : Option Bytes → ℕ → M (Bytes × ℕ)
  create_reset_token draw user = do
    token ← lift (drawn draw)
    now ← clock
    exec (update_logins (insert_reset_token (c.hash_token token) user (now + reset_token_duration)))
    pure (token, now + reset_token_duration)

  unfoldable pub consume_reset_token : Bytes → Bytes → M ℕ
  consume_reset_token token new_hash = transact (do
    row ←
        map_error (replace_error invalid_reset_token)
          (query_now (find_reset_token (c.hash_token token)))
    exec_tx (update_logins (mark_used (c.hash_token token)))
    exec_tx (update_logins (update_password row.user_id new_hash))
    destroy_sessions_for_user_tx row.user_id
    pure row.user_id)

  unfoldable pub change_password : ℕ → Bytes → M (Unit {0})
  change_password user new_hash = transact (do
    exec_tx (update_logins (update_password user new_hash))
    destroy_sessions_for_user_tx user)

  unfoldable pub create_pending_password_change : Option Bytes → ℕ → Bytes → M (Bytes × ℕ)
  create_pending_password_change draw user next = do
    token ← lift (drawn draw)
    now ← clock
    exec (
        update_logins (
          insert_pending_change (c.hash_token token) user next
            (now + pending_password_change_duration)))
    pure (token, now + pending_password_change_duration)

  unfoldable pub pending_password_change_exists : Bytes → M Bool
  pending_password_change_exists token = query_now (λ now d.
      ok (any (is_pending_change (c.hash_token token) now) d.logins.pending_password_changes))

  unfoldable pub consume_pending_password_change : Bytes → Bytes → M (ℕ × Bytes)
  consume_pending_password_change token new_hash = transact (do
    row ←
        map_error (replace_error invalid_pending_change)
          (query_now (find_pending_change (c.hash_token token)))
    exec_tx (update_logins (delete_pending_change (c.hash_token token)))
    exec_tx (update_logins (update_password row.user_id new_hash))
    pure (row.user_id, row.next))

  unfoldable pub create_session : Option Bytes → ℕ → M (Bytes × ℕ)
  create_session draw user = do
    token ← lift (drawn draw)
    now ← clock
    exec (update_logins (insert_session (c.hash_token token) user (now + session_duration)))
    pure (token, now + session_duration)

  abbrev without_session : Bytes → ℕ → Logins → Logins
  without_session token now l = record l {
    sessions = select (λ (s : Session). not (same_bytes s.token (c.hash_token token))) l.sessions;
  }

  unfoldable pub destroy_session : Bytes → M (Unit {0})
  destroy_session token = exec (update_logins (without_session token))

  unfoldable pub user_for_session : Bytes → M (Option User)
  user_for_session token = or_none (query_now (find_session_user (c.hash_token token)))

abbrev is_family_login : ℕ → User → Bool
is_family_login family u = u.family_id == family && is_unused u.member_id

abbrev same_member : ℕ → Option ℕ → Bool
same_member member none = false
same_member member (some m) = m == member

-- The sessions that are left when those of the users that pass a test are deleted.
unfoldable pub delete_sessions_of : (User → Bool) → ℕ → Logins → Logins
delete_sessions_of chosen now l = record l {
  sessions =
      select (λ (s : Session). not (any (λ (u : User). u.id == s.user_id && chosen u) l.users))
        l.sessions;
}

unfoldable pub destroy_sessions_for_family : ℕ → M (Unit {0})
destroy_sessions_for_family family =
    exec (update_logins (delete_sessions_of (is_family_login family)))

unfoldable pub destroy_sessions_for_member : ℕ → M (Unit {0})
destroy_sessions_for_member member =
    exec (update_logins (delete_sessions_of (λ (u : User). same_member member u.member_id)))
