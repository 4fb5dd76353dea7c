-- ===== src/Auth/Keys.antt =====
-- Security keys and their ceremonies, internal/auth/securitykey.go. What the code takes from and
-- gives to the protocol's library is a credential that the library has verified, and the data of a
-- ceremony, which only the library reads.
use scout_site.Prelude.{
  ℕ, ◌+◌, ◌*◌, Bool, true, false, not, ◌&&◌, none, some, List, [], ◌∷◌, ◌==◌, if◌then◌else◌, find,
  any, select, update_where,
}
use scout_site.Prelude.Text.{Bytes, codes, same_bytes}
use scout_site.Store.Rows.{Db}
use scout_site.Store.Logins.{Logins, SecurityKey, Ceremony, register, login, WebauthnSession, User}
use scout_site.Store.Sql.{
  no_rows, key_already_registered, key_not_found, no_webauthn_session, Result, ok, err, M, pure,
  lift, ◌>>=◌, ◌>>◌, query, exec, exec_tx, transact, clock, map_error, replace_no_rows,
}
use scout_site.Auth.{Crypto, minute, with_logins, update_logins, find_user}
use scout_site.Auth.Tokens.{is_live}
use scout_site.Auth.SecondFactor.{has_second_factor_in, issue_backup_codes_tx, reset_codes}

abbrev pub webauthn_session_duration : ℕ
webauthn_session_duration = 5 * minute

-- ListSecurityKeys: rows are listed newest first, and the query orders by age.
unfoldable pub list_security_keys : ℕ → M (List SecurityKey)
list_security_keys user = query (λ d. ok (
    mathlib.Core.List.reverse
      (select (λ (k : SecurityKey). k.user_id == user) d.logins.security_keys)))

pub record WebauthnUser : Type 0 where
  pub user : User
  pub keys : List SecurityKey

unfoldable pub load_webauthn_user : ℕ → M WebauthnUser
load_webauthn_user id = do
  u ← query (find_user id)
  keys ← list_security_keys id
  pure (record { user = u; keys = keys })

-- What the library gives of a new credential.
pub record Credential : Type 0 where
  pub id : Bytes
  pub sign_count : ℕ
  pub backup_state : Bool

abbrev pub key_name : Bytes → Bytes
key_name [] = codes "Security key"
key_name (c ∷ s) = c ∷ s

-- `INSERT INTO security_keys`
unfoldable pub insert_key_row : ℕ → Bytes → Credential → ℕ → Db → Result (Unit {0}) × Db
insert_key_row user name cred now d =
    let k : SecurityKey = record {
      id = d.next_id;
      user_id = user;
      name = name;
      credential_id = cred.id;
      sign_count = cred.sign_count;
      backup_state = cred.backup_state;
      last_used_at = none;
    } in
    (
      ok tt,
      record d {
        logins = record d.logins { security_keys = k ∷ d.logins.security_keys };
        next_id = d.next_id + 1;
      },
    )

abbrev pub is_credential : Bytes → SecurityKey → Bool
is_credential id k = same_bytes k.credential_id id

unfoldable pub add_security_key :
    Crypto → List (Bytes × Bytes) → ℕ → Bytes → Credential → M (List Bytes)
add_security_key c draws user name cred = transact (do
  had ← query (λ d. ok (has_second_factor_in user d.logins))
  exists ← query (λ d. ok (any (is_credential cred.id) d.logins.security_keys))
  lift (if exists then err key_already_registered else ok tt)
  exec_tx (insert_key_row user (key_name name) cred)
  if had then pure [] else issue_backup_codes_tx c draws user)

abbrev pub is_key_of : ℕ → ℕ → SecurityKey → Bool
is_key_of user key k = k.id == key && k.user_id == user

-- `DELETE FROM security_keys WHERE id = $1 AND user_id = $2`
unfoldable pub delete_key : ℕ → ℕ → ℕ → Db → Result (Unit {0}) × Db
delete_key user key now d =
    if any (is_key_of user key) d.logins.security_keys
    then (
      ok tt,
      with_logins
          (record d.logins {
            security_keys = select (λ k. not (is_key_of user key k)) d.logins.security_keys;
          })
          d,
    )
    else (err key_not_found, d)

unfoldable pub remove_security_key : ℕ → ℕ → M (Unit {0})
remove_security_key user key = transact (do
  exec_tx (delete_key user key)
  still ← query (λ d. ok (has_second_factor_in user d.logins))
  reset_codes still user)

unfoldable pub update_key_use : Bytes → ℕ → Bool → ℕ → Logins → Logins
update_key_use id sign_count backup_state now l = record l {
  security_keys =
      update_where (is_credential id)
        (λ (k : SecurityKey). record k {
          sign_count = sign_count;
          backup_state = backup_state;
          last_used_at = some now;
        })
        l.security_keys;
}

unfoldable pub record_security_key_use : Bytes → ℕ → Bool → M (Unit {0})
record_security_key_use id sign_count backup_state =
    exec (update_logins (update_key_use id sign_count backup_state))

abbrev same_kind : Ceremony → Ceremony → Bool
same_kind register register = true
same_kind login login = true
same_kind _ _ = false

abbrev pub is_ceremony : ℕ → Ceremony → WebauthnSession → Bool
is_ceremony user kind s = s.user_id == user && same_kind s.kind kind

-- `INSERT INTO webauthn_sessions ... ON CONFLICT (user_id, kind) DO UPDATE`
unfoldable pub upsert_ceremony : ℕ → Ceremony → Bytes → ℕ → ℕ → Logins → Logins
upsert_ceremony user kind content expires now l = record l {
  webauthn_sessions =
      record { user_id = user; kind = kind; content = content; expires_at = expires }
      ∷ select (λ s. not (is_ceremony user kind s)) l.webauthn_sessions;
}

unfoldable pub save_webauthn_session : ℕ → Ceremony → Bytes → M (Unit {0})
save_webauthn_session user kind content = do
  now ← clock
  exec (update_logins (upsert_ceremony user kind content (now + webauthn_session_duration)))

abbrev pub is_live_ceremony : ℕ → Ceremony → ℕ → WebauthnSession → Bool
is_live_ceremony user kind now s = is_ceremony user kind s && is_live now s.expires_at

-- `DELETE FROM webauthn_sessions ... RETURNING data`
unfoldable pub take_ceremony : ℕ → Ceremony → ℕ → Db → Result Bytes × Db
take_ceremony user kind now d =
    elim (find (is_live_ceremony user kind now) d.logins.webauthn_sessions) [
      | none ↦ (err no_rows, d)
      | some s ↦ (
        ok s.content,
        with_logins
            (record d.logins {
              webauthn_sessions =
                  select (λ x. not (is_live_ceremony user kind now x)) d.logins.webauthn_sessions;
            })
            d,
      )
    ]

unfoldable pub take_webauthn_session : ℕ → Ceremony → M Bytes
take_webauthn_session user kind =
    map_error (replace_no_rows no_webauthn_session) (exec (take_ceremony user kind))
