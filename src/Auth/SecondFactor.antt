-- ===== src/Auth/SecondFactor.antt =====
-- Enrolment of an authenticator app, backup codes and the check of a code, internal/auth/totp.go
-- and the second factor of internal/auth/securitykey.go.
use scout_site.Prelude.{
  ℕ, zero, suc, ◌+◌, Bool, true, false, not, ◌&&◌, ◌||◌, Option, none, some, List, [], ◌∷◌, ltb,
  ◌==◌, if◌then◌else◌, length, find, any, select, update_where,
}
use scout_site.Prelude.Text.{Bytes}
use scout_site.Store.Rows.{Db}
use scout_site.Store.Logins.{Logins, User, TotpCredential, BackupCode, SecurityKey}
use scout_site.Store.Sql.{
  totp_not_enrolled, invalid_totp_code, invalid_credentials, random_failed, Result, ok, err, M,
  pure, raise, lift, ◌>>=◌, ◌>>◌, query, exec, exec_tx, transact, clock, map_error, replace_no_rows,
}
use scout_site.Twofactor.{Primitives, verify, generate_backup_code}
use scout_site.Auth.{Crypto, drawn, update_logins}
use scout_site.Auth.Passwords.{verify_password}
use scout_site.Auth.Tokens.{is_unused, row_of}

abbrev pub num_backup_codes : ℕ
num_backup_codes = 10

abbrev pub is_confirmed : Option ℕ → Bool
is_confirmed none = false
is_confirmed (some t) = true

abbrev pub is_credential_of : ℕ → TotpCredential → Bool
is_credential_of user t = t.user_id == user

unfoldable pub find_totp : ℕ → Db → Option TotpCredential
find_totp user d = find (is_credential_of user) d.logins.totp_credentials

abbrev status_of_totp : Option TotpCredential → Bool × Bool
status_of_totp none = (false, false)
status_of_totp (some t) = (true, is_confirmed t.confirmed_at)

unfoldable pub totp_status : ℕ → M (Bool × Bool)
totp_status user = query (λ d. ok (status_of_totp (find_totp user d)))

unfoldable pub pending_totp_secret : ℕ → M (Option Bytes)
pending_totp_secret user = query (λ d.
    elim (find (λ (t : TotpCredential). t.user_id == user && is_unused t.confirmed_at)
      d.logins.totp_credentials) [ none ↦ ok none | some t ↦ ok (some t.secret) ])

unfoldable pub has_confirmed_app : ℕ → Logins → Bool
has_confirmed_app user l =
    any (λ (t : TotpCredential). t.user_id == user && is_confirmed t.confirmed_at)
      l.totp_credentials

unfoldable pub keys_of : ℕ → Logins → List SecurityKey
keys_of user l = select (λ (k : SecurityKey). k.user_id == user) l.security_keys

unfoldable pub second_factor_status : ℕ → M (Bool × ℕ)
second_factor_status user =
    query (λ d. ok (has_confirmed_app user d.logins, length (keys_of user d.logins)))

unfoldable pub has_second_factor : ℕ → M Bool
has_second_factor user = do s ← second_factor_status user; pure (s.0 || ltb 0 s.1)

-- The query of hasSecondFactorTx.
abbrev pub has_second_factor_in : ℕ → Logins → Bool
has_second_factor_in user l =
    has_confirmed_app user l || any (λ (k : SecurityKey). k.user_id == user) l.security_keys

-- `INSERT INTO totp_credentials ... ON CONFLICT (user_id) DO UPDATE`
unfoldable pub upsert_totp : ℕ → Bytes → ℕ → Logins → Logins
upsert_totp user secret now l = record l {
  totp_credentials =
      record { user_id = user; secret = secret; confirmed_at = none }
      ∷ select (λ t. not (is_credential_of user t)) l.totp_credentials;
}

unfoldable pub begin_totp_enrollment : Crypto → Option Bytes → User → Bytes → M Bytes
begin_totp_enrollment c draw user current_password = do
  has ← has_second_factor user.id
  lift (
      if has && not (verify_password c user current_password)
      then err invalid_credentials
      else ok tt)
  secret ← lift (drawn draw)
  exec (update_logins (upsert_totp user.id secret))
  pure secret

abbrev pub is_code_of : ℕ → BackupCode → Bool
is_code_of user b = b.user_id == user

-- `DELETE FROM totp_backup_codes WHERE user_id = $1`
unfoldable pub delete_backup_codes : ℕ → ℕ → Logins → Logins
delete_backup_codes user now l = record l {
  totp_backup_codes = select (λ b. not (is_code_of user b)) l.totp_backup_codes;
}

-- `INSERT INTO totp_backup_codes`
unfoldable pub insert_backup_code : ℕ → Bytes → ℕ → Db → Result (Unit {0}) × Db
insert_backup_code user hash now d =
    let b : BackupCode = record {
      id = d.next_id;
      user_id = user;
      code_hash = hash;
      used_at = none;
    } in
    (
      ok tt,
      record d {
        logins = record d.logins { totp_backup_codes = b ∷ d.logins.totp_backup_codes };
        next_id = d.next_id + 1;
      },
    )

abbrev hashed : Option Bytes → Result Bytes
hashed none = err random_failed
hashed (some h) = ok h

module _ (c : Crypto) where
  -- The loop that issues codes: of each the bytes drawn, and the salt of its hash.
  unfoldable pub issue_codes : ℕ → List (Bytes × Bytes) → ℕ → M (List Bytes)
  issue_codes zero draws user = pure []
  issue_codes (suc n) [] user = raise random_failed
  issue_codes (suc n) ((raw, salt) ∷ draws) user = do
    plain ← lift (generate_backup_code (some raw))
    hash ← lift (hashed (c.hash_password salt plain))
    exec_tx (insert_backup_code user hash)
    plains ← issue_codes n draws user
    pure (plain ∷ plains)

  unfoldable pub issue_backup_codes_tx : List (Bytes × Bytes) → ℕ → M (List Bytes)
  issue_backup_codes_tx draws user = do
    exec_tx (update_logins (delete_backup_codes user))
    issue_codes num_backup_codes draws user

-- `UPDATE totp_credentials SET confirmed_at = now() WHERE user_id = $1`
unfoldable pub confirm_totp : ℕ → ℕ → Logins → Logins
confirm_totp user now l = record l {
  totp_credentials =
      update_where (is_credential_of user)
        (λ (t : TotpCredential). record t { confirmed_at = some now }) l.totp_credentials;
}

unfoldable pub confirm_totp_enrollment :
    Crypto → Primitives → List (Bytes × Bytes) → ℕ → Bytes → M (List Bytes)
confirm_totp_enrollment c p draws user code = do
  t ← map_error (replace_no_rows totp_not_enrolled) (query (λ d. row_of (find_totp user d)))
  now ← clock
  right ← lift (verify p now t.secret code)
  lift (if right then ok tt else err invalid_totp_code)
  transact (do
    exec_tx (update_logins (confirm_totp user))
    has_key ← query (λ d. ok (any (λ (k : SecurityKey). k.user_id == user) d.logins.security_keys))
    if has_key then pure [] else issue_backup_codes_tx c draws user)

-- `DELETE FROM totp_credentials WHERE user_id = $1`
unfoldable pub delete_totp : ℕ → ℕ → Logins → Logins
delete_totp user now l = record l {
  totp_credentials = select (λ t. not (is_credential_of user t)) l.totp_credentials;
}

-- The backup codes go where no second factor is left.
abbrev pub reset_codes : Bool → ℕ → M (Unit {0})
reset_codes true user = pure tt
reset_codes false user = exec_tx (update_logins (delete_backup_codes user))

unfoldable pub disable_totp : ℕ → M (Unit {0})
disable_totp user = transact (do
  exec_tx (update_logins (delete_totp user))
  still ← query (λ d. ok (has_second_factor_in user d.logins))
  reset_codes still user)

-- The unused codes of a user: the candidates.
unfoldable pub candidates : ℕ → List BackupCode → List BackupCode
candidates user codes = select (λ b. is_code_of user b && is_unused b.used_at) codes

-- `UPDATE totp_backup_codes SET used_at = now() WHERE id = $1`
unfoldable pub redeem_code : ℕ → ℕ → Logins → Logins
redeem_code id now l = record l {
  totp_backup_codes =
      update_where (λ (b : BackupCode). b.id == id)
        (λ (b : BackupCode). record b { used_at = some now }) l.totp_backup_codes;
}

-- The loop over the candidates: the first that matches.
abbrev pub redeem_first : Option BackupCode → M Bool
redeem_first none = pure false
redeem_first (some b) = exec (update_logins (redeem_code b.id)) >> pure true

unfoldable pub try_backup_codes : Crypto → ℕ → Bytes → M Bool
unfolding candidates
try_backup_codes c user code = do
  rows ← query (λ d. ok (candidates user d.logins.totp_backup_codes))
  redeem_first (find (λ (b : BackupCode). c.matches b.code_hash code) rows)

-- Whether the row that was read is that of a confirmed app, with its secret.
abbrev pub confirmed_secret : Option TotpCredential → Option Bytes
confirmed_secret none = none
confirmed_secret (some t) = if is_confirmed t.confirmed_at then some t.secret else none

-- The check of the app's code, or of there being a key where no app is confirmed: whether the code
-- has been accepted.
abbrev pub check_app : Primitives → ℕ → Bytes → Option Bytes → M Bool
check_app p user code (some secret) = clock >>= λ now. lift (verify p now secret code)
check_app p user code none =
    second_factor_status user >>= λ s. if s.1 == 0 then raise totp_not_enrolled else pure false

unfoldable pub verify_second_factor_code : Crypto → Primitives → ℕ → Bytes → M Bool
verify_second_factor_code c p user code = do
  row ← query (λ d. ok (find_totp user d))
  accepted ← check_app p user code (confirmed_secret row)
  if accepted then pure true else try_backup_codes c user code
