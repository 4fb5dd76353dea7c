-- ===== src/Store/Logins.antt =====
-- The rows of the tables of logins (0001_init.sql, 0002_email.sql, 0003_lockout.sql,
-- 0004_password_reset_rate_limit.sql, 0007_totp.sql, 0026_forced_password_change.sql and
-- 0047_security_keys.sql) with the Go structs of internal/auth. Times are seconds. A token is stored
-- by its hash.
use scout_site.Prelude.{ℕ, Bool, Option, List}
use scout_site.Prelude.Text.{Bytes}

pub record User : Type 0 where
  pub id : ℕ
  pub family_id : ℕ
  pub member_id : Option ℕ
  pub email : Bytes
  pub password_hash : Bytes
  pub must_change_password : Bool

-- A row of login_failures.
pub record Failures : Type 0 where
  pub email : Bytes
  pub failure_count : ℕ
  pub first_failure_at : ℕ
  pub last_failure_at : ℕ

-- A row of password_reset_requests.
pub record ResetRequests : Type 0 where
  pub email : Bytes
  pub request_count : ℕ
  pub first_request_at : ℕ
  pub last_request_at : ℕ

pub record Session : Type 0 where
  pub token : Bytes
  pub user_id : ℕ
  pub expires_at : ℕ

pub record ResetToken : Type 0 where
  pub token : Bytes
  pub user_id : ℕ
  pub expires_at : ℕ
  pub used_at : Option ℕ

pub record PendingChange : Type 0 where
  pub token : Bytes
  pub user_id : ℕ
  pub next : Bytes
  pub expires_at : ℕ

pub record TotpCredential : Type 0 where
  pub user_id : ℕ
  pub secret : Bytes
  pub confirmed_at : Option ℕ

pub record BackupCode : Type 0 where
  pub id : ℕ
  pub user_id : ℕ
  pub code_hash : Bytes
  pub used_at : Option ℕ

pub record PendingLogin : Type 0 where
  pub token : Bytes
  pub user_id : ℕ
  pub next : Bytes
  pub expires_at : ℕ
  pub attempts : ℕ

-- A security key, without what only the library of the protocol reads.
pub record SecurityKey : Type 0 where
  pub id : ℕ
  pub user_id : ℕ
  pub name : Bytes
  pub credential_id : Bytes
  pub sign_count : ℕ
  pub backup_state : Bool
  pub last_used_at : Option ℕ

pub data Ceremony : Type 0 where
  register login : Ceremony

-- A challenge that waits for its answer; its data is the library's.
pub record WebauthnSession : Type 0 where
  pub user_id : ℕ
  pub kind : Ceremony
  pub content : Bytes
  pub expires_at : ℕ

pub record Logins : Type 0 where
  pub users : List User
  pub login_failures : List Failures
  pub password_reset_requests : List ResetRequests
  pub sessions : List Session
  pub password_reset_tokens : List ResetToken
  pub pending_password_changes : List PendingChange
  pub totp_credentials : List TotpCredential
  pub totp_backup_codes : List BackupCode
  pub pending_two_factor_logins : List PendingLogin
  pub security_keys : List SecurityKey
  pub webauthn_sessions : List WebauthnSession
