-- ===== src/Auth.antt =====
-- Logins, internal/auth: the parts that its files share. Each child models a part of it.
pub mod Passwords
pub mod Lockout
pub mod Tokens
pub mod SecondFactor
pub mod PendingLogin
pub mod Keys
mod Tests
use scout_site.Prelude.{
  ℕ, ◌+◌, ◌*◌, Bool, true, false, ◌&&◌, ◌||◌, Option, none, some, List, [], ◌∷◌, leb, ◌==◌,
  if◌then◌else◌, find,
}
use scout_site.Prelude.Text.{Bytes, same_bytes, trim_space, to_lower}
use scout_site.Store.Rows.{Db}
use scout_site.Store.Logins.{Logins, User}
use scout_site.Store.Sql.{no_rows, random_failed, Result, ok, err}

-- What the package uses of code it does not hold: SHA-256 in hexadecimal, bcrypt's comparison and
-- hashing (with the salt it draws), and HMAC-SHA1.
pub record Crypto : Type 0 where
  pub hash_token : Bytes → Bytes
  pub matches : Bytes → Bytes → Bool
  pub hash_password : Bytes → Bytes → Option Bytes
  pub hmac_sha1 : Bytes → Bytes → Bytes

-- What crypto/rand drew, if it did.
unfoldable pub drawn : {A : Type 0} → Option A → Result A
drawn none = err random_failed
drawn (some a) = ok a

abbrev pub minute : ℕ
minute = 60

abbrev pub pending_password_change_duration : ℕ
pending_password_change_duration = 15 * minute

abbrev pub session_duration : ℕ
session_duration = 30 * 24 * 60 * minute

abbrev pub reset_token_duration : ℕ
reset_token_duration = 60 * minute

abbrev pub max_login_failures : ℕ
max_login_failures = 8

abbrev pub login_lockout_window : ℕ
login_lockout_window = 15 * minute

abbrev pub max_password_reset_requests : ℕ
max_password_reset_requests = 3

abbrev pub password_reset_request_window : ℕ
password_reset_request_window = 60 * minute

unfoldable pub normalize_email : Bytes → Bytes
normalize_email email = to_lower (trim_space email)

abbrev pub with_logins : Logins → Db → Db
with_logins l d = record d { logins = l }

-- A statement that changes the tables of logins.
abbrev pub update_logins : (ℕ → Logins → Logins) → ℕ → Db → Result (Unit {0}) × Db
update_logins f now d = (ok tt, with_logins (f now d.logins) d)

abbrev user_found : Option User → Result User
user_found none = err no_rows
user_found (some u) = ok u

-- `SELECT ... FROM users WHERE email = $1`
unfoldable pub find_by_email : Bytes → Db → Result User
find_by_email email d = user_found (find (λ (u : User). same_bytes u.email email) d.logins.users)

-- UserByID
unfoldable pub find_user : ℕ → Db → Result User
find_user id d = user_found (find (λ (u : User). u.id == id) d.logins.users)
