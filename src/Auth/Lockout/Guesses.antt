-- ===== src/Auth/Lockout/Guesses.antt =====
-- How many passwords can be tried at an address within the window.
use scout_site.Prelude.{
  ℕ, ◌+◌, ◌≤◌, ◌≡◌, Bool, true, false, Option, none, some, List, [], ◌∷◌, ltb, if◌then◌else◌,
}
use scout_site.Prelude.Text.{Bytes}
use scout_site.Store.Rows.{Db}
use scout_site.Store.Logins.{Logins, User, Failures}
use scout_site.Store.Sql.{invalid_credentials, Result, err}
use scout_site.Store.Calm.{calm}
use scout_site.Auth.{Crypto, find_by_email, normalize_email}
use scout_site.Auth.Lockout.{accepts, authenticate}
use scout_site.Auth.Tokens.Lifetime.{to_option}

-- The password is not that of a login with this address.
abbrev pub IsWrong : Crypto → Bytes → Bytes → Db → Type 0
IsWrong c email password d =
    accepts c password (to_option (find_by_email (normalize_email email) d)) ≡ none

abbrev pub key_of : Bytes → Bytes
key_of email = normalize_email (normalize_email email)

module _ (c : Crypto) (email : Bytes) where
  -- Whether an answer says that the password has been compared, and is wrong.
  abbrev pub is_answer : Result User → Bool
  is_answer (err invalid_credentials) = true
  is_answer _ = false

  -- How many of the guesses, each with its time, are so answered.
  unfoldable pub answered : List (ℕ × Bytes) → Db → ℕ
  answered [] d = 0
  answered ((now, password) ∷ rest) d =
      let (r, w) = authenticate c email password (calm now d) in
      let later = answered rest w.db in if is_answer r then later + 1 else later

  -- The row counts `n` failures, the latest not before `start`.
  abbrev Counts : ℕ → ℕ → Option Failures → Type 0
  Counts start n none = n ≡ 0
  Counts start n (some f) = (f.failure_count ≡ n) × (start ≤ f.last_failure_at)
