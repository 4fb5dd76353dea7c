-- ===== src/Auth/Tests.antt =====
-- Logins at a concrete database.

use scout_site.Prelude.{ℕ, ◌≤◌, ◌≡◌, refl, true, false, none, some, List, [], ◌∷◌}
use scout_site.Prelude.Text.{Bytes, codes, same_bytes, trim_space, to_lower}
use scout_site.Store.Rows.{Db}
use scout_site.Store.Logins.{User, PendingLogin, ResetToken}
use scout_site.Store.Sql.{ok, World}
use scout_site.Store.Calm.{calm}
use scout_site.Store.Triple.{Outcome}
use scout_site.Ledger.Session.{no_logins, empty_db}
use scout_site.Twofactor.{Primitives}
use scout_site.Auth.{
  Crypto, normalize_email, find_user, login_lockout_window, max_login_failures, session_duration,
}
use scout_site.Auth.Lockout.{check_lockout, accepts}
use scout_site.Auth.Lockout.Burst.{failed, cleared, happen, row_at}
use scout_site.Auth.Lockout.Refines.{check_lockout-is_locked}
use scout_site.Auth.Tokens.{change_password, create_session, destroy_session, user_for_session}
use scout_site.Auth.Tokens.Redeem.{Reset, change_password-Reset}
use scout_site.Auth.Tokens.Lifetime.{
  create_session-user_for_session, destroy_session-user_for_session,
}
use scout_site.Auth.PendingLogin.Left.{attempts_left}
use scout_site.Auth.PendingLogin.Attempts.{code_submitted, key_failed, replies, replies-bounded}

-- A hash that is the text itself, with its salt in front for passwords.
abbrev plain_crypto : Crypto
plain_crypto = record {
  hash_token = λ t. t;
  matches = same_bytes;
  hash_password = λ salt p. some p;
  hmac_sha1 = λ key message. message;
}

abbrev some_primitives : Primitives
some_primitives = record {
  decode_base32 = λ s. some s;
  hmac_sha1 = λ key message. 1 ∷ 2 ∷ 3 ∷ 4 ∷ key;
}

abbrev ann : User
ann = record {
  id = 4;
  family_id = 2;
  member_id = none;
  email = codes "ann";
  password_hash = codes "secret";
  must_change_password = false;
}

abbrev link : ResetToken
link = record { token = codes "link"; user_id = 4; expires_at = 90; used_at = none }

abbrev waiting : PendingLogin
waiting = record { token = codes "half"; user_id = 4; next = []; expires_at = 90; attempts = 3 }

abbrev ann_db : Db
ann_db = record empty_db {
  logins = record no_logins {
    users = ann ∷ [];
    password_reset_tokens = link ∷ [];
    pending_two_factor_logins = waiting ∷ [];
  };
}

abbrev quiet_world : World
quiet_world = record { db = ann_db; faults = []; now = 50 }

-- A failure that is cleared, and eight more, with one at another address between them.
abbrev failures : List scout_site.Auth.Lockout.Burst.Attempt
failures =
    failed (codes "ann") 1
    ∷ cleared (codes "Ann ") 2
    ∷ failed (codes "ANN") 3
    ∷ failed (codes "bob") 4
    ∷ failed (codes "ann") 5
    ∷ failed (codes "ann") 6
    ∷ failed (codes "ann") 7
    ∷ failed (codes "ann") 8
    ∷ failed (codes "ann") 9
    ∷ failed (codes "ann") 10
    ∷ failed (codes "ann") 11
    ∷ []

check_lockout-is_locked_example :
    (check_lockout (codes "ann") (calm 70 (happen failures ann_db))).0 ≡ ok true
unfolding normalize_email to_lower trim_space
check_lockout-is_locked_example = check_lockout-is_locked (codes "ann") failures 70 ann_db refl refl

abbrev guesses : List (ℕ × Bytes)
guesses = (60, codes "a") ∷ (61, codes "b") ∷ []

change_password-Reset_example :
    let (r, w) = change_password plain_crypto 4 (codes "new") quiet_world in
    Outcome (λ _. Reset 4 (codes "new") ann_db) (λ d. d ≡ ann_db) r w.db
change_password-Reset_example = change_password-Reset plain_crypto 4 (codes "new") quiet_world

create_session-user_for_session_example :
    (user_for_session plain_crypto
      (codes "t")
      (calm 60 (create_session plain_crypto (some (codes "t")) 4 (calm 50 ann_db)).1.db)).0
    ≡ ok (some ann)
unfolding find_user
create_session-user_for_session_example =
    create_session-user_for_session plain_crypto (codes "t") 4 50 60 ann_db ann refl refl refl

destroy_session-user_for_session_example :
    (user_for_session plain_crypto
      (codes "t")
      (calm 60 (destroy_session plain_crypto (codes "t") (calm 50 ann_db)).1.db)).0
    ≡ ok none
destroy_session-user_for_session_example =
    destroy_session-user_for_session plain_crypto (codes "t") 50 60 ann_db refl

abbrev tries : List scout_site.Auth.PendingLogin.Attempts.Attempt
tries =
    record { now = 60; faults = []; try = code_submitted (codes "123456") }
    ∷ record { now = 61; faults = true ∷ []; try = key_failed }
    ∷ []

replies-bounded_example : replies plain_crypto some_primitives (codes "half") tries ann_db ≤ 2
unfolding attempts_left
replies-bounded_example = replies-bounded plain_crypto some_primitives (codes "half") tries ann_db
