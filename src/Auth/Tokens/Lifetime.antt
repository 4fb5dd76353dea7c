-- ===== src/Auth/Tokens/Lifetime.antt =====
-- How long a session lasts.

use scout_site.Prelude.{
  ℕ, ◌+◌, ◌≡◌, refl, ap, ◌∙◌, inl, inr, Bool, true, false, not, Option, none, some, List, [], ◌∷◌,
  ltb, find, any, select, if◌then◌else◌, Bool-cases,
}
use scout_site.Prelude.Text.{Bytes, same_bytes, same_bytes_refl}
use scout_site.Store.Rows.{Db}
use scout_site.Store.Logins.{User, Session}
use scout_site.Store.Sql.{
  Result, ok, err, World, settled, committed, clock, query, lift, pure, ◌>>=◌, next_fault,
  later_faults,
}
use scout_site.Store.Calm.{calm, exec-calm, bind-calm}
use scout_site.Auth.{Crypto, drawn, with_logins, update_logins, find_user, session_duration}
use scout_site.Auth.Lockout.{or_none}
use scout_site.Auth.Tokens.{
  is_session, insert_session, create_session, without_session, destroy_session, find_session_user,
  user_of, user_for_session,
}

abbrev pub to_option : {A : Type 0} → Result A → Option A
to_option (ok a) = some a
to_option (err e) = none

user_for_session-calm :
    (c : Crypto) (token : Bytes) (now : ℕ) (d : Db)
    → (user_for_session c token (calm now d)).0
      ≡ ok (to_option (find_session_user (c.hash_token token) now d))
unfolding user_for_session or_none query clock ◌>>=◌ next_fault later_faults
user_for_session-calm c token now d =
    same (find_session_user (c.hash_token token) now d) (calm now d)
  where
    same :
        (r : Result User) (w : World)
        → let y : Result (Option User) × World = elim r [
          | ok a ↦ (ok (some a), w)
          | err e ↦ (ok none, w)
        ] in
          y.0 ≡ ok (to_option r)
    same (ok a) w = refl
    same (err e) w = refl

abbrev pub holds : Bytes → List Session → Bool
holds hash = any (λ (s : Session). same_bytes s.token hash)

find-absent :
    (hash : Bytes) (now : ℕ) (ss : List Session)
    → holds hash ss ≡ false
    → find (is_session hash now) ss ≡ none
find-absent hash now [] h = refl
find-absent hash now (s ∷ ss) h = elim (Bool-cases (same_bytes s.token hash)) [
  | inl e ↦ absurd (cc (rw e at h))
  | inr e ↦ rw e (find-absent hash now ss (rw e at h))
]

holds-removed :
    (hash : Bytes) (ss : List Session)
    → holds hash (select (λ (s : Session). not (same_bytes s.token hash)) ss) ≡ false
holds-removed hash [] = refl
holds-removed hash (s ∷ ss) = elim (Bool-cases (same_bytes s.token hash)) [
  | inl e ↦ rw e (holds-removed hash ss)
  | inr e ↦ rw e (rw e (holds-removed hash ss))
]

module _ (c : Crypto) (token : Bytes) (user now : ℕ) (d : Db) where
  abbrev signed_in_db : Db
  signed_in_db = committed (
      with_logins (insert_session (c.hash_token token) user (now + session_duration) now d.logins)
        d)

  create_session-calm :
      d.touched ≡ []
      → create_session c (some token) user (calm now d)
        ≡ (ok (token, now + session_duration), calm now signed_in_db)
  unfolding create_session drawn lift clock pure settled
  create_session-calm idle = bind-calm now _ _ token d d _ refl (
      bind-calm now _ _ now d d _ refl (
        bind-calm now _ _ tt d signed_in_db _
          (exec-calm now _ tt d _ refl (ap (λ t. settled t d.postings) idle)) refl))

  abbrev issued : Session
  issued = record {
    token = c.hash_token token;
    user_id = user;
    expires_at = now + session_duration;
  }

  find-issued :
      (later : ℕ)
      → holds (c.hash_token token) d.logins.sessions ≡ false
      → find (is_session (c.hash_token token) later) (issued ∷ d.logins.sessions)
        ≡ (if ltb later (now + session_duration) then some issued else none)
  find-issued later fresh =
      let absent = find-absent (c.hash_token token) later d.logins.sessions fresh in
      rw (same_bytes_refl (c.hash_token token), absent) refl

  session_found :
      (later : ℕ) (u : User)
      → find_user user d ≡ ok u
      → holds (c.hash_token token) d.logins.sessions ≡ false
      → to_option (find_session_user (c.hash_token token) later signed_in_db)
        ≡ (if ltb later (now + session_duration) then some u else none)
  unfolding find_session_user insert_session find_user
  session_found later u found fresh =
      ap (λ o. to_option (user_of o signed_in_db)) (find-issued later fresh)
      ∙ choose (ltb later (now + session_duration))
    where
      choose :
          (b : Bool)
          → to_option (user_of (if b then some issued else none) signed_in_db)
            ≡ (if b then some u else none)
      choose true = ap to_option found
      choose false = refl

-- A session that CreateSession issues, where no statement fails and no session has its token's hash,
-- names its user until SessionDuration has passed, and nobody from then on.
pub create_session-user_for_session :
    (c : Crypto) (token : Bytes) (user now later : ℕ) (d : Db) (u : User)
    → d.touched ≡ []
    → find_user user d ≡ ok u
    → holds (c.hash_token token) d.logins.sessions ≡ false
    → (user_for_session c token
        (calm later (create_session c (some token) user (calm now d)).1.db)).0
      ≡ ok (if ltb later (now + session_duration) then some u else none)
create_session-user_for_session c token user now later d u idle found fresh =
    ap (λ (y : Result (Bytes × ℕ) × World). (user_for_session c token (calm later y.1.db)).0)
      (create_session-calm c token user now d idle)
    ∙ user_for_session-calm c token later (signed_in_db c token user now d)
    ∙ ap ok (session_found c token user now d later u found fresh)

destroyed :
    (c : Crypto) (token : Bytes) (now : ℕ) (d : Db)
    → d.touched ≡ []
    → (destroy_session c token (calm now d)).1.db
      ≡ committed (with_logins (without_session c token now d.logins) d)
unfolding destroy_session settled
destroyed c token now d idle =
    ap (λ (y : Result (Unit {0}) × World). y.1.db)
      (exec-calm now (update_logins (without_session c token)) tt d _ refl
        (ap (λ t. settled t d.postings) idle))

-- After DestroySession, where its statement does not fail, the token names nobody, at any time.
pub destroy_session-user_for_session :
    (c : Crypto) (token : Bytes) (now later : ℕ) (d : Db)
    → d.touched ≡ []
    → (user_for_session c token (calm later (destroy_session c token (calm now d)).1.db)).0
      ≡ ok none
unfolding find_session_user find_user
destroy_session-user_for_session c token now later d idle =
    ap (λ z. (user_for_session c token (calm later z)).0) (destroyed c token now d idle)
    ∙ user_for_session-calm c token later _
    ∙ ap
        (λ o. ok (
          to_option (user_of o (committed (with_logins (without_session c token now d.logins) d)))))
        (find-absent (c.hash_token token) later _
          (holds-removed (c.hash_token token) d.logins.sessions))
