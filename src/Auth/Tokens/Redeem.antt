-- ===== src/Auth/Tokens/Redeem.antt =====
-- What redeeming a reset link and changing a password do.
use mathlib.Core.Path.{subst}
use scout_site.Prelude.{
  ℕ, ◌≡◌, refl, sym, ap, ◌∙◌, inl, inr, Bool, false, not, List, [], ◌∷◌, arith, ◌==◌, any, select,
  Bool-cases,
}
use scout_site.Prelude.Text.{Bytes}
use scout_site.Store.Rows.{Db}
use scout_site.Store.Logins.{Logins, Session, ResetToken}
use scout_site.Store.Sql.{no_rows, ok, err, World, committed, exec_tx}
use scout_site.Store.Triple.{
  Triple, Outcome, Triple-bind, Triple-exec_tx, Triple-transact, Triple-from, Triple-weaken,
}
use scout_site.Auth.{Crypto, with_logins, update_logins}
use scout_site.Auth.Tokens.{
  is_unused, is_live, find_reset_token, set_password, update_password, delete_sessions,
  destroy_sessions_for_user_tx, change_password, query_now,
}

abbrev pub signed_in : ℕ → List Session → Bool
signed_in user = any (λ (s : Session). s.user_id == user)

none_signed_in :
    (user : ℕ) (ss : List Session)
    → signed_in user (select (λ (s : Session). not (s.user_id == user)) ss) ≡ false
none_signed_in user [] = refl
none_signed_in user (s ∷ ss) = elim (Bool-cases (s.user_id == user)) [
  | inl e ↦ rw e (none_signed_in user ss)
  | inr e ↦ rw e (ground (arith, none_signed_in user ss))
]

-- A statement of a transaction that changes the tables of logins.
pub Triple-update_logins :
    (f : ℕ → Logins → Logins) (d0 : Db)
    → Triple
        (λ d. d ≡ d0)
        (exec_tx (update_logins f))
        (λ _ d. (now : ℕ) × (d ≡ with_logins (f now d0.logins) d0))
        (λ _. Unit)
Triple-update_logins f d0 =
    Triple-exec_tx (update_logins f)
      (λ now d d' u e h. (now, sym (ap (λ y. y.1) h) ∙ ap (λ z. with_logins (f now z.logins) z) e))
      (λ d. tt)

-- The password of `user` has been set in `d`, which made it `d'`, and the user is signed in nowhere.
pub record Reset (user : ℕ) (hash : Bytes) (d d' : Db) : Type 0 where
  pub users_are : d'.logins.users ≡ set_password user hash d.logins.users
  pub signed_out : signed_in user d'.logins.sessions ≡ false
  pub sessions_are :
      d'.logins.sessions ≡ select (λ (s : Session). not (s.user_id == user)) d.logins.sessions
  pub tokens_are : d'.logins.password_reset_tokens ≡ d.logins.password_reset_tokens
  pub transactions_are : d'.transactions ≡ d.transactions
  pub postings_are : d'.postings ≡ d.postings

module _ (user : ℕ) (hash : Bytes) (d0 : Db) where
  Reset-of :
      (now later : ℕ) (d : Db)
      → d ≡ with_logins (delete_sessions user later (update_password user hash now d0.logins)) d0
      → Reset user hash d0 d
  unfolding delete_sessions update_password
  Reset-of now later d e = subst (Reset user hash d0) (sym e) (record {
    users_are = refl;
    signed_out = none_signed_in user d0.logins.sessions;
    sessions_are = refl;
    tokens_are = refl;
    transactions_are = refl;
    postings_are = refl;
  })

  Reset-committed : (d : Db) → Reset user hash d0 d → Reset user hash d0 (committed d)
  Reset-committed d r = record {
    users_are = r.users_are;
    signed_out = r.signed_out;
    sessions_are = r.sessions_are;
    tokens_are = r.tokens_are;
    transactions_are = r.transactions_are;
    postings_are = r.postings_are;
  }

  abbrev PasswordSet : Db → Type 0
  PasswordSet d = (now : ℕ) × (d ≡ with_logins (update_password user hash now d0.logins) d0)

  destroy-Triple :
      Triple PasswordSet (destroy_sessions_for_user_tx user) (λ _. Reset user hash d0) (λ _. Unit)
  unfolding destroy_sessions_for_user_tx
  destroy-Triple = Triple-from _ λ d1 q.
      Triple-weaken (λ d e. e)
        (λ u d r.
          Reset-of q.0 r.0 d
            (r.1 ∙ ap (λ z. with_logins (delete_sessions user r.0 z.logins) z) q.1))
        (λ d h. h) (Triple-update_logins (delete_sessions user) d1)

  change_password-Triple :
      (c : Crypto)
      → Triple (λ d. d ≡ d0) (change_password c user hash) (λ _. Reset user hash d0) (λ d. d ≡ d0)
  unfolding change_password
  change_password-Triple c =
      Triple-transact {R = λ _. Reset user hash d0} _
        (Triple-bind {R = λ _. PasswordSet} _ _
          (Triple-update_logins (update_password user hash) d0) (λ _. destroy-Triple))
        (λ d u r s. Reset-committed d r) (λ d e. e)

-- The link with this hash has been redeemed in `d`, which made it `d'`.
pub record Redeemed (token hash : Bytes) (d : Db) (user : ℕ) (d' : Db) : Type 0 where
  pub now : ℕ
  pub row : ResetToken
  pub was_redeemable : find_reset_token token now d ≡ ok row
  pub user_is : user ≡ row.user_id
  pub never_again : (later : ℕ) → find_reset_token token later d' ≡ err no_rows
  pub users_are : d'.logins.users ≡ set_password user hash d.logins.users
  pub signed_out : signed_in user d'.logins.sessions ≡ false
  pub transactions_are : d'.transactions ≡ d.transactions
  pub postings_are : d'.postings ≡ d.postings

module _ (c : Crypto) (token hash : Bytes) (d0 : Db) where
  abbrev Found : ResetToken → Db → Type 0
  Found row d = ((now : ℕ) × (find_reset_token (c.hash_token token) now d0 ≡ ok row)) × (d ≡ d0)

-- ChangePassword: an error leaves the database as it was, whichever statement failed. On success
-- the user has the new password, no temporary one any more, and is signed in nowhere; every other
-- user and session, and the ledger, is as it was.
pub change_password-Reset :
    (c : Crypto) (user : ℕ) (hash : Bytes) (w : World)
    → let (r, w') = change_password c user hash w in
      Outcome (λ _. Reset user hash w.db) (λ d. d ≡ w.db) r w'.db
change_password-Reset c user hash w = (change_password-Triple user hash w.db c).at w refl
