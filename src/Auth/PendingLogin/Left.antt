-- ===== src/Auth/PendingLogin/Left.antt =====
-- The attempts left at the logins that wait for their second step.

use scout_site.Prelude.{
  ℕ, ◌+◌, ◌-◌, ◌≤◌, ◌≡◌, refl, inl, inr, false, some, List, [], ◌∷◌, arith, leb, if◌then◌else◌,
  find, update_where, Bool-cases,
}
use scout_site.Prelude.Text.{Bytes}
use scout_site.Store.Logins.{PendingLogin}
use scout_site.Auth.Tokens.{is_live}
use scout_site.Auth.PendingLogin.{
  max_pending_two_factor_attempts, is_login, is_live_login, without_login, tried,
}

-- The attempts that the rows of a token have left.
unfoldable pub attempts_left : Bytes → List PendingLogin → ℕ
attempts_left hash [] = 0
attempts_left hash (p ∷ ps) =
    let rest = attempts_left hash ps in
    if is_login hash p then (max_pending_two_factor_attempts - p.attempts) + rest else rest

pub attempts_left-without :
    (hash : Bytes) (ps : List PendingLogin) → attempts_left hash (without_login hash ps) ≡ 0
unfolding attempts_left
attempts_left-without hash [] = refl
attempts_left-without hash (p ∷ ps) = elim (Bool-cases (is_login hash p)) [
  | inl e ↦ rw e (attempts_left-without hash ps)
  | inr e ↦ rw e (rw e (attempts_left-without hash ps))
]

pub attempts_left-tried :
    (hash : Bytes) (ps : List PendingLogin)
    → attempts_left hash (update_where (is_login hash) tried ps) ≤ attempts_left hash ps
unfolding attempts_left
attempts_left-tried hash [] = omega arith
attempts_left-tried hash (p ∷ ps) =
    let rest = attempts_left-tried hash ps in
    elim (Bool-cases (is_login hash p)) [
      | inl e ↦ rw e (rw e (omega (arith, rest)))
      | inr e ↦ rw e (rw e rest)
    ]

pub attempts_left-spent :
    (hash : Bytes) (now : ℕ) (ps : List PendingLogin) (p : PendingLogin)
    → find (is_live_login hash now) ps ≡ some p
    → leb max_pending_two_factor_attempts p.attempts ≡ false
    → attempts_left hash (update_where (is_login hash) tried ps) + 1 ≤ attempts_left hash ps
unfolding attempts_left
attempts_left-spent hash now [] p found room = absurd cc
attempts_left-spent hash now (q ∷ qs) p found room =
    let rest = attempts_left-tried hash qs in
    elim (Bool-cases (is_login hash q)) [
      | inl e ↦ elim (Bool-cases (is_live now q.expires_at)) [
        | inl live ↦
            let same : q ≡ p = cc (rw (e, live) at found) in
            let less : leb max_pending_two_factor_attempts q.attempts ≡ false = rw same room in
            rw e (rw e (ground (arith, rest, less)))
        | inr dead ↦
            let more = attempts_left-spent hash now qs p (rw (e, dead) at found) room in
            rw e (rw e (omega (arith, more)))
      ]
      | inr e ↦ rw e (rw e (attempts_left-spent hash now qs p (rw e at found) room))
    ]
