-- ===== src/Ledger/Post/Guards.antt =====
-- What the guards of insertTransaction find.

use scout_site.Prelude.{
  ℕ, ◌≡◌, inl, inr, Bool, true, false, ◌&&◌, some, List, [], ◌∷◌, ◌++◌, arith, ltb, ◌==◌, length,
  any, All, Bool-cases, Option-cases,
}
use scout_site.Prelude.Int.{ℤ, pos, add64, is_zero}
use scout_site.Store.Rows.{Account, AccountStatus, is_opened, Posting}
use scout_site.Store.Sql.{ok}
use scout_site.Ledger.Post.{
  member, add_seen, check_amounts, check_postings, select_statuses, status_of, check_accounts,
}

-- There is an open account of that id in that unit.
unfoldable pub owns_open : List Account → ℕ → ℕ → Bool
owns_open accounts a u =
    any (λ (x : Account). x.id == a && (x.unit_id == u && is_opened x.status)) accounts

member-concat : (i j : ℕ) (ids : List ℕ) → member i ids ≡ true → member i (ids ++ (j ∷ [])) ≡ true
member-concat i j (k ∷ ids) h = ground (arith, member-concat i j ids)
member-concat i j [] h = cc

member-concat_self : (i : ℕ) (ids : List ℕ) → member i (ids ++ (i ∷ [])) ≡ true
member-concat_self i [] = ground arith
member-concat_self i (k ∷ ids) = ground (arith, member-concat_self i ids)

member-add_seen : (i j : ℕ) (ids : List ℕ) → member i ids ≡ true → member i (add_seen j ids) ≡ true
unfolding add_seen
member-add_seen i j ids h = ground (arith, member-concat i j ids h)

member-add_seen_self : (i : ℕ) (ids : List ℕ) → member i (add_seen i ids) ≡ true
unfolding add_seen
member-add_seen_self i ids = ground (arith, member-concat_self i ids)

-- The accounts seen before are among those that the loop returns, and so is each posting's.
check_amounts-member :
    (i : ℕ) (ps : List Posting) (sum : ℤ) (ids out : List ℕ)
    → check_amounts sum ids ps ≡ ok out
    → member i ids ≡ true
    → member i out ≡ true
unfolding check_amounts
check_amounts-member i [] sum ids out e h = ground arith
check_amounts-member i (p ∷ ps) sum ids out e h = elim (Bool-cases (is_zero p.amount_cents)) [
  | inl z ↦ absurd (cc (rw z at e))
  | inr z ↦ check_amounts-member i ps _ _ out (rw z at e) (member-add_seen i p.account_id ids h)
]

check_amounts-All :
    (ps : List Posting) (sum : ℤ) (ids out : List ℕ)
    → check_amounts sum ids ps ≡ ok out
    → All (λ p. (member p.account_id out ≡ true) × (is_zero p.amount_cents ≡ false)) ps
unfolding check_amounts
check_amounts-All [] sum ids out e = tt
check_amounts-All (p ∷ ps) sum ids out e = elim (Bool-cases (is_zero p.amount_cents)) [
  | inl z ↦ absurd (cc (rw z at e))
  | inr z ↦
      let e' : check_amounts (add64 sum p.amount_cents) (add_seen p.account_id ids) ps ≡ ok out =
        rw z at e in
      (
        (
          check_amounts-member p.account_id ps _ _ out e' (member-add_seen_self p.account_id ids),
          z,
        ),
        check_amounts-All ps _ _ out e',
      )
]

pub check_postings-All :
    (ps : List Posting) (out : List ℕ)
    → check_postings ps ≡ ok out
    → All (λ p. (member p.account_id out ≡ true) × (is_zero p.amount_cents ≡ false)) ps
unfolding check_postings
check_postings-All ps out e = elim (Bool-cases (ltb (length ps) 2)) [
  | inl z ↦ absurd (cc (rw z at e))
  | inr z ↦ check_amounts-All ps (pos 0) [] out (rw z at e)
]

-- An account that the query found open is an open account of the unit.
status_of-owns_open :
    (i unit : ℕ) (ids : List ℕ) (as' : List Account) (st : AccountStatus)
    → status_of i (select_statuses ids unit as') ≡ some st
    → is_opened st ≡ true
    → owns_open as' i unit ≡ true
unfolding status_of select_statuses owns_open
status_of-owns_open i unit ids [] st e o = cc
status_of-owns_open i unit ids (a ∷ rest) st e o =
    ground (arith, status_of-owns_open i unit ids rest st)

pub check_accounts-owns_open :
    (i unit : ℕ) (ids all : List ℕ) (as' : List Account)
    → check_accounts ids (select_statuses all unit as') ≡ ok tt
    → member i ids ≡ true
    → owns_open as' i unit ≡ true
unfolding check_accounts
check_accounts-owns_open i unit [] all as' e h = cc
check_accounts-owns_open i unit (j ∷ ids) all as' e h =
    elim (Option-cases (status_of j (select_statuses all unit as'))) [
      | inl none_found ↦ absurd (cc (rw none_found at e))
      | inr (st, found) ↦ ground (
        arith,
        status_of-owns_open j unit all as' st found,
        check_accounts-owns_open i unit ids all as',
      )
    ]
