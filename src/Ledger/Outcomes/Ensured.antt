-- ===== src/Ledger/Outcomes/Ensured.antt =====
-- The accounts that EnsureUnitGeneralAccount and EnsureScoutAccount of internal/ledger/ledger.go
-- return are the ones asked for, and no balance moves.
use Prim.Native.String.{String}
use mathlib.Core.Path.{subst}
use scout_site.Prelude.{
  ℕ, ◌≡◌, sym, ap, ◌∙◌, Bool, true, ◌&&◌, some, List, [], ◌∷◌, inl, inr, ◌==◌, arith, Bool-cases,
  Option-cases, any, find,
}
use scout_site.Store.Rows.{Account, unit_general, scout_individual, same_type, Db}
use scout_site.Store.Sums.{balance}
use scout_site.Store.Sql.{Error, no_rows, ok, M, exec}
use scout_site.Store.Triple.{Triple, Triple-query, Triple-exec, Triple-if_no_rows}
use scout_site.Ledger.Post.{same_id}
use scout_site.Ledger.Accounts.{
  NewAccount, new_account, conflicts, insert_account, ensure, row_found,
  ensure_unit_general_account, ensure_scout_account,
}
use scout_site.Ledger.Books.Accounts.{insert_account-Books}
use scout_site.Ledger.Outcomes.Pending.{Unmoved, Unmoved-Stable}

abbrev pub is_general : ℕ → Account → Bool
is_general unit a = a.unit_id == unit && same_type a.account_type unit_general

abbrev pub is_individual : ℕ → ℕ → Account → Bool
is_individual unit member a =
    a.unit_id == unit && same_type a.account_type scout_individual && same_id member a.member_id

find_passes :
    (p : Account → Bool) (xs : List Account) (a : Account) → find p xs ≡ some a → p a ≡ true
find_passes p [] a h = cc
find_passes p (x ∷ xs) a h = elim (Bool-cases (p x)) [
  | inl passes ↦ subst (λ y. p y ≡ true) (some_inj (rw passes at h)) passes
  | inr fails ↦ find_passes p xs a (rw fails at h)
]
  where
    some_inj : {x y : Account} → some x ≡ some y → x ≡ y
    some_inj e = cc

row_found_passes :
    (p : Account → Bool) (xs : List Account) (a : Account)
    → row_found (find p xs) ≡ ok a
    → p a ≡ true
row_found_passes p xs a h = elim (Option-cases (find p xs)) [
  | inl missing ↦ absurd (cc (rw missing at h))
  | inr (b, found) ↦ let same : ok b ≡ ok a = rw found at h in find_passes p xs a (found ∙ cc same)
]

-- What an account that is inserted leaves as it is.
inserted :
    (clash : Error) (n : NewAccount) (now : ℕ) (d d' : Db) (a : Account)
    → insert_account clash n now d ≡ (ok a, d')
    → ((i : ℕ) → balance d' i ≡ balance d i) × (new_account n d.next_id ≡ a)
unfolding insert_account balance
inserted clash n now d d' a e =
    elim (Bool-cases (any (conflicts (new_account n d.next_id)) d.accounts)) [
      | inl clashes ↦ absurd (cc (ap (λ y. y.0) (rw clashes at e)))
      | inr free ↦
          let e' = rw free at e in ((λ i. ap (λ y. balance y.1 i) (sym e')), cc (ap (λ y. y.0) e'))
    ]

module _ (d0 : Db) where
  -- An account that passes a test, in books in which nothing has moved.
  abbrev pub Passing : (Account → Bool) → Account → Db → Type 0
  Passing p a d = Unmoved d0 d × (p a ≡ true)

  insert_account-Passing :
      (clash : Error) (n : NewAccount) (p : Account → Bool)
      → ((i : ℕ) → p (new_account n i) ≡ true)
      → Triple (Unmoved d0) (exec (insert_account clash n)) (Passing p) (Unmoved d0)
  insert_account-Passing clash n p fits =
      Triple-exec _
        (λ now d d' a u e t.
          let (same, new) = inserted clash n now d d' a e in
          (
            (Unmoved-Stable d0).commit d' (record {
              books = (insert_account-Books clash n).at now d d' a u.books e;
              balances = λ i. same i ∙ u.balances i;
            }),
            subst (λ y. p y ≡ true) new (fits d.next_id),
          ))
        (λ d u. u)

  ensure-Passing :
      (get : M Account) (n : NewAccount) (p : Account → Bool)
      → Triple (Unmoved d0) get (Passing p) (Unmoved d0)
      → ((i : ℕ) → p (new_account n i) ≡ true)
      → Triple (Unmoved d0) (ensure get n) (Passing p) (Unmoved d0)
  unfolding ensure
  ensure-Passing get n p h fits =
      Triple-if_no_rows _ _ h
        (Triple-if_no_rows _ _ (insert_account-Passing no_rows n p fits) h (λ d u. u)) (λ d u. u)

  pub general-Passing :
      (unit : ℕ)
      → Triple
          (Unmoved d0)
          (ensure_unit_general_account unit)
          (Passing (is_general unit))
          (Unmoved d0)
  unfolding ensure_unit_general_account
  general-Passing unit =
      ensure-Passing _ _ (is_general unit)
        (Triple-query _ (λ d a u e. (u, row_found_passes (is_general unit) d.accounts a e))
          (λ d u. u))
        (λ i. ground arith)

  pub individual-Passing :
      (unit member : ℕ) (name : String)
      → Triple
          (Unmoved d0)
          (ensure_scout_account unit member name)
          (Passing (is_individual unit member))
          (Unmoved d0)
  unfolding ensure_scout_account
  individual-Passing unit member name =
      ensure-Passing _ _ (is_individual unit member)
        (Triple-query _
          (λ d a u e. (u, row_found_passes (is_individual unit member) d.accounts a e)) (λ d u. u))
        (λ i. ground arith)
