-- ===== src/Auth/Lockout/Burst.antt =====
-- The row of failures is what a history of failures comes to.
use mathlib.Core.Path.{subst}
use scout_site.Prelude.{
  ℕ, ◌+◌, ◌≡◌, refl, sym, ap, inl, inr, Bool, true, false, not, Option, none, some, List, [], ◌∷◌,
  arith, leb, if◌then◌else◌, find, any, select, update_where, Bool-cases,
}
use scout_site.Prelude.Text.{Bytes, same_bytes, same_bytes_refl, same_bytes_eq}
use scout_site.Store.Rows.{Db}
use scout_site.Store.Logins.{Logins, Failures}
use scout_site.Store.Calm.{calm}
use scout_site.Auth.{login_lockout_window, max_login_failures, normalize_email}
use scout_site.Auth.Lockout.{
  is_of, is_stale, lockout_of, failed_again, upsert_failure, record_login_failure,
  clear_login_failures,
}

-- What may happen to an address, and when.
pub data Attempt : Type 0 where
  failed cleared : Bytes → ℕ → Attempt

unfoldable pub happen : List Attempt → Db → Db
happen [] d = d
happen (failed email now ∷ rest) d = happen rest (record_login_failure email (calm now d)).1.db
happen (cleared email now ∷ rest) d = happen rest (clear_login_failures email (calm now d)).1.db

-- The specification: the times of an address's failures since it was last cleared, the newest
-- first.
abbrev pub history : Bytes → List Attempt → List ℕ → List ℕ
history key [] ts = ts
history key (failed email now ∷ rest) ts =
    history key rest (if same_bytes (normalize_email email) key then now ∷ ts else ts)
history key (cleared email now ∷ rest) ts =
    history key rest (if same_bytes (normalize_email email) key then [] else ts)

-- How many failures the latest burst has: those with no gap beyond the window between them.
abbrev pub burst : List ℕ → ℕ
burst [] = 0
burst (t ∷ []) = 1
burst (t ∷ u ∷ ts) =
    let rest = burst (u ∷ ts) in if is_stale login_lockout_window t u then 1 else rest + 1

-- Locked out: the latest failure is within the window, and its burst has reached the limit.
abbrev pub is_locked : ℕ → List ℕ → Bool
is_locked now [] = false
is_locked now (t ∷ ts) =
    if is_stale login_lockout_window now t then false else leb max_login_failures (burst (t ∷ ts))

-- The row that stands for a history.
pub record Stands (t : ℕ) (ts : List ℕ) (f : Failures) : Type 0 where
  pub count_is : f.failure_count ≡ burst (t ∷ ts)
  pub last_is : f.last_failure_at ≡ t

abbrev pub Represents : Option Failures → List ℕ → Type 0
Represents none [] = Unit
Represents none (t ∷ ts) = ⊥
Represents (some f) [] = ⊥
Represents (some f) (t ∷ ts) = Stands t ts f

pub lockout_of-is_locked :
    (now : ℕ) (o : Option Failures) (ts : List ℕ)
    → Represents o ts
    → lockout_of now o ≡ is_locked now ts
lockout_of-is_locked now none [] r = refl
lockout_of-is_locked now none (t ∷ ts) r = absurd r
lockout_of-is_locked now (some f) [] r = absurd r
lockout_of-is_locked now (some f) (t ∷ ts) r = rw (r.count_is, r.last_is) refl

abbrev pub row_at : Bytes → Logins → Option Failures
row_at key l = find (is_of key) l.login_failures

abbrev pub again : ℕ → Option Failures → Bytes → Option Failures
again now none key =
    some (record { email = key; failure_count = 1; first_failure_at = now; last_failure_at = now })
again now (some f) key = some (failed_again now f)

abbrev KeepEmail : Failures → Failures → Type 0
KeepEmail f g = f.email ≡ g.email

failed_again-email : (now : ℕ) (f : Failures) → (failed_again now f).email ≡ f.email
failed_again-email now f = elim (Bool-cases (is_stale login_lockout_window now f.last_failure_at)) [
  | inl e ↦ rw e refl
  | inr e ↦ rw e refl
]

-- An update at a key changes that key's row, and no other's.
find-update_here :
    (key : Bytes) (now : ℕ) (fs : List Failures)
    → any (is_of key) fs ≡ true
    → find (is_of key) (update_where (is_of key) (failed_again now) fs)
      ≡ again now (find (is_of key) fs) key
find-update_here key now [] h = cc
find-update_here key now (f ∷ fs) h = elim (Bool-cases (is_of key f)) [
  | inl e ↦ rw e (rw (failed_again-email now f, e) refl)
  | inr e ↦ rw (e, e) (find-update_here key now fs (rw e at h))
]

find-none :
    (key : Bytes) (fs : List Failures) → any (is_of key) fs ≡ false → find (is_of key) fs ≡ none
find-none key [] h = refl
find-none key (f ∷ fs) h = ground (arith, find-none key fs)

pub row_at-upsert_failure :
    (key : Bytes) (now : ℕ) (l : Logins)
    → row_at key (upsert_failure key now l) ≡ again now (row_at key l) key
unfolding upsert_failure
row_at-upsert_failure key now l = elim (Bool-cases (any (is_of key) l.login_failures)) [
  | inl e ↦ rw e (find-update_here key now l.login_failures e)
  | inr e ↦ rw (e, same_bytes_refl key, find-none key l.login_failures e) refl
]

-- Two keys that differ.
apart :
    (email key : Bytes) (f : Failures)
    → same_bytes email key ≡ false
    → is_of email f ≡ true
    → is_of key f ≡ false
apart email key f h e =
    subst (λ z. same_bytes z key ≡ false) (sym (same_bytes_eq f.email email e)) h

find-update_elsewhere :
    (email key : Bytes) (now : ℕ) (fs : List Failures)
    → same_bytes email key ≡ false
    → find (is_of key) (update_where (is_of email) (failed_again now) fs) ≡ find (is_of key) fs
find-update_elsewhere email key now [] h = refl
find-update_elsewhere email key now (f ∷ fs) h = elim (Bool-cases (is_of email f)) [
  | inl e ↦ rw e (
      rw (failed_again-email now f, apart email key f h e)
        (find-update_elsewhere email key now fs h))
  | inr e ↦ rw (e, find-update_elsewhere email key now fs h) refl
]

pub row_at-upsert_elsewhere :
    (email key : Bytes) (now : ℕ) (l : Logins)
    → same_bytes email key ≡ false
    → row_at key (upsert_failure email now l) ≡ row_at key l
unfolding upsert_failure
row_at-upsert_elsewhere email key now l h = elim (Bool-cases (any (is_of email) l.login_failures)) [
  | inl e ↦ rw e (find-update_elsewhere email key now l.login_failures h)
  | inr e ↦ rw (e, h) refl
]

pub find-select_here :
    (key : Bytes) (fs : List Failures)
    → find (is_of key) (select (λ f. not (is_of key f)) fs) ≡ none
find-select_here key [] = refl
find-select_here key (f ∷ fs) = elim (Bool-cases (is_of key f)) [
  | inl e ↦ rw e (find-select_here key fs)
  | inr e ↦ rw e (rw e (find-select_here key fs))
]

pub find-select_elsewhere :
    (email key : Bytes) (fs : List Failures)
    → same_bytes email key ≡ false
    → find (is_of key) (select (λ f. not (is_of email f)) fs) ≡ find (is_of key) fs
find-select_elsewhere email key [] h = refl
find-select_elsewhere email key (f ∷ fs) h = elim (Bool-cases (is_of email f)) [
  | inl e ↦ rw (e, apart email key f h e) (find-select_elsewhere email key fs h)
  | inr e ↦ rw e (rw (find-select_elsewhere email key fs h) refl)
]

-- A failure is one more entry of the history.
pub again-Represents :
    (now : ℕ) (o : Option Failures) (key : Bytes) (ts : List ℕ)
    → Represents o ts
    → Represents (again now o key) (now ∷ ts)
again-Represents now none key [] r = record { count_is = refl; last_is = refl }
again-Represents now none key (t ∷ ts) r = absurd r
again-Represents now (some f) key [] r = absurd r
again-Represents now (some f) key (t ∷ ts) r =
    elim (Bool-cases (is_stale login_lockout_window now t)) [
      | inl e ↦ rw (r.last_is, e) (record { count_is = rw e refl; last_is = refl })
      | inr e ↦
          rw (r.last_is, e)
            (record { count_is = rw e (ap (λ n. n + 1) r.count_is); last_is = refl })
    ]
