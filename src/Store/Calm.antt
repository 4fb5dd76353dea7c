-- ===== src/Store/Calm.antt =====
-- A call none of whose statements fails for reasons of its own: what each way to build a call
-- returns, forwards.
use scout_site.Prelude.{ℕ, ◌≡◌, refl, true, []}
use scout_site.Store.Rows.{AuditEntry, Db}
use scout_site.Store.Sql.{
  Result, ok, World, M, lift, ◌>>=◌, next_fault, later_faults, query, settled, committed, commit,
  exec_tx, exec, finish, transact, audit_log,
}
use scout_site.Store.Triple.{with_entry}

abbrev pub calm : ℕ → Db → World
calm now d = record { db = d; faults = []; now = now }

module _ {A : Type 0} (now : ℕ) where
  pub lift-calm :
      (r : Result A) (a : A) (d : Db) → r ≡ ok a → lift r (calm now d) ≡ (ok a, calm now d)
  unfolding lift
  lift-calm r a d e = rw e refl

  pub query-calm :
      (f : Db → Result A) (a : A) (d : Db) → f d ≡ ok a → query f (calm now d) ≡ (ok a, calm now d)
  unfolding query next_fault later_faults
  query-calm f a d e = rw e refl

  pub exec_tx-calm :
      (f : ℕ → Db → Result A × Db) (a : A) (d d' : Db)
      → f now d ≡ (ok a, d')
      → exec_tx f (calm now d) ≡ (ok a, calm now d')
  unfolding exec_tx next_fault later_faults
  exec_tx-calm f a d d' e = rw e refl

  pub exec-calm :
      (f : ℕ → Db → Result A × Db) (a : A) (d d' : Db)
      → f now d ≡ (ok a, d')
      → settled d'.touched d'.postings ≡ true
      → exec f (calm now d) ≡ (ok a, calm now (committed d'))
  unfolding exec exec_tx commit next_fault later_faults
  exec-calm f a d d' e s = rw e (rw s refl)

  pub transact-calm :
      (body : M A) (a : A) (d d' : Db)
      → body (calm now d) ≡ (ok a, calm now d')
      → settled d'.touched d'.postings ≡ true
      → transact body (calm now d) ≡ (ok a, calm now (committed d'))
  unfolding transact finish commit next_fault later_faults
  transact-calm body a d d' e s = rw e (rw s refl)

module _ {A B : Type 0} (now : ℕ) where
  pub bind-calm :
      (m : M A) (f : A → M B) (a : A) (d d1 : Db) (r : Result B × World)
      → m (calm now d) ≡ (ok a, calm now d1)
      → f a (calm now d1) ≡ r
      → (m >>= f) (calm now d) ≡ r
  unfolding ◌>>=◌
  bind-calm m f a d d1 r e g = rw e g

pub audit_log-calm :
    (now : ℕ) (e : AuditEntry) (d : Db)
    → audit_log e (calm now d) ≡ (ok tt, calm now (with_entry e d))
unfolding audit_log next_fault later_faults
audit_log-calm now e d = refl
