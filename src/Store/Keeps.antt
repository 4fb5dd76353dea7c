-- ===== src/Store/Keeps.antt =====
-- The rules of `Triple` for an invariant that a call keeps, for `search`.
use scout_site.Prelude.{ℕ, ◌≡◌}
use scout_site.Store.Rows.{AuditEntry, Db}
use scout_site.Store.Sql.{
  Error, Result, ok, M, pure, raise, lift, ◌>>=◌, query, committed, exec, exec_tx, clock, audit_log,
  map_error, if_no_rows,
}
use scout_site.Store.Triple.{
  Triple, Keeps, Triple-pure, Triple-raise, Triple-lift, Triple-query, Triple-map_error,
  Triple-exec, Triple-exec_tx, Triple-if_no_rows, Triple-bind, Triple-audit_log, Triple-clock,
  Triple-weaken, with_entry,
}

-- A statement that keeps `P` where it succeeds.
pub record Statement {A : Type 0} (P : Db → Type 0) (f : ℕ → Db → Result A × Db) : Type 0 where
  pub at : (now : ℕ) (d d' : Db) (a : A) → P d → f now d ≡ (ok a, d') → P d'

-- What neither a commit nor an audit entry touches.
pub record Stable (P : Db → Type 0) : Type 0 where
  pub commit : (d : Db) → P d → P (committed d)
  pub entry : (e : AuditEntry) (d : Db) → P d → P (with_entry e d)

module _ {A : Type 0} {P : Db → Type 0} where
  pub Keeps-pure : (a : A) → Keeps P (pure a)
  Keeps-pure a = Triple-pure a (λ d p. p)

  pub Keeps-raise : (e : Error) → Keeps P (raise {A = A} e)
  Keeps-raise e = Triple-raise e (λ d p. p)

  pub Keeps-lift : (r : Result A) → Keeps P (lift r)
  Keeps-lift r = Triple-lift r (λ a e d p. p) (λ d p. p)

  pub Keeps-query : (f : Db → Result A) → Keeps P (query f)
  Keeps-query f = Triple-query f (λ d a p e. p) (λ d p. p)

  pub Keeps-map_error : (g : Error → Error) (m : M A) → Keeps P m → Keeps P (map_error g m)
  Keeps-map_error g m h = Triple-map_error g m h

  pub Keeps-if_no_rows : (m n : M A) → Keeps P m → Keeps P n → Keeps P (if_no_rows m n)
  Keeps-if_no_rows m n hm hn = Triple-if_no_rows m n hm hn (λ d p. p)

  pub Keeps-exec : Stable P → (f : ℕ → Db → Result A × Db) → Statement P f → Keeps P (exec f)
  Keeps-exec s f h =
      Triple-exec f (λ now d d' a p e t. s.commit d' (h.at now d d' a p e)) (λ d p. p)

  -- In a database transaction a failure is rolled back.
  pub exec_tx-Statement :
      (f : ℕ → Db → Result A × Db) → Statement P f → Triple P (exec_tx f) (λ _ d. P d) (λ _. Unit)
  exec_tx-Statement f h = Triple-exec_tx f h.at (λ d. tt)

  pub Keeps-Triple : {m : M A} → Keeps P m → Triple P m (λ _ d. P d) (λ _. Unit)
  Keeps-Triple k = Triple-weaken (λ d p. p) (λ a d p. p) (λ d p. tt) k

module _ {A B : Type 0} {P : Db → Type 0} where
  pub Keeps-bind :
      (m : M A) (f : A → M B) → Keeps P m → ((a : A) → Keeps P (f a)) → Keeps P (m >>= f)
  Keeps-bind m f hm hf = Triple-bind m f hm hf

module _ {P : Db → Type 0} where
  pub Keeps-audit_log : Stable P → (e : AuditEntry) → Keeps P (audit_log e)
  Keeps-audit_log s e = Triple-audit_log e (λ d p. p) (λ d p. s.entry e d p)

  pub Keeps-clock : Keeps P clock
  Keeps-clock = Triple-clock (λ now d p. p)

pub ruleset keeps_rules = (
  Keeps-pure, Keeps-raise, Keeps-lift, Keeps-query, Keeps-map_error, Keeps-if_no_rows, Keeps-exec,
  Keeps-bind, Keeps-audit_log, Keeps-clock,
)
