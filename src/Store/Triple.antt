-- ===== src/Store/Triple.antt =====
-- What a call does, whichever statements fail: from a database with `P` it returns a value with
-- `Q`, or an error with `E`. One rule for each way to build a call.
use scout_site.Prelude.{ℕ, ◌≡◌, refl, inl, inr, Bool, true, false, ◌∷◌, if◌then◌else◌, Bool-cases}
use scout_site.Store.Rows.{AuditEntry, Db}
use scout_site.Store.Sql.{
  Error, no_rows, Result, ok, err, World, M, pure, raise, lift, continue, ◌>>=◌, next_fault, sent,
  query, settled, committed, commit, exec_tx, exec, finish, transact, clock, audit_log, map_error,
  or_else, if_no_rows, close_tx,
}

abbrev pub Outcome : {A : Type 0} → (A → Db → Type 0) → (Db → Type 0) → Result A → Db → Type 0
Outcome Q E (ok a) d = Q a d
Outcome Q E (err e) d = E d

pub record Triple {A : Type 0} (P : Db → Type 0) (m : M A) (Q : A → Db → Type 0) (E : Db → Type 0)
    : Type 0 where
  pub at : (w : World) → P w.db → Outcome Q E (m w).0 (m w).1.db

-- The call keeps `P`, whether it returns or fails.
abbrev pub Keeps : {A : Type 0} → (Db → Type 0) → M A → Type 0
Keeps P m = Triple P m (λ _ d. P d) P

module _ {A : Type 0} {P E : Db → Type 0} {Q : A → Db → Type 0} where
  pub Triple-pure : (a : A) → ((d : Db) → P d → Q a d) → Triple P (pure a) Q E
  unfolding pure
  Triple-pure a h = record { at = λ w p. h w.db p }

  pub Triple-raise : (e : Error) → ((d : Db) → P d → E d) → Triple P (raise e) Q E
  unfolding raise
  Triple-raise e h = record { at = λ w p. h w.db p }

  -- The rest of the call may use that the test passed.
  pub Triple-lift :
      (r : Result A)
      → ((a : A) → r ≡ ok a → (d : Db) → P d → Q a d)
      → ((d : Db) → P d → E d)
      → Triple P (lift r) Q E
  unfolding lift
  Triple-lift (ok a) h g = record { at = λ w p. h a refl w.db p }
  Triple-lift (err e) h g = record { at = λ w p. g w.db p }

  pub Triple-query :
      (f : Db → Result A)
      → ((d : Db) (a : A) → P d → f d ≡ ok a → Q a d)
      → ((d : Db) → P d → E d)
      → Triple P (query f) Q E
  unfolding query
  Triple-query f h g = record {
    at = λ w p. elim (Bool-cases (next_fault w.faults)) [
      | inl failed ↦ rw failed (g w.db p)
      | inr sound ↦ rw sound (read w.db p (f w.db) refl)
    ];
  }
    where
      read : (d : Db) → P d → (r : Result A) → f d ≡ r → Outcome Q E r d
      read d p (ok a) e = h d a p e
      read d p (err _) e = g d p

  Triple-if :
      (b : Bool) (m n : M A)
      → (b ≡ true → Triple P m Q E)
      → (b ≡ false → Triple P n Q E)
      → Triple P (if b then m else n) Q E
  Triple-if true m n hm hn = hm refl
  Triple-if false m n hm hn = hn refl

  pub Triple-map_error :
      (g : Error → Error) (m : M A) → Triple P m Q E → Triple P (map_error g m) Q E
  unfolding map_error
  Triple-map_error g m h = record { at = λ w p. same (m w) (h.at w p) }
    where
      same :
          (x : Result A × World)
          → Outcome Q E x.0 x.1.db
          → let y : Result A × World = elim x.0 [ ok a ↦ (ok a, x.1) | err e ↦ (err (g e), x.1) ] in
            Outcome Q E y.0 y.1.db
      same (ok a, w) o = o
      same (err e, w) o = o

  pub Triple-exec :
      (f : ℕ → Db → Result A × Db)
      → ((now : ℕ) (d d' : Db) (a : A)
          → P d
          → f now d ≡ (ok a, d')
          → settled d'.touched d'.postings ≡ true
          → Q a (committed d'))
      → ((d : Db) → P d → E d)
      → Triple P (exec f) Q E
  unfolding exec
  Triple-exec f h g = record {
    at = λ w p. elim (Bool-cases (next_fault w.faults)) [
      | inl failed ↦ rw failed (g w.db p)
      | inr sound ↦ rw sound (run w p (f w.now w.db).0 (f w.now w.db).1 refl)
    ];
  }
    where
      run :
          (w : World)
          → P w.db
          → (r : Result A) (d : Db) → f w.now w.db ≡ (r, d)
          → let (r', w') = commit w.db r (record (sent w) { db = d }) in Outcome Q E r' w'.db
      run w p (err e) d eq = g w.db p
      run w p (ok a) d eq = elim (Bool-cases (settled d.touched d.postings)) [
        | inl t ↦ rw t (h w.now w.db d a p eq t)
        | inr t ↦ rw t (g w.db p)
      ]

  pub Triple-exec_tx :
      (f : ℕ → Db → Result A × Db)
      → ((now : ℕ) (d d' : Db) (a : A) → P d → f now d ≡ (ok a, d') → Q a d')
      → ((d : Db) → E d)
      → Triple P (exec_tx f) Q E
  unfolding exec_tx
  Triple-exec_tx f h g = record {
    at = λ w p. elim (Bool-cases (next_fault w.faults)) [
      | inl failed ↦ rw failed (g w.db)
      | inr sound ↦ rw sound (run w p (f w.now w.db).0 (f w.now w.db).1 refl)
    ];
  }
    where
      run : (w : World) → P w.db → (r : Result A) (d : Db) → f w.now w.db ≡ (r, d) → Outcome Q E r d
      run w p (err e) d eq = g d
      run w p (ok a) d eq = h w.now w.db d a p eq

  -- The body may break what a commit or a rollback restores.
  pub Triple-transact :
      {R : A → Db → Type 0} (body : M A)
      → Triple P body R (λ _. Unit)
      → ((d : Db) (a : A) → R a d → settled d.touched d.postings ≡ true → Q a (committed d))
      → ((d : Db) → P d → E d)
      → Triple P (transact body) Q E
  unfolding transact
  Triple-transact {R} body b h g = record {
    at = λ w p. elim (Bool-cases (next_fault w.faults)) [
      | inl failed ↦ rw failed (g w.db p)
      | inr sound ↦ rw sound (close w p (body (sent w)).0 (body (sent w)).1 (b.at (sent w) p))
    ];
  }
    where
      close :
          (w : World)
          → P w.db
          → (r : Result A) (w' : World) → Outcome R (λ _. Unit) r w'.db
          → let (r', v) = finish w.db r w' in Outcome Q E r' v.db
      close w p (err e) w' o = g w.db p
      close w p (ok a) w' o = elim (Bool-cases (next_fault w'.faults)) [
        | inl failed ↦ rw failed (g w.db p)
        | inr sound ↦ rw sound (elim (Bool-cases (settled w'.db.touched w'.db.postings)) [
          | inl t ↦ rw t (h w'.db a o t)
          | inr t ↦ rw t (g w.db p)
        ])
      ]

  pub Triple-close_tx :
      {R : A → Db → Type 0} (body : M A)
      → Triple P body R (λ _. Unit)
      → ((d : Db) (a : A) → R a d → settled d.touched d.postings ≡ true → Q a (committed d))
      → ((d : Db) → P d → E d)
      → Triple P (close_tx body) Q E
  unfolding close_tx
  Triple-close_tx {R} body b h g = record { at = λ w p. close w p (body w).0 (body w).1 (b.at w p) }
    where
      close :
          (w : World)
          → P w.db
          → (r : Result A) (w' : World) → Outcome R (λ _. Unit) r w'.db
          → let (r', v) = finish w.db r w' in Outcome Q E r' v.db
      close w p (err e) w' o = g w.db p
      close w p (ok a) w' o = elim (Bool-cases (next_fault w'.faults)) [
        | inl failed ↦ rw failed (g w.db p)
        | inr sound ↦ rw sound (elim (Bool-cases (settled w'.db.touched w'.db.postings)) [
          | inl t ↦ rw t (h w'.db a o t)
          | inr t ↦ rw t (g w.db p)
        ])
      ]

  pub Triple-if_no_rows :
      (m n : M A)
      → Triple P m Q P
      → Triple P n Q E
      → ((d : Db) → P d → E d)
      → Triple P (if_no_rows m n) Q E
  unfolding if_no_rows
  Triple-if_no_rows m n hm hn g = record { at = λ w p. next (m w).0 (m w).1 (hm.at w p) }
    where
      next :
          (r : Result A) (w : World)
          → Outcome Q P r w.db
          → let (r', w') =
              (let y : Result A × World = elim r [ ok a ↦ (ok a, w) | err e ↦ or_else e n w ] in
                y) in
            Outcome Q E r' w'.db
      next (ok a) w o = o
      next (err no_rows) w o = hn.at w o
      next (err e) w o = g w.db o

module _ {A B : Type 0} {P E : Db → Type 0} {R : A → Db → Type 0} {Q : B → Db → Type 0} where
  pub Triple-bind :
      (m : M A) (f : A → M B)
      → Triple P m R E
      → ((a : A) → Triple (R a) (f a) Q E)
      → Triple P (m >>= f) Q E
  unfolding ◌>>=◌
  Triple-bind m f hm hf = record { at = λ w p. next (m w).0 (m w).1 (hm.at w p) }
    where
      next :
          (r : Result A) (w : World)
          → Outcome R E r w.db
          → Outcome Q E (continue r f w).0 (continue r f w).1.db
      next (ok a) w o = (hf a).at w o
      next (err e) w o = o

module _ {A : Type 0} {P P' E E' : Db → Type 0} {Q Q' : A → Db → Type 0} where
  -- A weaker statement follows from a stronger one.
  pub Triple-weaken :
      {m : M A}
      → ((d : Db) → P' d → P d)
      → ((a : A) (d : Db) → Q a d → Q' a d)
      → ((d : Db) → E d → E' d)
      → Triple P m Q E
      → Triple P' m Q' E'
  Triple-weaken {m} hp hq he t = record { at = λ w p. next (m w).0 (m w).1 (t.at w (hp w.db p)) }
    where
      next : (r : Result A) (w : World) → Outcome Q E r w.db → Outcome Q' E' r w.db
      next (ok a) w o = hq a w.db o
      next (err e) w o = he w.db o

module _ {A : Type 0} {P E : Db → Type 0} {Q : A → Db → Type 0} where
  -- A call may be followed from each database with the precondition.
  pub Triple-from : (m : M A) → ((d0 : Db) → P d0 → Triple (λ d. d ≡ d0) m Q E) → Triple P m Q E
  Triple-from m h = record { at = λ w p. (h w.db p).at w refl }

  -- What holds of every database may be assumed.
  pub Triple-given :
      {X : Type 0} {m : M A} → ((x : X) → Triple P m Q E) → Triple (λ d. P d × X) m Q E
  Triple-given h = record { at = λ w (p, x). (h x).at w p }

abbrev pub with_entry : AuditEntry → Db → Db
with_entry e d = record d { audit = e ∷ d.audit }

module _ {P E : Db → Type 0} {Q : Unit {0} → Db → Type 0} where
  pub Triple-audit_log :
      (e : AuditEntry)
      → ((d : Db) → P d → Q tt d)
      → ((d : Db) → P d → Q tt (with_entry e d))
      → Triple P (audit_log e) Q E
  unfolding audit_log
  Triple-audit_log e h g = record {
    at = λ w p. elim (Bool-cases (next_fault w.faults)) [
      | inl failed ↦ rw failed (h w.db p)
      | inr sound ↦ rw sound (g w.db p)
    ];
  }

module _ {P E : Db → Type 0} {Q : ℕ → Db → Type 0} where
  pub Triple-clock : ((now : ℕ) (d : Db) → P d → Q now d) → Triple P clock Q E
  unfolding clock
  Triple-clock h = record { at = λ w p. h w.now w.db p }
