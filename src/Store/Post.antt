-- ===== src/Store/Post.antt =====
-- What a call returns, its error included, whichever statements fail: `Triple` where the error
-- matters.
use scout_site.Prelude.{ℕ, ◌≡◌, refl, inl, inr, Bool-cases}
use scout_site.Store.Rows.{Db}
use scout_site.Store.Sql.{
  Error, db_error, Result, ok, err, World, M, pure, raise, lift, continue, ◌>>=◌, next_fault, sent,
  query, settled, committed, commit, exec_tx, exec, finish, close_tx, clock, map_error,
}

pub record Post {A : Type 0} (P : Db → Type 0) (m : M A) (Q : Result A → Db → Type 0) : Type 0 where
  pub at : (w : World) → P w.db → Q (m w).0 (m w).1.db

module _ {A : Type 0} {P : Db → Type 0} {Q : Result A → Db → Type 0} where
  pub Post-pure : (a : A) → ((d : Db) → P d → Q (ok a) d) → Post P (pure a) Q
  unfolding pure
  Post-pure a h = record { at = λ w p. h w.db p }

  pub Post-raise : (e : Error) → ((d : Db) → P d → Q (err e) d) → Post P (raise e) Q
  unfolding raise
  Post-raise e h = record { at = λ w p. h w.db p }

  pub Post-lift : (r : Result A) → ((d : Db) → P d → Q r d) → Post P (lift r) Q
  unfolding lift
  Post-lift r h = record { at = λ w p. h w.db p }

  pub Post-query :
      (f : Db → Result A)
      → ((d : Db) → P d → Q (f d) d)
      → ((d : Db) → P d → Q (err db_error) d)
      → Post P (query f) Q
  unfolding query
  Post-query f h g = record {
    at = λ w p. elim (Bool-cases (next_fault w.faults)) [
      | inl failed ↦ rw failed (g w.db p)
      | inr sound ↦ rw sound (h w.db p)
    ];
  }

  pub Post-exec :
      (f : ℕ → Db → Result A × Db)
      → ((now : ℕ) (d d' : Db) (a : A) → P d → f now d ≡ (ok a, d') → Q (ok a) (committed d'))
      → ((now : ℕ) (d d' : Db) (e : Error) → P d → f now d ≡ (err e, d') → Q (err e) d)
      → ((d : Db) → P d → Q (err db_error) d)
      → Post P (exec f) Q
  unfolding exec exec_tx commit
  Post-exec f h k g = record {
    at = λ w p. elim (Bool-cases (next_fault w.faults)) [
      | inl failed ↦ rw failed (g w.db p)
      | inr sound ↦ rw sound (run w p (f w.now w.db).0 (f w.now w.db).1 refl)
    ];
  }
    where
      run :
          (w : World)
          → P w.db
          → (r : Result A) (d : Db) → f w.now w.db ≡ (r, d)
          → let (r', w') = commit w.db r (record (sent w) { db = d }) in Q r' w'.db
      run w p (err e) d eq = k w.now w.db d e p eq
      run w p (ok a) d eq = elim (Bool-cases (settled d.touched d.postings)) [
        | inl t ↦ rw t (h w.now w.db d a p eq)
        | inr t ↦ rw t (g w.db p)
      ]

  pub Post-map_error :
      (g : Error → Error) (m : M A)
      → Post P m (λ r d. Q (elim r [ ok a ↦ ok a | err e ↦ err (g e) ]) d)
      → Post P (map_error g m) Q
  unfolding map_error
  Post-map_error g m h = record { at = λ w p. same (m w).0 (m w).1 (h.at w p) }
    where
      same :
          (r : Result A) (w : World)
          → Q (elim r [ ok a ↦ ok a | err e ↦ err (g e) ]) w.db
          → let y : Result A × World = elim r [ ok a ↦ (ok a, w) | err e ↦ (err (g e), w) ] in
            Q y.0 y.1.db
      same (ok a) w o = o
      same (err e) w o = o

  -- One statement that does not fail by itself, and COMMIT.
  pub Post-close_tx :
      (f : ℕ → Db → Db) (a : A)
      → ((now : ℕ) (d : Db) → P d → Q (ok a) (committed (f now d)))
      → ((d : Db) → P d → Q (err db_error) d)
      → Post P (close_tx (exec_tx (λ now d. (ok a, f now d)))) Q
  unfolding close_tx exec_tx finish commit
  Post-close_tx f a h g = record {
    at = λ w p. elim (Bool-cases (next_fault w.faults)) [
      | inl failed ↦ rw failed (g w.db p)
      | inr sound ↦ rw sound (elim (Bool-cases (next_fault (sent w).faults)) [
        | inl failed ↦ rw failed (g w.db p)
        | inr still ↦
            rw still (elim (Bool-cases (settled (f w.now w.db).touched (f w.now w.db).postings)) [
              | inl t ↦ rw t (h w.now w.db p)
              | inr t ↦ rw t (g w.db p)
            ])
      ])
    ];
  }

module _ {P : Db → Type 0} {Q : Result ℕ → Db → Type 0} where
  pub Post-clock : ((now : ℕ) (d : Db) → P d → Q (ok now) d) → Post P clock Q
  unfolding clock
  Post-clock h = record { at = λ w p. h w.now w.db p }

module _ {A B : Type 0} {P : Db → Type 0} {S : Result A → Db → Type 0}
    {Q : Result B → Db → Type 0} where
  pub Post-bind :
      (m : M A) (f : A → M B)
      → Post P m S
      → ((a : A) → Post (S (ok a)) (f a) Q)
      → ((e : Error) (d : Db) → S (err e) d → Q (err e) d)
      → Post P (m >>= f) Q
  unfolding ◌>>=◌
  Post-bind m f hm hf he = record { at = λ w p. next (m w).0 (m w).1 (hm.at w p) }
    where
      next : (r : Result A) (w : World) → S r w.db → Q (continue r f w).0 (continue r f w).1.db
      next (ok a) w o = (hf a).at w o
      next (err e) w o = he e w.db o
