-- ===== src/Store/Reads.antt =====
-- Calls that only read: the database and the time stay as they are.
use scout_site.Prelude.{◌≡◌, refl, ◌∙◌, inl, inr, Bool-cases}
use scout_site.Store.Rows.{Db}
use scout_site.Store.Sql.{
  Error, Result, ok, err, World, M, pure, lift, continue, ◌>>=◌, query, next_fault, clock,
  map_error,
}

pub record Reads {A : Type 0} (m : M A) : Type 0 where
  pub db_is : (w : World) → (m w).1.db ≡ w.db
  pub now_is : (w : World) → (m w).1.now ≡ w.now

pub Reads-lift : {A : Type 0} (r : Result A) → Reads (lift r)
unfolding lift
Reads-lift r = record { db_is = λ w. refl; now_is = λ w. refl }

pub Reads-pure : {A : Type 0} (a : A) → Reads (pure a)
unfolding pure
Reads-pure a = record { db_is = λ w. refl; now_is = λ w. refl }

pub Reads-clock : Reads clock
unfolding clock
Reads-clock = record { db_is = λ w. refl; now_is = λ w. refl }

pub Reads-query : {A : Type 0} (f : Db → Result A) → Reads (query f)
unfolding query
Reads-query f = record {
  db_is = λ w. elim (Bool-cases (next_fault w.faults)) [ inl e ↦ rw e refl | inr e ↦ rw e refl ];
  now_is = λ w. elim (Bool-cases (next_fault w.faults)) [ inl e ↦ rw e refl | inr e ↦ rw e refl ];
}

pub Reads-map_error : {A : Type 0} (g : Error → Error) (m : M A) → Reads m → Reads (map_error g m)
unfolding map_error
Reads-map_error {A = A} g m h = record {
  db_is = λ w. same (m w).0 (m w).1 ∙ h.db_is w;
  now_is = λ w. same_now (m w).0 (m w).1 ∙ h.now_is w;
}
  where
    mapped : Result A → World → Result A × World
    mapped r w' = elim r [ ok a ↦ (ok a, w') | err e ↦ (err (g e), w') ]

    same : (r : Result A) (w' : World) → (mapped r w').1.db ≡ w'.db
    same (ok a) w' = refl
    same (err e) w' = refl

    same_now : (r : Result A) (w' : World) → (mapped r w').1.now ≡ w'.now
    same_now (ok a) w' = refl
    same_now (err e) w' = refl

pub Reads-bind :
    {A B : Type 0} (m : M A) (f : A → M B) → Reads m → ((a : A) → Reads (f a)) → Reads (m >>= f)
unfolding ◌>>=◌
Reads-bind {A = A} m f h k = record {
  db_is = λ w. next (m w).0 (m w).1 ∙ h.db_is w;
  now_is = λ w. next_now (m w).0 (m w).1 ∙ h.now_is w;
}
  where
    next : (r : Result A) (w' : World) → (continue r f w').1.db ≡ w'.db
    next (ok a) w' = (k a).db_is w'
    next (err e) w' = refl

    next_now : (r : Result A) (w' : World) → (continue r f w').1.now ≡ w'.now
    next_now (ok a) w' = (k a).now_is w'
    next_now (err e) w' = refl
