-- ===== src/Store/Sql.antt =====
-- A call of the Go code against the database: it may fail at each statement, and comes back with a
-- value or an error, and the database as it then is.
use scout_site.Prelude.{
  ℕ, ◌≡◌, refl, ◌⊎◌, inl, inr, Bool, true, false, ◌&&◌, List, [], ◌∷◌, if◌then◌else◌,
}
use scout_site.Prelude.Int.{is_zero}
use scout_site.Store.Rows.{AuditEntry, PostingRow, Db}
use scout_site.Store.Sums.{transaction_sum, sum_where}

-- `db_error` stands for every error of the driver but `no_rows` (pgx.ErrNoRows) and
-- `unique_violation` (SQLSTATE 23505); the others are those of the packages.
pub data Error : Type 0 where
  db_error no_rows unique_violation : Error
  too_few_postings zero_amount unbalanced account_not_found account_closed : Error
  trip_fund_exists account_balance_not_zero not_a_trip_fund : Error
  amount_not_positive insufficient_funds not_reversible : Error
  request_not_found request_insufficient_funds request_account_closed : Error
  reconciliation_not_found reconciliation_open reconciliation_closed : Error
  reconciliation_not_balanced posting_not_reconcilable : Error
  bad_percent bad_quantity credit_not_positive credit_exceeds_gross unknown_mode : Error
  not_a_builtin_role cannot_disarm_super_admin : Error
  invalid_credentials account_locked invalid_reset_token invalid_pending_change : Error
  totp_not_enrolled invalid_totp_code invalid_pending_login random_failed bad_secret : Error
  key_already_registered key_not_found no_webauthn_session password_too_short : Error
  password_too_simple : Error
  bad_item no_names no_items bad_item_price bad_item_quantity order_too_large : Error
  newsletter_not_found already_sent no_recipients no_audience bad_audience mail_disabled bad_kind :
      Error
  order_not_positive no_scout_chosen order_settled fundraiser_not_found no_fundraiser_chosen : Error

pub data Result (A : Type 0) : Type 0 where
  ok : A → Result A
  err : Error → Result A

pub ok-injective : {A : Type 0} (a b : A) → ok a ≡ ok b → a ≡ b
ok-injective a b e = cc

pub Result-cases :
    {A : Type 0} (r : Result A) → ((e : Error) × (r ≡ err e)) ⊎ ((a : A) × (r ≡ ok a))
Result-cases (ok a) = inr (a, refl)
Result-cases (err e) = inl (e, refl)

-- `faults` says which of the coming statements fail for reasons of their own (a lost connection, a
-- serialization failure); where the list ends, none does. `now` is the time of the call.
pub record World : Type 0 where
  pub db : Db
  pub faults : List Bool
  pub now : ℕ

abbrev pub M : Type 0 → Type 0
M A = World → Result A × World

module _ {A : Type 0} where
  unfoldable pub pure : A → M A
  pure a w = (ok a, w)

  unfoldable pub raise : Error → M A
  raise e w = (err e, w)

  unfoldable pub lift : Result A → M A
  lift r w = (r, w)

abbrev pub continue : {A B : Type 0} → Result A → (A → M B) → M B
continue (ok a) f w = f a w
continue (err e) f w = (err e, w)

infixl 10 ◌>>=◌ ◌>>◌
unfoldable pub ◌>>=◌ : {A B : Type 0} → M A → (A → M B) → M B
◌>>=◌ m f w = let (r, w') = m w in continue r f w'

abbrev pub ◌>>◌ : {A B : Type 0} → M A → M B → M B
m >> n = m >>= λ _. n

-- Whether the next statement fails, and the world after that is known.
unfoldable pub next_fault : List Bool → Bool
next_fault [] = false
next_fault (b ∷ bs) = b

unfoldable pub later_faults : List Bool → List Bool
later_faults [] = []
later_faults (b ∷ bs) = bs

abbrev pub sent : World → World
sent w = record w { faults = later_faults w.faults }

-- A statement that only reads.
unfoldable pub query : {A : Type 0} → (Db → Result A) → M A
query f w = if next_fault w.faults then (err db_error, sent w) else (f w.db, sent w)

-- The deferred trigger at a commit: every transaction whose postings were touched sums to zero.
unfoldable pub settled : List ℕ → List PostingRow → Bool
unfolding sum_where
settled [] ps = true
settled (t ∷ ts) ps = is_zero (transaction_sum t ps) && settled ts ps

abbrev pub committed : Db → Db
committed d = record d { touched = [] }

-- What a commit makes of the outcome `r` with the database `d`, where `before` is the database
-- to which a failure returns.
unfoldable pub commit : {A : Type 0} → Db → Result A → World → Result A × World
unfolding settled
commit before (err e) w = (err e, record w { db = before })
commit before (ok a) w =
    if settled w.db.touched w.db.postings
    then (ok a, record w { db = committed w.db })
    else (err db_error, record w { db = before })

-- A statement in a transaction; it is given the time, and one that fails changes nothing.
unfoldable pub exec_tx : {A : Type 0} → (ℕ → Db → Result A × Db) → M A
exec_tx f w =
    if next_fault w.faults
    then (err db_error, sent w)
    else (let (r, d) = f w.now w.db in (r, record (sent w) { db = d }))

-- A statement on its own: it commits, or fails and changes nothing.
unfoldable pub exec : {A : Type 0} → (ℕ → Db → Result A × Db) → M A
unfolding exec_tx commit
exec f w = let (r, w') = exec_tx f w in commit w.db r w'

-- COMMIT, which may fail too.
unfoldable pub finish : {A : Type 0} → Db → Result A → World → Result A × World
unfolding commit
finish before (err e) w = commit before (err e) w
finish before (ok a) w =
    if next_fault w.faults
    then commit before (err db_error) (sent w)
    else commit before (ok a) (sent w)

-- pool.Begin, a body, tx.Commit, with the deferred tx.Rollback on every error.
unfoldable pub transact : {A : Type 0} → M A → M A
unfolding finish
transact body w =
    if next_fault w.faults
    then (err db_error, sent w)
    else (let (r, w') = body (sent w) in finish w.db r w')

-- pool.Begin, and the end of a transaction whose only writes are those of `body`: COMMIT, or a
-- rollback.
unfoldable pub begin : M (Unit {0})
unfolding query
begin = query (λ d. ok tt)

unfoldable pub close_tx : {A : Type 0} → M A → M A
unfolding finish
close_tx body w = let (r, w') = body w in finish w.db r w'

-- time.Now()
unfoldable pub clock : M ℕ
clock w = (ok w.now, w)

-- audit.Log: it writes an entry, or logs that it could not.
unfoldable pub audit_log : AuditEntry → M (Unit {0})
audit_log e w =
    if next_fault w.faults
    then (ok tt, sent w)
    else (ok tt, record (sent w) { db = record w.db { audit = e ∷ w.db.audit } })

-- `if errors.Is(err, e) { return instead }`
unfoldable pub replace_no_rows : Error → Error → Error
replace_no_rows instead no_rows = instead
replace_no_rows instead e = e

unfoldable pub replace_unique : Error → Error → Error
replace_unique instead unique_violation = instead
replace_unique instead e = e

unfoldable pub map_error : {A : Type 0} → (Error → Error) → M A → M A
map_error g m w = let (r, w') = m w in elim r [ ok a ↦ (ok a, w') | err e ↦ (err (g e), w') ]

-- Another attempt where the first found no row; other errors are returned.
unfoldable pub or_else : {A : Type 0} → Error → M A → M A
or_else no_rows m = m
or_else e m = raise e

unfoldable pub if_no_rows : {A : Type 0} → M A → M A → M A
unfolding or_else raise
if_no_rows m n w = let (r, w') = m w in elim r [ ok a ↦ (ok a, w') | err e ↦ or_else e n w' ]

-- An error is logged and passed over.
unfoldable pub best_effort : M (Unit {0}) → M (Unit {0})
best_effort m w = let (r, w') = m w in (ok tt, w')
