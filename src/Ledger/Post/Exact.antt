-- ===== src/Ledger/Post/Exact.antt =====
-- What insertTransaction does to the database, exactly.
use mathlib.Core.Path.{ap₂, subst}
use scout_site.Prelude.{
  ℕ, ◌≡◌, sym, ap, ◌∙◌, inl, inr, true, false, List, [], ◌∷◌, All, All-map, Bool-cases,
}
use scout_site.Prelude.Int.{ℤ, pos, ◌+ℤ◌, is_zero}
use scout_site.Store.Rows.{Transaction, Posting, Db, AuditEntry}
use scout_site.Store.Sql.{ok, ok-injective, audit_log, ◌>>◌, pure, ◌>>=◌, settled, committed}
use scout_site.Store.Triple.{
  Triple, Triple-pure, Triple-lift, Triple-query, Triple-exec_tx, Triple-transact, Triple-bind,
  Triple-audit_log, Triple-from, Triple-weaken, with_entry,
}
use scout_site.Ledger.Post.{
  check_postings, select_statuses, check_accounts, Draft, reversed_already, new_transaction,
  with_transaction, insert_transaction_row, with_posting, insert_posting_row, insert_postings,
  record_transaction, insert_transaction, audit_entry, created,
}
use scout_site.Ledger.Post.Guards.{owns_open, check_accounts-owns_open, check_postings-All}

abbrev pub with_postings : ℕ → List Posting → Db → Db
with_postings t [] d = d
with_postings t (p ∷ ps) d = with_postings t ps (with_posting t p d)

abbrev pub posting_sum : List Posting → ℤ
posting_sum [] = pos 0
posting_sum (p ∷ ps) = p.amount_cents +ℤ posting_sum ps

insert_transaction_row-ok :
    (x : Draft) (now : ℕ) (d d' : Db) (t : Transaction)
    → insert_transaction_row x now d ≡ (ok t, d')
    → (reversed_already x.reverses_id d.transactions ≡ false)
      × (t ≡ new_transaction x d.next_id now)
      × (d' ≡ with_transaction (new_transaction x d.next_id now) d)
unfolding insert_transaction_row
insert_transaction_row-ok x now d d' t e =
    elim (Bool-cases (reversed_already x.reverses_id d.transactions)) [
      | inl r ↦ absurd (cc (ap (λ y. y.0) (rw r at e)))
      | inr r ↦
          let e' : (
            ok (new_transaction x d.next_id now),
            with_transaction (new_transaction x d.next_id now) d,
          )
              ≡ (ok t, d') =
            rw r at e in
          (r, cc (ap (λ y. y.0) e'), sym (ap (λ y. y.1) e'))
    ]

insert_posting_row-ok :
    (t : ℕ) (p : Posting) (now : ℕ) (d d' : Db) (u : Unit {0})
    → insert_posting_row t p now d ≡ (ok u, d')
    → d' ≡ with_posting t p d
unfolding insert_posting_row
insert_posting_row-ok t p now d d' u e = elim (Bool-cases (is_zero p.amount_cents)) [
  | inl z ↦ absurd (cc (ap (λ y. y.0) (rw z at e)))
  | inr z ↦ sym (ap (λ y. y.1) (rw z at e))
]

-- All the postings are written, or the statement that failed ends the database transaction.
insert_postings-Triple :
    (t : ℕ) (ps : List Posting) (d0 : Db)
    → Triple (λ d. d ≡ d0) (insert_postings t ps) (λ _ d. d ≡ with_postings t ps d0) (λ _. Unit)
unfolding insert_postings
insert_postings-Triple t [] d0 = Triple-pure tt (λ d e. e)
insert_postings-Triple t (p ∷ ps) d0 =
    Triple-bind {R = λ _ d. d ≡ with_posting t p d0} _ _
      (Triple-exec_tx (insert_posting_row t p)
        (λ now d d' u e f. insert_posting_row-ok t p now d d' u f ∙ ap (with_posting t p) e)
        (λ _. tt))
      (λ _. insert_postings-Triple t ps (with_posting t p d0))

-- The database after a transaction is recorded, before the audit entry.
abbrev pub recorded : Draft → List Posting → ℕ → Db → Db
recorded x ps now d =
    committed (with_postings d.next_id ps (with_transaction (new_transaction x d.next_id now) d))

-- What holds when `t` has been recorded in `d0`, which made it `d`.
pub record Recorded (x : Draft) (ps : List Posting) (d0 : Db) (t : Transaction) (d : Db)
    : Type 0 where
  pub now : ℕ
  pub transaction_is : t ≡ new_transaction x d0.next_id now
  pub db_is : d ≡ recorded x ps now d0
  pub fresh : reversed_already x.reverses_id d0.transactions ≡ false
  pub at_commit :
      settled
        (with_postings d0.next_id ps
          (with_transaction (new_transaction x d0.next_id now) d0)).touched
        (with_postings d0.next_id ps
          (with_transaction (new_transaction x d0.next_id now) d0)).postings
      ≡ true

record Inserted (x : Draft) (d0 : Db) (t : Transaction) (d : Db) : Type 0 where
  now : ℕ
  transaction_is : t ≡ new_transaction x d0.next_id now
  db_is : d ≡ with_transaction (new_transaction x d0.next_id now) d0
  fresh : reversed_already x.reverses_id d0.transactions ≡ false

Inserted-row :
    (x : Draft) (d0 : Db) (now : ℕ) (d d' : Db) (t : Transaction)
    → d ≡ d0
    → insert_transaction_row x now d ≡ (ok t, d')
    → Inserted x d0 t d'
Inserted-row x d0 now d d' t same e =
    let e' : insert_transaction_row x now d0 ≡ (ok t, d') = rw same at e in
    let (fresh, t_is, d_is) = insert_transaction_row-ok x now d0 d' t e' in
    record { now = now; transaction_is = t_is; db_is = d_is; fresh = fresh }

module _ (x : Draft) (ps : List Posting) (d0 : Db) where
  -- After the row and the postings, before the commit.
  abbrev Written : Transaction → Db → Type 0
  Written t d = (d1 : Db) × Inserted x d0 t d1 × (d ≡ with_postings t.id ps d1)

  Written-Recorded :
      (d : Db) (t : Transaction)
      → Written t d
      → settled d.touched d.postings ≡ true
      → Recorded x ps d0 t (committed d)
  Written-Recorded d t (d1, i, e) s =
      let path : d
          ≡ with_postings d0.next_id ps (with_transaction (new_transaction x d0.next_id i.now) d0) =
        e
        ∙ ap₂ (λ j z. with_postings j ps z) (ap (λ (y : Transaction). y.id) i.transaction_is)
            i.db_is in
      record {
        now = i.now;
        transaction_is = i.transaction_is;
        db_is = ap committed path;
        fresh = i.fresh;
        at_commit = subst (λ z. settled z.touched z.postings ≡ true) path s;
      }

  record_transaction-Triple :
      Triple (λ d. d ≡ d0) (record_transaction x ps) (Recorded x ps d0) (λ d. d ≡ d0)
  unfolding record_transaction
  record_transaction-Triple =
      Triple-transact {R = Written} _
        (Triple-bind {R = Inserted x d0} _ _
          (Triple-exec_tx (insert_transaction_row x) (Inserted-row x d0) (λ _. tt))
          (λ t. Triple-from _ λ d1 i.
            Triple-bind {R = λ _ d. d ≡ with_postings t.id ps d1} _ _
              (insert_postings-Triple t.id ps d1) (λ _. Triple-pure t (λ d e. (d1, i, e)))))
        (λ d t w s. Written-Recorded d t w s) (λ d e. e)

  -- The postings that insertTransaction accepts: at least two, none of them zero, an int64 sum that
  -- is zero, and each on an open account of the unit.
  pub record Accepted : Type 0 where
    pub ids : List ℕ
    pub checked : check_postings ps ≡ ok ids
    pub accounts :
        All
          (λ p.
            (owns_open d0.accounts p.account_id x.unit_id ≡ true)
            × (is_zero p.amount_cents ≡ false))
          ps

  accept :
      (ids : List ℕ)
      → check_postings ps ≡ ok ids
      → check_accounts ids (select_statuses ids x.unit_id d0.accounts) ≡ ok tt
      → Accepted
  accept ids e f = record {
    ids = ids;
    checked = e;
    accounts =
        All-map
          (λ p h. (check_accounts-owns_open p.account_id x.unit_id ids ids d0.accounts f h.0, h.1))
          ps (check_postings-All ps ids e);
  }

  -- A call of insertTransaction that returns a transaction was given acceptable postings, and has
  -- added that transaction, its postings and at most an audit entry; one that fails, at whatever
  -- statement, has changed nothing.
  pub insert_transaction-Triple :
      Triple
        (λ d. d ≡ d0)
        (insert_transaction x ps)
        (λ t d.
          Accepted
          × ((d1 : Db) × Recorded x ps d0 t d1
              × ((entries : List AuditEntry) × (d ≡ record d1 { audit = entries }))))
        (λ d. d ≡ d0)
  unfolding insert_transaction
  insert_transaction-Triple =
      Triple-bind {R = λ ids d. (check_postings ps ≡ ok ids) × (d ≡ d0)} _ _
        (Triple-lift _ (λ ids e d q. (e, q)) (λ d q. q))
        (λ ids.
          Triple-bind
            {R = λ rows d.
              (check_postings ps ≡ ok ids)
              × (rows ≡ select_statuses ids x.unit_id d0.accounts)
              × (d ≡ d0)}
            _ _
            (Triple-query _
              (λ d rows q e. (
                q.0,
                sym (ok-injective _ _ e) ∙ ap (λ z. select_statuses ids x.unit_id z.accounts) q.1,
                q.1,
              ))
              (λ d q. q.1))
            (λ rows.
              Triple-bind {R = λ _ d. Accepted × (d ≡ d0)} _ _
                (Triple-lift _ (λ u e d q. (accept ids q.0 (rw q.1 at e), q.2)) (λ d q. q.2))
                (λ _. Triple-from _ λ d1 q. finish q.0 q.1)))
    where
      finish :
          {d1 : Db}
          → Accepted
          → d1 ≡ d0
          → Triple
              (λ d. d ≡ d1)
              (do
                t ← record_transaction x ps
                audit_log (audit_entry "ledger_transaction" t.id x.created_by (created x.status))
                pure t)
              (λ t d.
                Accepted
                × ((d2 : Db) × Recorded x ps d0 t d2
                    × ((entries : List AuditEntry) × (d ≡ record d2 { audit = entries }))))
              (λ d. d ≡ d0)
      finish accepted same =
          Triple-bind {R = Recorded x ps d0} _ _
            (Triple-weaken (λ d e. e ∙ same) (λ t d r. r) (λ d e. e) record_transaction-Triple)
            (λ t. Triple-from _ λ d2 r.
              Triple-bind
                {R = λ _ d. (entries : List AuditEntry) × (d ≡ record d2 { audit = entries })} _ _
                (Triple-audit_log _ (λ d e. (d2.audit, e)) (λ d e. (_, ap (with_entry _) e)))
                (λ _. Triple-pure t (λ d h. (accepted, (d2, r, h)))))
