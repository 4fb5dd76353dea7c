-- ===== src/Ledger/Orders/Settled.antt =====
-- An order that is credited or canceled stays so.

use scout_site.Prelude.{ℕ, ◌≡◌, refl, ap, Bool, true, Option, none, some, List, [], ◌∷◌, find}
use scout_site.Prelude.Int.{ℤ}
use scout_site.Store.Rows.{Db}
use scout_site.Store.Fundraising.{OrderStatus, FundraiserOrder}
use scout_site.Store.Sql.{Error, Result, ok, err, World, M, exec, exec_tx, ok-injective}
use scout_site.Store.Triple.{Outcome, Keeps}
use scout_site.Ledger.Fundraisers.{Decimals}
use scout_site.Ledger.Orders.{
  has_order_id, find_order, mark_fundraiser_order_paid, resolve_fundraiser_order_scout,
  cancel_fundraiser_order,
}
use scout_site.Ledger.Orders.Stays.{
  is_final, Settled, mark_paid-Stays, resolve_scout-Stays, cancel-Stays,
}
use scout_site.Ledger.Orders.Unmoved.{
  Unmoved, Unmoved-refl, Held, mark_paid-Held, resolve_scout-Held, cancel-Held,
}

-- What may be done about orders that have been placed.
pub data OrderCall : Type 0 where
  mark_paid cancel : ℕ → ℕ → OrderCall
  resolve_scout : ℕ → Option ℕ → ℕ → OrderCall

-- The order that a call is about.
abbrev pub order_of : OrderCall → ℕ
order_of (mark_paid id actor) = id
order_of (cancel id actor) = id
order_of (resolve_scout id scout actor) = id

-- A call, when it comes, and which of its statements fail.
pub record OrderEvent : Type 0 where
  pub call : OrderCall
  pub now : ℕ
  pub faults : List Bool

module _ (n : Decimals) where
  abbrev pub order_db : OrderCall → World → Db
  order_db (mark_paid id actor) w = (mark_fundraiser_order_paid n id actor w).1.db
  order_db (cancel id actor) w = (cancel_fundraiser_order id actor w).1.db
  order_db (resolve_scout id scout actor) w =
      (resolve_fundraiser_order_scout n id scout actor w).1.db

  unfoldable pub play_orders : List OrderEvent → Db → Db
  play_orders [] d = d
  play_orders (e ∷ es) d =
      play_orders es (order_db e.call (record { db = d; faults = e.faults; now = e.now }))

kept : {A : Type 0} {P : Db → Type 0} (m : M A) → Keeps P m → (w : World) → P w.db → P (m w).1.db
kept {A = A} {P = P} m k w p = same (m w).0 (m w).1.db (k.at w p)
  where
    same : (r : Result A) (d : Db) → Outcome (λ _. P) P r d → P d
    same (ok a) d h = h
    same (err e) d h = h

module _ (n : Decimals) (id : ℕ) (status : OrderStatus) (allocation : Option ℕ) (total : ℤ)
    (final : is_final status ≡ true) where
  order_db-Settled :
      (call : OrderCall) (w : World)
      → Settled id status allocation total w.db
      → Settled id status allocation total (order_db n call w)
  order_db-Settled (mark_paid i actor) w s =
      kept _ (mark_paid-Stays id status allocation total final n i actor) w s
  order_db-Settled (cancel i actor) w s =
      kept _ (cancel-Stays id status allocation total final i actor) w s
  order_db-Settled (resolve_scout i scout actor) w s =
      kept _ (resolve_scout-Stays id status allocation total final n i scout actor) w s

  -- A call about the order itself.
  order_db-Unmoved :
      (call : OrderCall) (w : World)
      → order_of call ≡ id
      → Settled id status allocation total w.db
      → Unmoved w.db (order_db n call w)
  order_db-Unmoved call w e s = (go call e).1
    where
      it : Held id status allocation total final w.db w.db
      it = (s, Unmoved-refl w.db)

      go :
          (c : OrderCall)
          → order_of c ≡ id
          → Held id status allocation total final w.db (order_db n c w)
      go (mark_paid i actor) same =
          rw same (kept _ (mark_paid-Held id status allocation total final w.db n actor) w it)
      go (cancel i actor) same =
          rw same (kept _ (cancel-Held id status allocation total final w.db actor) w it)
      go (resolve_scout i scout actor) same =
          rw same
            (kept _ (resolve_scout-Held id status allocation total final w.db n scout actor) w it)

  play_orders-Stays :
      (es : List OrderEvent) (d : Db)
      → Settled id status allocation total d
      → Settled id status allocation total (play_orders n es d)
  unfolding play_orders
  play_orders-Stays [] d s = s
  play_orders-Stays (e ∷ es) d s = play_orders-Stays es _ (order_db-Settled e.call _ s)

-- An order that is credited or canceled keeps its status, its allocation and its total, however often
-- orders are marked as paid, canceled or given a Scout, and whichever statements fail; and a further
-- such call for that order, whichever of its statements fail, leaves the accounts, transactions,
-- postings and allocations as they are: it is not credited again.
pub play_orders-Settled :
    (n : Decimals) (es : List OrderEvent) (d : Db) (id : ℕ) (o : FundraiserOrder)
    (further : OrderEvent)
    → find_order id d ≡ ok o
    → is_final o.status ≡ true
    → order_of further.call ≡ id
    → Settled id o.status o.fundraiser_allocation_id o.total_cents (play_orders n es d)
      × Unmoved (play_orders n es d) (play_orders n (further ∷ []) (play_orders n es d))
unfolding find_order play_orders
play_orders-Settled n es d id o further found final same =
    let stays =
      play_orders-Stays n id o.status o.fundraiser_allocation_id o.total_cents final es d (record {
        order = o;
        found = there (find (has_order_id id) d.fundraising.fundraiser_orders) found;
        status_is = refl;
        allocation_is = refl;
        total_is = refl;
      }) in
    (
      stays,
      order_db-Unmoved n id o.status o.fundraiser_allocation_id o.total_cents final further.call _
          same stays,
    )
  where
    there :
        (r : Option FundraiserOrder)
        → (elim r as (λ x. Result FundraiserOrder) [
          | none ↦ err scout_site.Store.Sql.no_rows
          | some x ↦ ok x
        ])
          ≡ ok o
        → r ≡ some o
    there none e = absurd cc
    there (some x) e = ap some (ok-injective _ _ e)
