-- ===== src/Ledger/Orders/Stays.antt =====
-- What each call does to an order that is credited or canceled.
use mathlib.Core.Path.{subst}
use scout_site.Prelude.{
  ℕ, ◌≡◌, refl, sym, ap, ◌∙◌, inl, inr, Bool, true, false, ◌&&◌, Option, none, some, List, [], ◌∷◌,
  arith, any, find, update_where, ◌==◌, ==_iff, if◌then◌else◌, Bool-cases,
}
use scout_site.Prelude.Text.{Bytes}
use scout_site.Prelude.Int.{ℤ}
use scout_site.Store.Rows.{Db}
use scout_site.Store.Fundraising.{
  OrderStatus, pending, paid, credited, canceled, FundraiserOrder, FundraiserOrderItem,
}
use scout_site.Store.Sql.{Error, Result, ok, err, World, M, exec, exec_tx, ok-injective}
use scout_site.Store.Triple.{
  Triple, Keeps, Triple-pure, Triple-bind, Triple-query, Triple-from, Triple-weaken,
}
use scout_site.Store.Keeps.{Statement, Stable, keeps_rules}
use scout_site.Ledger.Fundraisers.{Decimals, record_fundraiser_allocation}
use scout_site.Ledger.Orders.{
  has_order_id, find_order, get_fundraiser_order, member_display_name, scout_to_credit, ready_scout,
  credited_by, update_credited, is_pending_order, update_paid, update_scout, is_unsettled_order,
  update_canceled, credit_order, credit_order_if_ready, mark_fundraiser_order_paid,
  resolve_fundraiser_order_scout, cancel_fundraiser_order,
}
use scout_site.Ledger.Orders.Elsewhere.{orders-Stable, allocation-P}

abbrev pub is_final : OrderStatus → Bool
is_final pending = false
is_final paid = false
is_final credited = true
is_final canceled = true

-- The order of that id is settled, by this allocation, if any.
pub record Settled (id : ℕ) (status : OrderStatus) (allocation : Option ℕ) (total : ℤ) (d : Db)
    : Type 0 where
  pub order : FundraiserOrder
  pub found : find (has_order_id id) d.fundraising.fundraiser_orders ≡ some order
  pub status_is : order.status ≡ status
  pub allocation_is : order.fundraiser_allocation_id ≡ allocation
  pub total_is : order.total_cents ≡ total

-- An update of orders that leaves their ids alone is an update of the order that is found.
find-update_where :
    (id : ℕ) (q : FundraiserOrder → Bool) (f : FundraiserOrder → FundraiserOrder)
    → ((x : FundraiserOrder) → (f x).id ≡ x.id)
    → (os : List FundraiserOrder) (o : FundraiserOrder) → find (has_order_id id) os ≡ some o
    → find (has_order_id id) (update_where q f os) ≡ some (if q o then f o else o)
find-update_where id q f same [] o h = absurd cc
find-update_where id q f same (x ∷ os) o h = elim (Bool-cases (has_order_id id x)) [
  | inl e ↦
      let it : x ≡ o = cc (rw e at h) in
      elim (Bool-cases (q x)) [
        | inl k ↦ rw (k, ap (λ i. i == id) (same x) ∙ e) (rw (← it, k) refl)
        | inr k ↦ rw (k, e) (rw (← it, k) refl)
      ]
  | inr e ↦
      let rest = find-update_where id q f same os o (rw e at h) in
      elim (Bool-cases (q x)) [
        | inl k ↦ rw (k, ap (λ i. i == id) (same x) ∙ e) rest
        | inr k ↦ rw (k, e) rest
      ]
]

find-has_order_id :
    (id : ℕ) (os : List FundraiserOrder) (o : FundraiserOrder)
    → find (has_order_id id) os ≡ some o
    → o.id ≡ id
find-has_order_id id [] o h = absurd cc
find-has_order_id id (x ∷ os) o h = elim (Bool-cases (has_order_id id x)) [
  | inl e ↦
      let it : x ≡ o = cc (rw e at h) in
      ap (λ (y : FundraiserOrder). y.id) (sym it) ∙ (==_iff x.id id).0 e
  | inr e ↦ find-has_order_id id os o (rw e at h)
]

module _ (id : ℕ) (status : OrderStatus) (allocation : Option ℕ) (total : ℤ)
    (final : is_final status ≡ true) where
  abbrev pub Stays : Db → Type 0
  Stays = Settled id status allocation total

  pub Stays-same :
      (d e : Db)
      → e.fundraising.fundraiser_orders ≡ d.fundraising.fundraiser_orders
      → Stays d
      → Stays e
  Stays-same d e same s = record {
    order = s.order;
    found = ap (find (has_order_id id)) same ∙ s.found;
    status_is = s.status_is;
    allocation_is = s.allocation_is;
    total_is = s.total_is;
  }

  abbrev Stable-Stays : Stable Stays
  Stable-Stays = orders-Stable Stays Stays-same

  allocation-Stays :
      (n : Decimals) (f member : ℕ) (name : Bytes) (gross : ℤ) (quantity : Bytes) (by : ℕ)
      → Keeps Stays (record_fundraiser_allocation n f member name gross quantity by)
  allocation-Stays n f member name gross quantity by =
      allocation-P Stays Stays-same n f member name gross quantity by

  ruleset stays_rules = (keeps_rules, Stable-Stays)

  pub not_pending : (o : FundraiserOrder) (i : ℕ) → o.status ≡ status → is_pending_order i o ≡ false
  not_pending o i h = off o.status (ap is_final h ∙ final)
    where
      off :
          (st : OrderStatus)
          → is_final st ≡ true
          → (has_order_id i o && elim st [ pending ↦ true | _ ↦ false ]) ≡ false
      off pending f = absurd cc
      off paid f = absurd cc
      off credited f = ground arith
      off canceled f = ground arith

  pub not_unsettled :
      (o : FundraiserOrder) (i : ℕ) → o.status ≡ status → is_unsettled_order i o ≡ false
  not_unsettled o i h = off o.status (ap is_final h ∙ final)
    where
      off :
          (st : OrderStatus)
          → is_final st ≡ true
          → (has_order_id i o && elim st [ pending ↦ true | paid ↦ true | _ ↦ false ]) ≡ false
      off pending f = absurd cc
      off paid f = absurd cc
      off credited f = ground arith
      off canceled f = ground arith

  pub not_ready : (o : FundraiserOrder) → o.status ≡ status → ready_scout o ≡ none
  not_ready o h = off o.status o.scout_member_id o.fundraiser_allocation_id (ap is_final h ∙ final)
    where
      off : (st : OrderStatus) (s a : Option ℕ) → is_final st ≡ true → scout_to_credit st s a ≡ none
      off pending s a f = absurd cc
      off paid s a f = absurd cc
      off credited s a f = refl
      off canceled s a f = refl

  -- An update of other orders.
  Stays-passed :
      (q : FundraiserOrder → Bool) (f : FundraiserOrder → FundraiserOrder)
      → ((x : FundraiserOrder) → (f x).id ≡ x.id)
      → (d d' : Db)
      → d'.fundraising.fundraiser_orders ≡ update_where q f d.fundraising.fundraiser_orders
      → (s : Stays d) → q s.order ≡ false
      → Stays d'
  Stays-passed q f same d d' e s off = record {
    order = s.order;
    found =
        ap (find (has_order_id id)) e
        ∙ find-update_where id q f same d.fundraising.fundraiser_orders s.order s.found
        ∙ ap (λ b. some (if b then f s.order else s.order)) off;
    status_is = s.status_is;
    allocation_is = s.allocation_is;
    total_is = s.total_is;
  }

  pub update_paid-Stays : (i : ℕ) → Statement Stays (λ now d. (ok tt, update_paid i d))
  unfolding update_paid
  update_paid-Stays i = record {
    at = λ now d d' u s e.
        Stays-passed (is_pending_order i) (λ (o : FundraiserOrder). record o { status = paid })
          (λ x. refl) d d'
          (ap (λ (y : Db). y.fundraising.fundraiser_orders) (sym (ap (λ y. y.1) e))) s
          (not_pending s.order i s.status_is);
  }

  pub update_canceled-Stays : (i : ℕ) → Statement Stays (λ now. update_canceled i)
  unfolding update_canceled
  update_canceled-Stays i = record {
    at = λ now d d' u s e.
        elim (Bool-cases (any (is_unsettled_order i) d.fundraising.fundraiser_orders)) [
          | inl h ↦
              Stays-passed (is_unsettled_order i)
                (λ (o : FundraiserOrder). record o { status = canceled }) (λ x. refl) d d'
                (ap (λ (y : Db). y.fundraising.fundraiser_orders) (sym (ap (λ y. y.1) (rw h at e))))
                s (not_unsettled s.order i s.status_is)
          | inr h ↦ absurd (cc (ap (λ y. y.0) (rw h at e)))
        ];
  }

  pub update_scout-Stays :
      (i scout : ℕ) → Statement Stays (λ now d. (ok tt, update_scout i scout d))
  unfolding update_scout
  update_scout-Stays i scout = record {
    at = λ now d d' u s e.
        named d d' s (ap (λ (y : Db). y.fundraising.fundraiser_orders) (sym (ap (λ y. y.1) e)));
  }
    where
      renamed : FundraiserOrder → FundraiserOrder
      renamed o = record o { scout_member_id = some scout }

      named :
          (d d' : Db) (s : Stays d)
          → d'.fundraising.fundraiser_orders
            ≡ update_where (has_order_id i) renamed d.fundraising.fundraiser_orders
          → Stays d'
      named d d' s e = elim (Bool-cases (has_order_id i s.order)) [
        | inl on ↦ record {
          order = renamed s.order;
          found =
              ap (find (has_order_id id)) e
              ∙ find-update_where id (has_order_id i) renamed (λ x. refl)
                  d.fundraising.fundraiser_orders s.order s.found
              ∙ ap (λ b. some (if b then renamed s.order else s.order)) on;
          status_is = s.status_is;
          allocation_is = s.allocation_is;
          total_is = s.total_is;
        }
        | inr off ↦ Stays-passed (has_order_id i) renamed (λ x. refl) d d' e s off
      ]

  update_credited-Stays :
      (i a : ℕ) → (i == id) ≡ false → Statement Stays (λ now d. (ok tt, update_credited i a d))
  unfolding update_credited
  update_credited-Stays i a ne = record {
    at = λ now d d' u s e.
        Stays-passed (has_order_id i) (credited_by a) (λ x. refl) d d'
          (ap (λ (y : Db). y.fundraising.fundraiser_orders) (sym (ap (λ y. y.1) e))) s
          (ap (λ k. k == i) (find-has_order_id id _ s.order s.found) ∙ ground (arith, ne));
  }

  module _ (n : Decimals) where
    credit_order-Stays :
        (i actor : ℕ) (o : FundraiserOrder) (items : List FundraiserOrderItem) (scout : Option ℕ)
        → (i == id) ≡ false
        → Keeps Stays (credit_order n i actor o items scout)
    unfolding credit_order member_display_name
    credit_order-Stays i actor o items none ne = search stays_rules
    credit_order-Stays i actor o items (some scout) ne =
        search (stays_rules, allocation-Stays, update_credited-Stays i _ ne) depth 14

    -- The order that is read is the settled one, which is not ready.
    abbrev pub Read : (Db → Type 0) → ℕ → FundraiserOrder × List FundraiserOrderItem → Db → Type 0
    Read P i r d = P d × (i ≡ id → r.0.status ≡ status)

    pub get_order-Triple :
        (P : Db → Type 0)
        → ((d : Db) → P d → Stays d)
        → (i : ℕ) → Triple P (get_fundraiser_order i) (Read P i) P
    unfolding get_fundraiser_order find_order
    get_order-Triple P stays i =
        Triple-bind {R = λ o d. P d × (i ≡ id → o.status ≡ status)} _ _
          (Triple-query _
            (λ d o s e. (
              s,
              λ same.
                  read d o (stays d s)
                    (ap (λ k. find (has_order_id k) d.fundraising.fundraiser_orders) (sym same)) e,
            ))
            (λ d s. s))
          (λ o.
            Triple-bind {R = λ _ d. P d × (i ≡ id → o.status ≡ status)} _ _
              (Triple-query _ (λ d items s e. s) (λ d s. s.0))
              (λ items. Triple-pure (o, items) (λ d s. s)))
      where
        read :
            (d : Db) (o : FundraiserOrder) (s : Stays d)
            → find (has_order_id id) d.fundraising.fundraiser_orders
              ≡ find (has_order_id i) d.fundraising.fundraiser_orders
            → (elim (find (has_order_id i) d.fundraising.fundraiser_orders)
                as (λ x. Result FundraiserOrder) [
                  | none ↦ err scout_site.Store.Sql.no_rows
                  | some x ↦ ok x
                ])
              ≡ ok o
            → o.status ≡ status
        read d o s same e =
            ap (λ (x : FundraiserOrder). x.status)
              (sym (ok-injective _ _ (rw (sym same ∙ s.found) at e)))
            ∙ s.status_is

    credit_order_if_ready-Stays : (i actor : ℕ) → Keeps Stays (credit_order_if_ready n i actor)
    unfolding credit_order_if_ready credit_order
    credit_order_if_ready-Stays i actor =
        Triple-bind {R = Read Stays i} _ _ (get_order-Triple Stays (λ d s. s) i) (λ r.
          elim (Bool-cases (i == id)) [
            | inr ne ↦
                Triple-weaken (λ d s. s.0) (λ a d s. s) (λ d s. s)
                  (credit_order-Stays i actor r.0 r.1 (ready_scout r.0) ne)
            | inl e ↦ Triple-from _ λ d0 s.
                rw (not_ready r.0 (s.1 ((==_iff i id).0 e)))
                  (Triple-pure r.0 (λ d same. subst Stays (sym same) s.0))
          ])

    pub mark_paid-Stays : (i actor : ℕ) → Keeps Stays (mark_fundraiser_order_paid n i actor)
    unfolding mark_fundraiser_order_paid
    mark_paid-Stays i actor = search (stays_rules, update_paid-Stays, credit_order_if_ready-Stays)

    pub resolve_scout-Stays :
        (i : ℕ) (scout : Option ℕ) (actor : ℕ)
        → Keeps Stays (resolve_fundraiser_order_scout n i scout actor)
    unfolding resolve_fundraiser_order_scout
    resolve_scout-Stays i none actor = search stays_rules
    resolve_scout-Stays i (some scout) actor =
        search (stays_rules, update_scout-Stays, credit_order_if_ready-Stays)

  pub cancel-Stays : (i actor : ℕ) → Keeps Stays (cancel_fundraiser_order i actor)
  unfolding cancel_fundraiser_order
  cancel-Stays i actor = search (stays_rules, update_canceled-Stays)
