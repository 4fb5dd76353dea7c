-- ===== src/Ledger/Orders/Unmoved.antt =====
-- A call about an order that is credited or canceled moves no money: creditOrderIfReady and its
-- callers in internal/ledger/fundraiser_storefront.go.
use mathlib.Core.Path.{subst}
use scout_site.Prelude.{
  ℕ, ◌≡◌, refl, sym, ap, ◌∙◌, inl, inr, true, Option, none, some, any, Bool-cases,
}
use scout_site.Prelude.Int.{ℤ}
use scout_site.Store.Rows.{Db}
use scout_site.Store.Fundraising.{OrderStatus}
use scout_site.Store.Sql.{Result, ok}
use scout_site.Store.Triple.{Keeps, Triple-pure, Triple-bind, Triple-from}
use scout_site.Store.Keeps.{Statement, Stable, keeps_rules}
use scout_site.Ledger.Fundraisers.{Decimals}
use scout_site.Ledger.Orders.{
  update_paid, update_scout, is_unsettled_order, update_canceled, credit_order,
  credit_order_if_ready, mark_fundraiser_order_paid, resolve_fundraiser_order_scout,
  cancel_fundraiser_order,
}
use scout_site.Ledger.Orders.Stays.{
  is_final, Settled, Stays-same, not_ready, Read, get_order-Triple, update_paid-Stays,
  update_canceled-Stays, update_scout-Stays,
}

-- No account, transaction, posting or allocation was added or changed.
pub record Unmoved (before d : Db) : Type 0 where
  pub accounts_same : d.accounts ≡ before.accounts
  pub transactions_same : d.transactions ≡ before.transactions
  pub postings_same : d.postings ≡ before.postings
  pub allocations_same :
      d.fundraising.fundraiser_allocations ≡ before.fundraising.fundraiser_allocations

Unmoved-of :
    (b d : Db)
    → d.accounts ≡ b.accounts
    → d.transactions ≡ b.transactions
    → d.postings ≡ b.postings
    → d.fundraising.fundraiser_allocations ≡ b.fundraising.fundraiser_allocations
    → Unmoved b d
Unmoved-of b d a t p f = record {
  accounts_same = a;
  transactions_same = t;
  postings_same = p;
  allocations_same = f;
}

pub Unmoved-refl : (d : Db) → Unmoved d d
Unmoved-refl d = Unmoved-of d d refl refl refl refl

Unmoved-trans : (b d e : Db) → Unmoved b d → Unmoved d e → Unmoved b e
Unmoved-trans b d e u v = record {
  accounts_same = v.accounts_same ∙ u.accounts_same;
  transactions_same = v.transactions_same ∙ u.transactions_same;
  postings_same = v.postings_same ∙ u.postings_same;
  allocations_same = v.allocations_same ∙ u.allocations_same;
}

update_canceled-Unmoved : (i : ℕ) (d : Db) → Unmoved d (update_canceled i d).1
unfolding update_canceled
update_canceled-Unmoved i d =
    elim (Bool-cases (any (is_unsettled_order i) d.fundraising.fundraiser_orders)) [
      | inl e ↦ rw e (Unmoved-of d _ refl refl refl refl)
      | inr e ↦ rw e (Unmoved-refl d)
    ]

module _ (id : ℕ) (status : OrderStatus) (allocation : Option ℕ) (total : ℤ)
    (final : is_final status ≡ true) (before : Db) where
  abbrev pub Held : Db → Type 0
  Held d = Settled id status allocation total d × Unmoved before d

  abbrev Held-Stable : Stable Held
  Held-Stable = record {
    commit = λ d h. (
      Stays-same id status allocation total final d _ refl h.0,
      Unmoved-trans before d _ h.1 (Unmoved-of d _ refl refl refl refl),
    );
    entry = λ e d h. (
      Stays-same id status allocation total final d _ refl h.0,
      Unmoved-trans before d _ h.1 (Unmoved-of d _ refl refl refl refl),
    );
  }

  ruleset held_rules = (keeps_rules, Held-Stable)

  Held-Statement :
      {A : Type 0} (f : ℕ → Db → Result A × Db)
      → Statement (Settled id status allocation total) f
      → ((now : ℕ) (d : Db) → Unmoved d (f now d).1)
      → Statement Held f
  Held-Statement f stays same = record {
    at = λ now d d' a h e. (
      stays.at now d d' a h.0 e,
      subst (Unmoved before) (ap (λ y. y.1) e)
          (Unmoved-trans before d (f now d).1 h.1 (same now d)),
    );
  }

  update_paid-Held : (i : ℕ) → Statement Held (λ now d. (ok tt, update_paid i d))
  unfolding update_paid
  update_paid-Held i =
      Held-Statement _ (update_paid-Stays id status allocation total final i)
        (λ now d. Unmoved-of d _ refl refl refl refl)

  update_scout-Held : (i scout : ℕ) → Statement Held (λ now d. (ok tt, update_scout i scout d))
  unfolding update_scout
  update_scout-Held i scout =
      Held-Statement _ (update_scout-Stays id status allocation total final i scout)
        (λ now d. Unmoved-of d _ refl refl refl refl)

  update_canceled-Held : (i : ℕ) → Statement Held (λ now. update_canceled i)
  update_canceled-Held i =
      Held-Statement _ (update_canceled-Stays id status allocation total final i)
        (λ now. update_canceled-Unmoved i)

  module _ (n : Decimals) where
    credit_order_if_ready-Held : (actor : ℕ) → Keeps Held (credit_order_if_ready n id actor)
    unfolding credit_order_if_ready credit_order
    credit_order_if_ready-Held actor =
        Triple-bind {R = Read id status allocation total final n Held id} _ _
          (get_order-Triple id status allocation total final n Held (λ d h. h.0) id)
          (λ r. Triple-from _ λ d0 h.
            rw (not_ready id status allocation total final r.0 (h.1 refl))
              (Triple-pure r.0 (λ d same. subst Held (sym same) h.0)))

    pub mark_paid-Held : (actor : ℕ) → Keeps Held (mark_fundraiser_order_paid n id actor)
    unfolding mark_fundraiser_order_paid
    mark_paid-Held actor = search (held_rules, update_paid-Held, credit_order_if_ready-Held)

    pub resolve_scout-Held :
        (scout : Option ℕ) (actor : ℕ)
        → Keeps Held (resolve_fundraiser_order_scout n id scout actor)
    unfolding resolve_fundraiser_order_scout
    resolve_scout-Held none actor = search held_rules
    resolve_scout-Held (some scout) actor =
        search (held_rules, update_scout-Held, credit_order_if_ready-Held)

  pub cancel-Held : (actor : ℕ) → Keeps Held (cancel_fundraiser_order id actor)
  unfolding cancel_fundraiser_order
  cancel-Held actor = search (held_rules, update_canceled-Held)
