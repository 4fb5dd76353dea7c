-- ===== src/Newsletter/Claims.antt =====
-- A newsletter is claimed for sending once in a while.
use mathlib.Core.Path.{subst}
use scout_site.Prelude.{
  ℕ, ◌+◌, ◌≤◌, ◌<◌, ◌≡◌, refl, sym, ap, ◌∙◌, inl, inr, Bool, true, false, ◌&&◌, ◌||◌, Option, none,
  some, List, [], ◌∷◌, arith, ltb, leb, if◌then◌else◌, find, update_where, All, Bool-cases,
}
use scout_site.Store.Rows.{Db}
use scout_site.Store.Mailings.{Audience, whole_unit, groups, Newsletter}
use scout_site.Store.Sql.{
  no_rows, newsletter_not_found, already_sent, Result, ok, err, World, M, lift, continue, ◌>>=◌,
  exec, exec_tx, committed, ok-injective, clock, map_error, replace_no_rows,
}
use scout_site.Store.Reads.{
  Reads, Reads-lift, Reads-pure, Reads-clock, Reads-query, Reads-map_error, Reads-bind,
}
use scout_site.Store.Post.{Post, Post-query, Post-exec, Post-map_error}
use scout_site.Newsletter.{
  Mail, is_newsletter, newsletter_found, find_newsletter, get_newsletter, is_sent, is_sending,
  change_newsletter, update_newsletters, abandoned_send_age,
}
use scout_site.Newsletter.Reach.{
  recipient_emails_for_unit, recipient_emails_for_groups, group_ids_for, emails_for_audience,
  recipient_emails_for,
}
use scout_site.Newsletter.Sending.{check_sendable, is_claimable, claimed, claim, begin_send}

recipients-Reads : (n : Newsletter) → Reads (recipient_emails_for n)
unfolding recipient_emails_for recipient_emails_for_unit recipient_emails_for_groups group_ids_for
recipients-Reads n = by_audience n.audience
  where
    of_groups : (chosen : List ℕ) → Reads (recipient_emails_for_groups n.unit_id chosen)
    of_groups [] = Reads-pure []
    of_groups (g ∷ gs) = Reads-query _

    by_audience : (a : Audience) → Reads (emails_for_audience n a)
    by_audience whole_unit = Reads-query _
    by_audience groups = Reads-bind _ _ (Reads-query _) of_groups

module _ (id unit : ℕ) where
  -- The newsletter is sent, or claimed at `start` or later.
  abbrev holds : ℕ → Newsletter → Bool
  holds start n = is_sent n.status || (is_sending n.status && leb start n.updated_at)

  record Taken (start : ℕ) (d : Db) : Type 0 where
    row : Newsletter
    found : find (is_newsletter id unit) d.mailings.newsletters ≡ some row
    held : holds start row ≡ true

  find-claimed :
      (now : ℕ) (ns : List Newsletter) (n : Newsletter)
      → find (is_claimable id unit) ns ≡ some n
      → (row : Newsletter) × ((find
              (is_newsletter id unit)
              (update_where (is_claimable id unit) (claimed now) ns)
            ≡ some row)
          × (holds now row ≡ true))
  find-claimed now [] n h = absurd cc
  find-claimed now (x ∷ ns) n h = elim (Bool-cases (is_newsletter id unit x)) [
    | inl e ↦ elim (Bool-cases (is_sent x.status)) [
      | inl s ↦ (x, (rw (e, s) (rw e refl), ground (arith, s)))
      | inr s ↦ (claimed now x, (rw (e, s) (rw e refl), ground arith))
    ]
    | inr e ↦
        let (row, (found, held)) = find-claimed now ns n (rw e at h) in
        (row, (rw e (rw e found), held))
  ]

  -- What a call at a time, with a database, that may claim the newsletter leaves.
  abbrev Left : ℕ → Db → Result Newsletter → Db → Type 0
  Left now d (ok n) d' = Taken now d'
  Left now d (err e) d' = d' ≡ d

  record Claiming (m : M Newsletter) : Type 0 where
    at : (w : World) → Left w.now w.db (m w).0 (m w).1.db

  Claiming-bind :
      {A : Type 0} (m : M A) (f : A → M Newsletter)
      → Reads m
      → ((a : A) → Claiming (f a))
      → Claiming (m >>= f)
  unfolding ◌>>=◌
  Claiming-bind {A = A} m f h k = record {
    at = λ w. next w (m w).0 (m w).1 (h.db_is w) (h.now_is w);
  }
    where
      next :
          (w : World) (r : Result A) (w' : World)
          → w'.db ≡ w.db
          → w'.now ≡ w.now
          → Left w.now w.db (continue r f w').0 (continue r f w').1.db
      next w (ok a) w' d t =
          subst (λ s. Left s w.db (f a w').0 (f a w').1.db) t
            (subst (λ x. Left w'.now x (f a w').0 (f a w').1.db) d ((k a).at w'))
      next w (err e) w' d t = d

  claim-Claiming : Claiming (claim id unit)
  unfolding claim map_error exec exec_tx
  claim-Claiming = record {
    at = λ w.
        (Post-map_error {Q = Left w.now w.db} (replace_no_rows already_sent)
            (exec (λ _. change_newsletter (is_claimable id unit) (claimed w.now)))
            (Post-exec {P = λ d. d ≡ w.db} _ (done w) (λ now d d' e same h. same)
              (λ d same. same))).at
          w refl;
  }
    where
      done :
          (w : World) (now : ℕ) (d d' : Db) (n : Newsletter)
          → d ≡ w.db
          → change_newsletter (is_claimable id unit) (claimed w.now) d ≡ (ok n, d')
          → Taken w.now (committed d')
      done w now d d' n same h =
          chosen (find (is_claimable id unit) d.mailings.newsletters) refl
            (unfold change_newsletter in h)
        where
          chosen :
              (o : Option Newsletter)
              → find (is_claimable id unit) d.mailings.newsletters ≡ o
              → (elim o as (λ x. Result Newsletter × Db) [
                | none ↦ (err no_rows, d)
                | some x ↦ (
                  ok (claimed w.now x),
                  update_newsletters (is_claimable id unit) (claimed w.now) d,
                )
              ])
                ≡ (ok n, d')
              → Taken w.now (committed d')
          chosen none e h = absurd (cc (ap (λ y. y.0) h))
          chosen (some x) e h =
              let (row, (found, held)) = find-claimed w.now d.mailings.newsletters x e in
              record {
                row = row;
                found =
                    ap
                      (λ (y : Result Newsletter × Db).
                        find (is_newsletter id unit) y.1.mailings.newsletters)
                      (sym h)
                    ∙ found;
                held = held;
              }

  Reads-get : Reads (get_newsletter id unit)
  unfolding get_newsletter
  Reads-get = Reads-map_error _ _ (Reads-query _)

  begin_send-Claiming : (m : Mail) → Claiming (begin_send m id unit)
  unfolding begin_send
  begin_send-Claiming m = Claiming-bind _ _ (Reads-lift _) (λ u. Claiming-bind _ _ Reads-get (λ n.
      Claiming-bind _ _ Reads-clock (λ now. Claiming-bind _ _ (Reads-lift _) (λ v.
        Claiming-bind _ _ (recipients-Reads n)
          (λ emails. Claiming-bind _ _ (Reads-lift _) (λ t. claim-Claiming))))))

  abbrev is_claim : Result Newsletter → Bool
  is_claim (ok n) = true
  is_claim (err e) = false

  held-unsendable :
      (start now : ℕ) (n : Newsletter)
      → holds start n ≡ true
      → now < start + abandoned_send_age
      → check_sendable now n ≡ err already_sent
  unfolding check_sendable
  held-unsendable start now n h g = elim (Bool-cases (is_sent n.status)) [
    | inl s ↦ rw s refl
    | inr s ↦
        let (busy, late) : (is_sending n.status ≡ true) × (leb start n.updated_at ≡ true) =
          (ground (arith, h, s), ground (arith, h, s)) in
        let early : ltb now (n.updated_at + abandoned_send_age) ≡ true = ground (arith, late, g) in
        rw (s, busy, early) refl
  ]

  -- At this time, with this database, the call claims nothing.
  record Refuses (now : ℕ) (d : Db) (m : M Newsletter) : Type 0 where
    at : (w : World) → w.now ≡ now → w.db ≡ d → is_claim (m w).0 ≡ false

  Refuses-bind :
      {A : Type 0} {now : ℕ} {d : Db} (m : M A) (f : A → M Newsletter)
      → Reads m
      → ((a : A) (w : World) → w.now ≡ now → w.db ≡ d → (m w).0 ≡ ok a → Refuses now d (f a))
      → Refuses now d (m >>= f)
  unfolding ◌>>=◌
  Refuses-bind {A = A} {now = now} {d = d} m f h k = record {
    at = λ w t e. next w t e (m w).0 (m w).1 refl (h.now_is w ∙ t) (h.db_is w ∙ e);
  }
    where
      next :
          (w : World)
          → w.now ≡ now
          → w.db ≡ d
          → (r : Result A) (w' : World) → (m w).0 ≡ r
          → w'.now ≡ now
          → w'.db ≡ d
          → is_claim (continue r f w').0 ≡ false
      next w t e (ok a) w' r t' e' = (k a w t e r).at w' t' e'
      next w t e (err x) w' r t' e' = refl

  -- The newsletter that is read is this one.
  abbrev Reading : Newsletter → Result Newsletter → Db → Type 0
  Reading row (ok n) d = row ≡ n
  Reading row (err e) d = Unit

  get_newsletter-row :
      (row n : Newsletter) (w : World)
      → find (is_newsletter id unit) w.db.mailings.newsletters ≡ some row
      → (get_newsletter id unit w).0 ≡ ok n
      → row ≡ n
  unfolding get_newsletter find_newsletter
  get_newsletter-row row n w found h = subst (λ r. Reading row r w.db) h (reading.at w refl)
    where
      row_read :
          (o : Option Newsletter) (d : Db)
          → o ≡ some row
          → Reading row
              (elim (newsletter_found o) [
                | ok a ↦ ok a
                | err e ↦ err (replace_no_rows newsletter_not_found e)
              ])
              d
      row_read none d e = tt
      row_read (some x) d e = cc

      reading : Post (λ d. d ≡ w.db) (get_newsletter id unit) (λ r d. Reading row r w.db)
      reading = Post-map_error _ _ (
          Post-query _
            (λ d same.
              row_read _ w.db
                (ap (λ (y : Db). find (is_newsletter id unit) y.mailings.newsletters) same ∙ found))
            (λ d same. tt))

  Taken-refused :
      (m : Mail) (start : ℕ) (w : World)
      → Taken start w.db
      → w.now < start + abandoned_send_age
      → is_claim (begin_send m id unit w).0 ≡ false
  unfolding begin_send lift clock
  Taken-refused m start w t g = refuses.at w refl refl
    where
      wrong :
          (n : Newsletter) (now : ℕ) (x : Unit {0})
          → t.row ≡ n
          → now ≡ w.now
          → check_sendable now n ≡ ok x
          → ⊥
      wrong n now x same time e = absurd (
          cc (
            sym (held-unsendable start w.now t.row t.held g)
            ∙ ap (check_sendable w.now) same
            ∙ ap (λ k. check_sendable k n) (sym time)
            ∙ e))

      refuses : Refuses w.now w.db (begin_send m id unit)
      refuses = Refuses-bind _ _ (Reads-lift _) (λ u v0 t0 d0 e0.
          Refuses-bind (get_newsletter id unit) _ Reads-get (λ n v1 t1 d1 e1.
            Refuses-bind _ _ Reads-clock (λ now v2 t2 d2 e2.
              Refuses-bind (lift (check_sendable now n)) _ (Reads-lift _) (λ x v3 t3 d3 e3. absurd (
                wrong n now x
                  (get_newsletter-row t.row n v1
                    (ap (λ (y : Db). find (is_newsletter id unit) y.mailings.newsletters) d1
                      ∙ t.found)
                    e1)
                  (sym (ok-injective _ _ e2) ∙ t2) e3)))))

  -- How many of the calls, each with its time and the statements that fail, claim the newsletter.
  unfoldable pub claims : Mail → List (ℕ × List Bool) → Db → ℕ
  claims m [] d = 0
  claims m ((now, faults) ∷ rest) d =
      let (r, w) = begin_send m id unit (record { db = d; faults = faults; now = now }) in
      let later = claims m rest w.db in if is_claim r then later + 1 else later

  abbrev Within : ℕ → ℕ × List Bool → Type 0
  Within start c = (start ≤ c.0) × (c.0 < start + abandoned_send_age)

  claims-Taken :
      (m : Mail) (start : ℕ) (calls : List (ℕ × List Bool)) (d : Db)
      → Taken start d
      → All (Within start) calls
      → claims m calls d ≡ 0
  unfolding claims
  claims-Taken m start [] d t h = refl
  claims-Taken m start ((now, faults) ∷ rest) d t ((low, high), h) =
      let world : World = record { db = d; faults = faults; now = now } in
      let refused = Taken-refused m start world t high in
      rw refused (
        claims-Taken m start rest _
          (kept (begin_send m id unit world).0 _ refused ((begin_send-Claiming m).at world)) h)
    where
      kept :
          (r : Result Newsletter) (d' : Db) → is_claim r ≡ false → Left now d r d' → Taken start d'
      kept (ok n) d' e l = absurd cc
      kept (err e) d' f l = subst (Taken start) (sym l) t

  claims-bounded :
      (m : Mail) (start : ℕ) (calls : List (ℕ × List Bool)) (d : Db)
      → All (Within start) calls
      → claims m calls d ≤ 1
  unfolding claims
  claims-bounded m start [] d h = omega arith
  claims-bounded m start ((now, faults) ∷ rest) d ((low, high), h) =
      let world : World = record { db = d; faults = faults; now = now } in
      after (begin_send m id unit world).0 _ ((begin_send-Claiming m).at world)
        (λ t. claims-Taken m start rest _ (sooner _ t) h) (claims-bounded m start rest _ h)
    where
      sooner : (d' : Db) → Taken now d' → Taken start d'
      sooner d' t = record { row = t.row; found = t.found; held = ground (arith, t.held, low) }

      after :
          (r : Result Newsletter) (d' : Db)
          → Left now d r d'
          → (Taken now d' → claims m rest d' ≡ 0)
          → claims m rest d' ≤ 1
          → (if is_claim r then claims m rest d' + 1 else claims m rest d') ≤ 1
      after (ok n) d' l z k = omega (arith, z l)
      after (err e) d' l z k = k

-- However often BeginSend is called for a newsletter within abandonedSendAge of a time, one call
-- after another, at whatever times, and whichever statements fail, at most one call claims the
-- newsletter.
pub claims_bounded :
    (m : Mail) (id unit start : ℕ) (calls : List (ℕ × List Bool)) (d : Db)
    → All (λ c. (start ≤ c.0) × (c.0 < start + abandoned_send_age)) calls
    → claims id unit m calls d ≤ 1
claims_bounded m id unit start calls d h = claims-bounded id unit m start calls d h
