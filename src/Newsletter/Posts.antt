-- ===== src/Newsletter/Posts.antt =====
-- Emails made from posts or written to dens and patrols, internal/newsletter/post_email.go.
use scout_site.Prelude.{
  ℕ, false, ◌&&◌, Option, List, [], ◌∷◌, ◌==◌, if◌then◌else◌, length, any, select,
}
use scout_site.Prelude.Text.{Bytes}
use scout_site.Store.Rows.{Db}
use scout_site.Store.Mailings.{
  sending, Kind, newsletter, news, group_update, Audience, whole_unit, groups, Newsletter, SubGroup,
}
use scout_site.Store.Sql.{
  no_audience, bad_audience, mail_disabled, bad_kind, Result, ok, err, M, pure, lift, ◌>>=◌, ◌>>◌,
  query, exec_tx, transact, audit_log,
}
use scout_site.Ledger.Post.{audit_entry}
use scout_site.Newsletter.{Mail, insert_newsletter}
use scout_site.Newsletter.Reach.{
  recipient_emails_for_groups, recipient_emails_for_unit, require_recipients,
}

-- distinct, on identifiers: the first of each stays.
unfoldable pub distinct_from : List ℕ → List ℕ → List ℕ
distinct_from seen [] = []
distinct_from seen (g ∷ gs) =
    let rest = distinct_from (g ∷ seen) gs in
    let skipped = distinct_from seen gs in if any (λ i. i == g) seen then skipped else g ∷ rest

unfoldable pub distinct : List ℕ → List ℕ
unfolding distinct_from
distinct gs = distinct_from [] gs

-- An email made from a post, or written to dens or patrols.
pub record PostEmail : Type 0 where
  pub unit_id : ℕ
  pub kind : Kind
  pub post_id : Option ℕ
  pub subject : Bytes
  pub body : Bytes
  pub actor_id : ℕ
  pub groups : List ℕ

-- The switch on the kind; `newsletter` is the kind that no post is made into.
abbrev pub audience_for : Kind → List ℕ → Result Audience
audience_for news [] = ok whole_unit
audience_for news (g ∷ gs) = ok groups
audience_for group_update [] = err no_audience
audience_for group_update (g ∷ gs) = ok groups
audience_for newsletter gs = err bad_kind

-- `SELECT count(*) FROM sub_groups WHERE unit_id = $1 AND active AND id = ANY($2)`
unfoldable pub count_running : ℕ → List ℕ → Db → ℕ
count_running unit gs d = length (
    select (λ (s : SubGroup). s.unit_id == unit && (s.active && any (λ i. i == s.id) gs))
      d.mailings.sub_groups)

abbrev pub check_groups : ℕ → List ℕ → Audience → M (Unit {0})
check_groups unit gs whole_unit = pure tt
check_groups unit gs groups = do
  found ← query (λ d. ok (count_running unit gs d))
  lift (if found == length gs then ok tt else err bad_audience)

abbrev pub emails_for_post : ℕ → List ℕ → Audience → M (List Bytes)
emails_for_post unit gs whole_unit = recipient_emails_for_unit unit
emails_for_post unit gs groups = recipient_emails_for_groups unit gs

abbrev pub with_group : ℕ → ℕ → Db → Db
with_group id g d = record d {
  mailings = record d.mailings {
    newsletter_audience_groups =
        record { newsletter_id = id; sub_group_id = g } ∷ d.mailings.newsletter_audience_groups;
  };
}

unfoldable pub insert_groups : ℕ → List ℕ → M (Unit {0})
insert_groups id [] = pure tt
insert_groups id (g ∷ gs) = exec_tx (λ now d. (ok tt, with_group id g d)) >> insert_groups id gs

-- The loop over the groups, which ends at once where the audience is the unit.
abbrev pub insert_audience : ℕ → List ℕ → Audience → M (Unit {0})
insert_audience id gs whole_unit = pure tt
insert_audience id gs groups = insert_groups id gs

unfoldable pub start_post_email : Mail → PostEmail → M Newsletter
unfolding distinct
start_post_email m x = do
  lift (if m.enabled x.unit_id then ok tt else err mail_disabled)
  audience ← lift (audience_for x.kind x.groups)
  check_groups x.unit_id (distinct x.groups) audience
  emails ← emails_for_post x.unit_id (distinct x.groups) audience
  lift (require_recipients emails)
  n ← transact (do
    n ← exec_tx (
        insert_newsletter (record {
          unit_id = x.unit_id;
          subject = x.subject;
          body = m.sanitize x.body;
          status = sending;
          created_by = x.actor_id;
          full_html = false;
          kind = x.kind;
          post_id = x.post_id;
          audience = audience;
        }))
    insert_audience n.id (distinct x.groups) audience
    pure n)
  audit_log (audit_entry "newsletter" n.id x.actor_id "create")
  pure n
