-- ===== src/Newsletter.antt =====
-- Newsletters, internal/newsletter/newsletter.go: drafts, and what the children share.
pub mod Reach
pub mod Sending
pub mod Posts
pub mod Claims
pub mod Recipients
mod Tests
use scout_site.Prelude.{
  ℕ, ◌+◌, ◌*◌, Bool, true, false, not, ◌&&◌, ◌||◌, Option, none, some, List, [], ◌∷◌, ltb, ◌==◌,
  if◌then◌else◌, length, find, any, select, update_where,
}
use scout_site.Prelude.Text.{Bytes, same_bytes}
use scout_site.Store.Rows.{Member, RoleAssignment, AuditEntry, Db}
use scout_site.Store.Logins.{User}
use scout_site.Store.Mailings.{
  SendStatus, draft, sending, sent, Kind, newsletter, news, group_update, Audience, whole_unit,
  groups, Newsletter, Recipient, AudienceGroup, SubGroup, Mailings,
}
use scout_site.Store.Sql.{
  no_rows, newsletter_not_found, already_sent, no_recipients, no_audience, bad_audience,
  mail_disabled, bad_kind, Result, ok, err, M, pure, raise, lift, ◌>>=◌, ◌>>◌, query, exec, exec_tx,
  transact, clock, audit_log, map_error, replace_no_rows, best_effort,
}
use scout_site.Ledger.Post.{audit_entry}

-- What the package uses of others: whether mail is set up for a unit (internal/mailer), and the two
-- sanitizers, which stand on a parser of HTML.
pub record Mail : Type 0 where
  pub enabled : ℕ → Bool
  pub sanitize : Bytes → Bytes
  pub sanitize_full_html : Bytes → Bytes

abbrev pub abandoned_send_age : ℕ
abandoned_send_age = 40 * 60

abbrev pub with_newsletter : Newsletter → Db → Db
with_newsletter n d = record d {
  mailings = record d.mailings { newsletters = n ∷ d.mailings.newsletters };
  next_id = d.next_id + 1;
}

abbrev pub update_newsletters : (Newsletter → Bool) → (Newsletter → Newsletter) → Db → Db
update_newsletters q f d = record d {
  mailings = record d.mailings { newsletters = update_where q f d.mailings.newsletters };
}

-- The columns of a new newsletter that its makers choose.
pub record NewNewsletter : Type 0 where
  pub unit_id : ℕ
  pub subject : Bytes
  pub body : Bytes
  pub status : SendStatus
  pub created_by : ℕ
  pub full_html : Bool
  pub kind : Kind
  pub post_id : Option ℕ
  pub audience : Audience

-- `INSERT INTO newsletters ... RETURNING`
unfoldable pub insert_newsletter : NewNewsletter → ℕ → Db → Result Newsletter × Db
insert_newsletter x now d =
    let n : Newsletter = record {
      id = d.next_id;
      unit_id = x.unit_id;
      subject = x.subject;
      body = x.body;
      status = x.status;
      created_by = x.created_by;
      sent_at = none;
      recipient_count = none;
      updated_at = now;
      full_html = x.full_html;
      kind = x.kind;
      post_id = x.post_id;
      audience = x.audience;
    } in
    (ok n, with_newsletter n d)

unfoldable pub sanitize_for : Mail → Bytes → Bool → Bytes
sanitize_for m body true = m.sanitize_full_html body
sanitize_for m body false = m.sanitize body

unfoldable pub create_draft : Mail → ℕ → Bytes → Bytes → ℕ → Bool → M Newsletter
create_draft m unit subject body actor full_html = do
  n ← exec (
      insert_newsletter (record {
        unit_id = unit;
        subject = subject;
        body = sanitize_for m body full_html;
        status = draft;
        created_by = actor;
        full_html = full_html;
        kind = newsletter;
        post_id = none;
        audience = whole_unit;
      }))
  audit_log (audit_entry "newsletter" n.id actor "create")
  pure n

abbrev pub is_newsletter : ℕ → ℕ → Newsletter → Bool
is_newsletter id unit n = n.id == id && n.unit_id == unit

abbrev pub newsletter_found : Option Newsletter → Result Newsletter
newsletter_found none = err no_rows
newsletter_found (some n) = ok n

unfoldable pub find_newsletter : ℕ → ℕ → Db → Result Newsletter
find_newsletter id unit d = newsletter_found (find (is_newsletter id unit) d.mailings.newsletters)

unfoldable pub get_newsletter : ℕ → ℕ → M Newsletter
get_newsletter id unit =
    map_error (replace_no_rows newsletter_not_found) (query (find_newsletter id unit))

abbrev pub is_draft : SendStatus → Bool
is_draft draft = true
is_draft sending = false
is_draft sent = false

abbrev pub is_sent : SendStatus → Bool
is_sent sent = true
is_sent sending = false
is_sent draft = false

abbrev pub is_sending : SendStatus → Bool
is_sending sending = true
is_sending draft = false
is_sending sent = false

-- `UPDATE newsletters ... RETURNING`: no row comes back where none is changed.
unfoldable pub change_newsletter :
    (Newsletter → Bool) → (Newsletter → Newsletter) → Db → Result Newsletter × Db
change_newsletter q f d = elim (find q d.mailings.newsletters) [
  | none ↦ (err no_rows, d)
  | some n ↦ (ok (f n), update_newsletters q f d)
]

abbrev pub edited : Bytes → Bytes → Bool → ℕ → Newsletter → Newsletter
edited subject body full_html now n = record n {
  subject = subject;
  body = body;
  full_html = full_html;
  updated_at = now;
}

abbrev pub is_draft_of : ℕ → ℕ → Newsletter → Bool
is_draft_of id unit n = is_newsletter id unit n && is_draft n.status

unfoldable pub update_draft : Mail → ℕ → ℕ → Bytes → Bytes → ℕ → Bool → M Newsletter
unfolding change_newsletter
update_draft m id unit subject body actor full_html = do
  before ← get_newsletter id unit
  n ← map_error (replace_no_rows already_sent) (
      exec (λ now.
        change_newsletter (is_draft_of id unit)
          (edited subject (sanitize_for m body full_html) full_html now)))
  audit_log (audit_entry "newsletter" n.id actor "update")
  pure n
