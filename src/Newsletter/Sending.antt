-- ===== src/Newsletter/Sending.antt =====
-- The claim of a newsletter and its sending, internal/newsletter/newsletter.go.
use scout_site.Prelude.{
  ℕ, ◌+◌, Bool, not, ◌&&◌, Option, none, some, List, [], ◌∷◌, ltb, ◌==◌, if◌then◌else◌, select,
}
use scout_site.Prelude.Text.{Bytes, same_bytes}
use scout_site.Store.Rows.{Db}
use scout_site.Store.Mailings.{sending, sent, Newsletter, Recipient}
use scout_site.Store.Sql.{
  already_sent, mail_disabled, Result, ok, err, M, pure, lift, ◌>>=◌, ◌>>◌, exec, clock, audit_log,
  map_error, replace_no_rows, best_effort,
}
use scout_site.Ledger.Post.{audit_entry}
use scout_site.Newsletter.{
  Mail, abandoned_send_age, change_newsletter, get_newsletter, is_newsletter, is_sending, is_sent,
  update_newsletters,
}
use scout_site.Newsletter.Reach.{recipient_emails_for, require_recipients}

-- What BeginSend checks of the newsletter that it has read.
unfoldable pub check_sendable : ℕ → Newsletter → Result (Unit {0})
check_sendable now n =
    if is_sent n.status
    then err already_sent
    else (if is_sending n.status && ltb now (n.updated_at + abandoned_send_age)
        then err already_sent
        else ok tt)

abbrev pub is_claimable : ℕ → ℕ → Newsletter → Bool
is_claimable id unit n = is_newsletter id unit n && not (is_sent n.status)

abbrev pub claimed : ℕ → Newsletter → Newsletter
claimed now n = record n { status = sending; updated_at = now }

-- The UPDATE of BeginSend.
unfoldable pub claim : ℕ → ℕ → M Newsletter
unfolding change_newsletter
claim id unit =
    map_error (replace_no_rows already_sent)
      (exec (λ now. change_newsletter (is_claimable id unit) (claimed now)))

unfoldable pub begin_send : Mail → ℕ → ℕ → M Newsletter
begin_send m id unit = do
  lift (if m.enabled unit then ok tt else err mail_disabled)
  n ← get_newsletter id unit
  now ← clock
  lift (check_sendable now n)
  emails ← recipient_emails_for n
  lift (require_recipients emails)
  claim id unit

-- What SendNow returns.
pub record SendResult : Type 0 where
  pub sent : ℕ
  pub failed : ℕ

abbrev pub counted : Option Bytes → SendResult → SendResult
counted none r = record r { sent = r.sent + 1 }
counted (some e) r = record r { failed = r.failed + 1 }

abbrev pub is_row_of : ℕ → Bytes → Recipient → Bool
is_row_of id email r = r.newsletter_id == id && same_bytes r.email email

-- When a message went out, and what went wrong; `failure` is what SendHTMLPaced returned, cut to
-- its length.
abbrev pub recipient_row : ℕ → Bytes → ℕ → Option Bytes → Recipient
recipient_row id email now none = record {
  newsletter_id = id;
  email = email;
  sent_at = some now;
  failure = [];
}
recipient_row id email now (some e) = record {
  newsletter_id = id;
  email = email;
  sent_at = none;
  failure = e;
}

-- `INSERT INTO newsletter_recipients ... ON CONFLICT (newsletter_id, email) DO UPDATE`
unfoldable pub upsert_recipient : Recipient → Db → Db
upsert_recipient r d = record d {
  mailings = record d.mailings {
    newsletter_recipients =
        r
        ∷ select (λ x. not (is_row_of r.newsletter_id r.email x)) d.mailings.newsletter_recipients;
  };
}

-- The loop of SendNow; of each message, how the mailer answers.
unfoldable pub send_each :
    Newsletter → List Bytes → (Bytes → Option Bytes) → SendResult → M SendResult
send_each n [] answer r = pure r
send_each n (email ∷ emails) answer r = do
  now ← clock
  best_effort
      (exec (λ t d. (ok tt, upsert_recipient (recipient_row n.id email now (answer email)) d)))
  send_each n emails answer (counted (answer email) r)

abbrev pub has_newsletter_id : ℕ → Newsletter → Bool
has_newsletter_id id n = n.id == id

abbrev pub finalized : ℕ → ℕ → Newsletter → Newsletter
finalized count now n = record n {
  status = sent;
  sent_at = some now;
  recipient_count = some count;
  updated_at = now;
}

-- No recipients where they cannot be resolved.
abbrev pub or_nobody : M (List Bytes) → M (List Bytes)
or_nobody m w = let (r, w') = m w in elim r [ ok es ↦ (ok es, w') | err e ↦ (ok [], w') ]

unfoldable pub send_now : Newsletter → (Bytes → Option Bytes) → ℕ → M SendResult
send_now n answer actor = do
  emails ← or_nobody (recipient_emails_for n)
  res ← send_each n emails answer (record { sent = 0; failed = 0 })
  best_effort (
      exec
        (λ now d. (ok tt, update_newsletters (has_newsletter_id n.id) (finalized res.sent now) d)))
  audit_log (audit_entry "newsletter" n.id actor "send")
  pure res
