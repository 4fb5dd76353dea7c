-- ===== src/Newsletter/Tests.antt =====
-- A newsletter at a concrete database.
use scout_site.Prelude.{ℕ, ◌≤◌, ◌≡◌, refl, Bool, true, false, none, some, List, [], ◌∷◌, arith}
use scout_site.Prelude.Text.{codes}
use scout_site.Store.Rows.{Db}
use scout_site.Store.Logins.{User}
use scout_site.Store.Mailings.{draft, sending, newsletter, whole_unit, Newsletter}
use scout_site.Store.Sql.{
  ok, lift, ◌>>=◌, query, exec, exec_tx, commit, settled, next_fault, later_faults, clock,
  map_error, replace_no_rows,
}
use scout_site.Store.Calm.{calm}
use scout_site.Ledger.Session.{empty_db, no_logins, no_mailings}
use scout_site.Newsletter.{Mail, find_newsletter, get_newsletter, change_newsletter}
use scout_site.Newsletter.Reach.{
  add_email, emails_of, family_in_unit, recipient_emails_for_unit, recipient_emails_for,
}
use scout_site.Newsletter.Sending.{check_sendable, claim, begin_send}
use scout_site.Newsletter.Recipients.{writes_to, recipient_emails_for_groups-IsOutside}
use scout_site.Newsletter.Reach.{
  family_in_groups, own_login_reached, is_chosen, recipient_emails_for_groups,
}
use scout_site.Newsletter.Claims.{claims, claims_bounded}

abbrev plain_mail : Mail
plain_mail = record { enabled = λ u. true; sanitize = λ b. b; sanitize_full_html = λ b. b }

abbrev ann : User
ann = record {
  id = 4;
  family_id = 2;
  member_id = none;
  email = codes "ann";
  password_hash = [];
  must_change_password = false;
}

abbrev may_news : Newsletter
may_news = record {
  id = 6;
  unit_id = 9;
  subject = codes "May";
  body = codes "Camp";
  status = draft;
  created_by = 3;
  sent_at = none;
  recipient_count = none;
  updated_at = 5;
  full_html = false;
  kind = newsletter;
  post_id = none;
  audience = whole_unit;
}

abbrev news_db : Db
news_db = record empty_db {
  members = record { id = 5; family_id = 2; active = true; adult = false } ∷ [];
  role_assignments =
      record { member_id = 5; unit_id = 9; role = "scout"; sub_group_id = none } ∷ [];
  logins = record no_logins { users = ann ∷ [] };
  mailings = record no_mailings { newsletters = may_news ∷ [] };
  next_id = 7;
}

-- The call claims the draft.
begin_send-run :
    (begin_send plain_mail 6 9 (calm 100 news_db)).0
    ≡ ok (record may_news { status = sending; updated_at = 100 })
unfolding begin_send get_newsletter find_newsletter check_sendable recipient_emails_for
    recipient_emails_for_unit emails_of add_email family_in_unit claim change_newsletter lift ◌>>=◌
    query exec exec_tx commit settled next_fault later_faults clock map_error replace_no_rows
begin_send-run = refl

abbrev calls : List (ℕ × List Bool)
calls = (100, []) ∷ (200, []) ∷ (2000, false ∷ true ∷ []) ∷ []

claims_bounded_example : claims 6 9 plain_mail calls news_db ≤ 1
claims_bounded_example =
    claims_bounded plain_mail 6 9 100 calls news_db
      ((omega arith, omega arith), ((omega arith, omega arith), ((omega arith, omega arith), tt)))

-- The sister of a Scout in group 1, who is in none herself.
abbrev sister : User
sister = record {
  id = 8;
  family_id = 2;
  member_id = some 7;
  email = codes "sis";
  password_hash = [];
  must_change_password = false;
}

abbrev patrol_db : Db
patrol_db = record empty_db {
  members =
      record { id = 5; family_id = 2; active = true; adult = false }
      ∷ record { id = 7; family_id = 2; active = true; adult = false }
      ∷ [];
  role_assignments =
      record { member_id = 5; unit_id = 9; role = "scout"; sub_group_id = some 1 } ∷ [];
  logins = record no_logins { users = ann ∷ sister ∷ [] };
  mailings = record no_mailings { sub_groups = record { id = 1; unit_id = 9; active = true } ∷ [] };
}

patrol_reached :
    (recipient_emails_for_groups 9 (1 ∷ []) (calm 1 patrol_db)).0 ≡ ok (codes "ann" ∷ [])
unfolding recipient_emails_for_groups query next_fault emails_of add_email family_in_groups
    own_login_reached is_chosen
patrol_reached = refl

recipient_emails_for_groups-IsOutside_example :
    writes_to (codes "sis") (recipient_emails_for_groups 9 (1 ∷ []) (calm 1 patrol_db)).0 ≡ false
unfolding is_chosen
recipient_emails_for_groups-IsOutside_example =
    recipient_emails_for_groups-IsOutside 9 (1 ∷ []) (codes "sis") (calm 1 patrol_db) (
      (λ e. absurd cc),
      ((λ e. record { id = 7; own_login = refl; no_adult = refl; no_role = refl }), tt),
    )
