-- ===== src/Store/Mailings.antt =====
-- The rows of newsletters and of whom they went to (0010_newsletters.sql,
-- 0029_newsletter_sending_status.sql, 0053_group_email.sql), with the Go structs of internal/newsletter. The newest row is first; times
-- are seconds.
use scout_site.Prelude.{ℕ, Bool, Option, List}
use scout_site.Prelude.Text.{Bytes}

pub data SendStatus : Type 0 where
  draft sending sent : SendStatus

-- "newsletter", "news" or "group_update"
pub data Kind : Type 0 where
  newsletter news group_update : Kind

pub data Audience : Type 0 where
  whole_unit groups : Audience

pub record Newsletter : Type 0 where
  pub id : ℕ
  pub unit_id : ℕ
  pub subject : Bytes
  pub body : Bytes
  pub status : SendStatus
  pub created_by : ℕ
  pub sent_at : Option ℕ
  pub recipient_count : Option ℕ
  pub updated_at : ℕ
  pub full_html : Bool
  pub kind : Kind
  pub post_id : Option ℕ
  pub audience : Audience

-- A row of newsletter_recipients: when it went out, or what went wrong.
pub record Recipient : Type 0 where
  pub newsletter_id : ℕ
  pub email : Bytes
  pub sent_at : Option ℕ
  pub failure : Bytes

-- A row of newsletter_audience_groups.
pub record AudienceGroup : Type 0 where
  pub newsletter_id : ℕ
  pub sub_group_id : ℕ

-- A den or patrol.
pub record SubGroup : Type 0 where
  pub id : ℕ
  pub unit_id : ℕ
  pub active : Bool

pub record Mailings : Type 0 where
  pub newsletters : List Newsletter
  pub newsletter_recipients : List Recipient
  pub newsletter_audience_groups : List AudienceGroup
  pub sub_groups : List SubGroup
