-- ===== src/Store/Rows.antt =====
-- The rows of the ledger's tables (0001_init.sql, 0006_ledger.sql, 0038_transaction_reversal.sql,
-- 0040_bank_reconciliation.sql) and of the roles, with the Go structs of internal/ledger and
-- internal/approval that they are scanned into. An identifier is a uuid that is only compared, so it is a number; an
-- optional one, "" or nil in Go and NULL in SQL, is an `Option`. A table lists its rows with the
-- newest first.
use Prim.Native.String.{String}
use scout_site.Prelude.{ℕ, Bool, true, false, Option, List}
use scout_site.Prelude.Int.{ℤ}
use scout_site.Store.Logins.{Logins}
use scout_site.Store.Fundraising.{Fundraising}
use scout_site.Store.Mailings.{Mailings}

pub data AccountType : Type 0 where
  unit_general scout_individual trip_fund external : AccountType

-- "open" and "closed"
pub data AccountStatus : Type 0 where
  opened closed : AccountStatus

pub data TransactionStatus : Type 0 where
  posted pending_approval rejected : TransactionStatus

-- The free text `transaction_type`, by the values that the code gives it.
pub data TransactionType : Type 0 where
  expense trip_fund_transfer fundraiser_allocation reversal : TransactionType
  named : String → TransactionType

pub data RequestStatus : Type 0 where
  waiting approved refused : RequestStatus

pub data EntityType : Type 0 where
  event ledger_transaction : EntityType
  entity : String → EntityType

-- The status of a calendar event, as far as an approval writes it.
pub data EventStatus : Type 0 where
  submitted published withdrawn : EventStatus

-- "open" and "completed"
pub data ReconciliationStatus : Type 0 where
  underway completed : ReconciliationStatus

pub record Account : Type 0 where
  pub id : ℕ
  pub unit_id : ℕ
  pub account_type : AccountType
  pub member_id : Option ℕ
  pub event_id : Option ℕ
  pub name : String
  pub status : AccountStatus

pub record Transaction : Type 0 where
  pub id : ℕ
  pub unit_id : ℕ
  pub transaction_type : TransactionType
  pub description : String
  pub status : TransactionStatus
  pub created_by : ℕ
  pub approval_request_id : Option ℕ
  pub reverses_transaction_id : Option ℕ
  pub occurred_at : ℕ

-- The line of a transaction as a caller gives it.
pub record Posting : Type 0 where
  pub account_id : ℕ
  pub amount_cents : ℤ

-- The row that is stored for it.
pub record PostingRow : Type 0 where
  pub id : ℕ
  pub transaction_id : ℕ
  pub account_id : ℕ
  pub amount_cents : ℤ
  pub reconciliation_id : Option ℕ

pub record Request : Type 0 where
  pub id : ℕ
  pub entity_type : EntityType
  pub entity_id : ℕ
  pub unit_id : ℕ
  pub submitted_by : ℕ
  pub status : RequestStatus
  pub decided_by : Option ℕ
  pub decided_at : Option ℕ

pub record EventRow : Type 0 where
  pub id : ℕ
  pub status : EventStatus
  pub updated_at : ℕ

pub record Reconciliation : Type 0 where
  pub id : ℕ
  pub unit_id : ℕ
  pub account_id : ℕ
  pub statement_date : ℕ
  pub opening_balance_cents : ℤ
  pub closing_balance_cents : ℤ
  pub status : ReconciliationStatus
  pub created_by : ℕ
  pub completed_by : Option ℕ
  pub completed_at : Option ℕ

-- An entry of the audit log, without the JSON of the states before and after.
pub record AuditEntry : Type 0 where
  pub entity_type : String
  pub entity_id : ℕ
  pub actor_id : Option ℕ
  pub action : String
  pub approval_request_id : Option ℕ

-- A member: the family, and whether the member is active, and an adult.
pub record Member : Type 0 where
  pub id : ℕ
  pub family_id : ℕ
  pub active : Bool
  pub adult : Bool

pub record RoleAssignment : Type 0 where
  pub member_id : ℕ
  pub unit_id : ℕ
  pub role : String
  pub sub_group_id : Option ℕ

-- A role that a unit has made, and what it grants.
pub record CustomRole : Type 0 where
  pub unit_id : ℕ
  pub slug : String
  pub capabilities : List String

-- What a unit has a built-in role grant.
pub record RoleOverride : Type 0 where
  pub unit_id : ℕ
  pub role_slug : String
  pub capabilities : List String

-- `next_id` is above every identifier given so far: gen_random_uuid() gives fresh ones. `touched`
-- holds the transactions whose postings have changed since the last commit, for which the deferred
-- trigger ledger_postings_balance is queued.
pub record Db : Type 0 where
  pub accounts : List Account
  pub transactions : List Transaction
  pub postings : List PostingRow
  pub requests : List Request
  pub reconciliations : List Reconciliation
  pub events : List EventRow
  pub audit : List AuditEntry
  pub members : List Member
  pub role_assignments : List RoleAssignment
  pub custom_roles : List CustomRole
  pub role_capability_overrides : List RoleOverride
  pub logins : Logins
  pub fundraising : Fundraising
  pub mailings : Mailings
  pub next_id : ℕ
  pub touched : List ℕ

abbrev pub is_opened : AccountStatus → Bool
is_opened opened = true
is_opened closed = false

abbrev pub is_posted : TransactionStatus → Bool
is_posted posted = true
is_posted pending_approval = false
is_posted rejected = false

abbrev pub is_waiting : RequestStatus → Bool
is_waiting waiting = true
is_waiting approved = false
is_waiting refused = false

abbrev pub is_completed : ReconciliationStatus → Bool
is_completed completed = true
is_completed underway = false

abbrev pub is_expense : TransactionType → Bool
is_expense expense = true
is_expense _ = false

abbrev pub same_type : AccountType → AccountType → Bool
same_type unit_general unit_general = true
same_type scout_individual scout_individual = true
same_type trip_fund trip_fund = true
same_type external external = true
same_type _ _ = false
