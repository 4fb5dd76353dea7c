-- ===== src/Lib.antt =====
-- The money, the permissions and the logins of scout-site, a site for a Scout troop and its pack.
--
-- The parts and how they interact:
--   * internal/ledger keeps the accounts of a unit and the double-entry transactions between them.
--     Every transaction is written by insertTransaction; a fundraiser's storefront takes orders, and
--     one that is paid credits a Scout with a share. Expenses and transfers to a trip fund
--     are recorded as pending and handed to internal/approval; what is posted may be reversed, and
--     ticked off against a bank statement.
--   * internal/approval keeps the requests for a decision. Decide claims a pending request, checks
--     that the accounts debited can pay, and sets the status of the transaction or the event, all
--     in one database transaction.
--   * internal/audit writes an entry for each change. An entry that cannot be written is passed
--     over.
--   * internal/units resolves the roles of a member or family to capabilities, by the defaults in
--     the code, what a unit has put in their place, and its own roles; internal/roster asks it for
--     the capabilities in all units, and Covers for whether they suffice.
--   * internal/ratelimit counts calls by key in fixed windows.
--   * internal/auth checks passwords, locks an address out after too many failures, and keeps
--     sessions, reset links, forced changes of a temporary password, and the second step of a login:
--     one-time codes of internal/twofactor, backup codes and security keys.
--   * internal/newsletter keeps drafts, claims one for sending, and writes to the logins of a unit, or
--     of some of its dens and patrols; an email is made from a post the same way.
--   * internal/web/paging.go cuts a listing into pages.
--   * internal/icalendar writes and reads calendars; texts in them are escaped.
--
-- The files and the code:
--   * Prelude: tests, lists, and Int with Go's int64: `add64`, `neg64` and `wrap` wrap around at
--     2 ^ 64, and `fits` is whether a sum in SQL can be scanned into an int64.
--   * Store/Rows: the tables as lists of records, the newest row first, with the Go structs they
--     are scanned into. Store/Sql: a call of the code, a function of the database, the list of the
--     statements that fail for reasons of their own, and the time. A transaction is rolled back on
--     every error; at a commit the deferred trigger ledger_postings_balance of the migration
--     internal/db/migrations/0006_ledger.sql refuses transactions that do not sum to zero.
--     Store/Logins, Store/Fundraising and Store/Mailings: the tables of logins, of
--     fundraisers and of newsletters. Store/Sums: the sums of the queries. Store/Triple, Store/Post and Store/Keeps: rules for what a call does
--     whichever statements fail. Store/Calm: calls of which no statement fails. Store/Books: what
--     sound books are.
--   * Ledger/Post: PostTransaction and insertTransaction. Ledger/Accounts: the Ensure functions,
--     CreateTripFund, CloseTripFund and the balances. Ledger/Reverse: ReverseTransaction.
--     Ledger/Transfer: SubmitExpenseForApproval and RequestTripFundTransfer. Ledger/Reconcile:
--     internal/ledger/reconciliation.go. Ledger/Statements: transactionsQuery and the lists made
--     with it. Ledger/Reports: the totals and the filtered list of internal/ledger/reports.go; its
--     children prove. Ledger/Fundraisers: CreateFundraiser to RecordFundraiserAllocation.
--     Ledger/Storefront and Ledger/Orders: internal/ledger/fundraiser_storefront.go; the children of
--     Ledger/Orders prove. Ledger/Books, Ledger/Effects and Ledger/Outcomes prove; Ledger/Session plays any
--     course of calls.
--   * Approval: internal/approval/approval.go; its children prove.
--   * Units: units.go; Units/Overrides: system_roles.go, both of internal/units; Units/Roles: the
--     resolution of roles, and internal/roster/privilege.go. The other children of Units prove.
--   * RateLimit: internal/ratelimit/ratelimit.go; RateLimit/Budget proves.
--   * Auth: internal/auth. Auth/Passwords, Auth/Lockout and Auth/Tokens: auth.go. Auth/SecondFactor
--     and Auth/PendingLogin: totp.go and the second factor of securitykey.go. Auth/Keys: the rest of
--     securitykey.go. Their children prove. Twofactor: internal/twofactor/totp.go; Twofactor/Drift
--     proves.
--   * Newsletter: CreateDraft to GetNewsletter of internal/newsletter/newsletter.go; Newsletter/Reach:
--     who is written to; Newsletter/Sending: BeginSend and SendNow; Newsletter/Posts: StartPostEmail of
--     post_email.go beside it; Newsletter/Claims and Newsletter/Recipients prove.
--   * Paging: internal/web/paging.go; Paging/Items proves.
--   * Icalendar: the texts of internal/icalendar/render.go and parse.go; Icalendar/Fold: their content
--     lines; Icalendar/Property and Icalendar/Event: properties and times; Icalendar/Recurrence,
--     Icalendar/Parse: the rest of parse.go; Icalendar/Render: the rest of render.go. The others prove.
--
-- Identifiers are uuids that the code only compares, so they are numbers, and the database gives
-- fresh ones. Foreign keys are not modelled. Each call runs alone: row locks and the isolation of
-- concurrent transactions are not modelled. The loop of line runs on the text's length as fuel, of
-- which each round takes at least one byte (Icalendar/Limit); every other loop is over a list or
-- counts down. The faults are any list, so that the theorems hold whichever statements fail; where
-- one speaks of a call of which no statement fails, it says so. time.Now() and now() are one clock,
-- in seconds.
--
-- Parameters stand for code outside the repository: `Crypto` for bcrypt, SHA-256 and HMAC,
-- `Primitives` for base32 and HMAC, `Unicode` for the classes of characters, `Decimals` for floating
-- point numbers, decimal columns and the formatting of texts, `Mail` for the mailer's settings and
-- the sanitizers of HTML, `Urls` for numbers in the query of a URL, `Times` for the formats, Locations and
-- AddDate of package time, with `IsClock` for what its formats keep and `AddsDays` for days added. Random bytes are arguments, and
-- so is whether the reader of a feed fails. Texts are bytes where the code looks into them, and
-- strings.ToLower, strings.ToUpper and strings.EqualFold are those of ASCII; strings.TrimSpace knows
-- every space of Unicode. An instant of a feed is a number of whole seconds from the year 1 on, with a
-- Location where it is formatted in one.
--
-- Not modelled: the JSON of audit entries, labels and lists for display, cookies, the calendar of a
-- unit, and the packages that move mail, files, images and pages.
pub mod Prelude
pub mod RateLimit
pub mod Store
pub mod Ledger
pub mod Approval
pub mod Units
pub mod Icalendar
pub mod Auth
pub mod Twofactor
pub mod Newsletter
pub mod Paging
