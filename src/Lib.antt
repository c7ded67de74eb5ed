-- ===== src/Lib.antt =====
-- Rechvix, a billing, inventory, accounting and GST platform: its core rules, from the Go
-- packages below internal/. The HTTP handlers, the SQL text, the web client and the process
-- entry points are not modelled: they carry data in and out and decide nothing of what is
-- proved here.
--
-- The parts, and the files that model them:
--
-- * platform/money (Money): amounts with a currency. The package variable minorUnits is
--   passed along as a dictionary, and a panic is the error `panicked`.
-- * taxation/domain and gstindia (Gst): Gst/Types has the records, Gst/Rates the queries
--   Resolve and GetByCode over tables given as lists of rows, Gst/Line calculateLine, and
--   Gst/Engine the method Calculate, which takes both queries as arguments.
-- * accounting (Accounting): Accounting/Types has the records, Accounting/Books the tables
--   as lists of rows and the repositories of pg/pg.go, Accounting/Posting the functions
--   Post, PostTx, doPost and validateBalanced of app/service.go. The CHECK constraints of
--   journal_lines are `line_check`; triggers are not modelled. Accounting/CashTypes and Rows
--   add the records and queries of the other operations, which Accounting/Cash (receipts,
--   payments, bank accounts, reconciliations), Accounting/Periods (periods, locks, the default
--   chart), Accounting/Ledger and Accounting/Ageing model. Accounting/Kept, Once, Parties,
--   Operations, Containing, Locks and Chart are about what they do. Dates are stored as
--   midnights of one time zone. A query without an order may return any of its rows: which one
--   is an argument.
-- * inventory (Inventory): Inventory/Types has the records, Inventory/Stock the tables and
--   the repositories of pg/pg.go, with the queries of catalogue/pg/pg.go that inventory
--   calls, Inventory/Movement costing.go and recordMovement with its helpers,
--   Inventory/Operations the public operations. Inventory/Ledger defines what a balance
--   should hold; Inventory/Aside, Balance, Effect, Trail and Steps are about what each
--   operation changes, Inventory/Reach and Floor about what stays true. Columns hold numbers
--   as they are written: the rounding of numeric(20,6) is not modelled, so the tables are those
--   of the program while quantities have six places at most, which `IsExact` of Inventory/Reach
--   says. Nor are the list queries modelled. A row lock is not modelled: operations follow one another.
-- * platform/permissions (Permissions): the check Require, with the grants that the store
--   loads and the restriction that the context carries as arguments, and
--   PermissionsForScopes; Permissions/Access and Permissions/Scopes say what they decide.
-- * identity (Identity): the login limiter of app/ratelimit.go in Identity/Limiter, with its
--   durations wrapped at 64 bits; Identity/Lockout is about the times it allows.
--
-- * platform/outbox (Outbox): the table of events and the rounds of the poller, with the query
--   outbox_claim_next of its migration. Handlers are an argument, as the poller is given them;
--   what one does is its new tables, the events it enqueued, its error, and whether the
--   transaction can still be written to. Outbox/Backoff, Claims, Drain, Finished and Keys are
--   about it. Rounds follow one another, each with one reading of the clock.
-- * platform/numbering (Numbering): the counters of document series and the numbers made of
--   them, as bytes. Numbering/Series and Digits are about them.
-- * ewaybill (Ewaybill): Ewaybill/Types has the records of domain and canonical,
--   Ewaybill/Eligibility the rules, Ewaybill/Records the repository of pg/pg.go,
--   Ewaybill/Generate and Portal the operations of app/service.go. The provider, the exporter
--   and the bill that is built from an invoice are parameters. An error that the service
--   returns after a write is a value beside the tables, and `run_scoped` is the caller's
--   transaction, which drops both. Ewaybill/Checks is about the rules, Snapshot, Frozen and
--   Issued about what later calls find.
-- * webhooks (Webhooks): the endpoints and the fan-out of a source event, which enqueues
--   events of Outbox. Webhooks/FanOut, Subscribed, Deliveries and Deactivated are about
--   them. The handler of a delivery and its signed HTTP request are not modelled.
--
-- Accounting, inventory, e-way bills, the outbox and webhooks share Transaction: what runs in one
-- database transaction is a function from the tables to an error or a result with new tables,
-- and an error loses the changes, as the rollback does. The clock, the source of identifiers,
-- which can fail as uuid.NewV7 can, the permission check and the row that comes first from a
-- query without an order are its parameters. Of an audit entry the JSON states are left out.
--
-- The decimal library github.com/shopspring/decimal is not part of the repository. Its
-- operations are the interface Decimal/Interface, an instance argument of the models, and
-- the laws that a theorem needs of exact decimals are its hypotheses: IsGroup for sums,
-- IsOrder for comparisons, IsRounding for rounding. Values are taken up to numerical
-- equality. Decimal/Fixed has numbers of four places for which the laws hold, and on which
-- the tests run. Div panics over zero, which `divide` models.
--
-- Identifiers (uuid.UUID) are numbers, which the code only compares. Times are numbers of
-- nanoseconds with Go's zero time 0. An error that wraps another is one value of
-- Base/Results. Loops run over lists. The digits of a number
-- are counted out over fuel, for which the number itself is enough, and the poller's rounds
-- are counted: more rounds than events that can be claimed are enough.
pub mod Base
pub mod Decimal
pub mod Money
pub mod Gst
pub mod Transaction
pub mod Accounting
pub mod Inventory
pub mod Permissions
pub mod Identity
pub mod Outbox
pub mod Numbering
pub mod Ewaybill
pub mod Webhooks
