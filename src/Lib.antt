-- ===== src/Lib.antt =====
-- The multi-tenant payment gateway: payment-core-service, connect-service and
-- merchant-dashboard-service.
--
-- payment-core-service keeps a registry of merchants in the public tables of one PostgreSQL database
-- and gives each merchant a schema of its own with the tables customers, payments, refunds and
-- ledger_entries. A call of the API carries the merchant's UUID and API key; the service resolves
-- the merchant's schema through a cache, runs one transaction on it, and puts one event into the
-- outbox public.domain_events in the same transaction. A Celery task publishes the outbox to Kafka.
-- connect-service reads the topic twice: one consumer brings each event into the read database, with
-- a schema per merchant and aggregates, and one posts events to the webhook endpoints of third
-- parties. A third party is a consumer with a client secret, scopes and the merchants that it may
-- read; with a token it reads payments, customers, refunds and events of a merchant page by page
-- from a replica of the core database, at a limited rate. merchant-dashboard-service shows the read
-- database.
--
-- Which file models what (paths under services/payment-core-service/src for Core, under
-- services/connect-service/src for Connect, under services/merchant-dashboard-service/src for
-- Dashboard):
--   Core.Rows              the tables (CREATE TABLE in services/merchant_service.py and
--                          infra/postgres/init-core-db.sql) and models/schemas.py
--   Core.Scope             the inside of a transaction: tables, outbox, errors; utils/event_emitter.py
--   Core.Ledger            the ledger's sums and INSERTs; DECIMAL(12,2)
--   Core.Payments, Core.Refunds, Core.Customers
--                          services/payment_service.py, refund_service.py, customer_service.py: one
--                          function per service function, under its name
--   Core.Requests          a sequence of such calls, each committed or rolled back
--   Core.Emits, Core.Outcomes, Core.Invariant, Core.Lifecycle
--                          theorems on those: events, results, the tables, one payment over time
--   Core.SchemaName        utils/validators.py
--   Core.Merchants         services/merchant_service.py and the frame `service` that every tenant
--                          service runs in; Registry, Isolation and Enrolling have its theorems
--   Core.Listing           the list_ and get_ functions and the routers' pagination; Reading has
--                          the GET of one row
--   Core.Api               routers/payments.py, refunds.py, customers.py and utils/auth.py;
--                          Registering has routers/merchants.py
--   Core.Outbox            tasks/outbox_task.py
--   Connect.RateLimiter    services/rate_limiter.py
--   Connect.ReadModel      the tables of services/schema_manager.py; Handlers has one function for each
--                          handler of services/sync_service.py, Changes the rows it writes, Consumer has
--                          consumers/db_sync_consumer.py, utils/idempotency.py and the handlers of the
--                          merchants; Mirror, Totals, Once, Delivering and Following are theorems
--   Connect.Bulk           services/bulk_service.py: pages and cursors (Cursor is utils/cursor.py), the
--                          caches (Resolving), the queries (Queries, Events); Reading follows the
--                          cursors as a client does
--   Connect.Access         services/oauth_service.py and routers/consumer_management.py: consumers
--                          (Managing), Grants, Tokens; Gate is utils/auth.py; Overlap lets a look-up in
--                          Redis overlap the other operations; Endpoint is routers/bulk_api.py; Coherence,
--                          Granted and Inactive are theorems
--   Connect.EventTypes     matches_event_type of services/tp_webhook_service.py
--   Connect.Webhooks       services/tp_webhook_service.py, tasks/tp_webhook_retry_task.py (Retrying),
--                          consumers/tp_webhook_consumer.py (Dispatching, with its theorem in Delivering),
--                          endpoint management (Owners)
--   Dashboard              database.py and routers; Agreement sets the summary against the aggregates
--   Core.Tests, Connect.Tests, Dashboard.Tests   runs and theorems at concrete inputs
--   Prelude                shared names; tables as lists of rows with the SQL statements (Table,
--                          Keyed, Mapped, Linked), ORDER BY and conditions over two columns (Keyset), Boolean
--                          tests (Tests), texts (Texts), integers (Int)
--
-- How the state is modelled. A table is the list of its rows in the order of insertion. A UUID, a
-- key and a time are natural numbers, money is in hundredths, a balance is an integer. Schema names,
-- API keys and event types are lists of code points; text that is only stored is a string. What a
-- call draws (uuid7, the clock, a sequence's next value) is an argument (`Fresh`, `NewMerchant`,
-- `Draw`, `Post`). The metadata of the read database is a JSON string (`StoredJson`), as the codec
-- of the pool makes it of the text that the handlers pass. An exception is a value of `Error`, and
-- rolls the transaction back. The transactions of one tenant run one after another, as FOR UPDATE
-- and the UNIQUE constraints make them.
--
-- Parameters stand for what is not in the repository: the order that ORDER BY gives (it keeps the
-- rows) in the listings, the text of a UUID, the Kafka broker (whether send takes an event, whether
-- its record is written, whether flush returns), the reply of a webhook endpoint and whether the
-- statement that logs it succeeds (`logs`: PostgreSQL refuses a NUL in a text), the jitter, the date
-- of a time and a rounded percentage (Connect.ReadModel), the texts of times and UUIDs, JSON and
-- base64 (Connect.Bulk.Cursor.Codec), JWT, bcrypt and split (Connect.Access.Tokens.Crypto).
--
-- Fuel: Connect.Webhooks.Retrying.retry_until runs the retry task, each run uses up one attempt, and
-- after six the delivery is settled, so seven runs are enough. Connect.Bulk.Reading.read_pages asks
-- for pages of at least one row, so one request more than there are rows is enough.
--
-- Not modelled: the lengths of VARCHAR columns and gaps in sequences; Celery's count of retries of
-- the outbox task; JSON and ISO texts in the events on their way to the read database, and DECIMAL
-- overflow there; HMAC, HTTP and the body of a retried POST; time stamps of webhook endpoints; the
-- lag of the replica; the audit log and the token endpoint of connect-service, and its analytics;
-- the filter of the dashboard's payments by date; the monitor, the seed scripts and the user
-- interfaces.
pub mod Connect
pub mod Core
pub mod Dashboard
pub mod Prelude
