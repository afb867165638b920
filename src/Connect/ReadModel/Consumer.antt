-- ===== src/Connect/ReadModel/Consumer.antt =====
-- src/consumers/db_sync_consumer.py, src/utils/idempotency.py and src/services/schema_manager.py of
-- services/connect-service, with `sync_event` and the handlers of the merchants of
-- src/services/sync_service.py.
pub mod Once
pub mod Delivering
pub mod Following
use multi_tenant_event_drive.Prelude.{
  text_eq, ℕ, Bool, true, false, ◌&&◌, ◌||◌, Option, none, some, List, [], ◌∷◌, ◌++◌, ◌==◌, not,
  or_else, if◌then◌else◌, is_some,
}
use multi_tenant_event_drive.Prelude.Table.{has, update}
use multi_tenant_event_drive.Core.Rows.{
  Text, Merchant, DomainEvent, EventType, merchant_created, merchant_updated, payment_settled,
  Payload, of_merchant,
}
use multi_tenant_event_drive.Core.Merchants.{tables_of, set_tables}
use multi_tenant_event_drive.Core.SchemaName.{valid_schema_name}
use multi_tenant_event_drive.Connect.ReadModel.{ReadMerchant, ReadTables, empty_tables, ReadDb}
use multi_tenant_event_drive.Connect.ReadModel.Handlers.{handle}

-- INSERT INTO public.processed_events … ON CONFLICT DO NOTHING RETURNING event_id
unfoldable pub try_claim_event : ℕ → ReadDb → Bool × ReadDb
try_claim_event event_id db =
    if has (λ id. id) event_id db.processed
    then (false, db)
    else (true, record db { processed = db.processed ++ event_id ∷ [] })

-- The schema is created with its five tables, empty. `none` is the ValueError of
-- `validate_schema_name`.
unfoldable pub ensure_merchant_schema : Text → ReadDb → Option ReadDb
ensure_merchant_schema schema db =
    if valid_schema_name schema
    then some (
        if is_some (tables_of schema db.schemas)
        then db
        else record db { schemas = db.schemas ++ (schema, empty_tables) ∷ [] })
    else none

-- Whether another merchant has the value in its UNIQUE column.
abbrev pub uuid_taken : (merchant_id merchant_uuid : ℕ) → List ReadMerchant → Bool
uuid_taken merchant_id merchant_uuid [] = false
uuid_taken merchant_id merchant_uuid (m ∷ ms) =
    (not (m.merchant_id == merchant_id) && (m.merchant_uuid == merchant_uuid))
    || uuid_taken merchant_id merchant_uuid ms

abbrev pub schema_taken : Text → List ReadMerchant → Bool
schema_taken schema [] = false
schema_taken schema (m ∷ ms) = text_eq m.schema_name schema || schema_taken schema ms

abbrev pub read_merchant : Merchant → ReadMerchant
read_merchant m = record {
  merchant_id = m.merchant_id;
  merchant_uuid = m.merchant_uuid;
  name = m.name;
  email = m.email;
  schema_name = m.schema_name;
  status = m.status;
  created_at = m.created_at;
  updated_at = m.updated_at;
}

-- What both handlers set in the row of the merchant.
abbrev pub set_read_merchant : Merchant → ReadMerchant → ReadMerchant
set_read_merchant m r = record r {
  merchant_uuid = m.merchant_uuid;
  name = m.name;
  email = m.email;
  status = m.status;
  updated_at = m.updated_at;
}

unfoldable pub sync_merchant_updated : Merchant → ReadDb → Option ReadDb
sync_merchant_updated m db =
    if has ReadMerchant.merchant_id m.merchant_id db.merchants
      && uuid_taken m.merchant_id m.merchant_uuid db.merchants
    then none
    else some (record db {
      merchants = update ReadMerchant.merchant_id m.merchant_id (set_read_merchant m) db.merchants;
    })

-- INSERT … ON CONFLICT (merchant_id) DO UPDATE, which keeps the schema's name and the time of creation.
unfoldable pub sync_merchant_created : Merchant → ReadDb → Option ReadDb
unfolding sync_merchant_updated
sync_merchant_created m db =
    if has ReadMerchant.merchant_id m.merchant_id db.merchants
    then sync_merchant_updated m db
    else if uuid_taken m.merchant_id m.merchant_uuid db.merchants
        || schema_taken m.schema_name db.merchants
    then none
    else some (record db { merchants = db.merchants ++ read_merchant m ∷ [] })

-- A payload without the columns that are NOT NULL, or without the key.
abbrev pub with_merchant : Payload → (Merchant → Option ReadDb) → Option ReadDb
with_merchant (of_merchant m) body = body m
with_merchant _ body = none

abbrev pub put_tables : Text → ReadDb → Option ReadTables → Option ReadDb
put_tables schema db none = none
put_tables schema db (some t) = some (record db { schemas = set_tables schema t db.schemas })

-- Where the schema does not exist, the statement raises.
abbrev pub on_tables : Text → (ReadTables → Option ReadTables) → ReadDb → Option ReadDb
on_tables schema body db = elim (tables_of schema db.schemas) [
  | none ↦ none
  | some t ↦ put_tables schema db (body t)
]

-- INSERT INTO public.consumer_dead_letter … ON CONFLICT DO NOTHING
unfoldable pub bury : DomainEvent → ReadDb → ReadDb
bury e db =
    if has DomainEvent.event_id e.event_id db.dead_letters
    then db
    else record db { dead_letters = db.dead_letters ++ e ∷ [] }

-- If merchant.created, ensure the schema exists.
unfoldable pub prepare : EventType → DomainEvent → ReadDb → Option ReadDb
unfolding ensure_merchant_schema
prepare merchant_created e db = ensure_merchant_schema e.schema_name db
prepare event_type e db = some db

abbrev pub last_of : ReadDb → List ReadDb → ReadDb
last_of db [] = db
last_of db (x ∷ xs) = last_of x xs

module _ (date_of : ℕ → ℕ) (percent : ℕ → ℕ → ℕ) where
  -- `SYNC_HANDLERS.get(event_type)` applied. An event without a handler is logged.
  unfoldable pub dispatch : EventType → DomainEvent → ReadDb → Option ReadDb
  unfolding sync_merchant_created sync_merchant_updated
  dispatch merchant_created e db = with_merchant e.payload (λ m. sync_merchant_created m db)
  dispatch merchant_updated e db = with_merchant e.payload (λ m. sync_merchant_updated m db)
  dispatch payment_settled e db = some db
  dispatch event_type e db =
      on_tables e.schema_name (handle date_of percent event_type e.payload) db

  unfoldable pub sync_event : DomainEvent → ReadDb → Option ReadDb
  unfolding dispatch
  sync_event e db = if valid_schema_name e.schema_name then dispatch e.event_type e db else none

  -- The `try` block and its `except`: each statement commits by itself, so that a schema is kept where
  -- the handler raises.
  unfoldable pub process : DomainEvent → ReadDb → ReadDb
  unfolding prepare sync_event bury
  process e db = elim (prepare e.event_type e db) [
    | none ↦ bury e db
    | some db' ↦ or_else (sync_event e db') (bury e db')
  ]

  -- The states that one message leads to, one for each step of the consumer that is committed on its
  -- own: the claim, and the processing by the claimant.
  unfoldable pub commits : DomainEvent → ReadDb → List ReadDb
  unfolding try_claim_event process
  commits e db =
      let (claimed, db') = try_claim_event e.event_id db in
      if claimed then db' ∷ process e db' ∷ [] else []

  -- One message; the offset is committed in each case.
  unfoldable pub consume : DomainEvent → ReadDb → ReadDb
  unfolding commits
  consume e db = last_of db (commits e db)

  unfoldable pub consume_all : List DomainEvent → ReadDb → ReadDb
  unfolding consume
  consume_all [] db = db
  consume_all (e ∷ es) db = consume_all es (consume e db)
