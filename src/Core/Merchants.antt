-- ===== src/Core/Merchants.antt =====
-- src/services/merchant_service.py: the registry of merchants, the schema of each, and the cache in
-- front of it; with the transaction in which every other service runs on one schema.
pub mod Registry
pub mod Isolation
pub mod Enrolling
use multi_tenant_event_drive.Prelude.{
  text_eq, ℕ, String, ◌+◌, ◌≡◌, refl, ◌↔◌, Bool, true, false, not, ◌&&◌, ◌||◌, Option, none, some,
  List, [], ◌∷◌, ◌++◌, arith, ltb, ◌==◌, ==_iff, or_else, if◌then◌else◌, str_eq, is_some,
}
use multi_tenant_event_drive.Prelude.Table.{find, has, update}
use multi_tenant_event_drive.Core.Rows.{
  Text, Tenant, empty_tenant, Merchant, MerchantStatus, active, DomainEvent, EventType, Entity,
  of_merchant,
}
use multi_tenant_event_drive.Core.Scope.{
  Scope, Tx, Result, ok, err, Error, merchant_not_found, invalid_schema_name, unique_violation,
  undefined_table, pending_event,
}
use multi_tenant_event_drive.Core.SchemaName.{valid_schema_name}

-- The schemas of the database and the tables in them.
abbrev pub tables_of : {A : Type 0} → Text → List (Text × A) → Option A
tables_of schema [] = none
tables_of schema ((name, t) ∷ rest) = if text_eq name schema then some t else tables_of schema rest

abbrev pub set_tables : {A : Type 0} → Text → A → List (Text × A) → List (Text × A)
set_tables schema new [] = []
set_tables schema new ((name, t) ∷ rest) =
    (name, if text_eq name schema then new else t) ∷ set_tables schema new rest

pub record Db : Type 0 where
  pub merchants : List Merchant
  pub schemas : List (Text × Tenant)
  pub events : List DomainEvent
  pub next_merchant : ℕ

-- `_schema_cache[merchant_id] = (schema, expires_at)`
pub record Cached : Type 0 where
  pub merchant_id : ℕ
  pub schema : Text
  pub expires_at : ℕ

-- The state of the service: the database, and the dict of its process.
pub record App : Type 0 where
  pub db : Db
  pub open db use *
  pub schema_cache : List Cached

abbrev pub schema_cache_ttl : ℕ
schema_cache_ttl = 300

-- get_merchant(merchant_id)
abbrev pub get_merchant : ℕ → Db → Option Merchant
get_merchant merchant_id db = find Merchant.merchant_id merchant_id db.merchants

-- What the cache still holds: `merchant_id in _schema_cache` and `now < expires_at`.
unfoldable pub cached_schema : (now merchant_id : ℕ) → List Cached → Option Text
cached_schema now merchant_id cache = elim (find Cached.merchant_id merchant_id cache) [
  | none ↦ none
  | some c ↦ if ltb now c.expires_at then some c.schema else none
]

-- `_schema_cache[merchant_id] = …`: the first entry for a key is the one that is read.
abbrev pub remember : (now merchant_id : ℕ) → Text → App → App
remember now merchant_id schema app = record app {
  schema_cache =
      record { merchant_id = merchant_id; schema = schema; expires_at = now + schema_cache_ttl }
      ∷ app.schema_cache;
}

unfoldable pub get_merchant_schema : (now merchant_id : ℕ) → App → Result Text × App
unfolding cached_schema
get_merchant_schema now merchant_id app = elim (cached_schema now merchant_id app.schema_cache) [
  | some schema ↦ (ok schema, app)
  | none ↦ elim (get_merchant merchant_id app.db) [
    | none ↦ (err merchant_not_found, app)
    | some m ↦
        if valid_schema_name m.schema_name
        then (ok m.schema_name, remember now merchant_id m.schema_name app)
        else (err invalid_schema_name, app)
  ]
]

-- COMMIT where the statements all succeeded, ROLLBACK where one raised.
unfoldable pub settle : {A : Type 0} → Text → Result (A × Scope) → Db → Result A × Db
settle schema (err e) db = (err e, db)
settle schema (ok (a, s)) db =
    (ok a, record db { schemas = set_tables schema s.tables db.schemas; events = s.events })

-- `async with conn.transaction()` around statements on the tables `{schema}.…` and the outbox.
unfoldable pub transaction : {A : Type 0} → Text → Tx A → Db → Result A × Db
unfolding settle
transaction schema body db = elim (tables_of schema db.schemas) [
  | none ↦ (err undefined_table, db)
  | some t ↦ settle schema (body (record { tables = t; events = db.events })) db
]

-- The transaction, once the schema is resolved.
unfoldable pub on_schema : {A : Type 0} → Result Text → (Text → Tx A) → App → Result A × App
unfolding transaction
on_schema (err e) body app = (err e, app)
on_schema (ok schema) body app =
    let (result, db') = transaction schema (body schema) app.db in (result, record app { db = db' })

-- The frame of every service on a tenant: resolve the schema, then one transaction on it.
unfoldable pub service : {A : Type 0} → (now merchant_id : ℕ) → (Text → Tx A) → App → Result A × App
unfolding get_merchant_schema on_schema
service now merchant_id body app =
    let (schema, app') = get_merchant_schema now merchant_id app in on_schema schema body app'

-- Whether another merchant than this one has the text in its UNIQUE column.
abbrev pub email_taken : ℕ → String → List Merchant → Bool
email_taken merchant_id email [] = false
email_taken merchant_id email (m ∷ ms) =
    (not (m.merchant_id == merchant_id) && str_eq m.email email) || email_taken merchant_id email ms

abbrev pub schema_taken : Text → List Merchant → Bool
schema_taken schema [] = false
schema_taken schema (m ∷ ms) = text_eq m.schema_name schema || schema_taken schema ms

-- What `create_merchant` draws: `uuid7()` twice, `gen_random_uuid()`, and the clock.
pub record NewMerchant : Type 0 where
  pub api_key : ℕ
  pub merchant_uuid : ℕ
  pub schema_hex : Text
  pub event_uuid : ℕ
  pub inserted_at : ℕ
  pub updated_at : ℕ
  pub emitted_at : ℕ

abbrev pub new_merchant : NewMerchant → String → String → ℕ → Merchant
new_merchant fresh name email id = record {
  merchant_id = id;
  merchant_uuid = fresh.merchant_uuid;
  name = name;
  email = email;
  schema_name = [];
  api_key = fresh.api_key;
  status = active;
  created_at = fresh.inserted_at;
  updated_at = fresh.inserted_at;
}

-- f"m_{uuid7().hex}"
abbrev pub schema_name_of : NewMerchant → Text
schema_name_of fresh = b'm' ∷ b'_' ∷ fresh.schema_hex

-- The INSERT with an empty schema name, the UPDATE of it, CREATE SCHEMA with its tables, and the
-- event; the UNIQUE columns are `merchant_uuid`, `email`, `schema_name` and the event's id.
unfoldable pub create_merchant : NewMerchant → String → String → Db → Result Merchant × Db
create_merchant fresh name email db =
    let inserted = new_merchant fresh name email db.next_merchant in
    let schema = schema_name_of fresh in
    let stored = record inserted { schema_name = schema; updated_at = fresh.updated_at } in
    elim (email_taken db.next_merchant email db.merchants
      || schema_taken [] db.merchants
      || has Merchant.merchant_uuid fresh.merchant_uuid db.merchants
      || schema_taken schema db.merchants
      || is_some (tables_of schema db.schemas)
      || has DomainEvent.event_id fresh.event_uuid db.events) [
        | true ↦ (err unique_violation, db)
        | false ↦ (
          ok stored,
          record {
            merchants = db.merchants ++ stored ∷ [];
            schemas = db.schemas ++ (schema, empty_tenant) ∷ [];
            events =
                db.events
                ++ pending_event fresh.event_uuid fresh.emitted_at db.next_merchant schema
                    EventType.merchant_created (Entity.merchant db.next_merchant)
                    (of_merchant (record inserted { schema_name = schema }))
                  ∷ [];
            next_merchant = db.next_merchant + 1;
          },
        )
      ]

-- SET name = COALESCE($1, name), email = COALESCE($2, email), status = COALESCE($3, status)
abbrev pub set_merchant :
    Option String → Option String → Option MerchantStatus → ℕ → Merchant → Merchant
set_merchant name email status now m = record m {
  name = or_else name m.name;
  email = or_else email m.email;
  status = or_else status m.status;
  updated_at = now;
}

unfoldable pub update_merchant :
    (event_uuid now emitted_at merchant_id : ℕ)
    → Option String
    → Option String
    → Option MerchantStatus
    → Db
    → Result Merchant × Db
update_merchant event_uuid now emitted_at merchant_id name email status db =
    elim (get_merchant merchant_id db) [
      | none ↦ (err merchant_not_found, db)
      | some m ↦
          let change = set_merchant name email status now in
          elim (email_taken merchant_id (change m).email db.merchants
            || has DomainEvent.event_id event_uuid db.events) [
              | true ↦ (err unique_violation, db)
              | false ↦ (
                ok (change m),
                record db {
                  merchants = update Merchant.merchant_id merchant_id change db.merchants;
                  events =
                      db.events
                      ++ pending_event event_uuid emitted_at merchant_id m.schema_name
                          EventType.merchant_updated (Entity.merchant merchant_id)
                          (of_merchant (change m))
                        ∷ [];
                },
              )
            ]
    ]
