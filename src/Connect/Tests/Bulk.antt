-- ===== src/Connect/Tests/Bulk.antt =====
-- Runs of the bulk API, and the theorems at them.
use multi_tenant_event_drive.Prelude.{
  ℕ, ◌+◌, ◌≡◌, refl, ap, false, Option, none, some, [], ◌∷◌, ◌++◌, length, take, drop,
}
use multi_tenant_event_drive.Core.Rows.{
  Text, Tenant, Payment, Status, created, captured, usd, card, active, DomainEvent, EventType,
  Entity, of_deleted, pending,
}
use multi_tenant_event_drive.Core.Payments.{view}
use multi_tenant_event_drive.Core.Listing.{joined_payments}
use multi_tenant_event_drive.Core.Merchants.{Db, tables_of, cached_schema}
use multi_tenant_event_drive.Core.Merchants.Registry.{schema_of}
use multi_tenant_event_drive.Connect.Bulk.{
  Reply, answer, cursor_position, cursor_of, next_cursor_of, build_bulk_response, bulk_query,
}
use multi_tenant_event_drive.Connect.Bulk.Cursor.{Codec, IsCodec, encode_cursor, decode_cursor}
use multi_tenant_event_drive.Connect.Bulk.Resolving.{Caches, resolve_merchant_schema}
use multi_tenant_event_drive.Connect.Bulk.Queries.{Times, query_payments, on_merchant}
use multi_tenant_event_drive.Connect.Bulk.Reading.{read_pages}
use multi_tenant_event_drive.Connect.Bulk.Reading.Served.{query_payments_read, on_merchant_owned}

abbrev one_number : Text → Option ℕ
one_number (n ∷ []) = some n
one_number _ = none

-- The length of the first text, and both texts.
abbrev join : Text × Text → Text
join (t, id) = length t ∷ t ++ id

abbrev unjoin : Text → Option (Text × Text)
unjoin [] = none
unjoin (n ∷ rest) = some (take n rest, drop n rest)

take-length : (s t : Text) → take (length s) (s ++ t) ≡ s
take-length [] t = refl
take-length (b ∷ s) t = ap (λ x. b ∷ x) (take-length s t)

drop-length : (s t : Text) → drop (length s) (s ++ t) ≡ t
drop-length [] t = refl
drop-length (b ∷ s) t = drop-length s t

abbrev plain : Codec
plain = record {
  isoformat = λ t. t ∷ [];
  fromisoformat = one_number;
  dumps = join;
  loads = unjoin;
  urlsafe_b64encode = λ s. s;
  urlsafe_b64decode = λ s. some s;
  uuid_text = λ id. id ∷ [];
  uuid_of = one_number;
}

plain-json : (payload : Text × Text) → unjoin (join payload) ≡ some payload
plain-json (t, id) = rw (take-length t id, drop-length t id) refl

plain-IsCodec : IsCodec plain
plain-IsCodec = record {
  iso = λ t. refl;
  json = plain-json;
  json_some = λ payload e. cc e;
  base64 = λ s. refl;
  base64_empty = λ s e. e;
  uuid = λ id. refl;
}

abbrev payment_at : (id updated_at : ℕ) → Status → Payment
payment_at id updated_at status = record {
  id = id;
  payment_id = 20 + id;
  customer_ref = 1;
  amount = 5000;
  currency = usd;
  status = status;
  method = card;
  description = none;
  metadata = "{}";
  failure_reason = none;
  amount_refunded = 0;
  created_at = 1;
  updated_at = updated_at;
}

-- Three payments; the first was changed last, the others at the same time.
abbrev shop : Tenant
shop = record {
  customers =
      record {
        id = 1;
        customer_id = 11;
        name = "Asha";
        email = none;
        phone = none;
        created_at = 1;
        updated_at = 1;
      }
      ∷ [];
  payments =
      payment_at 1 9 captured
      ∷ payment_at 3 5 captured
      ∷ payment_at 2 5 captured
      ∷ payment_at 4 2 created
      ∷ [];
  refunds = [];
  ledger_entries = [];
  next_customer = 2;
  next_payment = 5;
  next_refund = 1;
}

abbrev any_time : Times
any_time = record { created_gte = none; created_lte = none; updated_since = none }

-- Pages of two of the captured payments: by time, and by UUID at the same time.
captured_pages :
    read_pages
      (λ cursor. query_payments plain cursor 2 (some "captured") none any_time false shop)
      5
      none
    ≡ some (
        view (payment_at 2 5 captured) (some 11)
        ∷ view (payment_at 3 5 captured) (some 11)
        ∷ view (payment_at 1 9 captured) (some 11)
        ∷ [])
unfolding read_pages query_payments bulk_query joined_payments cursor_position build_bulk_response
    next_cursor_of cursor_of encode_cursor decode_cursor
captured_pages = refl

query_payments_read_example :
    read_pages
      (λ cursor. query_payments plain cursor 2 (some "captured") none any_time false shop)
      5
      none
    ≡ some (
        view (payment_at 2 5 captured) (some 11)
        ∷ view (payment_at 3 5 captured) (some 11)
        ∷ view (payment_at 1 9 captured) (some 11)
        ∷ [])
unfolding joined_payments
query_payments_read_example =
    query_payments_read plain plain-IsCodec 1 (some "captured") none any_time false shop
      (refl, (refl, (refl, (refl, tt))))

abbrev shop_schema : Text
shop_schema = b'm' ∷ b'_' ∷ b'1' ∷ []

abbrev event_at : (event_id merchant_id created_at : ℕ) → DomainEvent
event_at event_id merchant_id created_at = record {
  event_id = event_id;
  merchant_id = merchant_id;
  schema_name = shop_schema;
  event_type = EventType.customer_deleted;
  entity = Entity.customer 11;
  payload = of_deleted 11;
  status = pending;
  created_at = created_at;
  updated_at = created_at;
}

abbrev db : Db
db = record {
  merchants =
      record {
        merchant_id = 1;
        merchant_uuid = 101;
        name = "Shop";
        email = "one@example.com";
        schema_name = shop_schema;
        api_key = 201;
        status = active;
        created_at = 1;
        updated_at = 1;
      }
      ∷ [];
  schemas = (shop_schema, shop) ∷ [];
  events = event_at 2 1 30 ∷ event_at 1 2 10 ∷ event_at 3 1 20 ∷ [];
  next_merchant = 2;
}

-- The schema is in the cache.
abbrev warm : Caches
warm = record {
  schema_cache = record { merchant_id = 1; schema = shop_schema; expires_at = 300 } ∷ [];
  uuid_cache = [];
}

abbrev number_of_payments : Tenant → Reply ℕ
number_of_payments t = answer (length t.payments)

on_merchant_owned_example :
    (own : Text) × (t : Tenant) × (schema_of 1 db.merchants ≡ some own)
    × (tables_of own db.schemas ≡ some t)
    × (number_of_payments t ≡ answer 4)
unfolding on_merchant resolve_merchant_schema cached_schema
on_merchant_owned_example =
    on_merchant_owned plain 5 1 none number_of_payments db warm 4 (refl, tt) refl
