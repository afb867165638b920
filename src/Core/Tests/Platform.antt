-- ===== src/Core/Tests/Platform.antt =====
-- Runs of the registry, the listings, the API and the outbox task on small tables, and the theorems
-- at them.
use multi_tenant_event_drive.Prelude.{
  none, ℕ, ◌+◌, ◌≡◌, refl, ◌⊎◌, ◌↔◌, true, false, none, some, String, List, [], ◌∷◌, ◌++◌, arith,
  ltb,
}
use multi_tenant_event_drive.Prelude.Int.{pos}
use multi_tenant_event_drive.Core.Rows.{
  Text, Tenant, authorized, captured, Merchant, active, DomainEvent, EventType, Entity, of_deleted,
  published,
}
use multi_tenant_event_drive.Core.Scope.{Result, pending_event}
use multi_tenant_event_drive.Core.Payments
use multi_tenant_event_drive.Core.Payments.{
  Fresh, PaymentCreate, new_payment, set_status, view, contains, valid_transitions, event_type_map,
  insert_payment,
}
use multi_tenant_event_drive.Core.SchemaName.{
  is_hex, hex_run, valid_schema_name, IsSchemaName, valid_schema_name_iff,
}
use multi_tenant_event_drive.Core.Merchants.{
  tables_of, Db, App, cached_schema, get_merchant_schema, service, NewMerchant,
}
use multi_tenant_event_drive.Core.Merchants.Registry.{
  schema_of, IsRegistry, get_merchant_schema_sound,
}
use multi_tenant_event_drive.Core.Merchants.Isolation.{service_isolates}
use multi_tenant_event_drive.Core.Listing.{get_payment, list_rows}
use multi_tenant_event_drive.Core.Payments.{view}
use multi_tenant_event_drive.Core.Listing.Reading.{read, read_payment, Shows, read_payment-Shows}
use multi_tenant_event_drive.Core.Listing.Pages.{total_pages_of, pages_upto, pages_cover}
use multi_tenant_event_drive.Core.Api.Registering.{
  post_merchant, put_merchant, get_merchant_credentials, post_merchant-IsRegistry,
  put_merchant-IsRegistry, credentials_open,
}
use multi_tenant_event_drive.Core.Api.{verify_merchant_access, granted, post_capture, call}
use multi_tenant_event_drive.Core.Api.Guards.{call_denied, call_isolates}
use multi_tenant_event_drive.Core.Outbox.{
  Broker, Outbox, publish_pending_events, pending_of, published_count,
}
use multi_tenant_event_drive.Core.Outbox.Delivery.{publish_loses}
use multi_tenant_event_drive.Core.Tests.{order, fresh, shop}

-- The name of one tenant's schema.
abbrev hex_digits : Text
hex_digits =
    b'0' ∷ b'1' ∷ b'2' ∷ b'3' ∷ b'4' ∷ b'5' ∷ b'6' ∷ b'7' ∷ b'8' ∷ b'9' ∷ b'a' ∷ b'b' ∷ b'c' ∷ b'd'
    ∷ b'e' ∷ b'f' ∷ b'0' ∷ b'1' ∷ b'2' ∷ b'3' ∷ b'4' ∷ b'5' ∷ b'6' ∷ b'7' ∷ b'8' ∷ b'9' ∷ b'a'
    ∷ b'b' ∷ b'c' ∷ b'd' ∷ b'e' ∷ b'f' ∷ []

abbrev tenant_schema : Text
tenant_schema = b'm' ∷ b'_' ∷ hex_digits

valid_schema_name_iff_example :
    (valid_schema_name tenant_schema ≡ true) ↔ IsSchemaName tenant_schema
valid_schema_name_iff_example = valid_schema_name_iff tenant_schema

-- What `$` lets through.
newline_is_valid : valid_schema_name (tenant_schema ++ 10 ∷ []) ≡ true
unfolding valid_schema_name hex_run is_hex
newline_is_valid = refl

-- A registry of two merchants, each with a payment; the schema of the first is cached.
abbrev merchant_of : ℕ → String → Text → Merchant
merchant_of n email name = record {
  merchant_id = n;
  merchant_uuid = 100 + n;
  name = "Shop";
  email = email;
  schema_name = name;
  api_key = 200 + n;
  status = active;
  created_at = 1;
  updated_at = 1;
}

abbrev their_schema : Text
their_schema = b'm' ∷ b'_' ∷ b'2' ∷ []

abbrev two_merchants : App
two_merchants = record {
  db = record {
    merchants =
        merchant_of 1 "one@example.com" tenant_schema
        ∷ merchant_of 2 "two@example.com" their_schema
        ∷ [];
    schemas =
        (tenant_schema, (shop authorized).tables) ∷ (their_schema, (shop captured).tables) ∷ [];
    events = [];
    next_merchant = 3;
  };
  schema_cache = record { merchant_id = 1; schema = tenant_schema; expires_at = 400 } ∷ [];
}

two_merchants-IsRegistry : IsRegistry two_merchants
two_merchants-IsRegistry = record {
  ids = ground arith;
  ids_below = ground arith;
  schemas_distinct = (refl, (refl, tt));
  cache_ok = (refl, tt);
}

get_merchant_schema_sound_example : schema_of 1 two_merchants.merchants ≡ some tenant_schema
unfolding get_merchant_schema cached_schema
get_merchant_schema_sound_example =
    get_merchant_schema_sound 150 1 two_merchants tenant_schema two_merchants-IsRegistry refl

service_isolates_example :
    tables_of their_schema
      (service 150 1
        (λ name. Payments.transition_payment 1 name fresh 21 captured none)
        two_merchants).1.schemas
    ≡ tables_of their_schema two_merchants.schemas
service_isolates_example =
    service_isolates 150 1 2 (λ name. Payments.transition_payment 1 name fresh 21 captured none)
      two_merchants their_schema two_merchants-IsRegistry (omega arith) refl

abbrev newcomer : NewMerchant
newcomer = record {
  api_key = 203;
  merchant_uuid = 103;
  schema_hex = b'3' ∷ [];
  event_uuid = 303;
  inserted_at = 10;
  updated_at = 11;
  emitted_at = 12;
}

-- The database and the answer after an operation on the registry.
abbrev db_after : Result Merchant × Db → App
db_after (r, db) = record two_merchants { db = db }

pages_cover_example :
    pages_upto {A = ℕ} 5
      (1 ∷ 2 ∷ 3 ∷ 4 ∷ 5 ∷ [])
      2
      (total_pages_of (list_rows {A = ℕ} 5 (1 ∷ 2 ∷ 3 ∷ 4 ∷ 5 ∷ []) (pos 2) (pos 2)))
    ≡ 1 ∷ 2 ∷ 3 ∷ 4 ∷ 5 ∷ []
pages_cover_example = pages_cover {A = ℕ} (1 ∷ 2 ∷ 3 ∷ 4 ∷ 5 ∷ []) 2 1 (omega arith)

-- The text of a UUID, for the test: its one digit after '0'.
abbrev as_text : ℕ → Text
as_text n = (b'0' + n) ∷ []

call_denied_example :
    (call as_text 150 (some (b'x' ∷ [])) 101 fresh (post_capture 21) two_merchants
      ≡ (401, two_merchants))
    ⊎ (call as_text 150 (some (b'x' ∷ [])) 101 fresh (post_capture 21) two_merchants
        ≡ (403, two_merchants))
call_denied_example =
    call_denied as_text 150 (some (b'x' ∷ [])) 101 fresh (post_capture 21) two_merchants
      (λ m there same. absurd (ground arith))

-- The key of the first merchant lets its capture through.
call_isolates_example :
    tables_of their_schema
      (call as_text 150 (some (as_text 201)) 101 fresh (post_capture 21) two_merchants).1.schemas
    ≡ tables_of their_schema two_merchants.schemas
call_isolates_example =
    call_isolates as_text 150 (some (as_text 201)) 101 2 fresh (post_capture 21) two_merchants
      (merchant_of 1 "one@example.com" tenant_schema) their_schema two_merchants-IsRegistry refl
      (omega arith) refl

abbrev event_of : ℕ → DomainEvent
event_of n =
    pending_event n n 1 tenant_schema EventType.customer_deleted (Entity.customer n) (of_deleted n)

abbrev backlog : Outbox
backlog = record {
  events = event_of 1 ∷ record (event_of 2) { status = published } ∷ event_of 3 ∷ [];
  topic = [];
}

-- `send` takes every event but the first, and the record of the third fails.
abbrev choosy : Broker
choosy = record {
  connects = true;
  accepts = λ e. ltb 1 e.event_id;
  writes = λ e. ltb e.event_id 3;
  flushes = true;
}

abbrev refusing : Broker
refusing = record { connects = true; accepts = λ e. false; writes = λ e. true; flushes = true }

abbrev offline : Broker
offline = record { connects = false; accepts = λ e. true; writes = λ e. true; flushes = true }

abbrev in_order : List DomainEvent → List DomainEvent
in_order es = es

publish_loses_example :
    let (outcome, s') = publish_pending_events in_order 50 refusing backlog in
    (outcome ≡ published_count 2) × (pending_of s'.events ≡ []) × (s'.topic ≡ [])
publish_loses_example =
    publish_loses in_order (λ es k. refl) (λ es. refl) 50 refusing backlog (omega arith) refl refl
      (λ e. refl)

post_merchant-IsRegistry_example :
    IsRegistry (post_merchant newcomer "Third" "three@example.com" two_merchants).1
post_merchant-IsRegistry_example =
    post_merchant-IsRegistry newcomer "Third" "three@example.com" two_merchants
      two_merchants-IsRegistry

put_merchant-IsRegistry_example :
    IsRegistry (put_merchant 303 20 21 101 (some "First") none none two_merchants).1
put_merchant-IsRegistry_example =
    put_merchant-IsRegistry 303 20 21 101 (some "First") none none two_merchants
      two_merchants-IsRegistry

credentials_open_example :
    (key : ℕ) × (get_merchant_credentials 101 two_merchants.db ≡ (200, some (101, key)))
    × (verify_merchant_access as_text (some (as_text key)) 101 two_merchants.db
        ≡ granted (merchant_of 1 "one@example.com" tenant_schema))
credentials_open_example =
    credentials_open as_text 101 two_merchants.db (merchant_of 1 "one@example.com" tenant_schema)
      refl (λ same. cc same)

read_payment-Shows_example :
    (own : Text) × (t : Tenant) × (schema_of 1 two_merchants.merchants ≡ some own)
    × (tables_of own two_merchants.schemas ≡ some t)
    × Shows t 21 (view order (some 11))
unfolding read_payment read get_payment get_merchant_schema cached_schema
read_payment-Shows_example =
    read_payment-Shows 150 1 21 (view order (some 11)) two_merchants two_merchants-IsRegistry refl
