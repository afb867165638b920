-- ===== src/Connect/Tests/ReadModel.antt =====
-- Runs of the read model's synchronisation, and the theorems at them.
use multi_tenant_event_drive.Prelude.{
  ℕ, ◌*◌, ◌/◌, ◌≡◌, refl, Option, none, some, List, [], ◌∷◌, ◌++◌, take,
}
use multi_tenant_event_drive.Prelude.Int.{◌+ℤ◌, ◌-ℤ◌}
use multi_tenant_event_drive.Core.Rows.{
  Text, usd, card, captured, authorized, created, empty_tenant, DomainEvent, EventType, Entity,
  Payload, of_payment, PaymentView, pending,
}
use multi_tenant_event_drive.Core.Scope.{Scope}
use multi_tenant_event_drive.Core.Payments.{Fresh, PaymentCreate}
use multi_tenant_event_drive.Core.Requests.{
  Request, create_customer, create_payment, transition_payment, create_refund, process_refund,
  serve_all,
}
use multi_tenant_event_drive.Core.SchemaName.{is_hex, hex_run, valid_schema_name}
use multi_tenant_event_drive.Core.Invariant.{IsConsistent-empty}
use multi_tenant_event_drive.Core.Invariant.Sound.{IsSound}
use multi_tenant_event_drive.Connect.ReadModel.Changes.{new_day}
use multi_tenant_event_drive.Connect.ReadModel.Consumer.Following.{serve_all-consume_all}
use multi_tenant_event_drive.Core.Ledger.{ledger_sum, insert_entry}
use multi_tenant_event_drive.Core.Scope.{emit_event}
use multi_tenant_event_drive.Core.Requests.{serve}
use multi_tenant_event_drive.Core.Payments
use multi_tenant_event_drive.Core.Payments.{valid_transitions, event_type_map, insert_payment}
use multi_tenant_event_drive.Core.Refunds
use multi_tenant_event_drive.Core.Refunds.{exceeds_remaining, insert_refund}
use multi_tenant_event_drive.Core.Customers
use multi_tenant_event_drive.Core.Customers.{insert_customer}
use multi_tenant_event_drive.Connect.ReadModel.{ReadTables, empty_tables, ReadDb}
use multi_tenant_event_drive.Connect.ReadModel.Handlers
use multi_tenant_event_drive.Connect.ReadModel.Handlers.{handle}
use multi_tenant_event_drive.Connect.ReadModel.Mirror.{Mirrors}
use multi_tenant_event_drive.Connect.ReadModel.Mirror.Serving.{sync_all, Caught, serve_all-Caught}
use multi_tenant_event_drive.Connect.ReadModel.Totals.{IsTotalled}
use multi_tenant_event_drive.Connect.ReadModel.Totals.Handling.{handle-IsTotalled}
use multi_tenant_event_drive.Connect.ReadModel.Consumer.{commits, consume_all}
use multi_tenant_event_drive.Connect.ReadModel.Consumer.Once.{consume_all_once, crash_loses}
use multi_tenant_event_drive.Connect.ReadModel.Consumer.Delivering.{
  Concerns, Brought, consume_all-Brought,
}

-- A day has 86400 seconds; a percentage is in hundredths.
abbrev date_of : ℕ → ℕ
date_of t = t / 86400

abbrev percent : ℕ → ℕ → ℕ
percent a b = a * 10000 / b

abbrev schema : Text
schema =
    b'm' ∷ b'_' ∷ b'0' ∷ b'1' ∷ b'2' ∷ b'3' ∷ b'4' ∷ b'5' ∷ b'6' ∷ b'7' ∷ b'8' ∷ b'9' ∷ b'a' ∷ b'b'
    ∷ b'c' ∷ b'd' ∷ b'e' ∷ b'f' ∷ b'0' ∷ b'1' ∷ b'2' ∷ b'3' ∷ b'4' ∷ b'5' ∷ b'6' ∷ b'7' ∷ b'8'
    ∷ b'9' ∷ b'a' ∷ b'b' ∷ b'c' ∷ b'd' ∷ b'e' ∷ b'f' ∷ []

abbrev fresh_at : ℕ → Fresh
fresh_at n = record { uuid = n; ledger_uuid = n; event_uuid = n; now = n; emitted_at = n }

abbrev purchase : PaymentCreate
purchase = record {
  customer_id = 1;
  amount = 5000;
  currency = usd;
  method = card;
  description = none;
  metadata = none;
}

-- A customer pays, the payment is captured, and partly refunded.
abbrev day : List (Fresh × Request)
day =
    (fresh_at 1, create_customer (record { name = "Asha"; email = none; phone = none }))
    ∷ (fresh_at 2, create_payment purchase)
    ∷ (fresh_at 3, transition_payment 2 authorized none)
    ∷ (fresh_at 4, transition_payment 2 captured none)
    ∷ (fresh_at 5, create_refund 2 3000 none)
    ∷ (fresh_at 7, process_refund 5)
    ∷ []

abbrev nothing : Scope
nothing = record { tables = empty_tenant; events = [] }

nothing-IsSound : IsSound nothing
nothing-IsSound = record {
  consistent = IsConsistent-empty;
  referenced = record {
    customer_keys = record { ids = tt; below = tt };
    customer_uuids = tt;
    customers_ok = tt;
  };
}

nothing-Mirrors : Mirrors empty_tenant empty_tables
nothing-Mirrors = record {
  customers_shown = refl;
  payments_shown = refl;
  refunds_shown = refl;
  customers_linked = refl;
  payments_linked = refl;
}

serve_all-Caught_example :
    Caught date_of percent nothing (serve_all 7 schema day nothing) empty_tables
serve_all-Caught_example =
    serve_all-Caught date_of percent 7 schema day nothing empty_tables nothing-IsSound
      nothing-Mirrors

abbrev order : PaymentView
order = record {
  payment_id = 2;
  customer_id = some 1;
  amount = 5000;
  currency = usd;
  status = created;
  method = card;
  description = none;
  metadata = "{}";
  failure_reason = none;
  amount_refunded = 0;
  created_at = 90000;
  updated_at = 90000;
}

-- The tables after the event of the first order.
abbrev after_order : Option ReadTables
after_order = handle date_of percent EventType.payment_created (of_payment order) empty_tables

abbrev tables_in : Option ReadTables → ReadTables
tables_in none = empty_tables
tables_in (some r) = r

order_counts : (tables_in after_order).daily_revenue ≡ new_day order 1 ∷ []
unfolding handle Handlers.sync_payment_created ◌+ℤ◌
order_counts = refl

empty-IsTotalled : IsTotalled date_of percent empty_tables
empty-IsTotalled = record {
  days = tt;
  methods = tt;
  day_amount = λ d. refl;
  day_count = λ d. refl;
  method_amount = λ m. refl;
  method_count = λ m. refl;
}

handle-IsTotalled_example : IsTotalled date_of percent (tables_in after_order)
unfolding handle Handlers.sync_payment_created
handle-IsTotalled_example =
    handle-IsTotalled date_of percent EventType.payment_created (of_payment order) empty_tables
      (tables_in after_order) empty-IsTotalled refl refl

abbrev event : (event_id : ℕ) → EventType → Payload → DomainEvent
event event_id event_type payload = record {
  event_id = event_id;
  merchant_id = 7;
  schema_name = schema;
  event_type = event_type;
  entity = Entity.payment 2;
  payload = payload;
  status = pending;
  created_at = 90000;
  updated_at = 90000;
}

abbrev ordered : DomainEvent
ordered = event 11 EventType.payment_created (of_payment order)

abbrev taken : DomainEvent
taken = event 12 EventType.payment_captured (of_payment order)

abbrev enrolled : ReadDb
enrolled = record {
  merchants = [];
  schemas = (schema, empty_tables) ∷ [];
  processed = [];
  dead_letters = [];
}

-- The order is delivered twice, around its capture.
abbrev messages : List DomainEvent
messages = ordered ∷ taken ∷ ordered ∷ []

consume_all_once_example :
    consume_all date_of percent messages enrolled
    ≡ consume_all date_of percent (ordered ∷ taken ∷ []) enrolled
consume_all_once_example = consume_all_once date_of percent messages enrolled

crash_loses_example :
    (first : ReadDb) × (rest : List ReadDb) × (commits date_of percent ordered enrolled
      ≡ first ∷ rest)
    × (consume_all date_of percent (ordered ∷ ordered ∷ []) first ≡ first)
    × (first.schemas ≡ (schema, empty_tables) ∷ [])
    × (first.merchants ≡ [])
    × (first.dead_letters ≡ [])
crash_loses_example =
    crash_loses date_of percent ordered (ordered ∷ ordered ∷ []) enrolled refl (refl, (refl, tt))

abbrev after_messages : ReadTables
after_messages = tables_in (sync_all date_of percent (ordered ∷ taken ∷ []) empty_tables)

consume_all-Brought_example :
    Brought schema after_messages enrolled (consume_all date_of percent messages enrolled)
unfolding valid_schema_name hex_run is_hex sync_all handle Handlers.sync_payment_created
    Handlers.sync_payment_captured
consume_all-Brought_example =
    consume_all-Brought date_of percent schema messages enrolled empty_tables after_messages refl
      ((refl, refl), ((refl, refl), ((refl, refl), tt))) refl refl

-- The outbox of the day, and its messages, of which the first comes once more at the end.
abbrev outbox : List DomainEvent
outbox = (serve_all 7 schema day nothing).events

abbrev outbox_messages : List DomainEvent
outbox_messages = outbox ++ take 1 outbox

serve_all-consume_all_example :
    (r' : ReadTables) × Brought schema r' enrolled
      (consume_all date_of percent outbox_messages enrolled)
    × Mirrors (serve_all 7 schema day nothing).tables r'
unfolding serve_all serve Customers.create_customer insert_customer Payments.create_payment
    insert_payment Payments.transition_payment valid_transitions event_type_map
    Refunds.create_refund exceeds_remaining insert_refund Refunds.process_refund emit_event
    insert_entry ledger_sum ◌+ℤ◌ ◌-ℤ◌ valid_schema_name hex_run is_hex
serve_all-consume_all_example =
    let own : Concerns schema ordered = (refl, refl) in
    serve_all-consume_all date_of percent 7 schema day nothing enrolled empty_tables outbox
      outbox_messages nothing-IsSound nothing-Mirrors refl refl refl
      (own, (own, (own, (own, (own, (own, (own, tt))))))) refl
