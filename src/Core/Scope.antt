-- ===== src/Core/Scope.antt =====
-- What runs inside `async with conn.transaction()`: the tenant's tables and the outbox, with the
-- errors that end it. An error hands back no tables, since PostgreSQL rolls the transaction back.
use multi_tenant_event_drive.Prelude.{ℕ, Bool, true, false, Option, none, some, List, [], ◌∷◌, ◌++◌}
use multi_tenant_event_drive.Prelude.Table.{has}
use multi_tenant_event_drive.Core.Rows.{
  Text, Tenant, EventType, Entity, Payload, DomainEvent, pending,
}

-- The `ValueError`s of the services, a `KeyError`, and the constraints of the database.
pub data Error : Type 0 where
  merchant_not_found invalid_schema_name customer_not_found payment_not_found : Error
  invalid_transition not_refundable refund_exceeds_remaining not_processable : Error
  key_error unique_violation numeric_overflow foreign_key_violation undefined_table : Error

pub data Result {ℓ} (A : Type ℓ) : Type ℓ where
  ok : A → Result A
  err : Error → Result A

pub record Scope : Type 0 where
  pub tables : Tenant
  pub open tables use *
  pub events : List DomainEvent

abbrev pub Tx : Type 0 → Type 0
Tx A = Scope → Result (A × Scope)

infixl 5 ◌>>=◌ ◌>>◌
abbrev pub ◌>>=◌ : {A B : Type 0} → Tx A → (A → Tx B) → Tx B
◌>>=◌ m f s = elim (m s) [ ok (a, s') ↦ f a s' | err e ↦ err e ]

abbrev pub ◌>>◌ : {A B : Type 0} → Tx A → Tx B → Tx B
m >> k = m >>= λ _. k

module _ {A : Type 0} where
  abbrev pub pure : A → Tx A
  pure a s = ok (a, s)

  abbrev pub raise : Error → Tx A
  raise e s = err e

  abbrev pub gets : (Tenant → A) → Tx A
  gets f s = ok (f s.tables, s)

  abbrev pub or_raise : Option A → Error → Tx A
  or_raise none e s = err e
  or_raise (some a) e s = ok (a, s)

abbrev pub raise_if : Bool → Error → Tx (Unit {0})
raise_if true e s = err e
raise_if false e s = ok (tt, s)

abbrev pub modify : (Tenant → Tenant) → Tx (Unit {0})
modify f s = ok (tt, record s { tables = f s.tables })

-- The row that `emit_event` inserts.
abbrev pub pending_event :
    (event_id now merchant_id : ℕ) → Text → EventType → Entity → Payload → DomainEvent
pending_event event_id now merchant_id schema_name event_type entity payload = record {
  event_id = event_id;
  merchant_id = merchant_id;
  schema_name = schema_name;
  event_type = event_type;
  entity = entity;
  payload = payload;
  status = pending;
  created_at = now;
  updated_at = now;
}

-- src/utils/event_emitter.py: one pending row of the outbox, in the transaction of the caller;
-- `event_id` is its PRIMARY KEY.
unfoldable pub emit_event :
    (event_id now merchant_id : ℕ) → Text → EventType → Entity → Payload → Tx (Unit {0})
emit_event event_id now merchant_id schema_name event_type entity payload s =
    elim (has DomainEvent.event_id event_id s.events) [
      | true ↦ err unique_violation
      | false ↦ ok (
        tt,
        record s {
          events =
              s.events
              ++ pending_event event_id now merchant_id schema_name event_type entity payload ∷ [];
        },
      )
    ]
