-- ===== src/Core/Customers.antt =====
-- src/services/customer_service.py: the customers of a tenant.
pub mod Results
use multi_tenant_event_drive.Prelude.{
  ℕ, ◌+◌, String, Bool, true, false, Option, none, some, ◌++◌, [], ◌∷◌, or_else,
}
use multi_tenant_event_drive.Prelude.Table.{find, has, update, delete}
use multi_tenant_event_drive.Core.Rows.{
  Text, Customer, CustomerView, Payment, EventType, Entity, Payload, of_customer, of_deleted,
}
use multi_tenant_event_drive.Core.Scope.{
  Tx, ok, err, pure, gets, raise_if, modify, ◌>>=◌, ◌>>◌, emit_event, unique_violation,
  foreign_key_violation,
}
use multi_tenant_event_drive.Core.Payments.{Fresh}

-- The bodies of POST and PUT …/customers (models/schemas.py).
pub record CustomerCreate : Type 0 where
  pub name : String
  pub email : Option String
  pub phone : Option String

pub record CustomerUpdate : Type 0 where
  pub name : Option String
  pub email : Option String
  pub phone : Option String

abbrev pub customer_view : Customer → CustomerView
customer_view c = record {
  customer_id = c.customer_id;
  name = c.name;
  email = c.email;
  phone = c.phone;
  created_at = c.created_at;
  updated_at = c.updated_at;
}

abbrev pub new_customer : Fresh → CustomerCreate → ℕ → Customer
new_customer fresh body id = record {
  id = id;
  customer_id = fresh.uuid;
  name = body.name;
  email = body.email;
  phone = body.phone;
  created_at = fresh.now;
  updated_at = fresh.now;
}

-- COALESCE($n, column) on a column that may be null
abbrev pub coalesce : Option String → Option String → Option String
coalesce none old = old
coalesce (some v) old = some v

abbrev pub set_customer : CustomerUpdate → ℕ → Customer → Customer
set_customer body now c = record c {
  name = or_else body.name c.name;
  email = coalesce body.email c.email;
  phone = coalesce body.phone c.phone;
  updated_at = now;
}

-- INSERT INTO customers; `customer_id` is UNIQUE.
unfoldable pub insert_customer : Customer → Tx (Unit {0})
insert_customer c s = elim (has Customer.customer_id c.customer_id s.customers) [
  | true ↦ err unique_violation
  | false ↦ ok (
    tt,
    record s {
      tables = record s.tables {
        customers = s.customers ++ c ∷ [];
        next_customer = s.next_customer + 1;
      };
    },
  )
]

module _ (merchant_id : ℕ) (schema : Text) where
  abbrev emit : Fresh → EventType → Entity → Payload → Tx (Unit {0})
  emit fresh = emit_event fresh.event_uuid fresh.emitted_at merchant_id schema

  unfoldable pub create_customer : Fresh → CustomerCreate → Tx CustomerView
  unfolding insert_customer emit_event
  create_customer fresh body = do
    id ← gets (λ t. t.next_customer)
    let customer = new_customer fresh body id
    insert_customer customer
    emit fresh EventType.customer_created (Entity.customer fresh.uuid)
        (of_customer (customer_view customer))
    pure (customer_view customer)

  unfoldable pub update_customer : Fresh → ℕ → CustomerUpdate → Tx (Option CustomerView)
  unfolding emit_event
  update_customer fresh customer_id body = do
    existing ← gets (λ t. find Customer.customer_id customer_id t.customers)
    elim existing [
      | none ↦ pure none
      | some row ↦ do
        let change = set_customer body fresh.now
        modify (λ t. record t {
          customers = update Customer.customer_id customer_id change t.customers;
        })
        let updated = customer_view (change row)
        emit fresh EventType.customer_updated (Entity.customer customer_id) (of_customer updated)
        pure (some updated)
    ]

  -- A payment's `customer_ref` REFERENCES customers(id): such a customer cannot be deleted.
  unfoldable pub delete_customer : Fresh → ℕ → Tx Bool
  unfolding emit_event
  delete_customer fresh customer_id = do
    existing ← gets (λ t. find Customer.customer_id customer_id t.customers)
    elim existing [
      | none ↦ pure false
      | some row ↦ do
        raise_if (← gets (λ t. has Payment.customer_ref row.id t.payments)) foreign_key_violation
        modify (λ t. record t { customers = delete Customer.customer_id customer_id t.customers })
        emit fresh EventType.customer_deleted (Entity.customer customer_id) (of_deleted customer_id)
        pure true
    ]
