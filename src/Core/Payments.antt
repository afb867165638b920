-- ===== src/Core/Payments.antt =====
-- src/services/payment_service.py: the life of a payment.
pub mod Results
use multi_tenant_event_drive.Prelude.{
  ℕ, String, ◌+◌, Bool, true, false, not, ◌&&◌, ◌||◌, Option, none, some, List, [], ◌∷◌, ◌++◌, ltb,
  or_else, if◌then◌else◌,
}
use multi_tenant_event_drive.Prelude.Int.{ℤ, pos, ◌+ℤ◌}
use multi_tenant_event_drive.Prelude.Table.{find, has, update}
use multi_tenant_event_drive.Core.Rows.{
  Text, Customer, Payment, PaymentView, Tenant, Status, Currency, Method, created, authorized,
  captured, failed, settled, EventType, EntryType, LedgerEntry, Entity, Payload, of_payment,
  payment_created, payment_captured,
}
use multi_tenant_event_drive.Core.Scope.{
  Tx, Scope, ok, err, pure, raise, gets, or_raise, raise_if, modify, ◌>>=◌, ◌>>◌, emit_event,
  customer_not_found, invalid_transition, key_error, unique_violation, numeric_overflow,
}
use multi_tenant_event_drive.Core.Ledger.{ledger_sum, decimal_limit, insert_error, insert_entry}

-- The UUIDs and the times that one request draws from `uuid7()` and `datetime.now()`.
pub record Fresh : Type 0 where
  pub uuid : ℕ
  pub ledger_uuid : ℕ
  pub event_uuid : ℕ
  pub now : ℕ
  pub emitted_at : ℕ

-- The body of POST …/payments (models/schemas.py).
pub record PaymentCreate : Type 0 where
  pub customer_id : ℕ
  pub amount : ℕ
  pub currency : Currency
  pub method : Method
  pub description : Option String
  pub metadata : Option String

-- The condition on `amount`: condecimal(gt=0, max_digits=12, decimal_places=2).
unfoldable pub valid_amount : ℕ → Bool
valid_amount a = ltb 0 a && ltb a decimal_limit

-- VALID_TRANSITIONS.get(current_status, [])
unfoldable pub valid_transitions : Status → List Status
valid_transitions created = authorized ∷ failed ∷ []
valid_transitions authorized = captured ∷ []
valid_transitions captured = settled ∷ []
valid_transitions failed = []
valid_transitions settled = []

abbrev pub same_status : Status → Status → Bool
same_status created created = true
same_status authorized authorized = true
same_status captured captured = true
same_status failed failed = true
same_status settled settled = true
same_status _ _ = false

-- `status in statuses`
abbrev pub contains : Status → List Status → Bool
contains s [] = false
contains s (t ∷ ts) = same_status s t || contains s ts

-- event_type_map[target_status]; a status that the dict lacks is a KeyError.
unfoldable pub event_type_map : Status → Option EventType
event_type_map authorized = some EventType.payment_authorized
event_type_map captured = some EventType.payment_captured
event_type_map failed = some EventType.payment_failed
event_type_map settled = some EventType.payment_settled
event_type_map created = none

-- dict(row) with `id` and `customer_ref` popped and `customer_id` set.
abbrev pub view : Payment → Option ℕ → PaymentView
view p customer_id = record {
  payment_id = p.payment_id;
  customer_id = customer_id;
  amount = p.amount;
  currency = p.currency;
  status = p.status;
  method = p.method;
  description = p.description;
  metadata = p.metadata;
  failure_reason = p.failure_reason;
  amount_refunded = p.amount_refunded;
  created_at = p.created_at;
  updated_at = p.updated_at;
}

-- SELECT customer_id FROM customers WHERE id = $1, and `None` where no row is left
abbrev pub customer_uuid : ℕ → Tenant → Option ℕ
customer_uuid ref t = elim (find Customer.id ref t.customers) [
  | none ↦ none
  | some c ↦ some c.customer_id
]

-- The row that the INSERT adds: `status` and `amount_refunded` by their column defaults.
abbrev pub new_payment : Fresh → PaymentCreate → Customer → ℕ → Payment
new_payment fresh body c id = record {
  id = id;
  payment_id = fresh.uuid;
  customer_ref = c.id;
  amount = body.amount;
  currency = body.currency;
  status = created;
  method = body.method;
  description = body.description;
  metadata = or_else body.metadata "{}";
  failure_reason = none;
  amount_refunded = 0;
  created_at = fresh.now;
  updated_at = fresh.now;
}

-- INSERT INTO payments: `payment_id` is UNIQUE and `amount` a DECIMAL(12,2).
unfoldable pub insert_payment : Payment → Tx (Unit {0})
insert_payment p s =
    elim (ltb p.amount decimal_limit && not (has Payment.payment_id p.payment_id s.payments)) [
      | true ↦ ok (
        tt,
        record s {
          tables = record s.tables {
            payments = s.payments ++ p ∷ [];
            next_payment = s.next_payment + 1;
          };
        },
      )
      | false ↦ err (insert_error (ltb p.amount decimal_limit))
    ]

-- `failure_reason = $4` only for a failure with a reason.
abbrev pub reason_after : Status → Option String → Option String → Option String
reason_after failed (some reason) old = some reason
reason_after _ _ old = old

-- UPDATE payments SET status = $1, updated_at = $3 (, failure_reason = $4)
abbrev pub set_status : Status → ℕ → Option String → Payment → Payment
set_status target now reason p = record p {
  status = target;
  failure_reason = reason_after target reason p.failure_reason;
  updated_at = now;
}

-- UPDATE payments SET description = COALESCE($1, …), metadata = COALESCE($2, …), updated_at = $4
abbrev pub set_details : Option String → Option String → ℕ → Payment → Payment
set_details description metadata now p = record p {
  description = elim description [ none ↦ p.description | some d ↦ some d ];
  metadata = or_else metadata p.metadata;
  updated_at = now;
}

abbrev pub entry_of : EntryType → ℕ → Option ℕ → ℕ → ℤ → Fresh → LedgerEntry
entry_of entry_type payment refund amount balance fresh = record {
  ledger_id = fresh.ledger_uuid;
  payment_ref = payment;
  refund_ref = refund;
  entry_type = entry_type;
  amount = amount;
  balance_after = balance;
  created_at = fresh.now;
}

abbrev pub balance : Scope → ℤ
balance s = ledger_sum s.ledger_entries

-- The services run for one merchant, whose schema `get_merchant_schema` has resolved.
module _ (merchant_id : ℕ) (schema : Text) where
  abbrev emit : Fresh → EventType → Entity → Payload → Tx (Unit {0})
  emit fresh = emit_event fresh.event_uuid fresh.emitted_at merchant_id schema

  unfoldable pub create_payment : Fresh → PaymentCreate → Tx PaymentView
  unfolding insert_payment insert_entry emit_event
  create_payment fresh body = do
    found ← gets (λ t. find Customer.customer_id body.customer_id t.customers)
    cust ← or_raise found customer_not_found
    id ← gets (λ t. t.next_payment)
    let row = new_payment fresh body cust id
    insert_payment row
    let payment = view row (some cust.customer_id)
    before ← gets (λ t. ledger_sum t.ledger_entries)
    insert_entry (entry_of payment_created id none body.amount (before +ℤ pos body.amount) fresh)
    emit fresh EventType.payment_created (Entity.payment fresh.uuid) (of_payment payment)
    pure payment

  -- INSERT INTO ledger_entries … 'payment_captured', when the target is "captured"
  post_capture : Fresh → Status → Payment → Tx (Unit {0})
  unfolding insert_entry
  post_capture fresh captured row = do
    before ← gets (λ t. ledger_sum t.ledger_entries)
    insert_entry (entry_of payment_captured row.id none row.amount before fresh)
  post_capture fresh _ row = pure tt

  unfoldable pub transition_payment : Fresh → ℕ → Status → Option String → Tx (Option PaymentView)
  unfolding post_capture emit_event
  transition_payment fresh payment_id target reason = do
    found ← gets (λ t. find Payment.payment_id payment_id t.payments)
    elim found [
      | none ↦ pure none
      | some row ↦ do
        raise_if (not (contains target (valid_transitions row.status))) invalid_transition
        let change = set_status target fresh.now reason
        modify (λ t. record t { payments = update Payment.payment_id payment_id change t.payments })
        cust ← gets (customer_uuid row.customer_ref)
        let updated = view (change row) cust
        post_capture fresh target row
        event_type ← or_raise (event_type_map target) key_error
        emit fresh event_type (Entity.payment payment_id) (of_payment updated)
        pure (some updated)
    ]

  unfoldable pub update_payment :
      Fresh → ℕ → Option String → Option String → Tx (Option PaymentView)
  unfolding emit_event
  update_payment fresh payment_id description metadata = do
    found ← gets (λ t. find Payment.payment_id payment_id t.payments)
    elim found [
      | none ↦ pure none
      | some row ↦ do
        let change = set_details description metadata fresh.now
        modify (λ t. record t { payments = update Payment.payment_id payment_id change t.payments })
        cust ← gets (customer_uuid row.customer_ref)
        let updated = view (change row) cust
        emit fresh EventType.payment_updated (Entity.payment payment_id) (of_payment updated)
        pure (some updated)
    ]
