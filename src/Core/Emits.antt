-- ===== src/Core/Emits.antt =====
-- The transactional outbox: what each service of payment-core-service hands to `emit_event`.
pub mod Serving
use multi_tenant_event_drive.Prelude.{
  ℕ, String, ◌≡◌, inl, inr, ◌++◌, ◌∷◌, [], true, Option, some, none, or_else, arith, Option-cases,
}
use multi_tenant_event_drive.Prelude.Table.{find}
use multi_tenant_event_drive.Core.Rows.{
  Text, Payment, PaymentView, RefundView, CustomerView, Status, EventType, Entity, Payload,
  of_payment, of_refund, of_new_refund, of_customer, of_deleted,
}
use multi_tenant_event_drive.Core.Scope.{Scope, ok, pending_event}
use multi_tenant_event_drive.Core.Payments.{
  Fresh, PaymentCreate, customer_uuid, event_type_map, create_payment, transition_payment,
  update_payment,
}
use multi_tenant_event_drive.Core.Refunds.{create_refund, process_refund}
use multi_tenant_event_drive.Core.Customers.{
  CustomerCreate, CustomerUpdate, create_customer, update_customer, delete_customer,
}

module _ (merchant_id : ℕ) (schema : Text) (fresh : Fresh) (s s' : Scope) where
  -- The outbox of `s'` is that of `s` and one more event.
  abbrev pub Announces : EventType → Entity → Payload → Type 0
  Announces event_type entity payload =
      s'.events
      ≡ s.events
        ++ pending_event fresh.event_uuid fresh.emitted_at merchant_id schema event_type entity
            payload
          ∷ []

  pub create_payment-emits :
      (body : PaymentCreate) (v : PaymentView)
      → create_payment merchant_id schema fresh body s ≡ ok (v, s')
      → Announces EventType.payment_created (Entity.payment fresh.uuid) (of_payment v)
  unfolding create_payment
  create_payment-emits body v h = ground arith

  -- The event's type is that of the target status; `event_type_map` has every target it is asked for.
  pub transition_payment-emits :
      (payment_id : ℕ) (target : Status) (reason : Option String) (v : PaymentView)
      → transition_payment merchant_id schema fresh payment_id target reason s ≡ ok (some v, s')
      → (event_type : EventType) × (event_type_map target ≡ some event_type)
        × Announces event_type (Entity.payment payment_id) (of_payment v)
  unfolding transition_payment
  transition_payment-emits payment_id target reason v h =
      elim (Option-cases (event_type_map target)) [
        | inl unknown ↦ ground arith
        | inr (t, e) ↦ (t, e, ground arith)
      ]

  pub update_payment-emits :
      (payment_id : ℕ) (description metadata : Option String) (v : PaymentView)
      → update_payment merchant_id schema fresh payment_id description metadata s ≡ ok (some v, s')
      → Announces EventType.payment_updated (Entity.payment payment_id) (of_payment v)
  unfolding update_payment
  update_payment-emits payment_id description metadata v h = ground arith

  pub create_refund-emits :
      (payment_id amount : ℕ) (reason : Option String) (v : RefundView)
      → create_refund merchant_id schema fresh payment_id amount reason s ≡ ok (v, s')
      → (row : Payment) × (find Payment.payment_id payment_id s.payments ≡ some row)
        × Announces EventType.refund_initiated
            (Entity.refund fresh.uuid)
            (of_new_refund v row.amount (customer_uuid row.customer_ref s.tables))
  unfolding create_refund
  create_refund-emits payment_id amount reason v h =
      elim (Option-cases (find Payment.payment_id payment_id s.payments)) [
        | inl missing ↦ ground arith
        | inr (p, e) ↦ (p, e, ground arith)
      ]

  pub process_refund-emits :
      (refund_id : ℕ) (v : RefundView)
      → process_refund merchant_id schema fresh refund_id s ≡ ok (some v, s')
      → Announces EventType.refund_processed (Entity.refund refund_id) (of_refund v)
  unfolding process_refund
  process_refund-emits refund_id v h = ground arith

  pub create_customer-emits :
      (body : CustomerCreate) (v : CustomerView)
      → create_customer merchant_id schema fresh body s ≡ ok (v, s')
      → Announces EventType.customer_created (Entity.customer fresh.uuid) (of_customer v)
  unfolding create_customer
  create_customer-emits body v h = ground arith

  pub update_customer-emits :
      (customer_id : ℕ) (body : CustomerUpdate) (v : CustomerView)
      → update_customer merchant_id schema fresh customer_id body s ≡ ok (some v, s')
      → Announces EventType.customer_updated (Entity.customer customer_id) (of_customer v)
  unfolding update_customer
  update_customer-emits customer_id body v h = ground arith

  pub delete_customer-emits :
      (customer_id : ℕ)
      → delete_customer merchant_id schema fresh customer_id s ≡ ok (true, s')
      → Announces EventType.customer_deleted (Entity.customer customer_id) (of_deleted customer_id)
  unfolding delete_customer
  delete_customer-emits customer_id h = ground arith
