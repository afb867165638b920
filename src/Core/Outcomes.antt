-- ===== src/Core/Outcomes.antt =====
-- When the services of payment-core-service succeed, and how they fail.
use multi_tenant_event_drive.Prelude.{
  ℕ, String, ◌+◌, ◌≤◌, ◌<◌, ◌≡◌, refl, ◌⊎◌, inl, inr, true, false, Option, some, ◌++◌, ◌∷◌, [],
  arith, Bool-cases, Option-cases,
}
use multi_tenant_event_drive.Prelude.Int.{pos, ◌+ℤ◌, ◌-ℤ◌, int_laws}
use multi_tenant_event_drive.Prelude.Table.{find, has}
use multi_tenant_event_drive.Prelude.Keyed.{has-find, has-none}
use multi_tenant_event_drive.Core.Rows.{
  Text, Payment, Refund, Customer, PaymentView, RefundView, Status, captured, LedgerEntry,
  DomainEvent,
}
use multi_tenant_event_drive.Core.Scope.{
  Scope, Result, Error, ok, err, invalid_transition, not_refundable, refund_exceeds_remaining,
  customer_not_found,
}
use multi_tenant_event_drive.Core.Ledger.{ledger_sum, ledger_sum-append, fits, decimal_limit}
use multi_tenant_event_drive.Core.Payments.{
  Fresh, PaymentCreate, valid_transitions, contains, event_type_map, create_payment,
  transition_payment,
}
use multi_tenant_event_drive.Core.Payments.Results.{create_payment-ok, transition_payment-ok}
use multi_tenant_event_drive.Core.Refunds.{refundable, create_refund}
use multi_tenant_event_drive.Core.Refunds.Results.{create_refund-ok}

abbrev pub Succeeds : {A : Type 0} → Result A → Type 0
Succeeds {A} r = (a : A) × (r ≡ ok a)

Result-cases : {A : Type 0} (r : Result A) → Succeeds r ⊎ ((e : Error) × (r ≡ err e))
Result-cases (ok a) = inl (a, refl)
Result-cases (err e) = inr (e, refl)

-- The UUIDs of the request are new to the ledger and to the outbox.
pub record IsNew (fresh : Fresh) (s : Scope) : Type 0 where
  pub ledger_new : has LedgerEntry.ledger_id fresh.ledger_uuid s.ledger_entries ≡ false
  pub event_new : has DomainEvent.event_id fresh.event_uuid s.events ≡ false

module _ (merchant_id : ℕ) (schema : Text) (fresh : Fresh) (s : Scope) where
  -- An allowed transition of a payment that is there succeeds, if the UUIDs are new and the ledger's
  -- balance fits its column; one that is not allowed is refused.
  pub transition_payment_decides :
      (payment_id : ℕ) (target : Status) (reason : Option String) (row : Payment)
      → find Payment.payment_id payment_id s.payments ≡ some row
      → IsNew fresh s
      → fits (ledger_sum s.ledger_entries) ≡ true
      → ((contains target (valid_transitions row.status) ≡ true)
          × Succeeds (transition_payment merchant_id schema fresh payment_id target reason s))
        ⊎ ((contains target (valid_transitions row.status) ≡ false)
            × (transition_payment merchant_id schema fresh payment_id target reason s
                ≡ err invalid_transition))
  unfolding transition_payment valid_transitions event_type_map
  transition_payment_decides payment_id target reason row found new room =
      elim (Bool-cases (contains target (valid_transitions row.status))) [
        | inr refused ↦ inr (refused, ground arith)
        | inl allowed ↦ inl (
          allowed,
          elim (Result-cases
              (transition_payment merchant_id schema fresh payment_id target reason s)) [
                | inl done ↦ done
                | inr (e, failed) ↦ absurd (ground arith)
              ],
        )
      ]

  -- A refund of a payment that is there succeeds when the payment is captured or settled and what is
  -- left of it covers the amount; otherwise it is refused for the one reason or for the other. The
  -- UUIDs are new, and the ledger's balance after the refund fits its column.
  pub create_refund_decides :
      (payment_id amount : ℕ) (reason : Option String) (row : Payment)
      → find Payment.payment_id payment_id s.payments ≡ some row
      → IsNew fresh s
      → has Refund.refund_id fresh.uuid s.refunds ≡ false
      → fits (ledger_sum s.ledger_entries -ℤ pos amount) ≡ true
      → let result = create_refund merchant_id schema fresh payment_id amount reason s in
        ((refundable row.status ≡ true)
          × (amount + row.amount_refunded ≤ row.amount)
          × Succeeds result)
        ⊎ ((refundable row.status ≡ false) × (result ≡ err not_refundable))
        ⊎ ((refundable row.status ≡ true)
            × (row.amount < amount + row.amount_refunded)
            × (result ≡ err refund_exceeds_remaining))
  unfolding create_refund
  create_refund_decides payment_id amount reason row found new unused room =
      elim (Result-cases (create_refund merchant_id schema fresh payment_id amount reason s)) [
        | inl done ↦ inl (ground arith, ground arith, done)
        | inr (e, failed) ↦ inr (ground arith)
      ]

  -- A payment of a customer of the tenant succeeds, and one of an unknown customer is refused; the
  -- UUIDs are new, and the amount and the ledger's balance after it fit their columns.
  pub create_payment_decides :
      (body : PaymentCreate)
      → IsNew fresh s
      → has Payment.payment_id fresh.uuid s.payments ≡ false
      → body.amount < decimal_limit
      → fits (ledger_sum s.ledger_entries +ℤ pos body.amount) ≡ true
      → let result = create_payment merchant_id schema fresh body s in
        ((has Customer.customer_id body.customer_id s.customers ≡ true) × Succeeds result)
        ⊎ ((has Customer.customer_id body.customer_id s.customers ≡ false)
            × (result ≡ err customer_not_found))
  unfolding create_payment
  create_payment_decides body new unused small room =
      elim (Option-cases (find Customer.customer_id body.customer_id s.customers)) [
        | inl missing ↦
            inr (has-none Customer.customer_id body.customer_id s.customers missing, ground arith)
        | inr (c, found) ↦ inl (
          has-find Customer.customer_id body.customer_id s.customers c found,
          elim (Result-cases (create_payment merchant_id schema fresh body s)) [
            | inl done ↦ done
            | inr (e, failed) ↦ absurd (ground arith)
          ],
        )
      ]

module _ (merchant_id : ℕ) (schema : Text) (fresh : Fresh) (s s' : Scope) where
  -- A payment that is created adds one entry to the ledger, whose `balance_after` is the sum of the
  -- ledger with it.
  create_payment-balance :
      (body : PaymentCreate) (v : PaymentView)
      → create_payment merchant_id schema fresh body s ≡ ok (v, s')
      → (e : LedgerEntry) × (s'.ledger_entries ≡ s.ledger_entries ++ e ∷ [])
        × (e.balance_after ≡ ledger_sum s'.ledger_entries)
  create_payment-balance body v h =
      let done = create_payment-ok merchant_id schema fresh s s' body v h in
      rw done.tables_after (_, refl, rw ledger_sum-append)

  -- A refund that is created adds one entry to the ledger, whose `balance_after` is the sum of the
  -- ledger with it.
  create_refund-balance :
      (payment_id amount : ℕ) (reason : Option String) (v : RefundView)
      → create_refund merchant_id schema fresh payment_id amount reason s ≡ ok (v, s')
      → (e : LedgerEntry) × (s'.ledger_entries ≡ s.ledger_entries ++ e ∷ [])
        × (e.balance_after ≡ ledger_sum s'.ledger_entries)
  create_refund-balance payment_id amount reason v h =
      let done = create_refund-ok merchant_id schema fresh s s' payment_id amount reason v h in
      rw done.tables_after (_, refl, rw ledger_sum-append (omega int_laws))

  -- A capture adds one entry to the ledger, whose `balance_after` is short of the sum of the ledger
  -- with it by the amount of the payment.
  pub capture-balance :
      (payment_id : ℕ) (reason : Option String) (v : PaymentView)
      → transition_payment merchant_id schema fresh payment_id captured reason s ≡ ok (some v, s')
      → (e : LedgerEntry) × (s'.ledger_entries ≡ s.ledger_entries ++ e ∷ [])
        × (e.balance_after +ℤ pos v.amount ≡ ledger_sum s'.ledger_entries)
  capture-balance payment_id reason v h =
      let done =
        transition_payment-ok merchant_id schema fresh s s' payment_id captured reason v h in
      rw (done.tables_after, done.returned) (_, refl, rw ledger_sum-append)
