-- ===== src/Core/Refunds.antt =====
-- src/services/refund_service.py: refunds of captured payments.
pub mod Results
use multi_tenant_event_drive.Prelude.{
  ℕ, ◌+◌, String, Bool, true, false, not, Option, none, some, ◌++◌, [], ◌∷◌, ltb, if◌then◌else◌,
}
use multi_tenant_event_drive.Prelude.Int.{pos, ◌-ℤ◌}
use multi_tenant_event_drive.Prelude.Table.{find, has, update}
use multi_tenant_event_drive.Core.Rows.{
  Text, Payment, Refund, RefundStatus, RefundView, Status, captured, settled, initiated, processed,
  EventType, Entity, Payload, of_refund, of_new_refund, refund_issued,
}
use multi_tenant_event_drive.Core.Scope.{
  Tx, Scope, ok, err, pure, gets, or_raise, raise_if, modify, ◌>>=◌, ◌>>◌, emit_event,
  payment_not_found, not_refundable, refund_exceeds_remaining, not_processable, unique_violation,
}
use multi_tenant_event_drive.Core.Ledger.{ledger_sum, insert_entry}
use multi_tenant_event_drive.Core.Payments.{Fresh, customer_uuid, entry_of}

-- pay["status"] in ("captured", "settled")
abbrev pub refundable : Status → Bool
refundable captured = true
refundable settled = true
refundable _ = false

-- amount > pay["amount"] - pay["amount_refunded"], a difference of decimals that may be negative
unfoldable pub exceeds_remaining : ℕ → Payment → Bool
exceeds_remaining amount p = ltb p.amount (amount + p.amount_refunded)

-- SET amount_refunded = amount_refunded + $1
abbrev pub reserve : ℕ → Payment → Payment
reserve amount p = record p { amount_refunded = p.amount_refunded + amount }

abbrev pub refund_view : Refund → Option ℕ → RefundView
refund_view r payment_id = record {
  refund_id = r.refund_id;
  payment_id = payment_id;
  amount = r.amount;
  reason = r.reason;
  status = r.status;
  created_at = r.created_at;
  updated_at = r.updated_at;
}

abbrev pub new_refund : Fresh → Payment → ℕ → Option String → ℕ → Refund
new_refund fresh p amount reason id = record {
  id = id;
  refund_id = fresh.uuid;
  payment_ref = p.id;
  amount = amount;
  reason = reason;
  status = initiated;
  created_at = fresh.now;
  updated_at = fresh.now;
}

-- INSERT INTO refunds; `refund_id` is UNIQUE, and `amount` fits, since the payment's amount does.
unfoldable pub insert_refund : Refund → Tx (Unit {0})
insert_refund r s = elim (has Refund.refund_id r.refund_id s.refunds) [
  | true ↦ err unique_violation
  | false ↦ ok (
    tt,
    record s {
      tables = record s.tables { refunds = s.refunds ++ r ∷ []; next_refund = s.next_refund + 1 };
    },
  )
]

abbrev pub is_initiated : RefundStatus → Bool
is_initiated initiated = true
is_initiated processed = false

-- SET status = 'processed', updated_at = $2
abbrev pub set_processed : ℕ → Refund → Refund
set_processed now r = record r { status = processed; updated_at = now }

module _ (merchant_id : ℕ) (schema : Text) where
  abbrev emit : Fresh → EventType → Entity → Payload → Tx (Unit {0})
  emit fresh = emit_event fresh.event_uuid fresh.emitted_at merchant_id schema

  unfoldable pub create_refund : Fresh → ℕ → ℕ → Option String → Tx RefundView
  unfolding exceeds_remaining insert_refund insert_entry emit_event
  create_refund fresh payment_id amount reason = do
    found ← gets (λ t. find Payment.payment_id payment_id t.payments)
    pay ← or_raise found payment_not_found
    raise_if (not (refundable pay.status)) not_refundable
    raise_if (exceeds_remaining amount pay) refund_exceeds_remaining
    modify (λ t. record t { payments = update Payment.id pay.id (reserve amount) t.payments })
    cust ← gets (customer_uuid pay.customer_ref)
    id ← gets (λ t. t.next_refund)
    let row = new_refund fresh pay amount reason id
    insert_refund row
    let refund = refund_view row (some pay.payment_id)
    before ← gets (λ t. ledger_sum t.ledger_entries)
    insert_entry (entry_of refund_issued pay.id (some id) amount (before -ℤ pos amount) fresh)
    emit fresh EventType.refund_initiated (Entity.refund fresh.uuid)
        (of_new_refund refund pay.amount cust)
    pure refund

  -- SELECT payment_id FROM payments WHERE id = $1
  abbrev payment_uuid : ℕ → Scope → Option ℕ
  payment_uuid ref s = elim (find Payment.id ref s.payments) [
    | none ↦ none
    | some p ↦ some p.payment_id
  ]

  unfoldable pub process_refund : Fresh → ℕ → Tx (Option RefundView)
  unfolding emit_event
  process_refund fresh refund_id = do
    found ← gets (λ t. find Refund.refund_id refund_id t.refunds)
    elim found [
      | none ↦ pure none
      | some row ↦ do
        raise_if (not (is_initiated row.status)) not_processable
        let change = set_processed fresh.now
        modify (λ t. record t { refunds = update Refund.refund_id refund_id change t.refunds })
        pay ← λ s. ok (payment_uuid row.payment_ref s, s)
        let updated = refund_view (change row) pay
        emit fresh EventType.refund_processed (Entity.refund refund_id) (of_refund updated)
        pure (some updated)
    ]
