-- ===== src/Core/Refunds/Results.antt =====
-- What a successful call of each service of src/services/refund_service.py has done.
use multi_tenant_event_drive.Prelude.{
  ℕ, ◌+◌, ◌≤◌, ◌≡◌, ◌++◌, ◌∷◌, [], inl, inr, String, true, false, Option, none, some, arith,
  Option-cases,
}
use multi_tenant_event_drive.Prelude.Int.{pos, ◌-ℤ◌}
use multi_tenant_event_drive.Prelude.Table.{find, has, update}
use multi_tenant_event_drive.Core.Rows.{Text, Payment, Refund, RefundView, refund_issued}
use multi_tenant_event_drive.Core.Scope.{Scope, ok}
use multi_tenant_event_drive.Core.Ledger.{ledger_sum}
use multi_tenant_event_drive.Core.Payments.{Fresh, entry_of}
use multi_tenant_event_drive.Core.Refunds.{
  refundable, is_initiated, reserve, new_refund, refund_view, set_processed, create_refund,
  process_refund,
}

module _ (merchant_id : ℕ) (schema : Text) (fresh : Fresh) (s s' : Scope) where
  pub record Refunded (payment_id amount : ℕ) (reason : Option String) (v : RefundView)
      : Type 0 where
    pub row : Payment
    pub found : find Payment.payment_id payment_id s.payments ≡ some row
    pub can_refund : refundable row.status ≡ true
    pub unused : has Refund.refund_id fresh.uuid s.refunds ≡ false
    pub within : amount + row.amount_refunded ≤ row.amount
    pub returned :
        v ≡ refund_view (new_refund fresh row amount reason s.next_refund) (some row.payment_id)
    pub tables_after : s'.tables ≡ record s.tables {
      payments = update Payment.id row.id (reserve amount) s.payments;
      refunds = s.refunds ++ new_refund fresh row amount reason s.next_refund ∷ [];
      next_refund = s.next_refund + 1;
      ledger_entries =
          s.ledger_entries
          ++ entry_of refund_issued row.id
              (some s.next_refund)
              amount
              (ledger_sum s.ledger_entries -ℤ pos amount)
              fresh
            ∷ [];
    }

  pub record Processed (refund_id : ℕ) : Type 0 where
    pub row : Refund
    pub found : find Refund.refund_id refund_id s.refunds ≡ some row
    pub was_initiated : is_initiated row.status ≡ true
    pub tables_after : s'.tables ≡ record s.tables {
      refunds = update Refund.refund_id refund_id (set_processed fresh.now) s.refunds;
    }

  pub create_refund-ok :
      (payment_id amount : ℕ) (reason : Option String) (v : RefundView)
      → create_refund merchant_id schema fresh payment_id amount reason s ≡ ok (v, s')
      → Refunded payment_id amount reason v
  unfolding create_refund
  create_refund-ok payment_id amount reason v h =
      elim (Option-cases (find Payment.payment_id payment_id s.payments)) [
        | inl missing ↦ ground arith
        | inr (p, e) ↦ record {
          row = p;
          found = e;
          can_refund = ground arith;
          unused = ground arith;
          within = ground arith;
          returned = ground arith;
          tables_after = ground arith;
        }
      ]

  pub process_refund-ok :
      (refund_id : ℕ) (v : RefundView)
      → process_refund merchant_id schema fresh refund_id s ≡ ok (some v, s')
      → Processed refund_id
  unfolding process_refund
  process_refund-ok refund_id v h =
      elim (Option-cases (find Refund.refund_id refund_id s.refunds)) [
        | inl missing ↦ ground arith
        | inr (r, e) ↦ record {
          row = r;
          found = e;
          was_initiated = ground arith;
          tables_after = ground arith;
        }
      ]

  pub process_refund-none :
      (refund_id : ℕ) → process_refund merchant_id schema fresh refund_id s ≡ ok (none, s') → s' ≡ s
  unfolding process_refund
  process_refund-none refund_id h = ground arith

  -- What the call returns: the UUID of the row that it found, and the time of the change.
  pub process_refund-returned :
      (refund_id : ℕ) (v : RefundView)
      → process_refund merchant_id schema fresh refund_id s ≡ ok (some v, s')
      → (row : Refund) × (find Refund.refund_id refund_id s.refunds ≡ some row)
        × (v.refund_id ≡ row.refund_id)
        × (v.updated_at ≡ fresh.now)
  unfolding process_refund
  process_refund-returned refund_id v h =
      elim (Option-cases (find Refund.refund_id refund_id s.refunds)) [
        | inl missing ↦ ground arith
        | inr (r, e) ↦ (r, e, ground arith, ground arith)
      ]
