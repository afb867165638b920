-- ===== src/Core/Invariant/Refunding.antt =====
-- The services of src/services/refund_service.py keep the invariant: no payment is refunded by more
-- than its amount, and `amount_refunded` is the sum of its refunds.
use multi_tenant_event_drive.Prelude.{
  ℕ, ◌<◌, ◌≡◌, refl, ap, List, All, All-imp, String, Option, some, ◌∷◌, ◌++◌, [], All-append, arith,
}
use multi_tenant_event_drive.Prelude.Int.{pos_part, neg_part, int_laws}
use multi_tenant_event_drive.Prelude.Table.{update, sum_of-append, All-find}
use multi_tenant_event_drive.Prelude.Keyed.{
  find_by_other, All-update, sum_of-update_same, Distinct-update_by,
}
use multi_tenant_event_drive.Core.Rows.{Text, Payment, Refund, RefundView}
use multi_tenant_event_drive.Core.Scope.{Scope, ok}
use multi_tenant_event_drive.Core.Ledger.{ledger_sum-append}
use multi_tenant_event_drive.Core.Payments.{Fresh}
use multi_tenant_event_drive.Core.Refunds.{
  reserve, new_refund, set_processed, create_refund, process_refund,
}
use multi_tenant_event_drive.Core.Refunds.Results.{create_refund-ok, process_refund-ok}
use multi_tenant_event_drive.Core.Invariant.{
  refunded, refunded-append, IsAccounted, IsConsistent, booked,
}

-- Marking a refund as processed moves no money.
refunded-process :
    (id k now : ℕ) (rs : List Refund)
    → refunded id (update Refund.refund_id k (set_processed now) rs) ≡ refunded id rs
refunded-process id k now [] = refl
refunded-process id k now (r ∷ rs) = ground (arith, refunded-process id k now rs)

refs-process :
    (n k now : ℕ) (rs : List Refund)
    → All (λ r. r.payment_ref < n) rs
    → All (λ r. r.payment_ref < n) (update Refund.refund_id k (set_processed now) rs)
refs-process n k now [] h = tt
refs-process n k now (r ∷ rs) h = ground (arith, refs-process n k now rs h.1)

module _ (merchant_id : ℕ) (schema : Text) (fresh : Fresh) (s s' : Scope)
    (h : IsConsistent s.tables) where
  pub create_refund-IsConsistent :
      (payment_id amount : ℕ) (reason : Option String) (v : RefundView)
      → create_refund merchant_id schema fresh payment_id amount reason s ≡ ok (v, s')
      → IsConsistent s'.tables
  create_refund-IsConsistent payment_id amount reason v e =
      let done = create_refund-ok merchant_id schema fresh s s' payment_id amount reason v e in
      let row = done.row in
      let new = new_refund fresh row amount reason s.next_refund in
      let found =
        find_by_other Payment.payment_id Payment.id payment_id s.payments row h.ids done.found in
      let before = IsAccounted s.next_payment s.refunds in
      let after = IsAccounted s.next_payment (s.refunds ++ new ∷ []) in
      let known =
        All-find Payment.payment_id before payment_id s.payments row h.payments_ok done.found in
      rw done.tables_after (record {
        ids =
            Distinct-update_by Payment.id Payment.id (reserve amount) (λ r. refl) row.id s.payments
              h.ids;
        uuids =
            Distinct-update_by Payment.payment_id Payment.id (reserve amount) (λ r. refl) row.id
              s.payments h.uuids;
        payments_ok =
            All-update Payment.id before after row.id (reserve amount) s.payments row h.ids found
              (λ x other a. ground (arith, refunded-append x.id s.refunds new))
              (λ a.
                ground (arith, refunded-append row.id s.refunds new, done.within, done.can_refund))
              h.payments_ok;
        refunds_ok =
            All-append (λ r. r.payment_ref < s.next_payment) s.refunds (new ∷ []) h.refunds_ok
              (known.0, tt);
        ledger_ok =
            rw
              (
                ledger_sum-append,
                sum_of-append,
                sum_of-update_same Payment.id booked row.id (reserve amount) s.payments (λ r. refl),
              )
              (omega (int_laws, ap pos_part h.ledger_ok, ap neg_part h.ledger_ok));
      })

  pub process_refund-IsConsistent :
      (refund_id : ℕ) (v : RefundView)
      → process_refund merchant_id schema fresh refund_id s ≡ ok (some v, s')
      → IsConsistent s'.tables
  process_refund-IsConsistent refund_id v e =
      let done = process_refund-ok merchant_id schema fresh s s' refund_id v e in
      let after = update Refund.refund_id refund_id (set_processed fresh.now) s.refunds in
      rw done.tables_after (record {
        ids = h.ids;
        uuids = h.uuids;
        payments_ok =
            All-imp (IsAccounted s.next_payment s.refunds) (IsAccounted s.next_payment after)
              s.payments
              (λ p a. ground (arith, refunded-process p.id refund_id fresh.now s.refunds))
              h.payments_ok;
        refunds_ok = refs-process s.next_payment refund_id fresh.now s.refunds h.refunds_ok;
        ledger_ok =
            rw
              (sum_of-update_same Refund.refund_id Refund.amount refund_id (set_processed fresh.now)
                s.refunds (λ r. refl))
              h.ledger_ok;
      })
