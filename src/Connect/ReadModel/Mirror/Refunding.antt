-- ===== src/Connect/ReadModel/Mirror/Refunding.antt =====
-- The events of refunds bring the read tables up to date.
use multi_tenant_event_drive.Prelude.{ℕ, String, ◌≡◌, refl, sym, ◌∙◌, Option, none, some, map}
use multi_tenant_event_drive.Prelude.Table.{has, update, find-key}
use multi_tenant_event_drive.Prelude.Keyed.{find_by_other}
use multi_tenant_event_drive.Prelude.Linked.{value-update, value-find, linked-insert}
use multi_tenant_event_drive.Prelude.Mapped.{
  shown-has, map-update_hidden, shown-insert, shown-update,
}
use multi_tenant_event_drive.Core.Rows.{
  Text, Payment, Refund, RefundView, processed, EventType, of_refund, of_new_refund,
}
use multi_tenant_event_drive.Core.Scope.{Scope, ok}
use multi_tenant_event_drive.Core.Payments.{Fresh}
use multi_tenant_event_drive.Core.Refunds
use multi_tenant_event_drive.Core.Refunds.{reserve, new_refund, refund_view, set_processed}
use multi_tenant_event_drive.Core.Refunds.Results.{
  create_refund-ok, process_refund-ok, process_refund-returned,
}
use multi_tenant_event_drive.Core.Invariant.Sound.{IsSound}
use multi_tenant_event_drive.Connect.ReadModel.{ReadCustomer, ReadRefund, ReadTables}
use multi_tenant_event_drive.Connect.ReadModel.Handlers
use multi_tenant_event_drive.Connect.ReadModel.Handlers.{
  spend_for, repeat_refund, process_read, handle,
}
use multi_tenant_event_drive.Connect.ReadModel.Changes.{unspend, unspend_for}
use multi_tenant_event_drive.Connect.ReadModel.Mirror.Linking.{kept_linked, refunds_linked}
use multi_tenant_event_drive.Connect.ReadModel.Mirror.{
  RefundFacts, payment_facts, refund_facts, read_refund_facts, read_customer_view, payment_of,
  Mirrors, Synced,
}

module _ (date_of : ℕ → ℕ) (percent : ℕ → ℕ → ℕ) (merchant_id : ℕ) (schema : Text) (fresh : Fresh)
    (s s' : Scope) (r : ReadTables) (sound : IsSound s) (h : Mirrors s.tables r) where
  refunds-has : (k : ℕ) → has Refund.refund_id k s.refunds ≡ has ReadRefund.refund_id k r.refunds
  refunds-has =
      shown-has refund_facts read_refund_facts Refund.refund_id ReadRefund.refund_id
        RefundFacts.refund_id (λ x. refl) (λ y. refl) s.refunds r.refunds h.refunds_shown

  refunded_customers :
      (v : RefundView) (c : Option ℕ)
      → map read_customer_view (unspend_for v c r.customers) ≡ map read_customer_view r.customers
  refunded_customers v none = refl
  refunded_customers v (some c) =
      map-update_hidden read_customer_view ReadCustomer.customer_id c (unspend v) r.customers
        (λ y. refl)

  pub create_refund-Synced :
      (payment_id amount : ℕ) (reason : Option String) (v : RefundView) (total : ℕ) (c : Option ℕ)
      → Refunds.create_refund merchant_id schema fresh payment_id amount reason s ≡ ok (v, s')
      → Synced
          (handle date_of percent EventType.refund_initiated (of_new_refund v total c) r)
          s'.tables
  unfolding handle Handlers.sync_refund_initiated
  create_refund-Synced payment_id amount reason v total c e =
      let done = create_refund-ok merchant_id schema fresh s s' payment_id amount reason v e in
      rw (done.tables_after, done.returned)
        (
          _,
          refl,
          record {
            customers_shown =
                h.customers_shown
                ∙ sym (
                    refunded_customers
                      (refund_view (new_refund fresh done.row amount reason s.next_refund)
                        (some done.row.payment_id))
                      c);
            payments_shown =
                map-update_hidden payment_facts Payment.id done.row.id (reserve amount) s.payments
                  (λ x. refl)
                ∙ h.payments_shown;
            refunds_shown =
                shown-insert refund_facts read_refund_facts Refund.refund_id ReadRefund.refund_id
                  RefundFacts.refund_id (λ x. refl) (λ y. refl) s.refunds r.refunds h.refunds_shown
                  (new_refund fresh done.row amount reason s.next_refund) _ _ refl done.unused;
            customers_linked =
                kept_linked s r h Payment.id done.row.id (reserve amount) (λ x. refl);
            payments_linked =
                linked-insert
                  (payment_of (update Payment.id done.row.id (reserve amount) s.payments))
                  (λ (q : ReadRefund). some q.payment_id) ReadRefund.refund_id _ s.refunds r.refunds
                  (new_refund fresh done.row amount reason s.next_refund) _
                  (refunds_linked s r h Payment.id done.row.id (reserve amount) (λ x. refl)
                    (λ x. refl))
                  (value-update Payment.id Payment.payment_id Payment.id done.row.id
                      (reserve amount) done.row.id s.payments (λ x. refl) (λ x. refl)
                    ∙ value-find Payment.id Payment.payment_id done.row.id s.payments done.row (
                        find_by_other Payment.payment_id Payment.id payment_id s.payments done.row
                          sound.consistent.ids done.found))
                  (sym (refunds-has fresh.uuid) ∙ done.unused);
          },
        )

  pub process_refund-Synced :
      (refund_id : ℕ) (v : RefundView)
      → Refunds.process_refund merchant_id schema fresh refund_id s ≡ ok (some v, s')
      → Synced (handle date_of percent EventType.refund_processed (of_refund v) r) s'.tables
  unfolding handle Handlers.sync_refund_processed
  process_refund-Synced refund_id v e =
      let done = process_refund-ok merchant_id schema fresh s s' refund_id v e in
      let (row, found, returned, at) =
        process_refund-returned merchant_id schema fresh s s' refund_id v e in
      let id : v.refund_id ≡ refund_id =
        returned ∙ find-key Refund.refund_id refund_id s.refunds row found in
      (
        _,
        refl,
        rw (done.tables_after, id)
            (record {
              customers_shown = h.customers_shown;
              payments_shown = h.payments_shown;
              refunds_shown =
                  shown-update refund_facts read_refund_facts Refund.refund_id ReadRefund.refund_id
                    RefundFacts.refund_id (λ x. refl) (λ y. refl) s.refunds r.refunds
                    h.refunds_shown refund_id (set_processed fresh.now)
                    (process_read date_of percent v)
                    (λ f. record f { status = processed; updated_at = fresh.now }) (λ x. refl)
                    (λ y. rw at refl);
              customers_linked = h.customers_linked;
              payments_linked =
                  map-update_hidden (payment_of s.payments) Refund.refund_id refund_id
                    (set_processed fresh.now) s.refunds (λ x. refl)
                  ∙ h.payments_linked
                  ∙ sym (
                      map-update_hidden (λ (q : ReadRefund). some q.payment_id) ReadRefund.refund_id
                        refund_id (process_read date_of percent v) r.refunds (λ y. refl));
            }),
      )
