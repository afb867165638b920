-- ===== src/Connect/ReadModel/Mirror/Paying.antt =====
-- The events of payments bring the read tables up to date.
use multi_tenant_event_drive.Prelude.{
  ℕ, String, ◌<◌, ◌≡◌, refl, sym, ap, ◌∙◌, Option, some, map, arith, inl, inr, true, Option-cases,
}
use multi_tenant_event_drive.Prelude.Table.{find, has, update, find-key}
use multi_tenant_event_drive.Prelude.Keyed.{find_by_other}
use multi_tenant_event_drive.Prelude.Linked.{
  value-append_other, value-find, map-agree, linked-insert,
}
use multi_tenant_event_drive.Prelude.Mapped.{
  shown-has, map-update_hidden, update_id, shown-insert, shown-update_row, map-update_row,
}
use multi_tenant_event_drive.Core.Rows.{
  Text, Customer, Payment, Status, created, authorized, captured, failed, settled, PaymentView,
  EventType, of_payment,
}
use multi_tenant_event_drive.Core.Scope.{Scope, ok}
use multi_tenant_event_drive.Core.Payments.{
  Fresh, PaymentCreate, view, new_payment, customer_uuid, set_status, set_details, event_type_map,
  valid_transitions,
}
use multi_tenant_event_drive.Core.Payments
use multi_tenant_event_drive.Core.Payments.Results.{
  create_payment-ok, transition_payment-ok, update_payment-ok, update_payment-returned,
}
use multi_tenant_event_drive.Core.Invariant.Sound.{IsSound}
use multi_tenant_event_drive.Connect.ReadModel.{json_string, ReadCustomer, ReadPayment, ReadTables}
use multi_tenant_event_drive.Connect.ReadModel.Handlers
use multi_tenant_event_drive.Connect.ReadModel.Handlers.{
  spend_for, repeat_refund, process_read, handle,
}
use multi_tenant_event_drive.Connect.ReadModel.Changes.{
  read_payment, repeat_payment, describe, set_read_status, fail_payment, count_payment, spend,
}
use multi_tenant_event_drive.Connect.ReadModel.Mirror.Linking.{
  kept_linked, paid_linked, refunds_linked,
}
use multi_tenant_event_drive.Connect.ReadModel.Mirror.{
  PaymentFacts, payment_facts, read_payment_facts, read_customer_view, customer_of, Mirrors, Synced,
}

module _ (date_of : ℕ → ℕ) (percent : ℕ → ℕ → ℕ) (merchant_id : ℕ) (schema : Text) (fresh : Fresh)
    (s s' : Scope) (r : ReadTables) (sound : IsSound s) (h : Mirrors s.tables r) where
  payments-has :
      (k : ℕ) → has Payment.payment_id k s.payments ≡ has ReadPayment.payment_id k r.payments
  payments-has =
      shown-has payment_facts read_payment_facts Payment.payment_id ReadPayment.payment_id
        PaymentFacts.payment_id (λ x. refl) (λ y. refl) s.payments r.payments h.payments_shown

  pub create_payment-Synced :
      (body : PaymentCreate) (v : PaymentView)
      → Payments.create_payment merchant_id schema fresh body s ≡ ok (v, s')
      → Synced (handle date_of percent EventType.payment_created (of_payment v) r) s'.tables
  unfolding handle Handlers.sync_payment_created
  create_payment-Synced body v e =
      let done = create_payment-ok merchant_id schema fresh s s' body v e in
      let customer_id = done.customer.customer_id in
      let customer = find ReadCustomer.customer_id customer_id r.customers in
      rw (done.tables_after, done.returned)
        (
          _,
          refl,
          record {
            customers_shown =
                h.customers_shown
                ∙ sym (
                    map-update_hidden read_customer_view ReadCustomer.customer_id customer_id
                      count_payment r.customers (λ y. refl));
            payments_shown =
                shown-insert payment_facts read_payment_facts Payment.payment_id
                  ReadPayment.payment_id PaymentFacts.payment_id (λ x. refl) (λ y. refl) s.payments
                  r.payments h.payments_shown (new_payment fresh body done.customer s.next_payment)
                  (read_payment
                    (view (new_payment fresh body done.customer s.next_payment) (some customer_id))
                    customer_id customer)
                  (repeat_payment
                    (view (new_payment fresh body done.customer s.next_payment) (some customer_id)))
                  refl done.fresh_uuid;
            refunds_shown = h.refunds_shown;
            customers_linked =
                linked-insert (customer_of s.customers) (λ (p : ReadPayment). some p.customer_id)
                  ReadPayment.payment_id
                  (repeat_payment
                    (view (new_payment fresh body done.customer s.next_payment) (some customer_id)))
                  s.payments r.payments (new_payment fresh body done.customer s.next_payment)
                  (read_payment
                    (view (new_payment fresh body done.customer s.next_payment) (some customer_id))
                    customer_id customer)
                  h.customers_linked
                  (value-find Customer.id Customer.customer_id done.customer.id s.customers
                    done.customer
                    (find_by_other Customer.customer_id Customer.id body.customer_id s.customers
                      done.customer sound.referenced.customer_keys.ids done.found))
                  (sym (payments-has fresh.uuid) ∙ done.fresh_uuid);
            payments_linked =
                map-agree (λ x. x.payment_ref < s.next_payment) _ _ s.refunds
                  (λ x below.
                    value-append_other Payment.id Payment.payment_id x.payment_ref s.payments
                      (new_payment fresh body done.customer s.next_payment) (ground (arith, below)))
                  sound.consistent.refunds_ok
                ∙ h.payments_linked;
          },
        )

  pub update_payment-Synced :
      (payment_id : ℕ) (description metadata : Option String) (v : PaymentView)
      → Payments.update_payment merchant_id schema fresh payment_id description metadata s
        ≡ ok (some v, s')
      → Synced (handle date_of percent EventType.payment_updated (of_payment v) r) s'.tables
  unfolding handle Handlers.sync_payment_updated
  update_payment-Synced payment_id description metadata v e =
      let done =
        update_payment-ok merchant_id schema fresh s s' payment_id description metadata v e in
      let (row, found, returned) =
        update_payment-returned merchant_id schema fresh s s' payment_id description metadata v e in
      let id : v.payment_id ≡ payment_id =
        ap PaymentView.payment_id returned
        ∙ find-key Payment.payment_id payment_id s.payments row found in
      (
        _,
        refl,
        rw done.tables_after (record {
          customers_shown = h.customers_shown;
          payments_shown = rw id (
              shown-update_row payment_facts read_payment_facts Payment.payment_id
                ReadPayment.payment_id PaymentFacts.payment_id (λ x. refl) (λ y. refl) s.payments
                r.payments h.payments_shown payment_id (set_details description metadata fresh.now)
                (describe v)
                (λ f. record f { description = v.description; metadata = json_string v.metadata })
                row sound.consistent.uuids found (rw returned refl) (λ y. refl));
          refunds_shown = h.refunds_shown;
          customers_linked =
              paid_linked s r h Payment.payment_id payment_id
                (set_details description metadata fresh.now) v.payment_id (describe v) (λ x. refl)
                (λ y. refl);
          payments_linked =
              refunds_linked s r h Payment.payment_id payment_id
                (set_details description metadata fresh.now) (λ x. refl) (λ x. refl);
        }),
      )

  captured_customers :
      (v : PaymentView)
      → map read_customer_view (spend_for date_of percent v r.customers)
        ≡ map read_customer_view r.customers
  captured_customers v = elim (Option-cases v.customer_id) [
    | inl unknown ↦ rw unknown refl
    | inr (c, known) ↦ rw known (
        map-update_hidden read_customer_view ReadCustomer.customer_id c (spend v) r.customers
          (λ y. refl))
  ]

  -- The UPDATE of the status on both sides, when the read side gives the row what it shows now.
  status_shown :
      (payment_id : ℕ) (target : Status) (reason : Option String) (row : Payment) (v : PaymentView)
      (f : ReadPayment → ReadPayment) (g : PaymentFacts → PaymentFacts)
      → find Payment.payment_id payment_id s.payments ≡ some row
      → v.payment_id ≡ payment_id
      → payment_facts (set_status target fresh.now reason row) ≡ g (payment_facts row)
      → ((y : ReadPayment) → read_payment_facts (f y) ≡ g (read_payment_facts y))
      → map payment_facts
          (update Payment.payment_id payment_id (set_status target fresh.now reason) s.payments)
        ≡ map read_payment_facts (update ReadPayment.payment_id v.payment_id f r.payments)
  status_shown payment_id target reason row v f g found id same same' = rw id (
      shown-update_row payment_facts read_payment_facts Payment.payment_id ReadPayment.payment_id
        PaymentFacts.payment_id (λ x. refl) (λ y. refl) s.payments r.payments h.payments_shown
        payment_id (set_status target fresh.now reason) f g row sound.consistent.uuids found same
        same')

  -- What is settled was captured, and is shown as captured.
  settled_shown :
      (payment_id : ℕ) (reason : Option String) (row : Payment)
      → find Payment.payment_id payment_id s.payments ≡ some row
      → Payments.contains settled (valid_transitions row.status) ≡ true
      → map payment_facts
          (update Payment.payment_id payment_id (set_status settled fresh.now reason) s.payments)
        ≡ map read_payment_facts r.payments
  unfolding valid_transitions
  settled_shown payment_id reason row found allowed =
      let same : payment_facts (set_status settled fresh.now reason row) ≡ payment_facts row =
        ground arith in
      map-update_row payment_facts Payment.payment_id PaymentFacts.payment_id (λ x. refl) payment_id
        (set_status settled fresh.now reason) (λ f. f) s.payments row sound.consistent.uuids found
        same
      ∙ update_id PaymentFacts.payment_id payment_id (map payment_facts s.payments)
      ∙ h.payments_shown

  pub transition_payment-Synced :
      (payment_id : ℕ) (target : Status) (reason : Option String) (v : PaymentView)
      (event_type : EventType)
      → Payments.transition_payment merchant_id schema fresh payment_id target reason s
        ≡ ok (some v, s')
      → event_type_map target ≡ some event_type
      → Synced (handle date_of percent event_type (of_payment v) r) s'.tables
  unfolding handle Handlers.sync_payment_authorized Handlers.sync_payment_captured
      Handlers.sync_payment_failed event_type_map
  transition_payment-Synced payment_id created reason v event_type e m = absurd (ground arith)
  transition_payment-Synced payment_id authorized reason v event_type e m =
      let done =
        transition_payment-ok merchant_id schema fresh s s' payment_id authorized reason v e in
      let id =
        ap PaymentView.payment_id done.returned
        ∙ find-key Payment.payment_id payment_id s.payments done.row done.found in
      let t : event_type ≡ EventType.payment_authorized = cc m in
      rw (t, done.tables_after)
        (
          _,
          refl,
          record {
            customers_shown = h.customers_shown;
            payments_shown =
                status_shown payment_id authorized reason done.row v (set_read_status authorized v)
                  (λ f. record f { status = authorized }) done.found id refl (λ y. refl);
            refunds_shown = h.refunds_shown;
            customers_linked =
                paid_linked s r h Payment.payment_id payment_id
                  (set_status authorized fresh.now reason) v.payment_id
                  (set_read_status authorized v) (λ x. refl) (λ y. refl);
            payments_linked =
                refunds_linked s r h Payment.payment_id payment_id
                  (set_status authorized fresh.now reason) (λ x. refl) (λ x. refl);
          },
        )
  transition_payment-Synced payment_id captured reason v event_type e m =
      let done =
        transition_payment-ok merchant_id schema fresh s s' payment_id captured reason v e in
      let id =
        ap PaymentView.payment_id done.returned
        ∙ find-key Payment.payment_id payment_id s.payments done.row done.found in
      let t : event_type ≡ EventType.payment_captured = cc m in
      rw (t, done.tables_after)
        (
          _,
          refl,
          record {
            customers_shown = h.customers_shown ∙ sym (captured_customers v);
            payments_shown =
                status_shown payment_id captured reason done.row v (set_read_status captured v)
                  (λ f. record f { status = captured }) done.found id refl (λ y. refl);
            refunds_shown = h.refunds_shown;
            customers_linked =
                paid_linked s r h Payment.payment_id payment_id
                  (set_status captured fresh.now reason) v.payment_id (set_read_status captured v)
                  (λ x. refl) (λ y. refl);
            payments_linked =
                refunds_linked s r h Payment.payment_id payment_id
                  (set_status captured fresh.now reason) (λ x. refl) (λ x. refl);
          },
        )
  transition_payment-Synced payment_id failed reason v event_type e m =
      let done = transition_payment-ok merchant_id schema fresh s s' payment_id failed reason v e in
      let id =
        ap PaymentView.payment_id done.returned
        ∙ find-key Payment.payment_id payment_id s.payments done.row done.found in
      let t : event_type ≡ EventType.payment_failed = cc m in
      rw (t, done.tables_after)
        (
          _,
          refl,
          record {
            customers_shown = h.customers_shown;
            payments_shown =
                status_shown payment_id failed reason done.row v (fail_payment v)
                  (λ f. record f { status = failed; failure_reason = v.failure_reason }) done.found
                  id (rw done.returned refl) (λ y. refl);
            refunds_shown = h.refunds_shown;
            customers_linked =
                paid_linked s r h Payment.payment_id payment_id (set_status failed fresh.now reason)
                  v.payment_id (fail_payment v) (λ x. refl) (λ y. refl);
            payments_linked =
                refunds_linked s r h Payment.payment_id payment_id
                  (set_status failed fresh.now reason) (λ x. refl) (λ x. refl);
          },
        )
  transition_payment-Synced payment_id settled reason v event_type e m =
      let done =
        transition_payment-ok merchant_id schema fresh s s' payment_id settled reason v e in
      let t : event_type ≡ EventType.payment_settled = cc m in
      rw (t, done.tables_after)
        (
          _,
          refl,
          record {
            customers_shown = h.customers_shown;
            payments_shown = settled_shown payment_id reason done.row done.found done.allowed;
            refunds_shown = h.refunds_shown;
            customers_linked =
                kept_linked s r h Payment.payment_id payment_id
                  (set_status settled fresh.now reason) (λ x. refl);
            payments_linked =
                refunds_linked s r h Payment.payment_id payment_id
                  (set_status settled fresh.now reason) (λ x. refl) (λ x. refl);
          },
        )
