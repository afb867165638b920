-- ===== src/Connect/ReadModel/Mirror/Linking.antt =====
-- What an UPDATE of payments leaves of the references that the read tables show.
use multi_tenant_event_drive.Prelude.{ℕ, ◌≡◌, sym, ap, ◌∙◌, some, map}
use multi_tenant_event_drive.Prelude.Table.{update}
use multi_tenant_event_drive.Prelude.Linked.{value_of, value-update, map-same}
use multi_tenant_event_drive.Prelude.Mapped.{map-update_hidden}
use multi_tenant_event_drive.Core.Rows.{Customer, Payment}
use multi_tenant_event_drive.Core.Scope.{Scope}
use multi_tenant_event_drive.Connect.ReadModel.{ReadPayment, ReadRefund, ReadTables}
use multi_tenant_event_drive.Connect.ReadModel.Mirror.{customer_of, payment_of, Mirrors}

module _ (s : Scope) (r : ReadTables) (h : Mirrors s.tables r) where
  -- An update of payments that leaves the customer alone, on the one side and on both.
  pub kept_linked :
      (by : Payment → ℕ) (k : ℕ) (f : Payment → Payment)
      → ((p : Payment) → (f p).customer_ref ≡ p.customer_ref)
      → map (customer_of s.customers) (update by k f s.payments)
        ≡ map (λ (p : ReadPayment). some p.customer_id) r.payments
  kept_linked by k f same =
      map-update_hidden (customer_of s.customers) by k f s.payments
        (λ p. ap (λ ref. value_of Customer.id Customer.customer_id ref s.customers) (same p))
      ∙ h.customers_linked

  pub paid_linked :
      (by : Payment → ℕ) (k : ℕ) (f : Payment → Payment) (j : ℕ) (g : ReadPayment → ReadPayment)
      → ((p : Payment) → (f p).customer_ref ≡ p.customer_ref)
      → ((p : ReadPayment) → (g p).customer_id ≡ p.customer_id)
      → map (customer_of s.customers) (update by k f s.payments)
        ≡ map
            (λ (p : ReadPayment). some p.customer_id)
            (update ReadPayment.payment_id j g r.payments)
  paid_linked by k f j g same same' =
      kept_linked by k f same
      ∙ sym (
          map-update_hidden (λ (p : ReadPayment). some p.customer_id) ReadPayment.payment_id j g
            r.payments (λ p. ap some (same' p)))

  -- An update of payments that leaves both keys alone.
  pub refunds_linked :
      (by : Payment → ℕ) (k : ℕ) (f : Payment → Payment)
      → ((p : Payment) → (f p).id ≡ p.id)
      → ((p : Payment) → (f p).payment_id ≡ p.payment_id)
      → map (payment_of (update by k f s.payments)) s.refunds
        ≡ map (λ (p : ReadRefund). some p.payment_id) r.refunds
  refunds_linked by k f same same' =
      map-same _ _ s.refunds
        (λ x. value-update Payment.id Payment.payment_id by k f x.payment_ref s.payments same same')
      ∙ h.payments_linked
