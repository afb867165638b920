-- ===== src/Connect/ReadModel/Mirror.antt =====
-- What the read tables of a merchant show of the tables of payment-core-service, and that each event
-- of a service brings them up to date.
pub mod Linking
pub mod Paying
pub mod Refunding
pub mod Serving
use multi_tenant_event_drive.Prelude.{
  ℕ, String, ◌≡◌, refl, sym, ap, subst, ◌∙◌, Option, none, some, List, [], ◌∷◌, map, arith, inl,
  inr, true, false, ◌==◌,
}
use multi_tenant_event_drive.Prelude.Table.{find, has, update, find-key}
use multi_tenant_event_drive.Prelude.Mapped.{
  map-append, map-update_hidden, update_id, shown-insert, shown-delete, shown-update,
  shown-update_row, map-update_row,
}
use multi_tenant_event_drive.Prelude.Linked.{
  value_of, value-append, value-update, value-delete, map-agree, map-same, All-unreferred,
}
use multi_tenant_event_drive.Core.Rows.{
  Text, Tenant, Customer, Payment, Refund, Currency, Status, created, authorized, captured, failed,
  settled, Method, RefundStatus, CustomerView, PaymentView, RefundView, EventType, of_customer,
  of_deleted, of_payment, of_refund, of_new_refund, Payload,
}
use multi_tenant_event_drive.Core.Scope.{Scope, Result, ok}
use multi_tenant_event_drive.Core.Payments.{
  Fresh, PaymentCreate, view, new_payment, customer_uuid, set_status, set_details, event_type_map,
  valid_transitions,
}
use multi_tenant_event_drive.Core.Payments
use multi_tenant_event_drive.Core.Payments.Results.{
  create_payment-ok, transition_payment-ok, update_payment-ok, update_payment-returned,
}
use multi_tenant_event_drive.Core.Refunds
use multi_tenant_event_drive.Core.Refunds.{reserve, new_refund, refund_view, set_processed}
use multi_tenant_event_drive.Core.Refunds.Results.{
  create_refund-ok, process_refund-ok, process_refund-returned,
}
use multi_tenant_event_drive.Core.Customers
use multi_tenant_event_drive.Core.Customers.{
  CustomerCreate, CustomerUpdate, customer_view, new_customer, set_customer,
}
use multi_tenant_event_drive.Core.Customers.Results.{
  create_customer-ok, update_customer-ok, delete_customer-ok, create_customer-returned,
  update_customer-returned,
}
use multi_tenant_event_drive.Core.Invariant.Sound.{IsSound}
use multi_tenant_event_drive.Connect.ReadModel.Changes
use multi_tenant_event_drive.Connect.ReadModel.{
  StoredJson, json_string, ReadCustomer, ReadPayment, ReadRefund, ReadTables,
}
use multi_tenant_event_drive.Connect.ReadModel.Handlers
use multi_tenant_event_drive.Connect.ReadModel.Handlers.{
  spend_for, repeat_refund, process_read, handle,
}
use multi_tenant_event_drive.Connect.ReadModel.Changes.{
  read_customer, read_payment, repeat_payment, describe, set_read_status, fail_payment,
  rename_payment, rename_refunds, count_payment, spend, unspend, unspend_for, read_refund,
}

-- What a payment shows on both sides. A settled payment still shows as captured.
pub record PaymentFacts : Type 0 where
  pub payment_id : ℕ
  pub amount : ℕ
  pub currency : Currency
  pub status : Status
  pub method : Method
  pub description : Option String
  pub metadata : StoredJson
  pub failure_reason : Option String
  pub created_at : ℕ

pub record RefundFacts : Type 0 where
  pub refund_id : ℕ
  pub amount : ℕ
  pub reason : Option String
  pub status : RefundStatus
  pub created_at : ℕ
  pub updated_at : ℕ

abbrev pub seen : Status → Status
seen created = created
seen authorized = authorized
seen captured = captured
seen failed = failed
seen settled = captured

abbrev pub payment_facts : Payment → PaymentFacts
payment_facts p = record {
  payment_id = p.payment_id;
  amount = p.amount;
  currency = p.currency;
  status = seen p.status;
  method = p.method;
  description = p.description;
  metadata = json_string p.metadata;
  failure_reason = p.failure_reason;
  created_at = p.created_at;
}

abbrev pub read_payment_facts : ReadPayment → PaymentFacts
read_payment_facts p = record {
  payment_id = p.payment_id;
  amount = p.amount;
  currency = p.currency;
  status = p.status;
  method = p.method;
  description = p.description;
  metadata = p.metadata;
  failure_reason = p.failure_reason;
  created_at = p.created_at;
}

abbrev pub refund_facts : Refund → RefundFacts
refund_facts r = record {
  refund_id = r.refund_id;
  amount = r.amount;
  reason = r.reason;
  status = r.status;
  created_at = r.created_at;
  updated_at = r.updated_at;
}

abbrev pub read_refund_facts : ReadRefund → RefundFacts
read_refund_facts r = record {
  refund_id = r.refund_id;
  amount = r.amount;
  reason = r.reason;
  status = r.status;
  created_at = r.created_at;
  updated_at = r.updated_at;
}

abbrev pub read_customer_view : ReadCustomer → CustomerView
read_customer_view c = record {
  customer_id = c.customer_id;
  name = c.name;
  email = c.email;
  phone = c.phone;
  created_at = c.created_at;
  updated_at = c.updated_at;
}

-- The UUID of the customer that a payment refers to, and of the payment that a refund refers to.
abbrev pub customer_of : List Customer → Payment → Option ℕ
customer_of customers p = value_of Customer.id Customer.customer_id p.customer_ref customers

abbrev pub payment_of : List Payment → Refund → Option ℕ
payment_of payments r = value_of Payment.id Payment.payment_id r.payment_ref payments

-- The read tables show the tenant's customers, payments and refunds, in their order: customers and
-- refunds with every column that both sides have, and payments without `amount_refunded` and
-- `updated_at`.
pub record Mirrors (t : Tenant) (r : ReadTables) : Type 0 where
  pub customers_shown : map customer_view t.customers ≡ map read_customer_view r.customers
  pub payments_shown : map payment_facts t.payments ≡ map read_payment_facts r.payments
  pub refunds_shown : map refund_facts t.refunds ≡ map read_refund_facts r.refunds
  pub customers_linked :
      map (customer_of t.customers) t.payments
      ≡ map (λ (p : ReadPayment). some p.customer_id) r.payments
  pub payments_linked :
      map (payment_of t.payments) t.refunds ≡ map (λ (p : ReadRefund). some p.payment_id) r.refunds

-- The handler succeeds, and the tables that it leaves show the tenant's.
abbrev pub Synced : Option ReadTables → Tenant → Type 0
Synced out t = (r : ReadTables) × (out ≡ some r) × Mirrors t r

-- Changes of columns that are not shown.
refunds_renamed :
    (v : CustomerView) (ps : List ReadPayment) (rs : List ReadRefund)
    → map read_refund_facts (rename_refunds v ps rs) ≡ map read_refund_facts rs
refunds_renamed v ps [] = refl
refunds_renamed v ps (r ∷ rs) = ground (arith, refunds_renamed v ps rs)

renamed-linked :
    (v : CustomerView) (ps : List ReadPayment) (rs : List ReadRefund)
    → map (λ (q : ReadRefund). some q.payment_id) (rename_refunds v ps rs)
      ≡ map (λ (q : ReadRefund). some q.payment_id) rs
renamed-linked v ps [] = refl
renamed-linked v ps (r ∷ rs) = ground (arith, renamed-linked v ps rs)

module _ (date_of : ℕ → ℕ) (percent : ℕ → ℕ → ℕ) (merchant_id : ℕ) (schema : Text) (fresh : Fresh)
    (s s' : Scope) (r : ReadTables) (sound : IsSound s) (h : Mirrors s.tables r) where
  pub create_customer-Synced :
      (body : CustomerCreate) (v : CustomerView)
      → Customers.create_customer merchant_id schema fresh body s ≡ ok (v, s')
      → Synced (handle date_of percent EventType.customer_created (of_customer v) r) s'.tables
  unfolding handle Handlers.sync_customer_created
  create_customer-Synced body v e =
      let done = create_customer-ok merchant_id schema fresh s s' body v e in
      let returned = create_customer-returned merchant_id schema fresh s s' body v e in
      (
        _,
        refl,
        rw done.tables_after (record {
          customers_shown =
              shown-insert customer_view read_customer_view Customer.customer_id
                ReadCustomer.customer_id CustomerView.customer_id (λ x. refl) (λ y. refl)
                s.customers r.customers h.customers_shown (new_customer fresh body s.next_customer)
                (read_customer v) (Changes.set_customer v) (sym returned) done.fresh_uuid;
          payments_shown = h.payments_shown;
          refunds_shown = h.refunds_shown;
          customers_linked =
              map-agree (λ p. has Customer.id p.customer_ref s.customers ≡ true) _ _ s.payments
                (λ p there.
                  value-append Customer.id Customer.customer_id p.customer_ref s.customers
                    (new_customer fresh body s.next_customer ∷ []) there)
                sound.referenced.customers_ok
              ∙ h.customers_linked;
          payments_linked = h.payments_linked;
        }),
      )

  pub update_customer-Synced :
      (customer_id : ℕ) (body : CustomerUpdate) (v : CustomerView)
      → Customers.update_customer merchant_id schema fresh customer_id body s ≡ ok (some v, s')
      → Synced (handle date_of percent EventType.customer_updated (of_customer v) r) s'.tables
  unfolding handle Handlers.sync_customer_updated
  update_customer-Synced customer_id body v e =
      let after = update_customer-ok merchant_id schema fresh s s' customer_id body v e in
      let (row, found, returned) =
        update_customer-returned merchant_id schema fresh s s' customer_id body v e in
      let id : v.customer_id ≡ customer_id =
        ap CustomerView.customer_id returned
        ∙ find-key Customer.customer_id customer_id s.customers row found in
      (
        _,
        refl,
        rw after (record {
          customers_shown = rw id (
              shown-update_row customer_view read_customer_view Customer.customer_id
                ReadCustomer.customer_id CustomerView.customer_id (λ x. refl) (λ y. refl)
                s.customers r.customers h.customers_shown customer_id (set_customer body fresh.now)
                (Changes.set_customer v)
                (λ c. record c {
                  name = v.name;
                  email = v.email;
                  phone = v.phone;
                  updated_at = v.updated_at;
                })
                row sound.referenced.customer_uuids found (rw returned refl) (λ y. refl));
          payments_shown =
              h.payments_shown
              ∙ sym (
                  map-update_hidden read_payment_facts ReadPayment.customer_id v.customer_id
                    (rename_payment v) r.payments (λ y. refl));
          refunds_shown = h.refunds_shown ∙ sym (refunds_renamed v _ r.refunds);
          customers_linked =
              map-same _ _ s.payments (λ p.
                value-update Customer.id Customer.customer_id Customer.customer_id customer_id
                  (set_customer body fresh.now) p.customer_ref s.customers (λ c. refl) (λ c. refl))
              ∙ h.customers_linked
              ∙ sym (
                  map-update_hidden (λ (p : ReadPayment). some p.customer_id)
                    ReadPayment.customer_id v.customer_id (rename_payment v) r.payments
                    (λ y. refl));
          payments_linked = h.payments_linked ∙ sym (renamed-linked v _ r.refunds);
        }),
      )

  pub delete_customer-Synced :
      (customer_id : ℕ)
      → Customers.delete_customer merchant_id schema fresh customer_id s ≡ ok (true, s')
      → Synced
          (handle date_of percent EventType.customer_deleted (of_deleted customer_id) r)
          s'.tables
  unfolding handle Handlers.sync_customer_deleted
  delete_customer-Synced customer_id e =
      let done = delete_customer-ok merchant_id schema fresh s s' customer_id e in
      (
        _,
        refl,
        rw done.tables_after (record {
          customers_shown =
              shown-delete customer_view read_customer_view Customer.customer_id
                ReadCustomer.customer_id CustomerView.customer_id (λ x. refl) (λ y. refl)
                s.customers r.customers h.customers_shown customer_id;
          payments_shown = h.payments_shown;
          refunds_shown = h.refunds_shown;
          customers_linked =
              map-agree (λ p. (p.customer_ref == done.row.id) ≡ false) _ _ s.payments
                (λ p other.
                  value-delete Customer.id Customer.customer_id Customer.customer_id customer_id
                    p.customer_ref s.customers done.row sound.referenced.customer_uuids done.found
                    (ground (arith, other)))
                (All-unreferred Payment.customer_ref done.row.id s.payments done.unpaid)
              ∙ h.customers_linked;
          payments_linked = h.payments_linked;
        }),
      )
