-- ===== src/Core/Invariant/Sound.antt =====
-- Each service keeps both invariants of a tenant's tables, whatever it answers.
use multi_tenant_event_drive.Prelude.{
  ℕ, String, ◌≡◌, refl, sym, subst, Bool, true, false, List, Option, none, some, [], ◌∷◌, All,
  All-append,
}
use multi_tenant_event_drive.Prelude.Table.{has, Distinct, Distinct-insert}
use multi_tenant_event_drive.Prelude.Keyed.{Distinct-update_by, has-find_other}
use multi_tenant_event_drive.Core.Rows.{
  Text, Status, Payment, PaymentView, RefundView, CustomerView, Customer,
}
use multi_tenant_event_drive.Core.Scope.{Scope, ok}
use multi_tenant_event_drive.Core.Payments
use multi_tenant_event_drive.Core.Payments.{
  Fresh, PaymentCreate, set_status, set_details, new_payment,
}
use multi_tenant_event_drive.Core.Payments.Results.{
  transition_payment-none, update_payment-none, create_payment-ok, transition_payment-ok,
  update_payment-ok,
}
use multi_tenant_event_drive.Core.Refunds
use multi_tenant_event_drive.Core.Refunds.{reserve}
use multi_tenant_event_drive.Core.Refunds.Results.{
  process_refund-none, create_refund-ok, process_refund-ok,
}
use multi_tenant_event_drive.Core.Customers
use multi_tenant_event_drive.Core.Customers.{
  CustomerCreate, CustomerUpdate, new_customer, set_customer,
}
use multi_tenant_event_drive.Core.Customers.Results.{
  update_customer-none, delete_customer-none, create_customer-ok, update_customer-ok,
  delete_customer-ok,
}
use multi_tenant_event_drive.Core.Invariant.{IsConsistent}
use multi_tenant_event_drive.Core.Invariant.Paying.{
  create_payment-IsConsistent, transition_payment-IsConsistent, update_payment-IsConsistent,
}
use multi_tenant_event_drive.Core.Invariant.Refunding.{
  create_refund-IsConsistent, process_refund-IsConsistent,
}
use multi_tenant_event_drive.Core.Invariant.Referring.{
  IsReferenced, IsKeyed, IsKeyed-insert, IsKeyed-edit, IsKeyed-delete, refs-update, refs-insert,
  refs-edit, refs-delete, Distinct-delete,
}

pub record IsSound (s : Scope) : Type 0 where
  pub consistent : IsConsistent s.tables
  pub referenced : IsReferenced s.tables

module _ (merchant_id : ℕ) (schema : Text) (fresh : Fresh) (s s' : Scope) (h : IsSound s) where
  pub create_payment-IsSound :
      (body : PaymentCreate) (v : PaymentView)
      → Payments.create_payment merchant_id schema fresh body s ≡ ok (v, s')
      → IsSound s'
  create_payment-IsSound body v e =
      let done = create_payment-ok merchant_id schema fresh s s' body v e in
      record {
        consistent =
            create_payment-IsConsistent merchant_id schema fresh s s' h.consistent body v e;
        referenced = rw done.tables_after (record {
          customer_keys = h.referenced.customer_keys;
          customer_uuids = h.referenced.customer_uuids;
          customers_ok =
              All-append (λ p. has Customer.id p.customer_ref s.customers ≡ true) s.payments
                (new_payment fresh body done.customer s.next_payment ∷ []) h.referenced.customers_ok
                (
                  has-find_other Customer.customer_id Customer.id body.customer_id s.customers
                      done.customer done.found,
                  tt,
                );
        });
      }

  unchanged : s' ≡ s → IsSound s'
  unchanged same = subst IsSound (sym same) h

  pub transition_payment-IsSound :
      (payment_id : ℕ) (target : Status) (reason : Option String) (v : Option PaymentView)
      → Payments.transition_payment merchant_id schema fresh payment_id target reason s ≡ ok (v, s')
      → IsSound s'
  transition_payment-IsSound payment_id target reason none e =
      unchanged (transition_payment-none merchant_id schema fresh s s' payment_id target reason e)
  transition_payment-IsSound payment_id target reason (some v) e =
      let done = transition_payment-ok merchant_id schema fresh s s' payment_id target reason v e in
      record {
        consistent =
            transition_payment-IsConsistent merchant_id schema fresh s s' h.consistent payment_id
              target reason v e;
        referenced = rw done.tables_after (record {
          customer_keys = h.referenced.customer_keys;
          customer_uuids = h.referenced.customer_uuids;
          customers_ok =
              refs-update Payment.payment_id payment_id (set_status target fresh.now reason)
                s.customers s.payments (λ p. refl) h.referenced.customers_ok;
        });
      }

  pub update_payment-IsSound :
      (payment_id : ℕ) (description metadata : Option String) (v : Option PaymentView)
      → Payments.update_payment merchant_id schema fresh payment_id description metadata s
        ≡ ok (v, s')
      → IsSound s'
  update_payment-IsSound payment_id description metadata none e =
      unchanged
        (update_payment-none merchant_id schema fresh s s' payment_id description metadata e)
  update_payment-IsSound payment_id description metadata (some v) e =
      let done =
        update_payment-ok merchant_id schema fresh s s' payment_id description metadata v e in
      record {
        consistent =
            update_payment-IsConsistent merchant_id schema fresh s s' h.consistent payment_id
              description metadata v e;
        referenced = rw done.tables_after (record {
          customer_keys = h.referenced.customer_keys;
          customer_uuids = h.referenced.customer_uuids;
          customers_ok =
              refs-update Payment.payment_id payment_id (set_details description metadata fresh.now)
                s.customers s.payments (λ p. refl) h.referenced.customers_ok;
        });
      }

  pub create_refund-IsSound :
      (payment_id amount : ℕ) (reason : Option String) (v : RefundView)
      → Refunds.create_refund merchant_id schema fresh payment_id amount reason s ≡ ok (v, s')
      → IsSound s'
  create_refund-IsSound payment_id amount reason v e =
      let done = create_refund-ok merchant_id schema fresh s s' payment_id amount reason v e in
      record {
        consistent =
            create_refund-IsConsistent merchant_id schema fresh s s' h.consistent payment_id amount
              reason v e;
        referenced = rw done.tables_after (record {
          customer_keys = h.referenced.customer_keys;
          customer_uuids = h.referenced.customer_uuids;
          customers_ok =
              refs-update Payment.id done.row.id (reserve amount) s.customers s.payments (λ p. refl)
                h.referenced.customers_ok;
        });
      }

  pub process_refund-IsSound :
      (refund_id : ℕ) (v : Option RefundView)
      → Refunds.process_refund merchant_id schema fresh refund_id s ≡ ok (v, s')
      → IsSound s'
  process_refund-IsSound refund_id none e =
      unchanged (process_refund-none merchant_id schema fresh s s' refund_id e)
  process_refund-IsSound refund_id (some v) e =
      let done = process_refund-ok merchant_id schema fresh s s' refund_id v e in
      record {
        consistent =
            process_refund-IsConsistent merchant_id schema fresh s s' h.consistent refund_id v e;
        referenced = rw done.tables_after (record {
          customer_keys = h.referenced.customer_keys;
          customer_uuids = h.referenced.customer_uuids;
          customers_ok = h.referenced.customers_ok;
        });
      }

  -- New customers leave what the payments, the refunds and the ledger say as it is.
  only_customers :
      (cs : List Customer) (n : ℕ)
      → s'.tables ≡ record s.tables { customers = cs; next_customer = n }
      → IsKeyed n cs
      → Distinct Customer.customer_id cs
      → All (λ p. has Customer.id p.customer_ref cs ≡ true) s.payments
      → IsSound s'
  only_customers cs n e keys uuids refs =
      let old = h.consistent in
      record {
        consistent = rw e (record {
          ids = old.ids;
          uuids = old.uuids;
          payments_ok = old.payments_ok;
          refunds_ok = old.refunds_ok;
          ledger_ok = old.ledger_ok;
        });
        referenced =
            rw e (record { customer_keys = keys; customer_uuids = uuids; customers_ok = refs });
      }

  pub create_customer-IsSound :
      (body : CustomerCreate) (v : CustomerView)
      → Customers.create_customer merchant_id schema fresh body s ≡ ok (v, s')
      → IsSound s'
  create_customer-IsSound body v e =
      let done = create_customer-ok merchant_id schema fresh s s' body v e in
      let new = new_customer fresh body s.next_customer in
      only_customers _ _ done.tables_after
        (IsKeyed-insert s.next_customer new s.customers refl h.referenced.customer_keys)
        (Distinct-insert Customer.customer_id new s.customers h.referenced.customer_uuids
          done.fresh_uuid)
        (refs-insert new s.customers s.payments h.referenced.customers_ok)

  pub update_customer-IsSound :
      (customer_id : ℕ) (body : CustomerUpdate) (v : Option CustomerView)
      → Customers.update_customer merchant_id schema fresh customer_id body s ≡ ok (v, s')
      → IsSound s'
  update_customer-IsSound customer_id body none e =
      unchanged (update_customer-none merchant_id schema fresh s s' customer_id body e)
  update_customer-IsSound customer_id body (some v) e =
      let change = set_customer body fresh.now in
      only_customers _ _ (update_customer-ok merchant_id schema fresh s s' customer_id body v e)
        (IsKeyed-edit s.next_customer customer_id change s.customers (λ c. refl)
          h.referenced.customer_keys)
        (Distinct-update_by Customer.customer_id Customer.customer_id change (λ c. refl) customer_id
          s.customers h.referenced.customer_uuids)
        (refs-edit customer_id change s.customers s.payments (λ c. refl) h.referenced.customers_ok)

  pub delete_customer-IsSound :
      (customer_id : ℕ) (b : Bool)
      → Customers.delete_customer merchant_id schema fresh customer_id s ≡ ok (b, s')
      → IsSound s'
  delete_customer-IsSound customer_id false e =
      unchanged (delete_customer-none merchant_id schema fresh s s' customer_id e)
  delete_customer-IsSound customer_id true e =
      let done = delete_customer-ok merchant_id schema fresh s s' customer_id e in
      only_customers _ _ done.tables_after
        (IsKeyed-delete s.next_customer customer_id s.customers h.referenced.customer_keys)
        (Distinct-delete Customer.customer_id customer_id s.customers h.referenced.customer_uuids)
        (refs-delete customer_id s.customers done.row s.payments h.referenced.customer_uuids
          done.found done.unpaid h.referenced.customers_ok)
