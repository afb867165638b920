-- ===== src/Core/Payments/Results.antt =====
-- What a successful call of each service of src/services/payment_service.py has done.
use multi_tenant_event_drive.Prelude.{
  ℕ, ◌≡◌, ◌<◌, inl, inr, ◌+◌, ◌++◌, ◌∷◌, [], String, true, false, Option, none, some, List, arith,
  Option-cases,
}
use multi_tenant_event_drive.Prelude.Int.{pos, ◌+ℤ◌}
use multi_tenant_event_drive.Prelude.Table.{find, has, update}
use multi_tenant_event_drive.Core.Rows.{
  Text, Customer, Payment, PaymentView, Status, captured, LedgerEntry, payment_created,
  payment_captured,
}
use multi_tenant_event_drive.Core.Scope.{Scope, ok}
use multi_tenant_event_drive.Core.Ledger.{ledger_sum, decimal_limit}
use multi_tenant_event_drive.Core.Payments.{
  Fresh, PaymentCreate, valid_transitions, contains, view, new_payment, customer_uuid, set_status,
  set_details, entry_of, create_payment, transition_payment, update_payment,
}

-- The ledger after a transition: one more entry when the target is `captured`.
abbrev pub ledger_after : Fresh → Status → Payment → List LedgerEntry → List LedgerEntry
ledger_after fresh captured p es =
    es ++ entry_of payment_captured p.id none p.amount (ledger_sum es) fresh ∷ []
ledger_after fresh _ p es = es

module _ (merchant_id : ℕ) (schema : Text) (fresh : Fresh) (s s' : Scope) where
  pub record Transitioned (payment_id : ℕ) (target : Status) (reason : Option String)
      (v : PaymentView) : Type 0 where
    pub row : Payment
    pub found : find Payment.payment_id payment_id s.payments ≡ some row
    pub allowed : contains target (valid_transitions row.status) ≡ true
    pub returned :
        v ≡ view (set_status target fresh.now reason row) (customer_uuid row.customer_ref s.tables)
    pub tables_after : s'.tables ≡ record s.tables {
      payments =
          update Payment.payment_id payment_id (set_status target fresh.now reason) s.payments;
      ledger_entries = ledger_after fresh target row s.ledger_entries;
    }

  pub transition_payment-ok :
      (payment_id : ℕ) (target : Status) (reason : Option String) (v : PaymentView)
      → transition_payment merchant_id schema fresh payment_id target reason s ≡ ok (some v, s')
      → Transitioned payment_id target reason v
  unfolding transition_payment
  transition_payment-ok payment_id target reason v h =
      elim (Option-cases (find Payment.payment_id payment_id s.payments)) [
        | inl missing ↦ ground arith
        | inr (p, e) ↦ record {
          row = p;
          found = e;
          allowed = ground arith;
          returned = ground arith;
          tables_after = ground arith;
        }
      ]

  pub record Created (body : PaymentCreate) (v : PaymentView) : Type 0 where
    pub customer : Customer
    pub found : find Customer.customer_id body.customer_id s.customers ≡ some customer
    pub amount_fits : body.amount < decimal_limit
    pub returned :
        v ≡ view (new_payment fresh body customer s.next_payment) (some customer.customer_id)
    pub fresh_uuid : has Payment.payment_id fresh.uuid s.payments ≡ false
    pub tables_after : s'.tables ≡ record s.tables {
      payments = s.payments ++ new_payment fresh body customer s.next_payment ∷ [];
      next_payment = s.next_payment + 1;
      ledger_entries =
          s.ledger_entries
          ++ entry_of payment_created s.next_payment none body.amount
              (ledger_sum s.ledger_entries +ℤ pos body.amount)
              fresh
            ∷ [];
    }

  pub create_payment-ok :
      (body : PaymentCreate) (v : PaymentView)
      → create_payment merchant_id schema fresh body s ≡ ok (v, s')
      → Created body v
  unfolding create_payment
  create_payment-ok body v h =
      elim (Option-cases (find Customer.customer_id body.customer_id s.customers)) [
        | inl missing ↦ ground arith
        | inr (c, e) ↦ record {
          customer = c;
          found = e;
          amount_fits = ground arith;
          returned = ground arith;
          fresh_uuid = ground arith;
          tables_after = ground arith;
        }
      ]

  pub record Updated (payment_id : ℕ) (description metadata : Option String) : Type 0 where
    pub row : Payment
    pub found : find Payment.payment_id payment_id s.payments ≡ some row
    pub tables_after : s'.tables ≡ record s.tables {
      payments =
          update Payment.payment_id payment_id
            (set_details description metadata fresh.now)
            s.payments;
    }

  pub update_payment-ok :
      (payment_id : ℕ) (description metadata : Option String) (v : PaymentView)
      → update_payment merchant_id schema fresh payment_id description metadata s ≡ ok (some v, s')
      → Updated payment_id description metadata
  unfolding update_payment
  update_payment-ok payment_id description metadata v h =
      elim (Option-cases (find Payment.payment_id payment_id s.payments)) [
        | inl missing ↦ ground arith
        | inr (p, e) ↦ record { row = p; found = e; tables_after = ground arith }
      ]

  -- A payment that is not there: `None`, and nothing is written.
  pub transition_payment-none :
      (payment_id : ℕ) (target : Status) (reason : Option String)
      → transition_payment merchant_id schema fresh payment_id target reason s ≡ ok (none, s')
      → s' ≡ s
  unfolding transition_payment
  transition_payment-none payment_id target reason h = ground arith

  pub update_payment-none :
      (payment_id : ℕ) (description metadata : Option String)
      → update_payment merchant_id schema fresh payment_id description metadata s ≡ ok (none, s')
      → s' ≡ s
  unfolding update_payment
  update_payment-none payment_id description metadata h = ground arith

  -- What the call returns.
  pub update_payment-returned :
      (payment_id : ℕ) (description metadata : Option String) (v : PaymentView)
      → update_payment merchant_id schema fresh payment_id description metadata s ≡ ok (some v, s')
      → (row : Payment) × (find Payment.payment_id payment_id s.payments ≡ some row)
        × (v
            ≡ view
                (set_details description metadata fresh.now row)
                (customer_uuid row.customer_ref s.tables))
  unfolding update_payment
  update_payment-returned payment_id description metadata v h =
      elim (Option-cases (find Payment.payment_id payment_id s.payments)) [
        | inl missing ↦ ground arith
        | inr (p, e) ↦ (p, e, ground arith)
      ]
