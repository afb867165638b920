-- ===== src/Core/Customers/Results.antt =====
-- What a successful call of each service of src/services/customer_service.py has done.
use multi_tenant_event_drive.Prelude.{
  ℕ, ◌+◌, ◌≡◌, inl, inr, ◌++◌, ◌∷◌, [], true, false, none, some, arith, Option-cases,
}
use multi_tenant_event_drive.Prelude.Table.{find, has, update, delete}
use multi_tenant_event_drive.Core.Rows.{Text, Customer, CustomerView, Payment}
use multi_tenant_event_drive.Core.Scope.{Scope, ok}
use multi_tenant_event_drive.Core.Payments.{Fresh}
use multi_tenant_event_drive.Core.Customers.{
  CustomerCreate, CustomerUpdate, customer_view, new_customer, set_customer, create_customer,
  update_customer, delete_customer,
}

module _ (merchant_id : ℕ) (schema : Text) (fresh : Fresh) (s s' : Scope) where
  pub record Added (body : CustomerCreate) : Type 0 where
    pub fresh_uuid : has Customer.customer_id fresh.uuid s.customers ≡ false
    pub tables_after : s'.tables ≡ record s.tables {
      customers = s.customers ++ new_customer fresh body s.next_customer ∷ [];
      next_customer = s.next_customer + 1;
    }

  pub create_customer-ok :
      (body : CustomerCreate) (v : CustomerView)
      → create_customer merchant_id schema fresh body s ≡ ok (v, s')
      → Added body
  unfolding create_customer
  create_customer-ok body v h = record { fresh_uuid = ground arith; tables_after = ground arith }

  pub update_customer-ok :
      (customer_id : ℕ) (body : CustomerUpdate) (v : CustomerView)
      → update_customer merchant_id schema fresh customer_id body s ≡ ok (some v, s')
      → s'.tables ≡ record s.tables {
        customers =
            update Customer.customer_id customer_id (set_customer body fresh.now) s.customers;
      }
  unfolding update_customer
  update_customer-ok customer_id body v h = ground arith

  pub record Deleted (customer_id : ℕ) : Type 0 where
    pub row : Customer
    pub found : find Customer.customer_id customer_id s.customers ≡ some row
    pub unpaid : has Payment.customer_ref row.id s.payments ≡ false
    pub tables_after :
        s'.tables
        ≡ record s.tables { customers = delete Customer.customer_id customer_id s.customers }

  pub delete_customer-ok :
      (customer_id : ℕ)
      → delete_customer merchant_id schema fresh customer_id s ≡ ok (true, s')
      → Deleted customer_id
  unfolding delete_customer
  delete_customer-ok customer_id h =
      elim (Option-cases (find Customer.customer_id customer_id s.customers)) [
        | inl missing ↦ ground arith
        | inr (c, e) ↦ record {
          row = c;
          found = e;
          unpaid = ground arith;
          tables_after = ground arith;
        }
      ]

  pub update_customer-none :
      (customer_id : ℕ) (body : CustomerUpdate)
      → update_customer merchant_id schema fresh customer_id body s ≡ ok (none, s')
      → s' ≡ s
  unfolding update_customer
  update_customer-none customer_id body h = ground arith

  pub delete_customer-none :
      (customer_id : ℕ)
      → delete_customer merchant_id schema fresh customer_id s ≡ ok (false, s')
      → s' ≡ s
  unfolding delete_customer
  delete_customer-none customer_id h = ground arith

  -- What the calls return, and the row that they found.
  pub create_customer-returned :
      (body : CustomerCreate) (v : CustomerView)
      → create_customer merchant_id schema fresh body s ≡ ok (v, s')
      → v ≡ customer_view (new_customer fresh body s.next_customer)
  unfolding create_customer
  create_customer-returned body v h = ground arith

  pub update_customer-returned :
      (customer_id : ℕ) (body : CustomerUpdate) (v : CustomerView)
      → update_customer merchant_id schema fresh customer_id body s ≡ ok (some v, s')
      → (row : Customer) × (find Customer.customer_id customer_id s.customers ≡ some row)
        × (v ≡ customer_view (set_customer body fresh.now row))
  unfolding update_customer
  update_customer-returned customer_id body v h =
      elim (Option-cases (find Customer.customer_id customer_id s.customers)) [
        | inl missing ↦ ground arith
        | inr (c, e) ↦ (c, e, ground arith)
      ]
