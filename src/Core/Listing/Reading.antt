-- ===== src/Core/Listing/Reading.antt =====
-- The reads of one row: get_payment of src/routers/payments.py and get_customer of
-- src/routers/customers.py, on the schema of the merchant.
use multi_tenant_event_drive.Prelude.{ℕ, ◌≡◌, refl, sym, inl, inr, Option, none, some, Option-cases}
use multi_tenant_event_drive.Core.Rows.{Text, Tenant, Customer, Payment, PaymentView, CustomerView}
use multi_tenant_event_drive.Prelude.Table.{find, find-key}
use multi_tenant_event_drive.Core.Payments.{view}
use multi_tenant_event_drive.Core.Scope.{Result, ok, err}
use multi_tenant_event_drive.Core.Merchants.{App, tables_of, get_merchant_schema}
use multi_tenant_event_drive.Core.Merchants.Registry.{
  IsRegistry, schema_of, get_merchant_schema_sound,
}
use multi_tenant_event_drive.Core.Listing.{get_payment, get_customer}

-- The answer to a GET: an exception is a 500, a row that is missing a 404.
pub data Answer (A : Type 0) : Type 0 where
  failure : Answer A
  missing : Answer A
  body : A → Answer A

abbrev pub answer_row : {A : Type 0} → Option A → Answer A
answer_row none = missing
answer_row (some a) = body a

abbrev pub on_tables : {A : Type 0} → (Tenant → Option A) → Option Tenant → Answer A
on_tables query none = failure
on_tables query (some t) = answer_row (query t)

-- A query on the tables of the schema that the merchant's id resolves to.
unfoldable pub read : {A : Type 0} → (now merchant_id : ℕ) → (Tenant → Option A) → App → Answer A
unfolding get_merchant_schema
read now merchant_id query app = elim (get_merchant_schema now merchant_id app).0 [
  | err e ↦ failure
  | ok schema ↦ on_tables query (tables_of schema app.schemas)
]

unfoldable pub read_payment : (now merchant_id payment_id : ℕ) → App → Answer PaymentView
unfolding read get_payment
read_payment now merchant_id payment_id app = read now merchant_id (get_payment payment_id) app

unfoldable pub read_customer : (now merchant_id customer_id : ℕ) → App → Answer CustomerView
unfolding read get_customer
read_customer now merchant_id customer_id app = read now merchant_id (get_customer customer_id) app

-- What a query finds in the merchant's own tables.
abbrev pub Owns : {A : Type 0} → ℕ → (Tenant → Option A) → A → App → Type 0
Owns merchant_id query a app =
    (own : Text) × (t : Tenant) × (schema_of merchant_id app.merchants ≡ some own)
    × (tables_of own app.schemas ≡ some t)
    × (query t ≡ some a)

read-Owns :
    {A : Type 0} (now merchant_id : ℕ) (query : Tenant → Option A) (a : A) (app : App)
    → IsRegistry app
    → read now merchant_id query app ≡ body a
    → Owns merchant_id query a app
unfolding read
read-Owns now merchant_id query a app h e = go (get_merchant_schema now merchant_id app).0 refl e
  where
    found :
        (own : Text) (t : Option Tenant)
        → (get_merchant_schema now merchant_id app).0 ≡ ok own
        → tables_of own app.schemas ≡ t
        → on_tables query t ≡ body a
        → Owns merchant_id query a app
    found own none there same k = cc k
    found own (some t) there same k = (
      own,
      t,
      get_merchant_schema_sound now merchant_id app own h there,
      same,
      row (query t) refl k,
    )
      where
        row : (r : Option _) → query t ≡ r → answer_row r ≡ body a → query t ≡ some a
        row none q k' = cc k'
        row (some x) q k' = cc (q, k')

    go :
        (r : Result Text)
        → (get_merchant_schema now merchant_id app).0 ≡ r
        → (elim r [ err x ↦ failure | ok schema ↦ on_tables query (tables_of schema app.schemas) ])
          ≡ body a
        → Owns merchant_id query a app
    go (err x) there k = cc k
    go (ok own) there k = found own (tables_of own app.schemas) there refl k

-- The view has the columns of the payment's row, and the UUID of the customer that the row refers to.
pub record Shows (t : Tenant) (payment_id : ℕ) (v : PaymentView) : Type 0 where
  pub row : Payment
  pub customer : Customer
  pub found : find Payment.payment_id payment_id t.payments ≡ some row
  pub referred : find Customer.id row.customer_ref t.customers ≡ some customer
  pub columns : v ≡ record {
    payment_id = payment_id;
    customer_id = some customer.customer_id;
    amount = row.amount;
    currency = row.currency;
    status = row.status;
    method = row.method;
    description = row.description;
    metadata = row.metadata;
    failure_reason = row.failure_reason;
    amount_refunded = row.amount_refunded;
    created_at = row.created_at;
    updated_at = row.updated_at;
  }

get_payment-Shows :
    (payment_id : ℕ) (t : Tenant) (v : PaymentView)
    → get_payment payment_id t ≡ some v
    → Shows t payment_id v
unfolding get_payment
get_payment-Shows payment_id t v e =
    elim (Option-cases (find Payment.payment_id payment_id t.payments)) [
      | inl no_row ↦ absurd (cc (rw (no_row, get_payment) at e))
      | inr (p, found) ↦ elim (Option-cases (find Customer.id p.customer_ref t.customers)) [
        | inl nobody ↦ absurd (cc (rw (found, nobody, get_payment) at e))
        | inr (c, referred) ↦
            let same : some (view p (some c.customer_id)) ≡ some v =
              rw (found, referred, get_payment) at e in
            let id = find-key Payment.payment_id payment_id t.payments p found in
            record {
              row = p;
              customer = c;
              found = found;
              referred = referred;
              columns = rw (sym id) (sym (cc same));
            }
      ]
    ]

-- Over a sound registry, the payment that a merchant is shown has the columns of the row with that
-- UUID in the tables of the merchant's own schema, and the UUID of the customer that it refers to there.
pub read_payment-Shows :
    (now merchant_id payment_id : ℕ) (v : PaymentView) (app : App)
    → IsRegistry app
    → read_payment now merchant_id payment_id app ≡ body v
    → (own : Text) × (t : Tenant) × (schema_of merchant_id app.merchants ≡ some own)
      × (tables_of own app.schemas ≡ some t)
      × Shows t payment_id v
unfolding read_payment
read_payment-Shows now merchant_id payment_id v app h e =
    let (own, t, resolved, tables, there) =
      read-Owns now merchant_id (get_payment payment_id) v app h e in
    (own, t, resolved, tables, get_payment-Shows payment_id t v there)

-- Over a sound registry, the customer that a merchant is shown is one of its own tables.
read_customer-Owns :
    (now merchant_id customer_id : ℕ) (v : CustomerView) (app : App)
    → IsRegistry app
    → read_customer now merchant_id customer_id app ≡ body v
    → Owns merchant_id (get_customer customer_id) v app
unfolding read_customer
read_customer-Owns now merchant_id customer_id v app h e =
    read-Owns now merchant_id (get_customer customer_id) v app h e
