-- ===== src/Core/Listing.antt =====
-- The listings of payment-core-service: `list_payments`, `list_refunds`, `list_customers` and
-- `list_merchants`, with the pagination of their routers. ORDER BY is the database's: the functions
-- take the rows in the order that it gives.
pub mod Pages
pub mod Reading
use multi_tenant_event_drive.Prelude.{
  ℕ, zero, suc, ◌+◌, ◌-◌, ◌*◌, ◌/◌, ◌≤◌, ◌<◌, ◌≡◌, refl, ap, sym, ◌∙◌, Bool, true, false, ◌||◌,
  Option, none, some, List, [], ◌∷◌, ◌++◌, length, take, drop, length-take, length-drop, All, arith,
  ltb, ◌==◌, inl, inr, Option-cases, if◌then◌else◌,
}
use multi_tenant_event_drive.Prelude.Int.{ℤ, pos, negsuc, pos_part, ltb_ℤ, ◌-ℤ◌, ◌*ℤ◌}
use multi_tenant_event_drive.Prelude.Table.{find, has}
use multi_tenant_event_drive.Prelude.Keyed.{has-none}
use multi_tenant_event_drive.Core.Rows.{
  Merchant, CustomerView, Tenant, Customer, Payment, PaymentView, Refund, RefundView,
}
use multi_tenant_event_drive.Core.Payments.{customer_uuid, view}
use multi_tenant_event_drive.Core.Customers.{customer_view}
use multi_tenant_event_drive.Core.Refunds.{refund_view}
use multi_tenant_event_drive.Core.Invariant.Referring.{IsReferenced}

-- What goes wrong in a listing: PostgreSQL refuses a negative LIMIT or OFFSET, and Python a division
-- by zero. Each is a 500.
pub data ListError : Type 0 where
  negative_limit negative_offset zero_division : ListError

pub record Page (A : Type 0) : Type 0 where
  pub rows : List A
  pub total : ℕ
  pub total_pages : ℕ

pub data Listing (A : Type 0) : Type 0 where
  page : Page A → Listing A
  refused : ListError → Listing A

-- offset = (page - 1) * limit
abbrev pub offset_of : ℤ → ℤ → ℤ
offset_of number limit = (number -ℤ pos 1) *ℤ limit

-- LIMIT and OFFSET of the statement, then `(total + limit - 1) // limit` in the router.
unfoldable pub list_rows : {A : Type 0} → ℕ → List A → ℤ → ℤ → Listing A
unfolding ◌-ℤ◌ ◌*ℤ◌
list_rows total rows number (negsuc l) = refused negative_limit
list_rows total rows number (pos l) =
    if ltb_ℤ (offset_of number (pos l)) (pos 0)
    then refused negative_offset
    else if l == 0
    then refused zero_division
    else page (record {
      rows = take l (drop (pos_part (offset_of number (pos l))) rows);
      total = total;
      total_pages = (total + l - 1) / l;
    })

-- FROM payments p JOIN customers c ON c.id = p.customer_ref
unfoldable pub joined_payments : Tenant → List Payment → List PaymentView
joined_payments t [] = []
joined_payments t (p ∷ ps) =
    let rest = joined_payments t ps in
    elim (customer_uuid p.customer_ref t) [ none ↦ rest | some c ↦ view p (some c) ∷ rest ]

unfoldable pub joined_refunds : Tenant → List Refund → List RefundView
joined_refunds t [] = []
joined_refunds t (r ∷ rs) =
    let rest = joined_refunds t rs in
    elim (find Payment.id r.payment_ref t.payments) [
      | none ↦ rest
      | some p ↦ refund_view r (some p.payment_id) ∷ rest
    ]

-- list_payments: the count is over `payments`, the rows are those of the join.
unfoldable pub list_payments : Tenant → List Payment → ℤ → ℤ → Listing PaymentView
unfolding list_rows joined_payments
list_payments t ordered number limit =
    list_rows (length t.payments) (joined_payments t ordered) number limit

unfoldable pub list_refunds : Tenant → List Refund → ℤ → ℤ → Listing RefundView
unfolding list_rows joined_refunds
list_refunds t ordered number limit =
    list_rows (length t.refunds) (joined_refunds t ordered) number limit

unfoldable pub list_customers : Tenant → List Customer → ℤ → ℤ → Listing Customer
unfolding list_rows
list_customers t ordered number limit = list_rows (length t.customers) ordered number limit

-- list_merchants, over the public table.
unfoldable pub list_merchants : List Merchant → ℤ → ℤ → Listing Merchant
unfolding list_rows
list_merchants ordered number limit = list_rows (length ordered) ordered number limit

-- get_payment: the row of the JOIN with this UUID.
unfoldable pub get_payment : ℕ → Tenant → Option PaymentView
get_payment payment_id t = elim (find Payment.payment_id payment_id t.payments) [
  | none ↦ none
  | some p ↦ elim (customer_uuid p.customer_ref t) [ none ↦ none | some c ↦ some (view p (some c)) ]
]

unfoldable pub get_customer : ℕ → Tenant → Option CustomerView
get_customer customer_id t = elim (find Customer.customer_id customer_id t.customers) [
  | none ↦ none
  | some c ↦ some (customer_view c)
]
