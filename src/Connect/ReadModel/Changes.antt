-- ===== src/Connect/ReadModel/Changes.antt =====
-- The rows that the handlers of src/services/sync_service.py of services/connect-service insert, and what
-- they set in the rows that are there.
use multi_tenant_event_drive.Prelude.{
  ℕ, String, ◌+◌, Bool, true, false, Option, none, some, List, [], ◌∷◌, ◌==◌, if◌then◌else◌, ◌&&◌,
}
use multi_tenant_event_drive.Prelude.Int.{pos, ◌+ℤ◌, ◌-ℤ◌}
use multi_tenant_event_drive.Prelude.Table.{update}
use multi_tenant_event_drive.Core.Rows.{Status, failed, CustomerView, PaymentView, RefundView}
use multi_tenant_event_drive.Connect.ReadModel.{
  json_string, ReadCustomer, ReadPayment, ReadRefund, DailyRevenue, MethodStats, method_key,
}

abbrev pub read_customer : CustomerView → ReadCustomer
read_customer v = record {
  customer_id = v.customer_id;
  name = v.name;
  email = v.email;
  phone = v.phone;
  total_payments = 0;
  total_spent = pos 0;
  last_payment_at = none;
  created_at = v.created_at;
  updated_at = v.updated_at;
}

abbrev pub set_customer : CustomerView → ReadCustomer → ReadCustomer
set_customer v c = record c {
  name = v.name;
  email = v.email;
  phone = v.phone;
  updated_at = v.updated_at;
}

-- payment_id IN (SELECT payment_id FROM payments WHERE customer_id = $2)
abbrev pub paid_by : ℕ → List ReadPayment → ℕ → Bool
paid_by customer_id [] payment_id = false
paid_by customer_id (p ∷ ps) payment_id =
    if (p.customer_id == customer_id) && (p.payment_id == payment_id)
    then true
    else paid_by customer_id ps payment_id

abbrev pub rename_refunds : CustomerView → List ReadPayment → List ReadRefund → List ReadRefund
rename_refunds v payments [] = []
rename_refunds v payments (r ∷ rs) =
    (if paid_by v.customer_id payments r.payment_id
      then record r { customer_name = some v.name }
      else r)
    ∷ rename_refunds v payments rs

abbrev pub rename_payment : CustomerView → ReadPayment → ReadPayment
rename_payment v p = record p { customer_name = some v.name; customer_email = v.email }

abbrev pub name_of : Option ReadCustomer → Option String
name_of none = none
name_of (some c) = some c.name

abbrev pub email_of : Option ReadCustomer → Option String
email_of none = none
email_of (some c) = c.email

abbrev pub read_payment : PaymentView → ℕ → Option ReadCustomer → ReadPayment
read_payment v customer_id customer = record {
  payment_id = v.payment_id;
  customer_id = customer_id;
  customer_name = name_of customer;
  customer_email = email_of customer;
  amount = v.amount;
  currency = v.currency;
  status = v.status;
  method = v.method;
  description = v.description;
  failure_reason = v.failure_reason;
  metadata = json_string v.metadata;
  amount_refunded = 0;
  created_at = v.created_at;
  updated_at = v.updated_at;
}

abbrev pub repeat_payment : PaymentView → ReadPayment → ReadPayment
repeat_payment v p = record p {
  status = v.status;
  failure_reason = v.failure_reason;
  updated_at = v.updated_at;
}

abbrev pub new_day : PaymentView → ℕ → DailyRevenue
new_day v date = record {
  date = date;
  total_amount = v.amount;
  payment_count = 1;
  success_count = 0;
  failed_count = 0;
  refund_amount = 0;
  net_revenue = pos v.amount;
  created_at = v.created_at;
  updated_at = v.updated_at;
}

abbrev pub add_to_day : PaymentView → DailyRevenue → DailyRevenue
add_to_day v d = record d {
  total_amount = d.total_amount + v.amount;
  payment_count = d.payment_count + 1;
  net_revenue = d.net_revenue +ℤ pos v.amount;
  updated_at = v.updated_at;
}

abbrev pub new_stats : PaymentView → MethodStats
new_stats v = record {
  method = v.method;
  total_amount = v.amount;
  count = 1;
  success_count = 0;
  success_rate = some 0;
  created_at = v.created_at;
  updated_at = v.updated_at;
}

abbrev pub add_to_stats : PaymentView → MethodStats → MethodStats
add_to_stats v m = record m {
  total_amount = m.total_amount + v.amount;
  count = m.count + 1;
  updated_at = v.updated_at;
}

abbrev pub stats_key : MethodStats → ℕ
stats_key m = method_key m.method

abbrev pub count_payment : ReadCustomer → ReadCustomer
count_payment c = record c { total_payments = c.total_payments + 1 }

abbrev pub set_read_status : Status → PaymentView → ReadPayment → ReadPayment
set_read_status status v p = record p { status = status; updated_at = v.updated_at }

abbrev pub fail_payment : PaymentView → ReadPayment → ReadPayment
fail_payment v p = record p {
  status = failed;
  failure_reason = v.failure_reason;
  updated_at = v.updated_at;
}

abbrev pub describe : PaymentView → ReadPayment → ReadPayment
describe v p = record p {
  description = v.description;
  metadata = json_string v.metadata;
  updated_at = v.updated_at;
}

abbrev pub spend : PaymentView → ReadCustomer → ReadCustomer
spend v c = record c {
  total_spent = c.total_spent +ℤ pos v.amount;
  last_payment_at = some v.updated_at;
}

abbrev pub read_refund : RefundView → ℕ → Option ReadPayment → ReadRefund
read_refund v payment_id payment = record {
  refund_id = v.refund_id;
  payment_id = payment_id;
  payment_amount = elim payment [ none ↦ none | some p ↦ some p.amount ];
  customer_name = elim payment [ none ↦ none | some p ↦ p.customer_name ];
  amount = v.amount;
  reason = v.reason;
  status = v.status;
  created_at = v.created_at;
  updated_at = v.updated_at;
}

abbrev pub refund_day : RefundView → DailyRevenue → DailyRevenue
refund_day v d = record d {
  refund_amount = d.refund_amount + v.amount;
  net_revenue = d.net_revenue -ℤ pos v.amount;
  updated_at = v.updated_at;
}

abbrev pub unspend : RefundView → ReadCustomer → ReadCustomer
unspend v c = record c { total_spent = c.total_spent -ℤ pos v.amount }

-- `if payload.get("customer_id")`
abbrev pub unspend_for : RefundView → Option ℕ → List ReadCustomer → List ReadCustomer
unspend_for v none customers = customers
unspend_for v (some customer_id) customers =
    update ReadCustomer.customer_id customer_id (unspend v) customers
