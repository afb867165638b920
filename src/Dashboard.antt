-- ===== src/Dashboard.antt =====
-- services/merchant-dashboard-service: the reads of the read database, with its schema lookup
-- (src/database.py) and the routers of src/routers. ORDER BY is the database's: the functions take the
-- rows in the order that it gives. No request carries a credential.
pub mod Agreement
mod Tests
use multi_tenant_event_drive.Prelude.{
  ℕ, String, ◌+◌, ◌-◌, ◌/◌, Bool, true, false, ◌&&◌, ◌||◌, Option, none, some, List, [], ◌∷◌,
  length, take, drop, leb, ◌==◌, str_eq, if◌then◌else◌, or_else,
}
use multi_tenant_event_drive.Prelude.Int.{ℤ, pos, negsuc, ltb_ℤ, pos_part, ◌-ℤ◌}
use multi_tenant_event_drive.Prelude.Table.{find, sum_of}
use multi_tenant_event_drive.Prelude.Keyset.{select}
use multi_tenant_event_drive.Core.Rows.{
  Text, Status, created, authorized, captured, failed, settled, RefundStatus, initiated, processed,
}
use multi_tenant_event_drive.Core.Merchants.{tables_of}
use multi_tenant_event_drive.Core.SchemaName.{valid_schema_name}
use multi_tenant_event_drive.Core.Listing.{
  Listing, page, refused, negative_limit, negative_offset, zero_division, offset_of, list_rows,
}
use multi_tenant_event_drive.Connect.ReadModel.{
  ReadCustomer, ReadPayment, ReadRefund, DailyRevenue, MethodStats, ReadTables, ReadMerchant,
  ReadDb,
}
use multi_tenant_event_drive.Connect.Bulk.{if_given}
use multi_tenant_event_drive.Connect.Bulk.Queries.{
  given, status_text, method_text, refund_status_text,
}

-- `none` is the ValueError, of a merchant that is not there or of a name that is no schema's.
unfoldable pub get_merchant_schema : (merchant_uuid : ℕ) → ReadDb → Option Text
get_merchant_schema merchant_uuid db =
    elim (find ReadMerchant.merchant_uuid merchant_uuid db.merchants) [
      | none ↦ none
      | some m ↦ if valid_schema_name m.schema_name then some m.schema_name else none
    ]

-- The tables that a request reads; `none` is a 500.
unfoldable pub tables_for : (merchant_uuid : ℕ) → ReadDb → Option ReadTables
unfolding get_merchant_schema
tables_for merchant_uuid db = elim (get_merchant_schema merchant_uuid db) [
  | none ↦ none
  | some schema ↦ tables_of schema db.schemas
]

-- The query parameters of the payments; an amount is in hundredths, and 0 is no condition.
pub record PaymentQuery : Type 0 where
  pub status : Option String
  pub method : Option String
  pub customer_id : Option ℕ
  pub min_amount : Option ℕ
  pub max_amount : Option ℕ

abbrev pub nonzero : Option ℕ → Option ℕ
nonzero none = none
nonzero (some n) = if n == 0 then none else some n

abbrev pub matches : PaymentQuery → ReadPayment → Bool
matches q p =
    if_given (given q.status) (str_eq (status_text p.status))
    && (if_given (given q.method) (str_eq (method_text p.method))
        && (if_given q.customer_id (λ id. p.customer_id == id)
            && (if_given (nonzero q.min_amount) (λ n. leb n p.amount)
                && if_given (nonzero q.max_amount) (λ n. leb p.amount n))))

abbrev pub empty_page : {A : Type 0} → (number limit : ℤ) → Listing A
empty_page number (negsuc l) = refused negative_limit
empty_page number (pos l) =
    if ltb_ℤ (offset_of number (pos l)) (pos 0)
    then refused negative_offset
    else page (record { rows = []; total = 0; total_pages = 0 })

-- The page of the payments, without the conditions `from` and `to`. There are no pages where there are
-- no rows.
unfoldable pub list_payments :
    (ordered : List ReadPayment) → PaymentQuery → (number limit : ℤ) → Listing ReadPayment
unfolding list_rows
list_payments ordered q number limit =
    let rows = select (matches q) ordered in
    if length rows == 0 then empty_page number limit else list_rows (length rows) rows number limit

-- `none` is answered as {"error": "Not found"}.
unfoldable pub get_payment : (payment_id : ℕ) → ReadTables → Option ReadPayment
get_payment payment_id t = find ReadPayment.payment_id payment_id t.payments

unfoldable pub list_customers :
    (ordered : List ReadCustomer) → (number limit : ℤ) → Listing ReadCustomer
unfolding list_rows
list_customers ordered number limit = list_rows (length ordered) ordered number limit

unfoldable pub get_customer : (customer_id : ℕ) → ReadTables → Option ReadCustomer
get_customer customer_id t = find ReadCustomer.customer_id customer_id t.customers

unfoldable pub list_refunds :
    (ordered : List ReadRefund) → (status : Option String) → (number limit : ℤ) → Listing ReadRefund
unfolding list_rows
list_refunds ordered status number limit =
    let rows =
      select (λ (r : ReadRefund). if_given (given status) (str_eq (refund_status_text r.status)))
        ordered in
    list_rows (length rows) rows number limit

pub record Summary : Type 0 where
  pub total_payments : ℕ
  pub total_revenue : ℕ
  pub net_revenue : ℤ
  pub success_count : ℕ
  pub failed_count : ℕ
  pub success_rate : ℕ
  pub avg_payment_amount : ℕ
  pub total_refunds : ℕ

abbrev pub is_success : ReadPayment → Bool
is_success p = elim p.status [ captured ↦ true | settled ↦ true | _ ↦ false ]

abbrev pub is_failed : ReadPayment → Bool
is_failed p = elim p.status [ failed ↦ true | _ ↦ false ]

abbrev pub is_processed : ReadRefund → Bool
is_processed r = elim r.status [ processed ↦ true | initiated ↦ false ]

-- `percent` is ROUND(a::DECIMAL / b * 100, 2), and `average` AVG of a sum over a count that is not 0.
unfoldable pub get_summary : (percent average : ℕ → ℕ → ℕ) → ReadTables → Summary
unfolding ◌-ℤ◌
get_summary percent average t =
    let count = length t.payments in
    let total_amount = sum_of ReadPayment.amount t.payments in
    let success_count = length (select is_success t.payments) in
    let refund_total = sum_of ReadRefund.amount (select is_processed t.refunds) in
    record {
      total_payments = count;
      total_revenue = total_amount;
      net_revenue = pos total_amount -ℤ pos refund_total;
      success_count = success_count;
      failed_count = length (select is_failed t.payments);
      success_rate = if count == 0 then 0 else percent success_count count;
      avg_payment_amount = if count == 0 then 0 else average total_amount count;
      total_refunds = refund_total;
    }

-- LIMIT days, over the days in the order of ORDER BY; `none` is the refusal of a negative LIMIT.
unfoldable pub get_daily_revenue :
    (ordered : List DailyRevenue) → (days : ℤ) → Option (List DailyRevenue)
get_daily_revenue ordered (pos n) = some (take n ordered)
get_daily_revenue ordered (negsuc n) = none
