-- ===== src/Connect/ReadModel/Handlers.antt =====
-- src/services/sync_service.py of services/connect-service: one function for each handler.
use multi_tenant_event_drive.Prelude.{ℕ, ◌+◌, Option, none, some, List, ◌==◌, if◌then◌else◌}
use multi_tenant_event_drive.Prelude.Table.{find, update, delete, upsert}
use multi_tenant_event_drive.Core.Rows.{
  authorized, captured, processed, CustomerView, PaymentView, RefundView, EventType,
  merchant_created, merchant_updated, customer_created, customer_updated, customer_deleted,
  payment_created, payment_authorized, payment_captured, payment_failed, payment_settled,
  payment_updated, refund_initiated, refund_processed, Payload, of_customer, of_deleted, of_payment,
  of_refund, of_new_refund,
}
use multi_tenant_event_drive.Connect.ReadModel.{
  ReadCustomer, ReadPayment, ReadRefund, DailyRevenue, MethodStats, ReadTables, method_key,
}
use multi_tenant_event_drive.Connect.ReadModel.Changes.{
  read_customer, set_customer, rename_refunds, rename_payment, read_payment, repeat_payment,
  new_day, add_to_day, new_stats, add_to_stats, stats_key, count_payment, set_read_status,
  fail_payment, describe, spend, read_refund, refund_day, unspend_for,
}

unfoldable pub sync_customer_created : CustomerView → ReadTables → ReadTables
sync_customer_created v t = record t {
  customers = upsert ReadCustomer.customer_id (read_customer v) (set_customer v) t.customers;
}

-- The customer, and its name in the payments and the refunds.
unfoldable pub sync_customer_updated : CustomerView → ReadTables → ReadTables
sync_customer_updated v t =
    let payments = update ReadPayment.customer_id v.customer_id (rename_payment v) t.payments in
    record t {
      customers = update ReadCustomer.customer_id v.customer_id (set_customer v) t.customers;
      payments = payments;
      refunds = rename_refunds v payments t.refunds;
    }

unfoldable pub sync_customer_deleted : ℕ → ReadTables → ReadTables
sync_customer_deleted customer_id t = record t {
  customers = delete ReadCustomer.customer_id customer_id t.customers;
}

-- The keys that a handler reads from its payload.
abbrev pub customer_of : Payload → Option CustomerView
customer_of (of_customer v) = some v
customer_of _ = none

abbrev pub deleted_of : Payload → Option ℕ
deleted_of (of_deleted customer_id) = some customer_id
deleted_of _ = none

abbrev pub payment_of : Payload → Option PaymentView
payment_of (of_payment v) = some v
payment_of _ = none

abbrev pub new_refund_of : Payload → Option (RefundView × Option ℕ)
new_refund_of (of_new_refund v amount customer_id) = some (v, customer_id)
new_refund_of _ = none

abbrev pub refund_of : Payload → Option RefundView
refund_of (of_refund v) = some v
refund_of _ = none

-- A KeyError where the keys are missing.
abbrev pub keyed : {V : Type 0} → Option V → (V → Option ReadTables) → Option ReadTables
keyed none body = none
keyed (some v) body = body v

-- `date_of` is Python's `.date()` of a time, and `percent a b` PostgreSQL's
-- ROUND(a::DECIMAL / b * 100, 2).
module _ (date_of : ℕ → ℕ) (percent : ℕ → ℕ → ℕ) where
  -- NULLIF(count, 0)
  abbrev pub success_rate_of : ℕ → ℕ → Option ℕ
  success_rate_of successes count = if count == 0 then none else some (percent successes count)

  -- A payment without a customer violates NOT NULL.
  unfoldable pub sync_payment_created : PaymentView → ReadTables → Option ReadTables
  sync_payment_created v t = elim v.customer_id [
    | none ↦ none
    | some customer_id ↦
        let customer = find ReadCustomer.customer_id customer_id t.customers in
        some (record t {
          payments =
              upsert ReadPayment.payment_id (read_payment v customer_id customer) (repeat_payment v)
                t.payments;
          daily_revenue =
              upsert DailyRevenue.date (new_day v (date_of v.created_at)) (add_to_day v)
                t.daily_revenue;
          method_stats = upsert stats_key (new_stats v) (add_to_stats v) t.method_stats;
          customers = update ReadCustomer.customer_id customer_id count_payment t.customers;
        })
  ]

  unfoldable pub sync_payment_updated : PaymentView → ReadTables → ReadTables
  sync_payment_updated v t = record t {
    payments = update ReadPayment.payment_id v.payment_id (describe v) t.payments;
  }

  unfoldable pub sync_payment_authorized : PaymentView → ReadTables → ReadTables
  sync_payment_authorized v t = record t {
    payments = update ReadPayment.payment_id v.payment_id (set_read_status authorized v) t.payments;
  }

  abbrev pub succeed_on_day : PaymentView → DailyRevenue → DailyRevenue
  succeed_on_day v d = record d { success_count = d.success_count + 1; updated_at = v.updated_at }

  abbrev pub succeed_by_method : PaymentView → MethodStats → MethodStats
  succeed_by_method v m = record m {
    success_count = m.success_count + 1;
    success_rate = success_rate_of (m.success_count + 1) m.count;
    updated_at = v.updated_at;
  }

  -- `customer_id = NULL` selects no row.
  abbrev pub spend_for : PaymentView → List ReadCustomer → List ReadCustomer
  spend_for v customers = elim v.customer_id [
    | none ↦ customers
    | some customer_id ↦ update ReadCustomer.customer_id customer_id (spend v) customers
  ]

  unfoldable pub sync_payment_captured : PaymentView → ReadTables → ReadTables
  sync_payment_captured v t = record t {
    payments = update ReadPayment.payment_id v.payment_id (set_read_status captured v) t.payments;
    daily_revenue =
        update DailyRevenue.date (date_of v.created_at) (succeed_on_day v) t.daily_revenue;
    method_stats = update stats_key (method_key v.method) (succeed_by_method v) t.method_stats;
    customers = spend_for v t.customers;
  }

  abbrev pub fail_on_day : PaymentView → DailyRevenue → DailyRevenue
  fail_on_day v d = record d { failed_count = d.failed_count + 1; updated_at = v.updated_at }

  abbrev pub fail_by_method : PaymentView → MethodStats → MethodStats
  fail_by_method v m = record m {
    success_rate = success_rate_of m.success_count m.count;
    updated_at = v.updated_at;
  }

  unfoldable pub sync_payment_failed : PaymentView → ReadTables → ReadTables
  sync_payment_failed v t = record t {
    payments = update ReadPayment.payment_id v.payment_id (fail_payment v) t.payments;
    daily_revenue = update DailyRevenue.date (date_of v.created_at) (fail_on_day v) t.daily_revenue;
    method_stats = update stats_key (method_key v.method) (fail_by_method v) t.method_stats;
  }

  abbrev pub repeat_refund : RefundView → ReadRefund → ReadRefund
  repeat_refund v r = record r { status = v.status; updated_at = v.updated_at }

  -- A refund without a payment violates NOT NULL. The day is that of the refund.
  unfoldable pub sync_refund_initiated : RefundView → Option ℕ → ReadTables → Option ReadTables
  sync_refund_initiated v customer_id t = elim v.payment_id [
    | none ↦ none
    | some payment_id ↦
        let payment = find ReadPayment.payment_id payment_id t.payments in
        some (record t {
          refunds =
              upsert ReadRefund.refund_id (read_refund v payment_id payment) (repeat_refund v)
                t.refunds;
          daily_revenue =
              update DailyRevenue.date (date_of v.created_at) (refund_day v) t.daily_revenue;
          customers = unspend_for v customer_id t.customers;
        })
  ]

  abbrev pub process_read : RefundView → ReadRefund → ReadRefund
  process_read v r = record r { status = processed; updated_at = v.updated_at }

  unfoldable pub sync_refund_processed : RefundView → ReadTables → ReadTables
  sync_refund_processed v t = record t {
    refunds = update ReadRefund.refund_id v.refund_id (process_read v) t.refunds;
  }

  -- SYNC_HANDLERS, for the events of a tenant; a payload of another kind lacks a key. There is no
  -- handler for payment.settled.v1: it changes nothing.
  unfoldable pub handle : EventType → Payload → ReadTables → Option ReadTables
  unfolding sync_customer_created sync_customer_updated sync_customer_deleted sync_payment_created
      sync_payment_updated sync_payment_authorized sync_payment_captured sync_payment_failed
      sync_refund_initiated sync_refund_processed
  handle customer_created p t = keyed (customer_of p) (λ v. some (sync_customer_created v t))
  handle customer_updated p t = keyed (customer_of p) (λ v. some (sync_customer_updated v t))
  handle customer_deleted p t = keyed (deleted_of p) (λ id. some (sync_customer_deleted id t))
  handle payment_created p t = keyed (payment_of p) (λ v. sync_payment_created v t)
  handle payment_updated p t = keyed (payment_of p) (λ v. some (sync_payment_updated v t))
  handle payment_authorized p t = keyed (payment_of p) (λ v. some (sync_payment_authorized v t))
  handle payment_captured p t = keyed (payment_of p) (λ v. some (sync_payment_captured v t))
  handle payment_failed p t = keyed (payment_of p) (λ v. some (sync_payment_failed v t))
  handle payment_settled p t = some t
  handle refund_initiated p t =
      keyed (new_refund_of p) (λ (v, customer_id). sync_refund_initiated v customer_id t)
  handle refund_processed p t = keyed (refund_of p) (λ v. some (sync_refund_processed v t))
  handle merchant_created p t = some t
  handle merchant_updated p t = some t
