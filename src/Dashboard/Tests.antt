-- ===== src/Dashboard/Tests.antt =====
-- Reads of the dashboard on small tables, and the theorem at them.
use multi_tenant_event_drive.Prelude.{ℕ, ◌*◌, ◌/◌, ◌≡◌, refl, Option, none, some, [], ◌∷◌}
use multi_tenant_event_drive.Prelude.Int.{pos, ◌+ℤ◌, ◌-ℤ◌, ◌*ℤ◌}
use multi_tenant_event_drive.Prelude.Table.{sum_of}
use multi_tenant_event_drive.Core.Rows.{created, usd, card, PaymentView, EventType, of_payment}
use multi_tenant_event_drive.Core.Listing.{page}
use multi_tenant_event_drive.Connect.ReadModel.{DailyRevenue, MethodStats, ReadTables, empty_tables}
use multi_tenant_event_drive.Connect.ReadModel.Handlers.{handle, sync_payment_created}
use multi_tenant_event_drive.Connect.ReadModel.Changes.{read_payment}
use multi_tenant_event_drive.Connect.ReadModel.Totals.{IsTotalled}
use multi_tenant_event_drive.Connect.ReadModel.Totals.Handling.{handle-IsTotalled}
use multi_tenant_event_drive.Dashboard.{PaymentQuery, list_payments, get_summary}
use multi_tenant_event_drive.Dashboard.Agreement.{get_summary_agrees}

abbrev date_of : ℕ → ℕ
date_of t = t / 86400

abbrev percent : ℕ → ℕ → ℕ
percent a b = a * 10000 / b

abbrev order : PaymentView
order = record {
  payment_id = 2;
  customer_id = some 1;
  amount = 5000;
  currency = usd;
  status = created;
  method = card;
  description = none;
  metadata = "{}";
  failure_reason = none;
  amount_refunded = 0;
  created_at = 90000;
  updated_at = 90000;
}

abbrev or_empty : Option ReadTables → ReadTables
or_empty none = empty_tables
or_empty (some r) = r

-- The tables that the event of one order leaves.
abbrev one_order : ReadTables
one_order =
    or_empty (handle date_of percent EventType.payment_created (of_payment order) empty_tables)

one_order-IsTotalled : IsTotalled date_of percent one_order
unfolding handle sync_payment_created
one_order-IsTotalled =
    handle-IsTotalled date_of percent EventType.payment_created (of_payment order) empty_tables
      one_order
      (record {
        days = tt;
        methods = tt;
        day_amount = λ d. refl;
        day_count = λ d. refl;
        method_amount = λ m. refl;
        method_count = λ m. refl;
      })
      refl refl

abbrev captured_only : PaymentQuery
captured_only = record {
  status = some "captured";
  method = none;
  customer_id = none;
  min_amount = none;
  max_amount = none;
}

-- Without a row there is no page, and a limit of 0 is no division by zero.
no_page :
    list_payments (read_payment order 1 none ∷ []) captured_only (pos 1) (pos 0)
    ≡ page (record { rows = []; total = 0; total_pages = 0 })
unfolding list_payments ◌-ℤ◌ ◌*ℤ◌ ◌+ℤ◌
no_page = refl

get_summary_agrees_example :
    let s = get_summary percent ◌/◌ one_order in
    (sum_of DailyRevenue.total_amount one_order.daily_revenue ≡ s.total_revenue)
    × (sum_of DailyRevenue.payment_count one_order.daily_revenue ≡ s.total_payments)
    × (sum_of MethodStats.total_amount one_order.method_stats ≡ s.total_revenue)
    × (sum_of MethodStats.count one_order.method_stats ≡ s.total_payments)
get_summary_agrees_example = get_summary_agrees date_of percent ◌/◌ one_order one_order-IsTotalled
