-- ===== src/Core/Tests.antt =====
-- Runs of the services of payment-core-service on small tables, and the theorems at them.
mod Platform
use multi_tenant_event_drive.Prelude.{
  ℕ, suc, ◌+◌, ◌-◌, ◌/◌, ◌≤◌, ◌<◌, ◌≡◌, refl, sym, subst, ◌⊎◌, inl, inr, ◌≢◌, ◌↔◌, Bool, true,
  false, ◌&&◌, Option, none, some, List, [], ◌∷◌, ◌++◌, All, arith, length,
}
use multi_tenant_event_drive.Prelude.Int.{pos, negsuc, ◌+ℤ◌, ◌-ℤ◌, ◌*ℤ◌}
use multi_tenant_event_drive.Prelude.Table.{find, has}
use multi_tenant_event_drive.Core.Rows.{
  Text, Customer, Status, created, authorized, captured, settled, failed, usd, card, Payment,
  EntryType, LedgerEntry, Tenant, empty_tenant, Merchant, active, DomainEvent, EventType, Entity,
  Payload, PaymentView, RefundView, Refund, initiated, of_deleted, pending, published,
}
use multi_tenant_event_drive.Core.Scope.{
  Scope, Result, ok, err, pending_event, emit_event, not_refundable, refund_exceeds_remaining,
  customer_not_found, invalid_transition,
}
use multi_tenant_event_drive.Core.Ledger.{ledger_sum, insert_entry, decimal_limit}
use multi_tenant_event_drive.Core.Payments
use multi_tenant_event_drive.Core.Payments.{
  Fresh, PaymentCreate, new_payment, set_status, view, contains, valid_transitions, event_type_map,
  insert_payment,
}
use multi_tenant_event_drive.Core.Refunds
use multi_tenant_event_drive.Core.Refunds.{refundable, exceeds_remaining, insert_refund}
use multi_tenant_event_drive.Core.Customers
use multi_tenant_event_drive.Core.Customers.{CustomerCreate, insert_customer}
use multi_tenant_event_drive.Core.Requests.{
  Request, create_customer, create_payment, transition_payment, create_refund, process_refund,
  serve, serve_all,
}
use multi_tenant_event_drive.Core.Emits.Serving.{announced, about, Outcome, serve-emits}
use multi_tenant_event_drive.Core.Outcomes.{
  Succeeds, IsNew, transition_payment_decides, create_refund_decides, create_payment_decides,
  capture-balance,
}
use multi_tenant_event_drive.Core.SchemaName.{
  is_hex, hex_run, valid_schema_name, IsSchemaName, valid_schema_name_iff,
}
use multi_tenant_event_drive.Core.Merchants.{
  tables_of, Db, Cached, App, cached_schema, get_merchant_schema, service, NewMerchant,
  create_merchant, update_merchant,
}
use multi_tenant_event_drive.Core.Merchants.Registry.{
  schema_of, IsRegistry, get_merchant_schema_sound,
}
use multi_tenant_event_drive.Core.Merchants.Isolation.{service_isolates}
use multi_tenant_event_drive.Core.Listing.{Listing, page, joined_payments, list_rows}
use multi_tenant_event_drive.Core.Listing.Pages.{pages_upto, pages_cover}
use multi_tenant_event_drive.Core.Api.{Endpoint, post_capture, call}
use multi_tenant_event_drive.Core.Api.Guards.{call_denied, call_isolates}
use multi_tenant_event_drive.Core.Outbox.{
  Broker, Outbox, publish_pending_events, pending_of, published_count, retry, sent, mark, batch_of,
}
use multi_tenant_event_drive.Core.Outbox.Delivery.{publish_drains, publish_loses}
use multi_tenant_event_drive.Core.Lifecycle.Services.{Follows}
use multi_tenant_event_drive.Core.Lifecycle.Serving.{serve_all-Follows}
use multi_tenant_event_drive.Core.Invariant.{IsConsistent, IsConsistent-empty}
use multi_tenant_event_drive.Core.Invariant.Referring.{IsReferenced}
use multi_tenant_event_drive.Core.Invariant.Sound.{IsSound}
use multi_tenant_event_drive.Core.Invariant.Serving.{serve_all-IsSound}

abbrev pub fresh : Fresh
fresh = record { uuid = 91; ledger_uuid = 92; event_uuid = 93; now = 1000; emitted_at = 1001 }

abbrev fresh_at : ℕ → Fresh
fresh_at n = record { uuid = n; ledger_uuid = n; event_uuid = n; now = n; emitted_at = n }

abbrev pub schema : Text
schema = b'm' ∷ b'_' ∷ b'1' ∷ []

abbrev pub asha : Customer
asha = record {
  id = 1;
  customer_id = 11;
  name = "Asha";
  email = none;
  phone = none;
  created_at = 1;
  updated_at = 1;
}

abbrev pub order : Payment
order = record {
  id = 1;
  payment_id = 21;
  customer_ref = 1;
  amount = 5000;
  currency = usd;
  status = authorized;
  method = card;
  description = none;
  metadata = "{}";
  failure_reason = none;
  amount_refunded = 0;
  created_at = 2;
  updated_at = 3;
}

abbrev booking : LedgerEntry
booking = record {
  ledger_id = 31;
  payment_ref = 1;
  refund_ref = none;
  entry_type = EntryType.payment_created;
  amount = 5000;
  balance_after = pos 5000;
  created_at = 2;
}

-- The tables of a tenant with one payment, in each status that it can have.
abbrev pub shop : Status → Scope
shop status = record {
  tables = record {
    customers = asha ∷ [];
    payments = record order { status = status } ∷ [];
    refunds = [];
    ledger_entries = booking ∷ [];
    next_customer = 2;
    next_payment = 2;
    next_refund = 1;
  };
  events = [];
}

abbrev nothing : Scope
nothing = record { tables = empty_tenant; events = [] }

nothing-IsSound : IsSound nothing
nothing-IsSound = record {
  consistent = IsConsistent-empty;
  referenced = record {
    customer_keys = record { ids = tt; below = tt };
    customer_uuids = tt;
    customers_ok = tt;
  };
}

abbrev body : PaymentCreate
body = record {
  customer_id = 1;
  amount = 5000;
  currency = usd;
  method = card;
  description = none;
  metadata = none;
}

-- A customer pays, the payment is captured, partly refunded, and refunded once more than it may be.
abbrev day : List (Fresh × Request)
day =
    (fresh_at 1, create_customer (record { name = "Asha"; email = none; phone = none }))
    ∷ (fresh_at 2, create_payment body)
    ∷ (fresh_at 3, transition_payment 2 authorized none)
    ∷ (fresh_at 4, transition_payment 2 captured none)
    ∷ (fresh_at 5, create_refund 2 3000 none)
    ∷ (fresh_at 6, create_refund 2 3000 none)
    ∷ (fresh_at 7, process_refund 5)
    ∷ []

day_refunds :
    let s = serve_all 7 schema day nothing in
    (find Refund.refund_id 6 s.refunds ≡ none)
    × (length s.events ≡ 6)
    × (length s.ledger_entries ≡ 3)
unfolding serve_all serve Customers.create_customer insert_customer Payments.create_payment
    insert_payment Payments.transition_payment valid_transitions event_type_map
    Refunds.create_refund exceeds_remaining insert_refund Refunds.process_refund emit_event
    insert_entry ledger_sum ◌+ℤ◌ ◌-ℤ◌
day_refunds = (refl, refl, refl)

serve_all-IsSound_example : IsSound (serve_all 7 schema day nothing)
serve_all-IsSound_example = serve_all-IsSound 7 schema day nothing nothing-IsSound

serve_all-Follows_example : Follows 21 order (serve_all 7 schema day (shop authorized))
serve_all-Follows_example = serve_all-Follows 7 schema day 21 order (shop authorized) refl

serve-emits_example :
    Outcome 7 schema fresh
      (shop authorized)
      EventType.payment_captured
      (Entity.payment 21)
      (serve 7 schema fresh (transition_payment 21 captured none) (shop authorized))
unfolding event_type_map
serve-emits_example =
    serve-emits 7 schema fresh (shop authorized) (transition_payment 21 captured none)

shop-IsNew : (status : Status) → IsNew fresh (shop status)
shop-IsNew status = record { ledger_new = refl; event_new = refl }

transition_payment_decides_example :
    ((contains captured (valid_transitions authorized) ≡ true)
      × Succeeds (Payments.transition_payment 7 schema fresh 21 captured none (shop authorized)))
    ⊎ ((contains captured (valid_transitions authorized) ≡ false)
        × (Payments.transition_payment 7 schema fresh 21 captured none (shop authorized)
            ≡ err invalid_transition))
unfolding ledger_sum ◌+ℤ◌
transition_payment_decides_example =
    transition_payment_decides 7 schema fresh (shop authorized) 21 captured none order refl
      (shop-IsNew authorized) refl

-- The order, as it is after its capture.
abbrev taken : Payment
taken = record order { status = captured }

create_refund_decides_example :
    let result = Refunds.create_refund 7 schema fresh 21 6000 none (shop captured) in
    ((refundable captured ≡ true) × (6000 + 0 ≤ 5000) × Succeeds result)
    ⊎ ((refundable captured ≡ false) × (result ≡ err not_refundable))
    ⊎ ((refundable captured ≡ true) × (5000 < 6000 + 0) × (result ≡ err refund_exceeds_remaining))
unfolding ledger_sum ◌+ℤ◌ ◌-ℤ◌
create_refund_decides_example =
    create_refund_decides 7 schema fresh (shop captured) 21 6000 none taken refl
      (shop-IsNew captured) refl refl

abbrev purchase : PaymentCreate
purchase = record body { customer_id = 11 }

create_payment_decides_example :
    let result = Payments.create_payment 7 schema fresh purchase (shop settled) in
    ((has Customer.customer_id 11 (asha ∷ []) ≡ true) × Succeeds result)
    ⊎ ((has Customer.customer_id 11 (asha ∷ []) ≡ false) × (result ≡ err customer_not_found))
unfolding ledger_sum ◌+ℤ◌
create_payment_decides_example =
    create_payment_decides 7 schema fresh (shop settled) purchase (shop-IsNew settled) refl
      (omega arith) refl

-- The tables after a service that succeeds.
abbrev after : {A : Type 0} → Result (A × Scope) → Scope
after (ok (a, s)) = s
after (err e) = nothing

abbrev Balanced : Scope → Scope → Type 0
Balanced s s' =
    (e : LedgerEntry) × (s'.ledger_entries ≡ s.ledger_entries ++ e ∷ [])
    × (e.balance_after ≡ ledger_sum s'.ledger_entries)

capture-balance_example :
    let s' =
      after (Payments.transition_payment 7 schema fresh 21 captured none (shop authorized)) in
    (e : LedgerEntry) × (s'.ledger_entries ≡ booking ∷ e ∷ [])
    × (e.balance_after +ℤ pos 5000 ≡ ledger_sum s'.ledger_entries)
unfolding Payments.transition_payment valid_transitions event_type_map emit_event insert_entry
    ledger_sum ◌+ℤ◌
capture-balance_example =
    capture-balance 7 schema fresh (shop authorized)
      (after (Payments.transition_payment 7 schema fresh 21 captured none (shop authorized))) 21
      none (view (set_status captured 1000 none order) (some 11)) refl
