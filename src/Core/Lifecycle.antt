-- ===== src/Core/Lifecycle.antt =====
-- The life of one payment over any sequence of requests (src/services/payment_service.py and
-- refund_service.py).
pub mod Services
pub mod Serving
use multi_tenant_event_drive.Prelude.{
  ℕ, ◌+◌, ◌≤◌, ◌≡◌, refl, ◌∙◌, Bool, true, false, ◌⊎◌, inl, inr, Option, none, some, List, [], ◌∷◌,
  arith, ◌==◌, ==_iff, Bool-cases, if◌then◌else◌,
}
use multi_tenant_event_drive.Prelude.Table.{find, find-key, update}
use multi_tenant_event_drive.Prelude.Keyed.{find-update_by, find-append}
use multi_tenant_event_drive.Core.Rows.{
  Text, Payment, Status, created, authorized, captured, failed, settled, Currency, Method,
}
use multi_tenant_event_drive.Core.Scope.{Scope, Result, ok, err}
use multi_tenant_event_drive.Core.Payments.{
  Fresh, set_status, set_details, valid_transitions, contains,
}
use multi_tenant_event_drive.Core.Payments.Results.{
  create_payment-ok, transition_payment-ok, transition_payment-none, update_payment-ok,
  update_payment-none,
}
use multi_tenant_event_drive.Core.Refunds.{reserve}
use multi_tenant_event_drive.Core.Refunds.Results.{
  create_refund-ok, process_refund-ok, process_refund-none,
}
use multi_tenant_event_drive.Core.Customers.Results.{
  create_customer-ok, update_customer-ok, update_customer-none, delete_customer-ok,
  delete_customer-none,
}
use multi_tenant_event_drive.Core.Requests.{
  Request, create_customer, update_customer, delete_customer, create_payment, transition_payment,
  update_payment, create_refund, process_refund, commit, serve, serve_all,
}

-- created → authorized → captured → settled, and created → failed: what can come after what.
abbrev pub reaches : Status → Status → Bool
reaches created _ = true
reaches authorized authorized = true
reaches authorized captured = true
reaches authorized settled = true
reaches captured captured = true
reaches captured settled = true
reaches settled settled = true
reaches failed failed = true
reaches _ _ = false

-- What time does to a payment: its status moves forward, refunds add up, and all that was agreed
-- when it was created stays.
pub record Evolves (p q : Payment) : Type 0 where
  pub same_id : q.id ≡ p.id
  pub same_uuid : q.payment_id ≡ p.payment_id
  pub same_customer : q.customer_ref ≡ p.customer_ref
  pub same_amount : q.amount ≡ p.amount
  pub same_currency : q.currency ≡ p.currency
  pub same_method : q.method ≡ p.method
  pub same_birth : q.created_at ≡ p.created_at
  pub forward : reaches p.status q.status ≡ true
  pub refunds_grow : p.amount_refunded ≤ q.amount_refunded

pub reaches_self : (s : Status) → reaches s s ≡ true
reaches_self s = ground arith

reaches_trans : (a b c : Status) → reaches a b ≡ true → reaches b c ≡ true → reaches a c ≡ true
reaches_trans a b c h k = ground arith

pub reaches_transition :
    (a b : Status) → contains b (valid_transitions a) ≡ true → reaches a b ≡ true
unfolding valid_transitions
reaches_transition a b h = ground arith

pub Evolves-self : (p : Payment) → Evolves p p
Evolves-self p = record {
  same_id = refl;
  same_uuid = refl;
  same_customer = refl;
  same_amount = refl;
  same_currency = refl;
  same_method = refl;
  same_birth = refl;
  forward = reaches_self p.status;
  refunds_grow = omega arith;
}

pub Evolves-trans : (p q r : Payment) → Evolves p q → Evolves q r → Evolves p r
Evolves-trans p q r h k = record {
  same_id = k.same_id ∙ h.same_id;
  same_uuid = k.same_uuid ∙ h.same_uuid;
  same_customer = k.same_customer ∙ h.same_customer;
  same_amount = k.same_amount ∙ h.same_amount;
  same_currency = k.same_currency ∙ h.same_currency;
  same_method = k.same_method ∙ h.same_method;
  same_birth = k.same_birth ∙ h.same_birth;
  forward = reaches_trans p.status q.status r.status h.forward k.forward;
  refunds_grow = omega arith;
}
