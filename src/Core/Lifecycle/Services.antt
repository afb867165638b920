-- ===== src/Core/Lifecycle/Services.antt =====
-- One service of payment-core-service, seen from one payment.
use multi_tenant_event_drive.Prelude.{
  ℕ, String, ◌≡◌, refl, inl, inr, Option, some, List, arith, ◌==◌, ==_iff, Bool-cases,
  if◌then◌else◌,
}
use multi_tenant_event_drive.Prelude.Table.{find, find-key, update}
use multi_tenant_event_drive.Prelude.Keyed.{find-update_by}
use multi_tenant_event_drive.Core.Rows.{Text, Payment, PaymentView, RefundView, Status}
use multi_tenant_event_drive.Core.Scope.{Scope, ok}
use multi_tenant_event_drive.Core.Payments.{
  Fresh, set_status, set_details, valid_transitions, contains,
}
use multi_tenant_event_drive.Core.Payments.Results.{transition_payment-ok, update_payment-ok}
use multi_tenant_event_drive.Core.Payments
use multi_tenant_event_drive.Core.Refunds
use multi_tenant_event_drive.Core.Refunds.{reserve}
use multi_tenant_event_drive.Core.Refunds.Results.{create_refund-ok}
use multi_tenant_event_drive.Core.Lifecycle.{
  Evolves, reaches_self, reaches_transition, Evolves-self,
}

-- Where the payment with UUID `k` was `p`, there is one now that `p` has evolved into.
abbrev pub Follows : ℕ → Payment → Scope → Type 0
Follows k p s = (q : Payment) × (find Payment.payment_id k s.payments ≡ some q) × Evolves p q

-- An UPDATE of payments that one of their keys selects, seen from another payment or from this one.
update_follows :
    (by : Payment → ℕ) (j k : ℕ) (f : Payment → Payment) (ps : List Payment) (p : Payment)
    → ((x : Payment) → (f x).payment_id ≡ x.payment_id)
    → (by p ≡ j → Evolves p (f p))
    → find Payment.payment_id k ps ≡ some p
    → (q : Payment) × (find Payment.payment_id k (update by j f ps) ≡ some q) × Evolves p q
update_follows by j k f ps p same evolves found = (
  if by p == j then f p else p,
  find-update_by Payment.payment_id by f same k j ps p found,
  elim (Bool-cases (by p == j)) [
    | inl this ↦ rw this (evolves ((==_iff (by p) j).0 this))
    | inr other ↦ rw other (Evolves-self p)
  ],
)

module _ (k : ℕ) (p : Payment) (s s' : Scope)
    (found : find Payment.payment_id k s.payments ≡ some p) where
  pub unchanged-Follows : s' ≡ s → Follows k p s'
  unchanged-Follows e = rw e (p, found, Evolves-self p)

module _ (merchant_id : ℕ) (schema : Text) (fresh : Fresh) (k : ℕ) (p : Payment) (s s' : Scope)
    (found : find Payment.payment_id k s.payments ≡ some p) where
  pub transition-Follows :
      (id : ℕ) (target : Status) (reason : Option String) (v : PaymentView)
      → Payments.transition_payment merchant_id schema fresh id target reason s ≡ ok (some v, s')
      → Follows k p s'
  transition-Follows id target reason v e =
      let done = transition_payment-ok merchant_id schema fresh s s' id target reason v e in
      rw done.tables_after (
        update_follows Payment.payment_id id k (set_status target fresh.now reason) s.payments p
          (λ x. refl)
          (λ same.
            let this = same_row done.row id done.found same in
            ground (arith, reaches_transition p.status target (rw this at done.allowed)))
          found)
    where
      same_row :
          (row : Payment) (id : ℕ)
          → find Payment.payment_id id s.payments ≡ some row
          → p.payment_id ≡ id
          → row ≡ p
      same_row row id there same = ground (arith, find-key Payment.payment_id k s.payments p found)

  pub details_follow :
      (id : ℕ) (description metadata : Option String) (v : PaymentView)
      → Payments.update_payment merchant_id schema fresh id description metadata s ≡ ok (some v, s')
      → Follows k p s'
  details_follow id description metadata v e =
      let done = update_payment-ok merchant_id schema fresh s s' id description metadata v e in
      rw done.tables_after (
        update_follows Payment.payment_id id k (set_details description metadata fresh.now)
          s.payments p (λ x. refl) (λ same. changed) found)
    where
      changed : Evolves p (set_details description metadata fresh.now p)
      changed = ground (arith, reaches_self p.status)

  pub refund-Follows :
      (id amount : ℕ) (reason : Option String) (v : RefundView)
      → Refunds.create_refund merchant_id schema fresh id amount reason s ≡ ok (v, s')
      → Follows k p s'
  refund-Follows id amount reason v e =
      let done = create_refund-ok merchant_id schema fresh s s' id amount reason v e in
      rw done.tables_after (
        update_follows Payment.id done.row.id k (reserve amount) s.payments p (λ x. refl)
          (λ same. changed) found)
    where
      changed : Evolves p (reserve amount p)
      changed = ground (arith, reaches_self p.status)
