-- ===== src/Core/Lifecycle/Serving.antt =====
-- A payment over any sequence of requests.
use multi_tenant_event_drive.Prelude.{
  ℕ, ◌≡◌, refl, Bool, true, false, Option, none, some, List, [], ◌∷◌,
}
use multi_tenant_event_drive.Prelude.Table.{find}
use multi_tenant_event_drive.Prelude.Keyed.{find-append}
use multi_tenant_event_drive.Core.Rows.{Text, Payment, PaymentView, RefundView, CustomerView}
use multi_tenant_event_drive.Core.Scope.{Scope, Result, ok, err}
use multi_tenant_event_drive.Core.Payments.{Fresh}
use multi_tenant_event_drive.Core.Payments.Results.{
  create_payment-ok, transition_payment-none, update_payment-none,
}
use multi_tenant_event_drive.Core.Refunds.Results.{process_refund-ok, process_refund-none}
use multi_tenant_event_drive.Core.Customers.Results.{
  create_customer-ok, update_customer-ok, update_customer-none, delete_customer-ok,
  delete_customer-none,
}
use multi_tenant_event_drive.Core.Requests.{
  Request, create_customer, update_customer, delete_customer, create_payment, transition_payment,
  update_payment, create_refund, process_refund, commit, serve, serve_all,
}
use multi_tenant_event_drive.Core.Lifecycle.{Evolves-self, Evolves-trans}
use multi_tenant_event_drive.Core.Lifecycle.Services.{
  Follows, unchanged-Follows, transition-Follows, details_follow, refund-Follows,
}

commit-Follows :
    {A : Type 0} (k : ℕ) (p : Payment) (r : Result (A × Scope)) (s : Scope)
    → find Payment.payment_id k s.payments ≡ some p
    → ((a : A) (s' : Scope) → r ≡ ok (a, s') → Follows k p s')
    → Follows k p (commit r s)
commit-Follows k p (ok (a, s')) s found step = step a s' refl
commit-Follows k p (err e) s found step = (p, found, Evolves-self p)

module _ (merchant_id : ℕ) (schema : Text) where
  serve-Follows :
      (fresh : Fresh) (r : Request) (k : ℕ) (p : Payment) (s : Scope)
      → find Payment.payment_id k s.payments ≡ some p
      → Follows k p (serve merchant_id schema fresh r s)
  unfolding serve
  serve-Follows fresh (create_customer body) k p s found = commit-Follows k p _ s found (λ v s' e.
      rw (create_customer-ok merchant_id schema fresh s s' body v e).tables_after
        (p, found, Evolves-self p))
  serve-Follows fresh (update_customer id body) k p s found =
      commit-Follows {A = Option CustomerView} k p _ s found (elim [
        | none ↦ λ s' e.
            unchanged-Follows k p s s' found
              (update_customer-none merchant_id schema fresh s s' id body e)
        | some v ↦ λ s' e.
            rw (update_customer-ok merchant_id schema fresh s s' id body v e)
              (p, found, Evolves-self p)
      ])
  serve-Follows fresh (delete_customer id) k p s found =
      commit-Follows {A = Bool} k p _ s found (elim [
        | false ↦ λ s' e.
            unchanged-Follows k p s s' found
              (delete_customer-none merchant_id schema fresh s s' id e)
        | true ↦ λ s' e.
            rw (delete_customer-ok merchant_id schema fresh s s' id e).tables_after
              (p, found, Evolves-self p)
      ])
  serve-Follows fresh (create_payment body) k p s found = commit-Follows k p _ s found (λ v s' e.
      rw (create_payment-ok merchant_id schema fresh s s' body v e).tables_after
        (p, find-append Payment.payment_id k s.payments _ p found, Evolves-self p))
  serve-Follows fresh (transition_payment id target reason) k p s found =
      commit-Follows {A = Option PaymentView} k p _ s found (elim [
        | none ↦ λ s' e.
            unchanged-Follows k p s s' found
              (transition_payment-none merchant_id schema fresh s s' id target reason e)
        | some v ↦
            λ s' e. transition-Follows merchant_id schema fresh k p s s' found id target reason v e
      ])
  serve-Follows fresh (update_payment id description metadata) k p s found =
      commit-Follows {A = Option PaymentView} k p _ s found (elim [
        | none ↦ λ s' e.
            unchanged-Follows k p s s' found
              (update_payment-none merchant_id schema fresh s s' id description metadata e)
        | some v ↦ λ s' e.
            details_follow merchant_id schema fresh k p s s' found id description metadata v e
      ])
  serve-Follows fresh (create_refund id amount reason) k p s found =
      commit-Follows k p _ s found
        (λ v s' e. refund-Follows merchant_id schema fresh k p s s' found id amount reason v e)
  serve-Follows fresh (process_refund id) k p s found =
      commit-Follows {A = Option RefundView} k p _ s found (elim [
        | none ↦ λ s' e.
            unchanged-Follows k p s s' found
              (process_refund-none merchant_id schema fresh s s' id e)
        | some v ↦ λ s' e.
            rw (process_refund-ok merchant_id schema fresh s s' id v e).tables_after
              (p, found, Evolves-self p)
      ])

  -- A payment that exists is found under its UUID after any sequence of requests, with the same
  -- amount, currency, method, customer and creation time, a status that the life cycle allows after
  -- the one it had, and no less refunded.
  pub serve_all-Follows :
      (requests : List (Fresh × Request)) (k : ℕ) (p : Payment) (s : Scope)
      → find Payment.payment_id k s.payments ≡ some p
      → Follows k p (serve_all merchant_id schema requests s)
  unfolding serve_all
  serve_all-Follows [] k p s found = (p, found, Evolves-self p)
  serve_all-Follows ((fresh, r) ∷ rest) k p s found =
      let (q, next, pq) = serve-Follows fresh r k p s found in
      let (z, last, qz) = serve_all-Follows rest k q (serve merchant_id schema fresh r s) next in
      (z, last, Evolves-trans p q z pq qz)
