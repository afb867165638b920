-- ===== src/Core/Invariant/Serving.antt =====
-- Any sequence of requests keeps the invariants of a tenant's tables.
use multi_tenant_event_drive.Prelude.{ℕ, ◌≡◌, refl, List, [], ◌∷◌}
use multi_tenant_event_drive.Core.Rows.{Text}
use multi_tenant_event_drive.Core.Scope.{Scope, Result, ok, err}
use multi_tenant_event_drive.Core.Payments.{Fresh}
use multi_tenant_event_drive.Core.Requests.{
  Request, create_customer, update_customer, delete_customer, create_payment, transition_payment,
  update_payment, create_refund, process_refund, commit, serve, serve_all,
}
use multi_tenant_event_drive.Core.Invariant.Sound.{
  IsSound, create_payment-IsSound, transition_payment-IsSound, update_payment-IsSound,
  create_refund-IsSound, process_refund-IsSound, create_customer-IsSound, update_customer-IsSound,
  delete_customer-IsSound,
}

commit_cases :
    {A : Type 0} (r : Result (A × Scope)) (s : Scope)
    → IsSound s
    → ((a : A) (s' : Scope) → r ≡ ok (a, s') → IsSound s')
    → IsSound (commit r s)
commit_cases (ok (a, s')) s h step = step a s' refl
commit_cases (err e) s h step = h

module _ (merchant_id : ℕ) (schema : Text) where
  pub serve-IsSound :
      (fresh : Fresh) (request : Request) (s : Scope)
      → IsSound s
      → IsSound (serve merchant_id schema fresh request s)
  unfolding serve
  serve-IsSound fresh (create_customer body) s h =
      commit_cases _ s h
        (λ v s' e. create_customer-IsSound merchant_id schema fresh s s' h body v e)
  serve-IsSound fresh (update_customer id body) s h =
      commit_cases _ s h
        (λ v s' e. update_customer-IsSound merchant_id schema fresh s s' h id body v e)
  serve-IsSound fresh (delete_customer id) s h =
      commit_cases _ s h (λ v s' e. delete_customer-IsSound merchant_id schema fresh s s' h id v e)
  serve-IsSound fresh (create_payment body) s h =
      commit_cases _ s h (λ v s' e. create_payment-IsSound merchant_id schema fresh s s' h body v e)
  serve-IsSound fresh (transition_payment id target reason) s h =
      commit_cases _ s h
        (λ v s' e. transition_payment-IsSound merchant_id schema fresh s s' h id target reason v e)
  serve-IsSound fresh (update_payment id description metadata) s h =
      commit_cases _ s h (λ v s' e.
        update_payment-IsSound merchant_id schema fresh s s' h id description metadata v e)
  serve-IsSound fresh (create_refund id amount reason) s h =
      commit_cases _ s h
        (λ v s' e. create_refund-IsSound merchant_id schema fresh s s' h id amount reason v e)
  serve-IsSound fresh (process_refund id) s h =
      commit_cases _ s h (λ v s' e. process_refund-IsSound merchant_id schema fresh s s' h id v e)

  -- From tables that satisfy the invariants, any sequence of requests, those that fail included,
  -- leads to tables that satisfy them.
  pub serve_all-IsSound :
      (requests : List (Fresh × Request)) (s : Scope)
      → IsSound s
      → IsSound (serve_all merchant_id schema requests s)
  unfolding serve_all
  serve_all-IsSound [] s h = h
  serve_all-IsSound ((fresh, request) ∷ rest) s h =
      serve_all-IsSound rest (serve merchant_id schema fresh request s)
        (serve-IsSound fresh request s h)
