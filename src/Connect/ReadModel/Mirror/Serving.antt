-- ===== src/Connect/ReadModel/Mirror/Serving.antt =====
-- The read tables over any sequence of requests to payment-core-service, once the events of those
-- requests have been brought in, in their order.
use multi_tenant_event_drive.Prelude.{
  ℕ, ◌≡◌, refl, sym, ap, ◌∙◌, inl, inr, Option-cases, arith, Bool, Option, none, some, List, [],
  ◌∷◌, ◌++◌, true, false,
}
use mathlib.Core.List.{append-nil, append_assoc}
use multi_tenant_event_drive.Core.Rows.{Text, CustomerView, PaymentView, RefundView, DomainEvent}
use multi_tenant_event_drive.Core.Scope.{Scope, Result, ok, err}
use multi_tenant_event_drive.Core.Payments.{Fresh, customer_uuid}
use multi_tenant_event_drive.Core.Payments.Results.{transition_payment-none, update_payment-none}
use multi_tenant_event_drive.Core.Refunds.Results.{process_refund-none}
use multi_tenant_event_drive.Core.Customers.Results.{update_customer-none, delete_customer-none}
use multi_tenant_event_drive.Core.Requests.{
  Request, create_customer, update_customer, delete_customer, create_payment, transition_payment,
  update_payment, create_refund, process_refund, commit, serve, serve_all,
}
use multi_tenant_event_drive.Core.Emits.{
  create_payment-emits, transition_payment-emits, update_payment-emits, create_refund-emits,
  process_refund-emits, create_customer-emits, update_customer-emits, delete_customer-emits,
}
use multi_tenant_event_drive.Core.Invariant.Sound.{IsSound}
use multi_tenant_event_drive.Core.Invariant.Serving.{serve-IsSound}
use multi_tenant_event_drive.Connect.ReadModel.{ReadTables}
use multi_tenant_event_drive.Connect.ReadModel.Handlers.{handle}
use multi_tenant_event_drive.Connect.ReadModel.Mirror.{
  Mirrors, Synced, create_customer-Synced, update_customer-Synced, delete_customer-Synced,
}
use multi_tenant_event_drive.Connect.ReadModel.Mirror.Paying.{
  create_payment-Synced, update_payment-Synced, transition_payment-Synced,
}
use multi_tenant_event_drive.Connect.ReadModel.Mirror.Refunding.{
  create_refund-Synced, process_refund-Synced,
}

module _ (date_of : ℕ → ℕ) (percent : ℕ → ℕ → ℕ) where
  -- The events of one merchant, in order; `none` as soon as a handler raises.
  unfoldable pub sync_all : List DomainEvent → ReadTables → Option ReadTables
  unfolding handle
  sync_all [] r = some r
  sync_all (e ∷ es) r = elim (handle date_of percent e.event_type e.payload r) [
    | none ↦ none
    | some r' ↦ sync_all es r'
  ]

  sync_all-append :
      (es fs : List DomainEvent) (r r' : ReadTables)
      → sync_all es r ≡ some r'
      → sync_all (es ++ fs) r ≡ sync_all fs r'
  unfolding sync_all
  sync_all-append [] fs r r' h = cc h
  sync_all-append (e ∷ es) fs r r' h =
      elim (Option-cases (handle date_of percent e.event_type e.payload r)) [
        | inl raised ↦ absurd (ground (arith, raised, h))
        | inr (q, done) ↦
            rw (done, sync_all) (sync_all-append es fs q r' (rw (done, sync_all) at h))
      ]

  -- The outbox has some more events, and bringing them in makes the read tables show the tenant's.
  abbrev pub Caught : Scope → Scope → ReadTables → Type 0
  Caught s s' r =
      (es : List DomainEvent) × (s'.events ≡ s.events ++ es) × Synced (sync_all es r) s'.tables

  Caught-same : (s s' : Scope) (r : ReadTables) → Mirrors s.tables r → s' ≡ s → Caught s s' r
  unfolding sync_all
  Caught-same s s' r h e = ([], rw e (sym (append-nil s.events)), (r, refl, rw e h))

  Caught-one :
      (s s' : Scope) (r : ReadTables) (e : DomainEvent)
      → s'.events ≡ s.events ++ e ∷ []
      → Synced (handle date_of percent e.event_type e.payload r) s'.tables
      → Caught s s' r
  unfolding sync_all
  Caught-one s s' r e added (r', done, mirrors) =
      (e ∷ [], added, (r', rw (done, sync_all) refl, mirrors))

  module _ (merchant_id : ℕ) (schema : Text) where
    commit-Caught :
        {A : Type 0} (s : Scope) (r : ReadTables) (out : Result (A × Scope))
        → Mirrors s.tables r
        → ((a : A) (s' : Scope) → out ≡ ok (a, s') → Caught s s' r)
        → Caught s (commit out s) r
    commit-Caught s r (ok (a, s')) h step = step a s' refl
    commit-Caught s r (err x) h step = Caught-same s s r h refl

    serve-Caught :
        (fresh : Fresh) (request : Request) (s : Scope) (r : ReadTables)
        → IsSound s
        → Mirrors s.tables r
        → Caught s (serve merchant_id schema fresh request s) r
    unfolding serve
    serve-Caught fresh (create_customer body) s r sound h = commit-Caught s r _ h (λ v s' e.
        Caught-one s s' r _ (create_customer-emits merchant_id schema fresh s s' body v e)
          (create_customer-Synced date_of percent merchant_id schema fresh s s' r sound h body v e))
    serve-Caught fresh (update_customer id body) s r sound h =
        commit-Caught {A = Option CustomerView} s r _ h (elim [
          | none ↦ λ s' e.
              Caught-same s s' r h (update_customer-none merchant_id schema fresh s s' id body e)
          | some v ↦ λ s' e.
              Caught-one s s' r _ (update_customer-emits merchant_id schema fresh s s' id body v e)
                (update_customer-Synced date_of percent merchant_id schema fresh s s' r sound h id
                  body v e)
        ])
    serve-Caught fresh (delete_customer id) s r sound h = commit-Caught {A = Bool} s r _ h (elim [
      | false ↦
          λ s' e. Caught-same s s' r h (delete_customer-none merchant_id schema fresh s s' id e)
      | true ↦ λ s' e.
          Caught-one s s' r _ (delete_customer-emits merchant_id schema fresh s s' id e)
            (delete_customer-Synced date_of percent merchant_id schema fresh s s' r sound h id e)
    ])
    serve-Caught fresh (create_payment body) s r sound h = commit-Caught s r _ h (λ v s' e.
        Caught-one s s' r _ (create_payment-emits merchant_id schema fresh s s' body v e)
          (create_payment-Synced date_of percent merchant_id schema fresh s s' r sound h body v e))
    serve-Caught fresh (transition_payment id target reason) s r sound h =
        commit-Caught {A = Option PaymentView} s r _ h (elim [
          | none ↦ λ s' e.
              Caught-same s s' r h
                (transition_payment-none merchant_id schema fresh s s' id target reason e)
          | some v ↦ λ s' e.
              let (t, mapped, added) =
                transition_payment-emits merchant_id schema fresh s s' id target reason v e in
              Caught-one s s' r _ added (
                transition_payment-Synced date_of percent merchant_id schema fresh s s' r sound h id
                  target reason v t e mapped)
        ])
    serve-Caught fresh (update_payment id description metadata) s r sound h =
        commit-Caught {A = Option PaymentView} s r _ h (elim [
          | none ↦ λ s' e.
              Caught-same s s' r h
                (update_payment-none merchant_id schema fresh s s' id description metadata e)
          | some v ↦ λ s' e.
              Caught-one s s' r _
                (update_payment-emits merchant_id schema fresh s s' id description metadata v e)
                (update_payment-Synced date_of percent merchant_id schema fresh s s' r sound h id
                  description metadata v e)
        ])
    serve-Caught fresh (create_refund id amount reason) s r sound h =
        commit-Caught s r _ h (λ v s' e.
          let (row, found, added) =
            create_refund-emits merchant_id schema fresh s s' id amount reason v e in
          Caught-one s s' r _ added (
            create_refund-Synced date_of percent merchant_id schema fresh s s' r sound h id amount
              reason v row.amount (customer_uuid row.customer_ref s.tables) e))
    serve-Caught fresh (process_refund id) s r sound h =
        commit-Caught {A = Option RefundView} s r _ h (elim [
          | none ↦
              λ s' e. Caught-same s s' r h (process_refund-none merchant_id schema fresh s s' id e)
          | some v ↦ λ s' e.
              Caught-one s s' r _ (process_refund-emits merchant_id schema fresh s s' id v e) (
                process_refund-Synced date_of percent merchant_id schema fresh s s' r sound h id v
                  e)
        ])

    -- From sound tables that the read tables show, any sequence of requests adds events to the outbox
    -- that the handlers bring in, in their order and without an exception, and the read tables then show
    -- the tables as they are after the requests. They show the customers, and the payments with their
    -- customers and the refunds with their payments, row by row with their columns, but of a payment
    -- neither `amount_refunded` nor `updated_at`; a settled payment shows as captured, and the metadata as
    -- the JSON string of its text.
    pub serve_all-Caught :
        (requests : List (Fresh × Request)) (s : Scope) (r : ReadTables)
        → IsSound s
        → Mirrors s.tables r
        → Caught s (serve_all merchant_id schema requests s) r
    unfolding serve_all
    serve_all-Caught [] s r sound h = Caught-same s s r h refl
    serve_all-Caught ((fresh, request) ∷ rest) s r sound h =
        let s' = serve merchant_id schema fresh request s in
        let (es, added, (r', done, h')) = serve-Caught fresh request s r sound h in
        let (fs, added', (r'', done', h'')) =
          serve_all-Caught rest s' r' (serve-IsSound merchant_id schema fresh request s sound) h' in
        (
          es ++ fs,
          added' ∙ ap (λ x. x ++ fs) added ∙ append_assoc s.events es fs,
          (r'', sync_all-append es fs r r' done ∙ done', h''),
        )
