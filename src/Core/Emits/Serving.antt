-- ===== src/Core/Emits/Serving.antt =====
-- One request changes the tables of a tenant only together with one event in the outbox.
use multi_tenant_event_drive.Prelude.{
  ℕ, ◌≡◌, refl, Bool, Option, ◌⊎◌, inl, inr, true, false, none, some, or_else,
}
use multi_tenant_event_drive.Core.Rows.{
  Text, CustomerView, PaymentView, RefundView, EventType, Entity, Payload, of_customer, of_deleted,
  of_payment, of_refund, of_new_refund,
}
use multi_tenant_event_drive.Core.Scope.{Scope, Result, ok, err}
use multi_tenant_event_drive.Core.Payments.{Fresh, customer_uuid, event_type_map}
use multi_tenant_event_drive.Core.Payments.Results.{transition_payment-none, update_payment-none}
use multi_tenant_event_drive.Core.Refunds.Results.{process_refund-none}
use multi_tenant_event_drive.Core.Customers.Results.{update_customer-none, delete_customer-none}
use multi_tenant_event_drive.Core.Requests.{
  Request, create_customer, update_customer, delete_customer, create_payment, transition_payment,
  update_payment, create_refund, process_refund, commit, serve,
}
use multi_tenant_event_drive.Core.Emits.{
  Announces, create_payment-emits, transition_payment-emits, update_payment-emits,
  create_refund-emits, process_refund-emits, create_customer-emits, update_customer-emits,
  delete_customer-emits,
}

-- The type of the event that a request of each kind announces.
abbrev pub announced : Request → EventType
announced (create_customer body) = EventType.customer_created
announced (update_customer id body) = EventType.customer_updated
announced (delete_customer id) = EventType.customer_deleted
announced (create_payment body) = EventType.payment_created
announced (transition_payment id target reason) =
    or_else (event_type_map target) EventType.payment_updated
announced (update_payment id description metadata) = EventType.payment_updated
announced (create_refund id amount reason) = EventType.refund_initiated
announced (process_refund id) = EventType.refund_processed

-- The entity that the event names: a new row by its new UUID.
abbrev pub about : Fresh → Request → Entity
about fresh (create_customer body) = Entity.customer fresh.uuid
about fresh (update_customer id body) = Entity.customer id
about fresh (delete_customer id) = Entity.customer id
about fresh (create_payment body) = Entity.payment fresh.uuid
about fresh (transition_payment id target reason) = Entity.payment id
about fresh (update_payment id description metadata) = Entity.payment id
about fresh (create_refund id amount reason) = Entity.refund fresh.uuid
about fresh (process_refund id) = Entity.refund id

module _ (merchant_id : ℕ) (schema : Text) (fresh : Fresh) (s : Scope) where
  -- Nothing has changed, or one event of this type has been announced.
  abbrev pub Outcome : EventType → Entity → Scope → Type 0
  Outcome t e s' =
      (s' ≡ s) ⊎ ((payload : Payload) × Announces merchant_id schema fresh s s' t e payload)

  commit_outcome :
      {A : Type 0} (t : EventType) (e : Entity) (r : Result (A × Scope))
      → ((a : A) (s' : Scope) → r ≡ ok (a, s') → Outcome t e s')
      → Outcome t e (commit r s)
  commit_outcome t e (ok (a, s')) step = step a s' refl
  commit_outcome t e (err x) step = inl refl

  -- A request either leaves the tables and the outbox as they were, or adds exactly one pending event
  -- of its type, for its merchant, schema and entity.
  pub serve-emits :
      (r : Request) → Outcome (announced r) (about fresh r) (serve merchant_id schema fresh r s)
  unfolding serve
  serve-emits (create_customer body) =
      commit_outcome _ _ _ (λ v s' e.
        inr (of_customer v, create_customer-emits merchant_id schema fresh s s' body v e))
  serve-emits (update_customer id body) = commit_outcome {A = Option CustomerView} _ _ _ (elim [
    | none ↦ λ s' e. inl (update_customer-none merchant_id schema fresh s s' id body e)
    | some v ↦
        λ s' e. inr (of_customer v, update_customer-emits merchant_id schema fresh s s' id body v e)
  ])
  serve-emits (delete_customer id) = commit_outcome {A = Bool} _ _ _ (elim [
    | false ↦ λ s' e. inl (delete_customer-none merchant_id schema fresh s s' id e)
    | true ↦ λ s' e. inr (of_deleted id, delete_customer-emits merchant_id schema fresh s s' id e)
  ])
  serve-emits (create_payment body) =
      commit_outcome _ _ _
        (λ v s' e. inr (of_payment v, create_payment-emits merchant_id schema fresh s s' body v e))
  serve-emits (transition_payment id target reason) =
      commit_outcome {A = Option PaymentView} _ _ _ (elim [
        | none ↦
            λ s' e. inl (transition_payment-none merchant_id schema fresh s s' id target reason e)
        | some v ↦ λ s' e.
            let (t, known, added) =
              transition_payment-emits merchant_id schema fresh s s' id target reason v e in
            inr (of_payment v, rw known added)
      ])
  serve-emits (update_payment id description metadata) =
      commit_outcome {A = Option PaymentView} _ _ _ (elim [
        | none ↦ λ s' e.
            inl (update_payment-none merchant_id schema fresh s s' id description metadata e)
        | some v ↦ λ s' e. inr (
          of_payment v,
          update_payment-emits merchant_id schema fresh s s' id description metadata v e,
        )
      ])
  serve-emits (create_refund id amount reason) = commit_outcome _ _ _ (λ v s' e.
      let (row, found, added) =
        create_refund-emits merchant_id schema fresh s s' id amount reason v e in
      inr (of_new_refund v row.amount (customer_uuid row.customer_ref s.tables), added))
  serve-emits (process_refund id) = commit_outcome {A = Option RefundView} _ _ _ (elim [
    | none ↦ λ s' e. inl (process_refund-none merchant_id schema fresh s s' id e)
    | some v ↦ λ s' e. inr (of_refund v, process_refund-emits merchant_id schema fresh s s' id v e)
  ])
