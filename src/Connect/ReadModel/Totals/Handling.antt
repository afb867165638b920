-- ===== src/Connect/ReadModel/Totals/Handling.antt =====
-- Every handler keeps the aggregates.
use multi_tenant_event_drive.Prelude.{
  ℕ, ◌≡◌, refl, sym, subst, ◌∙◌, inl, inr, false, Option, none, some, arith, Option-cases,
}
use multi_tenant_event_drive.Prelude.Table.{has, update}
use multi_tenant_event_drive.Prelude.Mapped.{update_id}
use multi_tenant_event_drive.Core.Rows.{
  RefundView, authorized, captured, EventType, merchant_created, merchant_updated, customer_created,
  customer_updated, customer_deleted, payment_created, payment_authorized, payment_captured,
  payment_failed, payment_settled, payment_updated, refund_initiated, refund_processed, Payload,
}
use multi_tenant_event_drive.Connect.ReadModel.{ReadPayment, DailyRevenue, ReadTables, method_key}
use multi_tenant_event_drive.Connect.ReadModel.Handlers
use multi_tenant_event_drive.Connect.ReadModel.Handlers.{
  customer_of, deleted_of, payment_of, new_refund_of, refund_of, keyed, handle, succeed_on_day,
  succeed_by_method, fail_on_day, fail_by_method,
}
use multi_tenant_event_drive.Connect.ReadModel.Changes.{
  stats_key, describe, set_read_status, fail_payment, rename_payment, refund_day,
}
use multi_tenant_event_drive.Connect.ReadModel.Totals.{
  IsTotalled, kept-IsTotalled, payments_alone, payments_kept, created-IsTotalled,
}

-- A payment that is announced as created is not in the table yet.
abbrev pub IsNews : EventType → Payload → ReadTables → Type 0
IsNews payment_created p r = elim (payment_of p) [
  | none ↦ Unit
  | some v ↦ has ReadPayment.payment_id v.payment_id r.payments ≡ false
]
IsNews _ p r = Unit

keyed-some :
    {V : Type 0} (o : Option V) (body : V → Option ReadTables) (r' : ReadTables)
    → keyed o body ≡ some r'
    → (v : V) × (o ≡ some v) × (body v ≡ some r')
keyed-some none body r' e = cc e
keyed-some (some v) body r' e = (v, refl, e)

module _ (date_of : ℕ → ℕ) (percent : ℕ → ℕ → ℕ) where
  created_news :
      (p : Payload) (r r' : ReadTables)
      → IsTotalled date_of percent r
      → IsNews payment_created p r
      → handle date_of percent payment_created p r ≡ some r'
      → IsTotalled date_of percent r'
  unfolding handle Handlers.sync_payment_created
  created_news p r r' h news e =
      let (v, there, done) = keyed-some (payment_of p) _ r' e in
      elim (Option-cases v.customer_id) [
        | inl unknown ↦ absurd (ground (arith, unknown, done))
        | inr (c, known) ↦
            let (q, same, total) =
              created-IsTotalled date_of percent v c r known (rw (there, IsNews) at news) h in
            ground (arith, same, total, done)
      ]

  -- A handler of one kind of payload that always succeeds.
  always :
      {V : Type 0} (o : Option V) (sync : V → ReadTables) (r' : ReadTables)
      → ((v : V) → IsTotalled date_of percent (sync v))
      → keyed o (λ v. some (sync v)) ≡ some r'
      → IsTotalled date_of percent r'
  always o sync r' total e =
      let (v, there, done) = keyed-some o (λ v. some (sync v)) r' e in
      let same : sync v ≡ r' = cc done in subst (IsTotalled date_of percent) same (total v)

  refund-tables :
      (v : RefundView) (c : Option ℕ) (r r' : ReadTables)
      → Handlers.sync_refund_initiated date_of percent v c r ≡ some r'
      → (r'.payments ≡ r.payments)
        × (r'.daily_revenue
            ≡ update DailyRevenue.date (date_of v.created_at) (refund_day v) r.daily_revenue)
        × (r'.method_stats ≡ r.method_stats)
  unfolding Handlers.sync_refund_initiated
  refund-tables v c r r' done = ground arith

  -- Whatever event a handler takes in, the revenue and the number of payments of every day and of
  -- every method stay what the payments of the read tables add up to; of a new payment, that it is new.
  pub handle-IsTotalled :
      (event_type : EventType) (p : Payload) (r r' : ReadTables)
      → IsTotalled date_of percent r
      → IsNews event_type p r
      → handle date_of percent event_type p r ≡ some r'
      → IsTotalled date_of percent r'
  unfolding handle Handlers.sync_customer_created Handlers.sync_customer_updated
      Handlers.sync_customer_deleted Handlers.sync_payment_updated Handlers.sync_payment_authorized
      Handlers.sync_payment_captured Handlers.sync_payment_failed Handlers.sync_refund_initiated
      Handlers.sync_refund_processed
  handle-IsTotalled payment_created p r r' h news e = created_news p r r' h news e
  handle-IsTotalled customer_created p r r' h news e =
      always (customer_of p) (λ v. Handlers.sync_customer_created v r) r'
        (λ v. payments_alone date_of percent r _ refl refl refl h) e
  handle-IsTotalled customer_updated p r r' h news e =
      always (customer_of p) (λ v. Handlers.sync_customer_updated v r) r'
        (λ v.
          payments_kept date_of percent r ReadPayment.customer_id v.customer_id (rename_payment v) _
            (λ x. (refl, refl, refl)) refl refl refl h)
        e
  handle-IsTotalled customer_deleted p r r' h news e =
      always (deleted_of p) (λ id. Handlers.sync_customer_deleted id r) r'
        (λ id. payments_alone date_of percent r _ refl refl refl h) e
  handle-IsTotalled payment_updated p r r' h news e =
      always (payment_of p) (λ v. Handlers.sync_payment_updated date_of percent v r) r'
        (λ v.
          payments_kept date_of percent r ReadPayment.payment_id v.payment_id (describe v) _
            (λ x. (refl, refl, refl)) refl refl refl h)
        e
  handle-IsTotalled payment_authorized p r r' h news e =
      always (payment_of p) (λ v. Handlers.sync_payment_authorized date_of percent v r) r'
        (λ v.
          payments_kept date_of percent r ReadPayment.payment_id v.payment_id
            (set_read_status authorized v) _ (λ x. (refl, refl, refl)) refl refl refl h)
        e
  handle-IsTotalled payment_captured p r r' h news e =
      always (payment_of p) (λ v. Handlers.sync_payment_captured date_of percent v r) r'
        (λ v.
          kept-IsTotalled date_of percent r _ ReadPayment.payment_id v.payment_id
            (set_read_status captured v) (date_of v.created_at) (succeed_on_day date_of percent v)
            (method_key v.method) (succeed_by_method date_of percent v) (λ x. (refl, refl, refl))
            (λ x. (refl, refl, refl)) (λ x. (refl, refl, refl)) refl refl refl h)
        e
  handle-IsTotalled payment_failed p r r' h news e =
      always (payment_of p) (λ v. Handlers.sync_payment_failed date_of percent v r) r'
        (λ v.
          kept-IsTotalled date_of percent r _ ReadPayment.payment_id v.payment_id (fail_payment v)
            (date_of v.created_at) (fail_on_day date_of percent v) (method_key v.method)
            (fail_by_method date_of percent v) (λ x. (refl, refl, refl)) (λ x. (refl, refl, refl))
            (λ x. (refl, refl, refl)) refl refl refl h)
        e
  handle-IsTotalled payment_settled p r r' h news e =
      let same : r ≡ r' = cc e in subst (IsTotalled date_of percent) same h
  handle-IsTotalled refund_initiated p r r' h news e =
      let ((v, c), there, done) = keyed-some (new_refund_of p) _ r' e in
      let (ps, ds, ms) = refund-tables v c r r' done in
      kept-IsTotalled date_of percent r r' ReadPayment.payment_id 0 (λ x. x) (date_of v.created_at)
        (refund_day v) 0 (λ x. x) (λ x. (refl, refl, refl)) (λ x. (refl, refl, refl))
        (λ x. (refl, refl, refl)) (ps ∙ sym (update_id ReadPayment.payment_id 0 r.payments)) ds
        (ms ∙ sym (update_id stats_key 0 r.method_stats)) h
  handle-IsTotalled refund_processed p r r' h news e =
      always (refund_of p) (λ v. Handlers.sync_refund_processed date_of percent v r) r'
        (λ v. payments_alone date_of percent r _ refl refl refl h) e
  handle-IsTotalled merchant_created p r r' h news e =
      let same : r ≡ r' = cc e in subst (IsTotalled date_of percent) same h
  handle-IsTotalled merchant_updated p r r' h news e =
      let same : r ≡ r' = cc e in subst (IsTotalled date_of percent) same h
