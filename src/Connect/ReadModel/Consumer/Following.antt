-- ===== src/Connect/ReadModel/Consumer/Following.antt =====
-- From the services of payment-core-service over the outbox and the consumer of services/connect-service to
-- the read tables.
use multi_tenant_event_drive.Prelude.{
  ℕ, ◌≡◌, sym, ◌∙◌, refl, true, some, List, [], ◌∷◌, ◌++◌, All, subst,
}
use multi_tenant_event_drive.Core.Rows.{Text, DomainEvent}
use multi_tenant_event_drive.Core.Scope.{Scope}
use multi_tenant_event_drive.Core.Payments.{Fresh}
use multi_tenant_event_drive.Core.Requests.{Request, serve_all}
use multi_tenant_event_drive.Core.SchemaName.{valid_schema_name}
use multi_tenant_event_drive.Core.Merchants.{tables_of}
use multi_tenant_event_drive.Core.Invariant.Sound.{IsSound}
use multi_tenant_event_drive.Connect.ReadModel.{ReadTables, ReadDb}
use multi_tenant_event_drive.Connect.ReadModel.Mirror.{Mirrors}
use multi_tenant_event_drive.Connect.ReadModel.Mirror.Serving.{sync_all, serve_all-Caught}
use multi_tenant_event_drive.Connect.ReadModel.Consumer.{consume_all}
use multi_tenant_event_drive.Connect.ReadModel.Consumer.Once.{firsts}
use multi_tenant_event_drive.Connect.ReadModel.Consumer.Delivering.{
  Concerns, Brought, consume_all-Brought,
}

append-cancel : {A : Type 0} (xs ys zs : List A) → xs ++ ys ≡ xs ++ zs → ys ≡ zs
append-cancel [] ys zs h = h
append-cancel (x ∷ xs) ys zs h = append-cancel xs ys zs (cc h)

module _ (date_of : ℕ → ℕ) (percent : ℕ → ℕ → ℕ) (merchant_id : ℕ) (schema : Text) where
  -- A tenant's tables are sound and shown by its tables in the read database. After any requests, where
  -- messages of the tenant bring, with any repetitions, just the events that the requests have added to
  -- the outbox, in their order, the tenant's tables in the read database show its tables again, and no
  -- other schema, no merchant and no dead letter has changed. What is shown are the customers, and the
  -- payments with their customers and the refunds with their payments, row by row with their columns, but
  -- of a payment neither `amount_refunded` nor `updated_at`; a settled payment shows as captured, and the
  -- metadata as the JSON string of its text.
  pub serve_all-consume_all :
      (requests : List (Fresh × Request)) (s : Scope) (db : ReadDb) (r : ReadTables)
      (added messages : List DomainEvent)
      → IsSound s
      → Mirrors s.tables r
      → valid_schema_name schema ≡ true
      → tables_of schema db.schemas ≡ some r
      → (serve_all merchant_id schema requests s).events ≡ s.events ++ added
      → All (Concerns schema) messages
      → firsts db.processed messages ≡ added
      → (r' : ReadTables) × Brought schema r' db (consume_all date_of percent messages db)
        × Mirrors (serve_all merchant_id schema requests s).tables r'
  serve_all-consume_all requests s db r added messages sound shown valid found events concerns
        come =
      let (es, all, (r', done, shows)) =
        serve_all-Caught date_of percent merchant_id schema requests s r sound shown in
      let same : es ≡ firsts db.processed messages =
        append-cancel s.events es (firsts db.processed messages)
          (sym all ∙ events ∙ rw come refl) in
      (
        r',
        consume_all-Brought date_of percent schema messages db r r' valid concerns found
            (subst (λ x. sync_all date_of percent x r ≡ some r') same done),
        shows,
      )
