-- ===== src/Connect/ReadModel/Consumer/Delivering.antt =====
-- The consumer of services/connect-service and the handlers: what the messages of one tenant do to the
-- schemas of the read database.
use multi_tenant_event_drive.Prelude.{
  text_eq, ℕ, ◌≡◌, refl, ◌∙◌, Bool, true, false, Option, some, List, [], ◌∷◌, ◌++◌, arith, All,
  Bool-cases, Option-cases, inl, inr,
}
use multi_tenant_event_drive.Prelude.Table.{has}
use multi_tenant_event_drive.Core.Rows.{
  Text, DomainEvent, EventType, merchant_created, merchant_updated, payment_settled,
}
use multi_tenant_event_drive.Core.SchemaName.{valid_schema_name}
use multi_tenant_event_drive.Core.Merchants.{tables_of, set_tables}
use multi_tenant_event_drive.Core.Merchants.Isolation.{tables_of-set_tables_ne}
use multi_tenant_event_drive.Connect.ReadModel.{ReadTables, ReadDb}
use multi_tenant_event_drive.Connect.ReadModel.Handlers.{handle}
use multi_tenant_event_drive.Connect.ReadModel.Mirror.Serving.{sync_all}
use multi_tenant_event_drive.Connect.ReadModel.Consumer.{
  try_claim_event, on_tables, put_tables, dispatch, sync_event, prepare, process, commits, consume,
  consume_all,
}
use multi_tenant_event_drive.Connect.ReadModel.Consumer.Once.{
  same_id, firsts, consume_claimed, consume-processed,
}

-- The events that a service on a tenant adds to the outbox: all but those of the merchants.
abbrev pub is_tenant_event : EventType → Bool
is_tenant_event merchant_created = false
is_tenant_event merchant_updated = false
is_tenant_event _ = true

abbrev pub Concerns : Text → DomainEvent → Type 0
Concerns schema e = (e.schema_name ≡ schema) × (is_tenant_event e.event_type ≡ true)

pub tables_of-set_tables_self :
    {A : Type 0} (schema : Text) (old new : A) (schemas : List (Text × A))
    → tables_of schema schemas ≡ some old
    → tables_of schema (set_tables schema new schemas) ≡ some new
tables_of-set_tables_self schema old new [] h = cc
tables_of-set_tables_self schema old new ((name, t) ∷ rest) h =
    ground (arith, tables_of-set_tables_self schema old new rest)

-- The tables of `schema` are `new`, and nothing else but the claims has changed.
pub record Brought (schema : Text) (new : ReadTables) (db db' : ReadDb) : Type 0 where
  pub here : tables_of schema db'.schemas ≡ some new
  pub elsewhere :
      (other : Text)
      → text_eq schema other ≡ false
      → tables_of other db'.schemas ≡ tables_of other db.schemas
  pub unburied : db'.dead_letters ≡ db.dead_letters
  pub merchants_same : db'.merchants ≡ db.merchants

module _ (date_of : ℕ → ℕ) (percent : ℕ → ℕ → ℕ) where
  prepare_tenant :
      (event_type : EventType) (e : DomainEvent) (db : ReadDb)
      → is_tenant_event event_type ≡ true
      → prepare event_type e db ≡ some db
  unfolding prepare
  prepare_tenant event_type e db h = ground arith

  on_tables-Brought :
      (schema : Text) (body : ReadTables → Option ReadTables) (db : ReadDb) (r r' : ReadTables)
      → tables_of schema db.schemas ≡ some r
      → body r ≡ some r'
      → (db' : ReadDb) × (on_tables schema body db ≡ some db') × Brought schema r' db db'
  on_tables-Brought schema body db r r' found done = (
    record db { schemas = set_tables schema r' db.schemas },
    rw (found, on_tables, done, put_tables) refl,
    record {
      here = tables_of-set_tables_self schema r r' db.schemas found;
      elsewhere = λ other ne. tables_of-set_tables_ne schema other r' db.schemas ne;
      unburied = refl;
      merchants_same = refl;
    },
  )

  dispatch-Brought :
      (schema : Text) (event_type : EventType) (e : DomainEvent) (db : ReadDb) (r r' : ReadTables)
      → is_tenant_event event_type ≡ true
      → e.schema_name ≡ schema
      → tables_of schema db.schemas ≡ some r
      → handle date_of percent event_type e.payload r ≡ some r'
      → (db' : ReadDb) × (dispatch date_of percent event_type e db ≡ some db')
        × Brought schema r' db db'
  unfolding dispatch handle
  dispatch-Brought schema payment_settled e db r r' t named found done = (
    db,
    refl,
    record {
      here = found ∙ done;
      elsewhere = λ other ne. refl;
      unburied = refl;
      merchants_same = refl;
    },
  )
  dispatch-Brought schema merchant_created e db r r' t named found done = cc
  dispatch-Brought schema merchant_updated e db r r' t named found done = cc
  dispatch-Brought schema event_type e db r r' t named found done =
      let body = handle date_of percent event_type e.payload in
      rw named (on_tables-Brought schema body db r r' found done)

  process-Brought :
      (schema : Text) (e : DomainEvent) (db : ReadDb) (r r' : ReadTables)
      → valid_schema_name schema ≡ true
      → Concerns schema e
      → tables_of schema db.schemas ≡ some r
      → handle date_of percent e.event_type e.payload r ≡ some r'
      → Brought schema r' db (process date_of percent e db)
  unfolding process sync_event
  process-Brought schema e db r r' valid (named, tenant) found done =
      let (db', dispatched, brought) =
        dispatch-Brought schema e.event_type e db r r' tenant named found done in
      let valid' : valid_schema_name e.schema_name ≡ true = rw named valid in
      let synced : sync_event date_of percent e db ≡ some db' =
        rw (sync_event, valid') dispatched in
      rw (prepare_tenant e.event_type e db tenant, process, synced) brought

  consume-Brought :
      (schema : Text) (e : DomainEvent) (db : ReadDb) (r r' : ReadTables)
      → valid_schema_name schema ≡ true
      → Concerns schema e
      → has same_id e.event_id db.processed ≡ false
      → tables_of schema db.schemas ≡ some r
      → handle date_of percent e.event_type e.payload r ≡ some r'
      → Brought schema r' db (consume date_of percent e db)
  unfolding consume commits try_claim_event
  consume-Brought schema e db r r' valid concerns new found done =
      let claimed : ReadDb = record db { processed = db.processed ++ e.event_id ∷ [] } in
      let b = process-Brought schema e claimed r r' valid concerns found done in
      rw (new, consume, commits, try_claim_event)
        (record {
          here = b.here;
          elsewhere = b.elsewhere;
          unburied = b.unburied;
          merchants_same = b.merchants_same;
        })

  Brought-trans :
      (schema : Text) (r r' : ReadTables) (a b c : ReadDb)
      → Brought schema r a b
      → Brought schema r' b c
      → Brought schema r' a c
  Brought-trans schema r r' a b c f g = record {
    here = g.here;
    elsewhere = λ other ne. g.elsewhere other ne ∙ f.elsewhere other ne;
    unburied = g.unburied ∙ f.unburied;
    merchants_same = g.merchants_same ∙ f.merchants_same;
  }

  -- Messages of one tenant, with any repetitions: where the handlers bring in the events that are new,
  -- one after the other, the tenant's tables end as the handlers leave them, and no other schema, no
  -- merchant and no dead letter changes.
  pub consume_all-Brought :
      (schema : Text) (es : List DomainEvent) (db : ReadDb) (r r' : ReadTables)
      → valid_schema_name schema ≡ true
      → All (Concerns schema) es
      → tables_of schema db.schemas ≡ some r
      → sync_all date_of percent (firsts db.processed es) r ≡ some r'
      → Brought schema r' db (consume_all date_of percent es db)
  unfolding consume_all sync_all
  consume_all-Brought schema [] db r r' valid concerns found done = record {
    here = found ∙ done;
    elsewhere = λ other ne. refl;
    unburied = refl;
    merchants_same = refl;
  }
  consume_all-Brought schema (e ∷ es) db r r' valid concerns found done =
      elim (Bool-cases (has same_id e.event_id db.processed)) [
        | inl known ↦ rw (consume_claimed date_of percent e db known) (
            consume_all-Brought schema es db r r' valid concerns.1 found
              (rw (known, firsts) at done))
        | inr new ↦ elim (Option-cases (handle date_of percent e.event_type e.payload r)) [
          | inl raised ↦ absurd (cc (rw (new, firsts, raised, sync_all) at done))
          | inr (r1, handled) ↦
              let db' = consume date_of percent e db in
              let b = consume-Brought schema e db r r1 valid concerns.0 new found handled in
              let rest : sync_all date_of percent (firsts db'.processed es) r1 ≡ some r' =
                rw (consume-processed date_of percent e db new)
                  (rw (new, firsts, handled, sync_all) at done) in
              Brought-trans schema r1 r' db db' (consume_all date_of percent es db') b
                (consume_all-Brought schema es db' r1 r' valid concerns.1 b.here rest)
        ]
      ]
